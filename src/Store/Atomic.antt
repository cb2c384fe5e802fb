-- ===== src/Store/Atomic.antt =====
-- `SaveSession` and `PruneAndLoad` are all or nothing, and they succeed where the driver does.
use shell_sentry.Base.{
  ℕ, true, false, List, [], ◌∷◌, ◌++◌, All, drop, Option, none, some, ltb, ◌≡◌, refl, ap, ◌∙◌,
  Bool-cases, inl, inr, ◌⊎◌,
}
use shell_sentry.Base.Int.{ℤ, pos, pos_part, ltb_ℤ}
use shell_sentry.Text.{Text}
use shell_sentry.Result.{Result, ok, err, Act, and_then}
use shell_sentry.Ports.{CommandRecord, Session}
use shell_sentry.Store.Tables.{SessionRow, Tables}
use shell_sentry.Store.Driver.{Statement, Driver, Db, perform, execute, roll_back}
use shell_sentry.Store.Methods.{
  only, open_store, transact, insert_commands, save_session, delete_oldest, prune_oldest, load_each,
  load_rows, prune_and_load,
}
use shell_sentry.Store.Kept.{open_store_kept, open_then_transact_err}
use shell_sentry.Store.Laws.{history, excess}
use shell_sentry.Store.Saved.{save_session_lem}
use shell_sentry.Store.Retention.{IsSound, prune_and_load_lem}

module _ {W F : Type 0} (v : Driver W) where
  -- If `SaveSession` or `PruneAndLoad` returns an error, the tables of the database are what they
  -- were before the call, whichever statement failed.
  pub store_err :
      (s : Session F) (keep : ℤ) (db db' : Db W F) (e : Text)
      → (save_session v s db ≡ (err e, db')) ⊎ (prune_and_load v keep db ≡ (err e, db'))
      → db'.tables ≡ db.tables
  unfolding save_session prune_and_load
  store_err s keep db db' e (inl h) =
      open_then_transact_err v _ (open_store v db) db.tables (open_store_kept v db) h
  store_err s keep db db' e (inr h) =
      open_then_transact_err v _ (open_store v db) db.tables (open_store_kept v db) h

-- the driver that never fails
abbrev pub IsReliable : {W : Type 0} → Driver W → Type 0
IsReliable {W} v = (q : Statement) (w : W) → (v.attempt q w).0 ≡ none

module _ {W F : Type 0} (v : Driver W) (reliable : IsReliable v) where
  abbrev Succeeds : {A : Type 0} → Result A × Db W F → Type 0
  Succeeds {A} r = (a : A) × (r.0 ≡ ok a)

  and_then-Succeeds :
      {A B : Type 0} (f : A → Act (Db W F) B) (r : Result A × Db W F)
      → Succeeds r
      → ((a : A) (db : Db W F) → Succeeds (f a db))
      → Succeeds (and_then f r)
  and_then-Succeeds f (ok a, db) h k = k a db
  and_then-Succeeds f (err e, db) h k = let q = h.1 in cc

  perform-Succeeds :
      {A : Type 0} (q : Statement) (x : Option Text × W) (r : A × Tables F) (t : Tables F)
      → x.0 ≡ none
      → Succeeds (perform q x r t)
  perform-Succeeds q (some e, w) r t h = cc
  perform-Succeeds q (none, w) (a, t') t h = (a, refl)

  execute-Succeeds :
      {A : Type 0} (q : Statement) (effect : Tables F → A × Tables F) (db : Db W F)
      → Succeeds (execute v q effect db)
  unfolding execute
  execute-Succeeds q effect db =
      perform-Succeeds q (v.attempt q db.world) (effect db.tables) db.tables (reliable q db.world)

  only-Succeeds : (q : Statement) (db : Db W F) → Succeeds (only v q db)
  only-Succeeds q db = execute-Succeeds q _ db

  open_store-Succeeds : (db : Db W F) → Succeeds (open_store v db)
  unfolding open_store
  open_store-Succeeds db =
      and_then-Succeeds _ (only v Statement.make_dir db) (only-Succeeds Statement.make_dir db)
        (λ u db₁.
          and_then-Succeeds _ (only v Statement.open_db db₁) (only-Succeeds Statement.open_db db₁)
            (λ u₂. only-Succeeds Statement.create_tables))

  roll_back-Succeeds :
      {A : Type 0} (before : Tables F) (r : Result A × Db W F)
      → Succeeds r
      → Succeeds (roll_back before r)
  roll_back-Succeeds before (ok a, db) h = h
  roll_back-Succeeds before (err e, db) h = let q = h.1 in cc

  transact-Succeeds :
      {A : Type 0} (body : Act (Db W F) A) (db : Db W F)
      → ((db : Db W F) → Succeeds (body db))
      → Succeeds (transact v body db)
  unfolding transact
  transact-Succeeds body db h = roll_back-Succeeds db.tables _ (
      and_then-Succeeds _ (only v Statement.begin db) (only-Succeeds Statement.begin db) (λ u db₁.
        and_then-Succeeds _ (body db₁) (h db₁) (λ a db₂.
          and_then-Succeeds _ (only v Statement.commit db₂) (only-Succeeds Statement.commit db₂)
            (λ u₂ db₃. (a, refl)))))

  insert_commands-Succeeds :
      (sid : ℕ) (cs : List (CommandRecord F)) (db : Db W F) → Succeeds (insert_commands v sid cs db)
  unfolding insert_commands
  insert_commands-Succeeds sid [] db = (tt, refl)
  insert_commands-Succeeds sid (c ∷ cs) db =
      and_then-Succeeds _ (execute v Statement.insert_command _ db)
        (execute-Succeeds Statement.insert_command _ db) (λ u. insert_commands-Succeeds sid cs)

  save_session-Succeeds : (s : Session F) (db : Db W F) → Succeeds (save_session v s db)
  unfolding save_session
  save_session-Succeeds s db =
      and_then-Succeeds _ (open_store v db) (open_store-Succeeds db) (λ u db₁.
        transact-Succeeds _ db₁ (λ db₂.
          and_then-Succeeds _ (execute v Statement.insert_session _ db₂)
            (execute-Succeeds Statement.insert_session _ db₂)
            (λ sid db₃.
              and_then-Succeeds _ (only v Statement.last_insert_id db₃)
                (only-Succeeds Statement.last_insert_id db₃)
                (λ u₃. insert_commands-Succeeds sid s.commands))))

  delete_oldest-Succeeds : (keep total : ℕ) (db : Db W F) → Succeeds (delete_oldest v keep total db)
  unfolding delete_oldest
  delete_oldest-Succeeds keep total db = elim (Bool-cases (ltb keep total)) [
    | inl e ↦ rw e (
        and_then-Succeeds _ (execute v Statement.delete_commands _ db)
          (execute-Succeeds Statement.delete_commands _ db)
          (λ u db₁.
            and_then-Succeeds _ (execute v Statement.delete_sessions _ db₁)
              (execute-Succeeds Statement.delete_sessions _ db₁) (λ u₂ db₂. (_, refl))))
    | inr e ↦ rw e (0, refl)
  ]

  prune_oldest-Succeeds : (keep : ℤ) (db : Db W F) → Succeeds (prune_oldest v keep db)
  unfolding prune_oldest
  prune_oldest-Succeeds keep db = elim (Bool-cases (ltb_ℤ (pos 0) keep)) [
    | inl e ↦ rw e (
        and_then-Succeeds _ (execute v Statement.count_sessions _ db)
          (execute-Succeeds Statement.count_sessions _ db) (delete_oldest-Succeeds (pos_part keep)))
    | inr e ↦ rw e (0, refl)
  ]

  load_each-Succeeds : (rows : List SessionRow) (db : Db W F) → Succeeds (load_each v rows db)
  unfolding load_each
  load_each-Succeeds [] db = ([], refl)
  load_each-Succeeds (r ∷ rows) db =
      and_then-Succeeds _ (execute v Statement.query_commands _ db)
        (execute-Succeeds Statement.query_commands _ db)
        (λ cs db₁.
          and_then-Succeeds _ (only v Statement.scan_command db₁)
            (only-Succeeds Statement.scan_command db₁)
            (λ u db₂.
              and_then-Succeeds _ (only v Statement.iterate_commands db₂)
                (only-Succeeds Statement.iterate_commands db₂)
                (λ u₂ db₃.
                  and_then-Succeeds _ (load_each v rows db₃) (load_each-Succeeds rows db₃)
                    (λ rest db₄. (_, refl)))))

  prune_and_load-Succeeds : (keep : ℤ) (db : Db W F) → Succeeds (prune_and_load v keep db)
  unfolding prune_and_load load_rows
  prune_and_load-Succeeds keep db =
      and_then-Succeeds _ (open_store v db) (open_store-Succeeds db) (λ u db₁.
        transact-Succeeds _ db₁ (λ db₂.
          and_then-Succeeds _ (prune_oldest v keep db₂) (prune_oldest-Succeeds keep db₂) (λ n db₃.
            and_then-Succeeds _ (load_rows v db₃)
              (and_then-Succeeds _ (execute v Statement.query_sessions _ db₃)
                (execute-Succeeds Statement.query_sessions _ db₃)
                (λ rows db₅.
                  and_then-Succeeds _ (only v Statement.scan_session db₅)
                    (only-Succeeds Statement.scan_session db₅)
                    (λ u₂ db₆.
                      and_then-Succeeds _ (only v Statement.iterate_sessions db₆)
                        (only-Succeeds Statement.iterate_sessions db₆)
                        (λ u₃. load_each-Succeeds rows))))
              (λ xs db₄. ((xs, n), refl)))))

  -- With a driver that never fails, a session that did not begin before any of the saved ones can be
  -- saved and the history loaded again: `SaveSession` and then `PruneAndLoad` return no error, and
  -- what they load is the history of before with the session at its end, without the oldest sessions
  -- beyond those to keep; the database is sound behind it.
  pub save_then_load :
      (s : Session F) (keep : ℤ) (db : Db W F)
      → IsSound db.tables
      → All (λ (r : SessionRow). ltb_ℤ s.start_ts r.start_ts ≡ false) db.tables.sessions
      → (saved : Db W F) × (loaded : Db W F) × (xs : List (Session F)) × (save_session v s db
          ≡ (ok tt, saved))
        × (prune_and_load v keep saved ≡ (ok (xs, excess keep saved.tables), loaded))
        × (xs
            ≡ drop (excess keep saved.tables) (history db.tables ++ record s { valid = true } ∷ []))
        × IsSound loaded.tables
  save_then_load s keep db sound late =
      let (u, saves) = save_session-Succeeds s db in
      let saved = (save_session v s db).1 in
      let run : save_session v s db ≡ (ok tt, saved) = ap (λ r. (r, saved)) saves in
      let (longer, sound') = save_session_lem v s db saved sound late run in
      let ((xs, n), loads) = prune_and_load-Succeeds keep saved in
      let loaded = (prune_and_load v keep saved).1 in
      let run' : prune_and_load v keep saved ≡ (ok (xs, n), loaded) = ap (λ r. (r, loaded)) loads in
      let (size, pruned, _, still) = prune_and_load_lem v keep saved loaded xs n sound' run' in
      (
        saved,
        loaded,
        xs,
        run,
        run' ∙ ap (λ m. (ok (xs, m), loaded)) size,
        pruned
            ∙ ap (λ m. drop m (history saved.tables)) size
            ∙ ap (drop (excess keep saved.tables)) longer,
        still,
      )
