-- ===== src/Store/Refinement.antt =====
-- The store as its users see it: a history of sessions, and what each method does to it and answers.
use shell_sentry.Base.{
  ℕ, suc, ◌-◌, true, false, List, [], ◌∷◌, ◌++◌, if◌then◌else◌, length, map, drop, All, ◌≡◌, ◌⊎◌,
  inl, inr, refl, sym, ap, ◌∙◌, subst, arith,
}
use shell_sentry.Base.Int.{ℤ, pos, pos_part, ltb_ℤ}
use shell_sentry.Base.Order.{insert_by, order_by}
use shell_sentry.Text.{Text}
use shell_sentry.Result.{Result, ok, err, Act, and_then-eq-ok}
use shell_sentry.Ports.{Session}
use shell_sentry.Store.Tables.{SessionRow, Tables, by_start}
use shell_sentry.Store.Driver.{Statement, Driver, Db, execute}
use shell_sentry.Store.Methods.{
  open_store, save_session, prune, load_rows, load_sessions, prune_and_load, count_sessions,
}
use shell_sentry.Store.Kept.{
  query_kept, load_rows_kept, open_then_kept, open_store_kept, open_then_transact_err,
}
use shell_sentry.Store.Laws.{
  session_of, history, without_oldest, excess, execute-eq-ok, open_store-eq-ok, transact-eq-ok,
}
use shell_sentry.Store.Pruning.{prune_oldest-eq-ok, load_rows-eq-ok}
use shell_sentry.Store.Retention.{
  IsSound, history-without_oldest, without_oldest-IsSound, prune_and_load_lem,
}
use shell_sentry.Store.Saved.{save_session_lem}
use shell_sentry.Store.Atomic.{store_err}

-- a call of a method
pub data Op (F : Type 0) : Type 0 where
  saving : Session F → Op F
  pruning : ℤ → Op F
  loading : Op F
  pruning_and_loading : ℤ → Op F
  counting : Op F

pub data Answer (F : Type 0) : Type 0 where
  nothing : Answer F
  number : ℕ → Answer F
  sessions : List (Session F) → Answer F
  left : List (Session F) → ℕ → Answer F

length-insert_by :
    (r : SessionRow) (rows : List SessionRow)
    → length (insert_by by_start r rows) ≡ suc (length rows)
unfolding by_start
length-insert_by r [] = refl
length-insert_by r (x ∷ rows) = ground (arith, length-insert_by r rows)

module _ {F : Type 0} where
  -- how many sessions there are beyond those to keep
  abbrev pub over : ℤ → List (Session F) → ℕ
  over keep xs = if ltb_ℤ (pos 0) keep then length xs - pos_part keep else 0

  -- the answer, and the history behind the call
  abbrev pub promised : Op F → List (Session F) → Answer F × List (Session F)
  promised (Op.saving s) xs = (Answer.nothing, xs ++ record s { valid = true } ∷ [])
  promised (Op.pruning keep) xs = (Answer.number (over keep xs), drop (over keep xs) xs)
  promised Op.loading xs = (Answer.sessions xs, xs)
  promised (Op.pruning_and_loading keep) xs =
      let n = over keep xs in (Answer.left (drop n xs) n, drop n xs)
  promised Op.counting xs = (Answer.number (length xs), xs)

  -- a session that is saved did not begin before any of those that are
  abbrev pub IsLate : Op F → Tables F → Type 0
  IsLate (Op.saving s) t = All (λ (r : SessionRow). ltb_ℤ s.start_ts r.start_ts ≡ false) t.sessions
  IsLate _ t = Unit {0}

  length-history : (t : Tables F) → length (history t) ≡ length t.sessions
  length-history t = mapped (order_by by_start t.sessions) ∙ ordered t.sessions
    where
      mapped : (rows : List SessionRow) → length (map (session_of t) rows) ≡ length rows
      mapped [] = refl
      mapped (r ∷ rows) = ap suc (mapped rows)

      ordered : (rows : List SessionRow) → length (order_by by_start rows) ≡ length rows
      ordered [] = refl
      ordered (r ∷ rows) = length-insert_by r (order_by by_start rows) ∙ ap suc (ordered rows)

  over-history : (keep : ℤ) (t : Tables F) → over keep (history t) ≡ excess keep t
  over-history keep t =
      ap (λ n. if ltb_ℤ (pos 0) keep then n - pos_part keep else 0) (length-history t)

abbrev pub answer :
    {W F A : Type 0} → (A → Answer F) → Result A × Db W F → Result (Answer F) × Db W F
answer f (ok x, db) = (ok (f x), db)
answer f (err e, db) = (err e, db)

module _ {W F : Type 0} (v : Driver W) where
  unfoldable pub run_op : Op F → Act (Db W F) (Answer F)
  run_op (Op.saving s) db = answer (λ u. Answer.nothing) (save_session v s db)
  run_op (Op.pruning keep) db = answer Answer.number (prune v keep db)
  run_op Op.loading db = answer Answer.sessions (load_sessions v db)
  run_op (Op.pruning_and_loading keep) db =
      answer (λ x. Answer.left x.0 x.1) (prune_and_load v keep db)
  run_op Op.counting db = answer Answer.number (count_sessions v db)

  prune_lem :
      (keep : ℤ) (db db' : Db W F) (n : ℕ)
      → prune v keep db ≡ (ok n, db')
      → (n ≡ excess keep db.tables) × (db'.tables ≡ without_oldest n db.tables)
  unfolding prune
  prune_lem keep db db' n h =
      let (_, db₀, e₀, k₀) = and_then-eq-ok _ (open_store v db) h in
      let (db₁, db₂, b, body, a) = transact-eq-ok v _ db₀ k₀ in
      let (size, pruned) = prune_oldest-eq-ok v keep db₁ body in
      let before : db.tables ≡ db₁.tables = open_store-eq-ok v db e₀ ∙ b in
      (size ∙ ap (excess keep) (sym before), sym a ∙ pruned ∙ ap (without_oldest n) (sym before))

  load_sessions_lem :
      (db db' : Db W F) (xs : List (Session F))
      → load_sessions v db ≡ (ok xs, db')
      → xs ≡ history db.tables
  unfolding load_sessions
  load_sessions_lem db db' xs h =
      let (_, db₀, e₀, k₀) = and_then-eq-ok _ (open_store v db) h in
      (load_rows-eq-ok v db₀ k₀).0 ∙ ap history (sym (open_store-eq-ok v db e₀))

  load_sessions_kept : (db : Db W F) → (load_sessions v db).1.tables ≡ db.tables
  unfolding load_sessions
  load_sessions_kept db = open_then_kept v (load_rows v) db (load_rows_kept v)

  count_sessions_lem :
      (db db' : Db W F) (n : ℕ) → count_sessions v db ≡ (ok n, db') → n ≡ length db.tables.sessions
  unfolding count_sessions
  count_sessions_lem db db' n h =
      let (_, db₀, e₀, k₀) = and_then-eq-ok _ (open_store v db) h in
      sym (execute-eq-ok v Statement.count_sessions _ db₀ k₀).0
      ∙ ap (λ (t : Tables F). length t.sessions) (sym (open_store-eq-ok v db e₀))

  count_sessions_kept : (db : Db W F) → (count_sessions v db).1.tables ≡ db.tables
  unfolding count_sessions
  count_sessions_kept db =
      open_then_kept v (execute v Statement.count_sessions (λ t. (length t.sessions, t))) db
        (query_kept v Statement.count_sessions (λ t. length t.sessions))

  prune_err :
      (keep : ℤ) (db db' : Db W F) (e : Text)
      → prune v keep db ≡ (err e, db')
      → db'.tables ≡ db.tables
  unfolding prune
  prune_err keep db db' e h =
      open_then_transact_err v _ (open_store v db) db.tables (open_store_kept v db) h

  prune_and_load_err :
      (keep : ℤ) (db db' : Db W F) (e : Text)
      → prune_and_load v keep db ≡ (err e, db')
      → db'.tables ≡ db.tables
  unfolding prune_and_load
  prune_and_load_err keep db db' e h =
      open_then_transact_err v _ (open_store v db) db.tables (open_store_kept v db) h

  -- either an error and the tables as they were, or the answer and the history that are promised
  abbrev pub Refines : Op F → Db W F → Result (Answer F) × Db W F → Type 0
  Refines op db r =
      IsSound r.1.tables
      × (((e : Text) × (r.0 ≡ err e) × (r.1.tables ≡ db.tables))
          ⊎ ((a : Answer F) × (r.0 ≡ ok a)
              × (promised op (history db.tables) ≡ (a, history r.1.tables))))

  unchanged :
      (op : Op F) (db : Db W F) (e : Text) (db' : Db W F)
      → IsSound db.tables
      → db'.tables ≡ db.tables
      → Refines op db (err e, db')
  unchanged op db e db' sound h = (subst IsSound (sym h) sound, inl (e, refl, h))

  save-Refines :
      (s : Session F) (db : Db W F)
      → IsSound db.tables
      → IsLate (Op.saving s) db.tables
      → (r : Result (Unit {0}) × Db W F) → save_session v s db ≡ r
      → Refines (Op.saving s) db (answer (λ u. Answer.nothing) r)
  save-Refines s db sound late (err e, db') h =
      unchanged (Op.saving s) db e db' sound (store_err v s (pos 0) db db' e (inl h))
  save-Refines s db sound late (ok u, db') h =
      let (added, kept) = save_session_lem v s db db' sound late h in
      (kept, inr (Answer.nothing, refl, ap (λ x. (Answer.nothing, x)) (sym added)))

  prune-Refines :
      (keep : ℤ) (db : Db W F)
      → IsSound db.tables
      → (r : Result ℕ × Db W F) → prune v keep db ≡ r
      → Refines (Op.pruning keep) db (answer Answer.number r)
  prune-Refines keep db sound (err e, db') h =
      unchanged (Op.pruning keep) db e db' sound (prune_err keep db db' e h)
  prune-Refines keep db sound (ok n, db') h =
      let (size, pruned) = prune_lem keep db db' n h in
      let n_over : over keep (history db.tables) ≡ n = over-history keep db.tables ∙ sym size in
      let rest = ap history pruned ∙ history-without_oldest n db.tables sound.distinct in
      (
        subst IsSound (sym pruned) (without_oldest-IsSound n db.tables sound),
        inr (
          Answer.number n,
          refl,
          ap (λ m. (Answer.number m, drop m (history db.tables))) n_over
              ∙ ap (λ x. (Answer.number n, x)) (sym rest),
        ),
      )

  load-Refines :
      (db : Db W F)
      → IsSound db.tables
      → (r : Result (List (Session F)) × Db W F) → load_sessions v db ≡ r
      → Refines Op.loading db (answer Answer.sessions r)
  load-Refines db sound (err e, db') h =
      unchanged Op.loading db e db' sound (ap (λ x. x.1.tables) (sym h) ∙ load_sessions_kept db)
  load-Refines db sound (ok xs, db') h =
      let same : db'.tables ≡ db.tables = ap (λ x. x.1.tables) (sym h) ∙ load_sessions_kept db in
      (
        subst IsSound (sym same) sound,
        inr (
          Answer.sessions xs,
          refl,
          ap (λ x. (Answer.sessions x, history db.tables)) (sym (load_sessions_lem db db' xs h))
              ∙ ap (λ t. (Answer.sessions xs, history t)) (sym same),
        ),
      )

  prune_and_load-Refines :
      (keep : ℤ) (db : Db W F)
      → IsSound db.tables
      → (r : Result (List (Session F) × ℕ) × Db W F) → prune_and_load v keep db ≡ r
      → Refines (Op.pruning_and_loading keep) db (answer (λ x. Answer.left x.0 x.1) r)
  prune_and_load-Refines keep db sound (err e, db') h =
      unchanged (Op.pruning_and_loading keep) db e db' sound (prune_and_load_err keep db db' e h)
  prune_and_load-Refines keep db sound (ok (xs, n), db') h =
      let (size, loaded, rest, kept) = prune_and_load_lem v keep db db' xs n sound h in
      let n_over : over keep (history db.tables) ≡ n = over-history keep db.tables ∙ sym size in
      (
        kept,
        inr (
          Answer.left xs n,
          refl,
          ap (λ m. (Answer.left (drop m (history db.tables)) m, drop m (history db.tables))) n_over
              ∙ ap (λ x. (Answer.left x n, x)) (sym loaded)
              ∙ ap (λ x. (Answer.left xs n, x)) (sym rest),
        ),
      )

  count-Refines :
      (db : Db W F)
      → IsSound db.tables
      → (r : Result ℕ × Db W F) → count_sessions v db ≡ r
      → Refines Op.counting db (answer Answer.number r)
  count-Refines db sound (err e, db') h =
      unchanged Op.counting db e db' sound (ap (λ x. x.1.tables) (sym h) ∙ count_sessions_kept db)
  count-Refines db sound (ok n, db') h =
      let same : db'.tables ≡ db.tables = ap (λ x. x.1.tables) (sym h) ∙ count_sessions_kept db in
      (
        subst IsSound (sym same) sound,
        inr (
          Answer.number n,
          refl,
          ap (λ m. (Answer.number m, history db.tables))
                (length-history db.tables ∙ sym (count_sessions_lem db db' n h))
              ∙ ap (λ t. (Answer.number n, history t)) (sym same),
        ),
      )

  -- Let the database be sound, and a session that is saved not begin before any of those that are. Whichever
  -- statement fails, each method of the store either returns an error and leaves the tables as they were,
  -- or answers as it would on the list of the saved sessions, oldest first, and leaves what it would
  -- leave of that list; the database is sound behind it.
  pub run_op-Refines :
      (op : Op F) (db : Db W F)
      → IsSound db.tables
      → IsLate op db.tables
      → Refines op db (run_op op db)
  unfolding run_op
  run_op-Refines (Op.saving s) db sound late =
      save-Refines s db sound late (save_session v s db) refl
  run_op-Refines (Op.pruning keep) db sound late =
      prune-Refines keep db sound (prune v keep db) refl
  run_op-Refines Op.loading db sound late = load-Refines db sound (load_sessions v db) refl
  run_op-Refines (Op.pruning_and_loading keep) db sound late =
      prune_and_load-Refines keep db sound (prune_and_load v keep db) refl
  run_op-Refines Op.counting db sound late = count-Refines db sound (count_sessions v db) refl
