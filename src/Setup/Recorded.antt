-- ===== src/Setup/Recorded.antt =====
-- The end of `runSession` on the SQLite store: what becomes of the history of the user.
use shell_sentry.Base.{
  true, false, ◌&&◌, not, if◌then◌else◌, [], ◌∷◌, ◌++◌, All, Option, none, some, is_empty, ◌≡◌,
  refl, sym, ap, ◌∙◌, subst, arith, Bool-cases, inl, inr,
}
use shell_sentry.Base.Int.{pos, ltb_ℤ}
use shell_sentry.Text.{Text, codes}
use shell_sentry.Result.{Result, ok, err}
use shell_sentry.Decide.{Floats}
use shell_sentry.Ports.{Session}
use shell_sentry.Repl.State.{State}
use shell_sentry.Otp.Laws.{is_ok}
use shell_sentry.Store.Tables.{SessionRow}
use shell_sentry.Store.Driver.{Driver, Db}
use shell_sentry.Store.Methods.{save_session}
use shell_sentry.Store.Laws.{history}
use shell_sentry.Store.Retention.{IsSound}
use shell_sentry.Store.Saved.{save_session_lem}
use shell_sentry.Store.Atomic.{store_err}
use shell_sentry.Setup.Main.{Host, try, persist}

-- the error of a method of the store, with the rest of the world as it was
abbrev pub stored : {V F R : Type 0} → R → Result (Unit {0}) × Db V F → Option Text × (Db V F × R)
stored rest (ok u, db) = (none, (db, rest))
stored rest (err e, db) = (some e, (db, rest))

module _ {V F R : Type 0} (v : Driver V) where
  -- what saving leaves, by the outcome of the method
  saved_outcome :
      (s : Session F) (db : Db V F) (rest : R) (r : Result (Unit {0}) × Db V F)
      → IsSound db.tables
      → All (λ (x : SessionRow). ltb_ℤ s.start_ts x.start_ts ≡ false) db.tables.sessions
      → s.valid ≡ true
      → save_session v s db ≡ r
      → (let e = try (codes "save session: ") (stored rest r) in
          (history e.1.0.tables
            ≡ (if is_ok e.0 then history db.tables ++ s ∷ [] else history db.tables))
          × IsSound e.1.0.tables)
  saved_outcome s db rest (ok u, db') sound late valid h =
      let (added, kept) = save_session_lem v s db db' sound late h in
      let same : record s { valid = true } ≡ s = ground (arith, valid) in
      (added ∙ ap (λ x. history db.tables ++ x ∷ []) same, kept)
  saved_outcome s db rest (err m, db') sound late valid h =
      let same = store_err v s (pos 0) db db' m (inl h) in
      (ap history same, subst IsSound (sym same) sound)

module _ {V F R : Type 0} (v : Driver V) (fl : Floats F) (h : Host (Db V F × R) F)
    (on_store : (user : Text) (s : Session F) (db : Db V F) (rest : R)
      → h.save_session user s (db, rest) ≡ stored rest (save_session v s db)) where
  -- On the SQLite store, with a sound database and a session that did not begin before any of the saved
  -- ones: behind `RunREPL` the history has the session at its end if it is valid, has commands, and no
  -- error is returned; in every other case it is as it was, and the database is sound in all of them.
  pub persist-history :
      (user : Text) (t : State (Db V F × R) F)
      → IsSound t.world.0.tables
      → All
          (λ (x : SessionRow). ltb_ℤ t.session.start_ts x.start_ts ≡ false)
          t.world.0.tables.sessions
      → (let e = persist fl h user t in
          let is_kept = t.session.valid && not (is_empty t.session.commands) && is_ok e.0 in
          (history e.1.world.0.tables ≡ (
            if is_kept
            then history t.world.0.tables ++ t.session ∷ []
            else history t.world.0.tables))
          × IsSound e.1.world.0.tables)
  unfolding persist
  persist-history user t sound late =
      elim (Bool-cases (t.session.valid && not (is_empty t.session.commands))) [
        | inl clean ↦
            let valid : t.session.valid ≡ true = ground (arith, clean) in
            let outcome = saved_outcome v t.session t.world.0 t.world.1 _ sound late valid refl in
            rw (clean, on_store user t.session t.world.0 t.world.1) outcome
        | inr other ↦ rw other (refl, sound)
      ]
