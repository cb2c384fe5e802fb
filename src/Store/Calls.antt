-- ===== src/Store/Calls.antt =====
-- Any number of calls of the store's methods, one behind the other.
use shell_sentry.Base.{List, [], ◌∷◌, ◌≡◌, inl, inr, refl, sym, ap, ◌∙◌}
use shell_sentry.Result.{Result, ok, err}
use shell_sentry.Ports.{Session}
use shell_sentry.Store.Driver.{Driver, Db}
use shell_sentry.Store.Laws.{history}
use shell_sentry.Store.Retention.{IsSound}
use shell_sentry.Store.Refinement.{Op, Answer, promised, IsLate, run_op, Refines, run_op-Refines}

-- the calls, and what they are to leave of a history
abbrev pub after : {F : Type 0} → List (Op F) → List (Session F) → List (Session F)
after [] xs = xs
after (op ∷ ops) xs = after ops (promised op xs).1

abbrev pub if_ok : {A F : Type 0} → Result A → Op F → List (Op F) → List (Op F)
if_ok (ok a) op ops = op ∷ ops
if_ok (err e) op ops = ops

module _ {W F : Type 0} (v : Driver W) where
  abbrev pub run_ops : List (Op F) → Db W F → Db W F
  run_ops [] db = db
  run_ops (op ∷ ops) db = run_ops ops (run_op v op db).1

  -- the calls that return no error
  abbrev pub taken : List (Op F) → Db W F → List (Op F)
  taken [] db = []
  taken (op ∷ ops) db = let r = run_op v op db in if_ok r.0 op (taken ops r.1)

  -- each session that is saved did not begin before any of those that then are
  abbrev pub AreLate : List (Op F) → Db W F → Type 0
  AreLate [] db = Unit {0}
  AreLate (op ∷ ops) db = IsLate op db.tables × AreLate ops (run_op v op db).1

  one_more :
      (op : Op F) (db : Db W F) (r : Result (Answer F) × Db W F) (end : Db W F) (left : List (Op F))
      → Refines v op db r
      → history end.tables ≡ after left (history r.1.tables)
      → history end.tables ≡ after (if_ok r.0 op left) (history db.tables)
  one_more op db (ok a, db') end left (sound, inl (e, failed, same)) h = cc
  one_more op db (ok a, db') end left (sound, inr (b, answered, kept)) h =
      h ∙ ap (λ (x : Answer F × List (Session F)). after left x.1) (sym kept)
  one_more op db (err m, db') end left (sound, inl (e, failed, same)) h =
      h ∙ ap (λ t. after left (history t)) same
  one_more op db (err m, db') end left (sound, inr (b, answered, kept)) h = cc

  -- Let the database be sound, and let each session that is saved not begin before any of those that are
  -- saved by then. After any number of calls of the store's methods, whichever statements failed in them,
  -- the history is that of before, changed in their order by just those calls that returned no error, as
  -- if the store were a list of sessions; and the database is sound.
  pub run_ops-history :
      (ops : List (Op F)) (db : Db W F)
      → IsSound db.tables
      → AreLate ops db
      → (history (run_ops ops db).tables ≡ after (taken ops db) (history db.tables))
        × IsSound (run_ops ops db).tables
  run_ops-history [] db sound late = (refl, sound)
  run_ops-history (op ∷ ops) db sound (late, later) =
      let step = run_op-Refines v op db sound late in
      let next = (run_op v op db).1 in
      let (h, s) = run_ops-history ops next step.0 later in
      (one_more op db (run_op v op db) (run_ops ops next) (taken ops next) step h, s)
