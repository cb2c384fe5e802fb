-- ===== src/Store/Retention.antt =====
-- What `PruneAndLoad` keeps.
use shell_sentry.Base.{
  ℕ, zero, suc, ◌≤◌, Bool, true, false, not, List, [], ◌∷◌, map, keep, drop, ◌==◌, ◌≡◌, refl, sym,
  ap, ◌∙◌, subst, arith, All, Any,
}
use shell_sentry.Base.Int.{ℤ}
use shell_sentry.Base.Keep.{keep-keep, All-keep, All-map, All-All, Any-keep, map_cong}
use shell_sentry.Base.Order.{
  order_by, Distinct, Distinct-order_by, Distinct-keep, keep-take, keep-order_by,
}
use shell_sentry.Result.{ok}
use shell_sentry.Ports.{Session}
use shell_sentry.Store.Tables.{
  SessionRow, CommandRow, Tables, by_id, by_start, is_in, oldest, delete_commands, delete_sessions,
  commands_of,
}
use shell_sentry.Store.Driver.{Driver, Db}
use shell_sentry.Store.Methods.{prune_and_load}
use shell_sentry.Store.Laws.{session_of, history, without_oldest, excess}
use shell_sentry.Store.Pruning.{prune_and_load-eq-ok}

abbrev id_of : SessionRow → ℕ
id_of r = r.id

-- No two sessions have one id, no id is above the greatest that was given, and every command belongs
-- to a session.
pub record IsSound {F : Type 0} (t : Tables F) : Type 0 where
  pub distinct : Distinct (λ (r : SessionRow). r.id) t.sessions
  pub below : All (λ (r : SessionRow). r.id ≤ t.last_session) t.sessions
  pub owned :
      All
        (λ (c : CommandRow F). Any (λ (r : SessionRow). r.id ≡ c.session_fk) t.sessions)
        t.commands

map-drop : {A B : Type 0} (f : A → B) (n : ℕ) (xs : List A) → map f (drop n xs) ≡ drop n (map f xs)
map-drop f zero xs = refl
map-drop f (suc n) [] = refl
map-drop f (suc n) (x ∷ xs) = map-drop f n xs

by_start_total : (a b : SessionRow) → by_start a b ≡ false → by_start b a ≡ true
unfolding by_start
by_start_total a b h = ground arith

by_start_trans :
    (a b c : SessionRow) → by_start a b ≡ true → by_start b c ≡ true → by_start a c ≡ true
unfolding by_start
by_start_trans a b c h k = ground arith

module _ {F : Type 0} (n : ℕ) (t : Tables F) where
  -- the test of the two DELETE statements, on a session's id
  abbrev stays : ℕ → Bool
  stays i = not (is_in (oldest n t) i)

  left_kept :
      order_by by_start (without_oldest n t).sessions
      ≡ keep (λ (r : SessionRow). stays r.id) (order_by by_start t.sessions)
  unfolding delete_sessions delete_commands oldest
  left_kept =
      sym (keep-order_by by_start by_start_total by_start_trans (λ r. stays r.id) t.sessions)

  order_without_oldest :
      Distinct (λ (r : SessionRow). r.id) t.sessions
      → order_by by_start (without_oldest n t).sessions ≡ drop n (order_by by_start t.sessions)
  unfolding oldest
  order_without_oldest d =
      left_kept
      ∙ keep-take id_of n (order_by by_start t.sessions)
          (Distinct-order_by id_of by_start t.sessions d)

  stays-commands :
      (r : SessionRow)
      → stays r.id ≡ true
      → commands_of r.id (without_oldest n t) ≡ commands_of r.id t
  unfolding commands_of delete_sessions delete_commands
  stays-commands r h =
      ap (λ (cs : List (CommandRow F)). map (λ c. c.columns) (order_by by_id cs))
        (keep-keep (λ c. c.session_fk == r.id) (λ c. stays c.session_fk) t.commands
          (λ c e. let same : c.session_fk ≡ r.id = ground arith in rw same h))

  pub history-without_oldest :
      Distinct (λ (r : SessionRow). r.id) t.sessions
      → history (without_oldest n t) ≡ drop n (history t)
  history-without_oldest d =
      let rows = order_by by_start t.sessions in
      let left = order_by by_start (without_oldest n t).sessions in
      let kept = keep (λ (r : SessionRow). stays r.id) rows in
      let e : left ≡ kept = left_kept in
      let same = map_cong (session_of (without_oldest n t)) (session_of t) kept (
        All-map (λ r. Unit {0} × (stays r.id ≡ true)) _ kept
          (λ r h.
            ap
              (λ cs. record {
                start_ts = r.start_ts;
                end_ts = r.end_ts;
                commands = cs;
                valid = true;
              })
              (stays-commands r h.1))
          (All-keep (λ r. Unit {0}) (λ r. stays r.id) rows
            (All-All (λ r. Unit {0}) rows (λ r. tt)))) in
      ap (map (session_of (without_oldest n t))) e
      ∙ same
      ∙ ap (map (session_of t)) (sym e ∙ order_without_oldest d)
      ∙ map-drop (session_of t) n rows

  pub without_oldest-IsSound : IsSound t → IsSound (without_oldest n t)
  unfolding delete_sessions delete_commands oldest
  without_oldest-IsSound s = record {
    distinct = Distinct-keep id_of (λ r. stays r.id) t.sessions s.distinct;
    below =
        All-map (λ r. (r.id ≤ t.last_session) × (stays r.id ≡ true)) (λ r. r.id ≤ t.last_session) _
          (λ r h. h.0) (All-keep (λ r. r.id ≤ t.last_session) (λ r. stays r.id) t.sessions s.below);
    owned =
        All-map
          (λ c.
            Any (λ (r : SessionRow). r.id ≡ c.session_fk) t.sessions × (stays c.session_fk ≡ true))
          _ _
          (λ c h.
            Any-keep (λ r. r.id ≡ c.session_fk) (λ r. stays r.id) t.sessions (λ r e. rw e h.1) h.0)
          (All-keep (λ c. Any (λ (r : SessionRow). r.id ≡ c.session_fk) t.sessions)
            (λ c. stays c.session_fk) t.commands s.owned);
  }

module _ {W F : Type 0} (v : Driver W) where
  -- If `PruneAndLoad` returns no error, it reports how many sessions there were beyond those to keep
  -- and returns the history without as many of its oldest; that history is what the database then
  -- holds, and the database stays sound: no command is left without its session.
  pub prune_and_load_lem :
      (keep : ℤ) (db db' : Db W F) (xs : List (Session F)) (n : ℕ)
      → IsSound db.tables
      → prune_and_load v keep db ≡ (ok (xs, n), db')
      → (n ≡ excess keep db.tables)
        × (xs ≡ drop n (history db.tables))
        × (history db'.tables ≡ xs)
        × IsSound db'.tables
  prune_and_load_lem keep db db' xs n s h =
      let (size, left, loaded) = prune_and_load-eq-ok v keep db h in
      (
        size,
        loaded ∙ history-without_oldest n db.tables s.distinct,
        ap history left ∙ sym loaded,
        subst IsSound (sym left) (without_oldest-IsSound n db.tables s),
      )
