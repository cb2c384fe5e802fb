-- ===== src/Store/Saved.antt =====
-- What `SaveSession` leaves in the database.
use shell_sentry.Base.{
  ℕ, suc, ◌≤◌, true, false, List, [], ◌∷◌, ◌++◌, length, map, ◌≡◌, ◌≢◌, refl, sym, ap, ◌∙◌, subst,
  arith, inl, inr, All, Any,
}
use mathlib.Core.List.{map-append}
use shell_sentry.Base.Int.{ltb_ℤ}
use shell_sentry.Base.Keep.{All-map, All-append, All-zip, Any-append, map_cong}
use shell_sentry.Base.Order.{order_by, order_by_last, All-order_by, Distinct, Distinct-last}
use shell_sentry.Result.{ok}
use shell_sentry.Ports.{Session}
use shell_sentry.Store.Tables.{
  SessionRow, CommandRow, Tables, by_start, insert_session, commands_of,
}
use shell_sentry.Store.Driver.{Driver, Db}
use shell_sentry.Store.Methods.{save_session}
use shell_sentry.Store.Laws.{session_of, history, with_session, save_session-eq-ok}
use shell_sentry.Store.Retention.{IsSound}
use shell_sentry.Store.NewRows.{
  new_rows, with_commands_lem, commands_of-with_commands, commands_of_other, owner-new_rows,
}

module _ {F : Type 0} where
  row_of : Session F → Tables F → SessionRow
  row_of s t = record {
    id = suc t.last_session;
    start_ts = s.start_ts;
    end_ts = s.end_ts;
    command_count = length s.commands;
  }

  module _ (s : Session F) (t : Tables F) (sound : IsSound t) where
    rows-with_session : (with_session s t).sessions ≡ t.sessions ++ row_of s t ∷ []
    unfolding insert_session row_of
    rows-with_session = (with_commands_lem (suc t.last_session) s.commands (insert_session s t).1).0

    below_new : All (λ (c : CommandRow F). c.session_fk ≢ suc t.last_session) t.commands
    below_new =
        All-map (λ c. Any (λ (r : SessionRow). r.id ≡ c.session_fk) t.sessions) _ t.commands
          (λ c h. ids_below t.sessions sound.below c.session_fk h) sound.owned
      where
        ids_below :
            (rows : List SessionRow)
            → All (λ r. r.id ≤ t.last_session) rows
            → (n : ℕ) → Any (λ r. r.id ≡ n) rows
            → n ≢ suc t.last_session
        ids_below [] h n k = elim k [ ]
        ids_below (r ∷ rows) h n (inl e) = let b = h.0 in λ q. omega (arith, b, e, q)
        ids_below (r ∷ rows) h n (inr k) = ids_below rows h.1 n k

    id_below : (r : SessionRow) → r.id ≤ t.last_session → r.id ≢ suc t.last_session
    id_below r h q = omega (arith, h, q)

    stands_last :
        (r : SessionRow)
        → (ltb_ℤ s.start_ts r.start_ts ≡ false) × (r.id ≤ t.last_session)
        → by_start r (row_of s t) ≡ true
    unfolding by_start row_of
    stands_last r h = let b = h.1 in let l = h.0 in ground (arith, b, l)

    All-last :
        All (λ r. ltb_ℤ s.start_ts r.start_ts ≡ false) t.sessions
        → All (λ r. by_start r (row_of s t) ≡ true) t.sessions
    All-last late = All-zip _ _ _ t.sessions (λ r h k. stands_last r (h, k)) late sound.below

    commands_of_sessions : (i : ℕ) → commands_of i (insert_session s t).1 ≡ commands_of i t
    unfolding commands_of insert_session
    commands_of_sessions i = refl

    session_of_other :
        (r : SessionRow) → r.id ≤ t.last_session → session_of (with_session s t) r ≡ session_of t r
    unfolding insert_session
    session_of_other r h =
        ap (λ cs. record { start_ts = r.start_ts; end_ts = r.end_ts; commands = cs; valid = true })
          (commands_of_other r.id (suc t.last_session) s.commands (insert_session s t).1
              (id_below r h)
            ∙ commands_of_sessions r.id)

    session_of_new : session_of (with_session s t) (row_of s t) ≡ record s { valid = true }
    unfolding insert_session row_of
    session_of_new =
        ap (λ cs. record { start_ts = s.start_ts; end_ts = s.end_ts; commands = cs; valid = true })
          (commands_of-with_commands (suc t.last_session) s.commands (insert_session s t).1
            below_new)

    -- a session that did not begin before the others stands last in the history
    history-with_session :
        All (λ r. ltb_ℤ s.start_ts r.start_ts ≡ false) t.sessions
        → history (with_session s t) ≡ history t ++ record s { valid = true } ∷ []
    history-with_session late =
        let after = with_session s t in
        let rows = order_by by_start t.sessions in
        let others : map (session_of after) rows ≡ map (session_of t) rows =
          map_cong (session_of after) (session_of t) rows (
            All-map (λ r. r.id ≤ t.last_session) _ rows session_of_other
              (All-order_by by_start (λ r. r.id ≤ t.last_session) t.sessions sound.below)) in
        ap (λ l. map (session_of after) (order_by by_start l)) rows-with_session
        ∙ ap (map (session_of after))
            (order_by_last by_start t.sessions (row_of s t) (All-last late))
        ∙ map-append (session_of after) rows (row_of s t ∷ [])
        ∙ cc (others, session_of_new)

    last-with_session : (with_session s t).last_session ≡ suc t.last_session
    unfolding insert_session
    last-with_session = (with_commands_lem (suc t.last_session) s.commands (insert_session s t).1).1

    commands-with_session :
        (with_session s t).commands
        ≡ t.commands ++ new_rows (suc t.last_session) t.last_command s.commands
    unfolding insert_session
    commands-with_session =
        (with_commands_lem (suc t.last_session) s.commands (insert_session s t).1).2

    abbrev Owned : List SessionRow → CommandRow F → Type 0
    Owned rows c = Any (λ (r : SessionRow). r.id ≡ c.session_fk) rows

    Owned-after :
        All
          (Owned (t.sessions ++ row_of s t ∷ []))
          (t.commands ++ new_rows (suc t.last_session) t.last_command s.commands)
    unfolding row_of
    Owned-after =
        let new = new_rows (suc t.last_session) t.last_command s.commands in
        All-append (Owned (t.sessions ++ row_of s t ∷ [])) t.commands new
          (All-map (Owned t.sessions) _ t.commands
            (λ c h. Any-append (λ r. r.id ≡ c.session_fk) t.sessions (row_of s t ∷ []) (inl h))
            sound.owned)
          (All-map (λ c. c.session_fk ≡ suc t.last_session) _ new
            (λ c h.
              Any-append (λ r. r.id ≡ c.session_fk) t.sessions (row_of s t ∷ [])
                (inr (inl (sym h))))
            (owner-new_rows (suc t.last_session) t.last_command s.commands))

    rows_below : All (λ r. r.id ≤ suc t.last_session) (t.sessions ++ row_of s t ∷ [])
    unfolding row_of
    rows_below =
        All-append (λ r. r.id ≤ suc t.last_session) t.sessions (row_of s t ∷ [])
          (All-map (λ r. r.id ≤ t.last_session) _ t.sessions (λ r h. omega (arith, h)) sound.below)
          (omega arith, tt)

    rows-Distinct : Distinct (λ (r : SessionRow). r.id) (t.sessions ++ row_of s t ∷ [])
    unfolding row_of
    rows-Distinct =
        Distinct-last (λ r. r.id) t.sessions (row_of s t) sound.distinct
          (All-map (λ r. r.id ≤ t.last_session) _ t.sessions id_below sound.below)

    with_session-IsSound : IsSound (with_session s t)
    with_session-IsSound = record {
      distinct = subst (Distinct (λ (r : SessionRow). r.id)) (sym rows-with_session) rows-Distinct;
      below =
          subst (λ rows. All (λ (r : SessionRow). r.id ≤ (with_session s t).last_session) rows)
            (sym rows-with_session)
            (subst (λ n. All (λ (r : SessionRow). r.id ≤ n) (t.sessions ++ row_of s t ∷ []))
              (sym last-with_session) rows_below);
      owned =
          subst (λ rows. All (Owned rows) (with_session s t).commands) (sym rows-with_session)
            (subst (All (Owned (t.sessions ++ row_of s t ∷ []))) (sym commands-with_session)
              Owned-after);
    }

module _ {W F : Type 0} (v : Driver W) where
  -- If `SaveSession` returns no error and the session did not begin before any of the saved ones,
  -- the history is the one there was with the session behind it, its commands in their order; and
  -- the database stays sound.
  pub save_session_lem :
      (s : Session F) (db db' : Db W F)
      → IsSound db.tables
      → All (λ (r : SessionRow). ltb_ℤ s.start_ts r.start_ts ≡ false) db.tables.sessions
      → save_session v s db ≡ (ok tt, db')
      → (history db'.tables ≡ history db.tables ++ record s { valid = true } ∷ [])
        × IsSound db'.tables
  save_session_lem s db db' sound late h =
      let e = save_session-eq-ok v s db h in
      (
        ap history e ∙ history-with_session s db.tables sound late,
        subst IsSound (sym e) (with_session-IsSound s db.tables sound),
      )
