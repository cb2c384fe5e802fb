-- ===== src/Store/NewRows.antt =====
-- The rows of the commands of a new session.
use shell_sentry.Base.{
  ℕ, suc, ◌≤◌, true, List, [], ◌∷◌, ◌++◌, if◌then◌else◌, map, keep, keep-append, ◌==◌, leb,
  append_assoc, append-nil, ◌≡◌, ◌≢◌, refl, sym, ap, ◌∙◌, arith, All,
}
use shell_sentry.Base.Order.{order_by, order_by-Ascends, Ascends}
use shell_sentry.Ports.{CommandRecord}
use shell_sentry.Store.Tables.{CommandRow, Tables, by_id, insert_command, commands_of}
use shell_sentry.Store.Laws.{with_commands}

module _ {F : Type 0} where
  -- the rows of the commands of a new session, behind the id `k`
  abbrev pub new_rows : ℕ → ℕ → List (CommandRecord F) → List (CommandRow F)
  new_rows sid k [] = []
  new_rows sid k (c ∷ cs) =
      record { id = suc k; session_fk = sid; columns = c } ∷ new_rows sid (suc k) cs

  pub with_commands_lem :
      (sid : ℕ) (cs : List (CommandRecord F)) (t : Tables F)
      → ((with_commands sid cs t).sessions ≡ t.sessions)
        × ((with_commands sid cs t).last_session ≡ t.last_session)
        × ((with_commands sid cs t).commands ≡ t.commands ++ new_rows sid t.last_command cs)
  unfolding insert_command
  with_commands_lem sid [] t = (refl, refl, sym (append-nil _))
  with_commands_lem sid (c ∷ cs) t =
      let (a, b, d) = with_commands_lem sid cs (insert_command sid c t) in
      (
        a,
        b,
        d
            ∙ append_assoc t.commands
                (record { id = suc t.last_command; session_fk = sid; columns = c } ∷ [])
                (new_rows sid (suc t.last_command) cs),
      )

  keep-new_rows :
      (i sid k : ℕ) (cs : List (CommandRecord F))
      → keep (λ (c : CommandRow F). c.session_fk == i) (new_rows sid k cs)
        ≡ (if sid == i then new_rows sid k cs else [])
  keep-new_rows i sid k [] = ground arith
  keep-new_rows i sid k (c ∷ cs) = ground (arith, keep-new_rows i sid (suc k) cs)

  above-new_rows :
      (sid j k : ℕ) (cs : List (CommandRecord F))
      → j ≤ k
      → All (λ (c : CommandRow F). leb j c.id ≡ true) (new_rows sid k cs)
  above-new_rows sid j k [] h = tt
  above-new_rows sid j k (c ∷ cs) h = (ground arith, above-new_rows sid j (suc k) cs (omega arith))

  new_rows-Ascends : (sid k : ℕ) (cs : List (CommandRecord F)) → Ascends by_id (new_rows sid k cs)
  new_rows-Ascends sid k [] = tt
  new_rows-Ascends sid k (c ∷ cs) =
      (above-new_rows sid (suc k) (suc k) cs (omega arith), new_rows-Ascends sid (suc k) cs)

  columns-new_rows :
      (sid k : ℕ) (cs : List (CommandRecord F))
      → map (λ (c : CommandRow F). c.columns) (new_rows sid k cs) ≡ cs
  columns-new_rows sid k [] = refl
  columns-new_rows sid k (c ∷ cs) = ap (◌∷◌ c) (columns-new_rows sid (suc k) cs)

  keep_none :
      (i : ℕ) (rows : List (CommandRow F))
      → All (λ c. c.session_fk ≢ i) rows
      → keep (λ c. c.session_fk == i) rows ≡ []
  keep_none i [] h = refl
  keep_none i (c ∷ rows) h = ground (arith, keep_none i rows h.1)

  pub commands_of-with_commands :
      (sid : ℕ) (cs : List (CommandRecord F)) (t : Tables F)
      → All (λ (c : CommandRow F). c.session_fk ≢ sid) t.commands
      → commands_of sid (with_commands sid cs t) ≡ cs
  unfolding commands_of
  commands_of-with_commands sid cs t h =
      let rows = new_rows sid t.last_command cs in
      let found : keep (λ (c : CommandRow F). c.session_fk == sid) (with_commands sid cs t).commands
          ≡ rows =
        ap (keep (λ (c : CommandRow F). c.session_fk == sid)) (with_commands_lem sid cs t).2
        ∙ keep-append _ t.commands rows
        ∙ ground (arith, keep_none sid t.commands h, keep-new_rows sid sid t.last_command cs) in
      ap (λ l. map (λ (c : CommandRow F). c.columns) (order_by by_id l)) found
      ∙ ap (map (λ (c : CommandRow F). c.columns))
          (order_by-Ascends by_id rows (new_rows-Ascends sid t.last_command cs))
      ∙ columns-new_rows sid t.last_command cs

  pub commands_of_other :
      (i sid : ℕ) (cs : List (CommandRecord F)) (t : Tables F)
      → i ≢ sid
      → commands_of i (with_commands sid cs t) ≡ commands_of i t
  unfolding commands_of
  commands_of_other i sid cs t h =
      let rows = new_rows sid t.last_command cs in
      let mine = λ (c : CommandRow F). c.session_fk == i in
      let none_new : keep mine rows ≡ [] = ground (arith, keep-new_rows i sid t.last_command cs) in
      let same : keep mine (with_commands sid cs t).commands ≡ keep mine t.commands =
        ap (keep mine) (with_commands_lem sid cs t).2
        ∙ keep-append mine t.commands rows
        ∙ ap (λ l. keep mine t.commands ++ l) none_new
        ∙ append-nil (keep mine t.commands) in
      ap (λ l. map (λ (c : CommandRow F). c.columns) (order_by by_id l)) same

  pub owner-new_rows :
      (sid k : ℕ) (cs : List (CommandRecord F))
      → All (λ (c : CommandRow F). c.session_fk ≡ sid) (new_rows sid k cs)
  owner-new_rows sid k [] = tt
  owner-new_rows sid k (c ∷ cs) = (refl, owner-new_rows sid (suc k) cs)
