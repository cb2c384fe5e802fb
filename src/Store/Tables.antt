-- ===== src/Store/Tables.antt =====
-- The two tables, and what the SQL statements of the store say. `AUTOINCREMENT` gives ids that no
-- row of the table had before.
use shell_sentry.Base.{
  ℕ, suc, Bool, true, false, not, List, [], ◌∷◌, ◌++◌, if◌then◌else◌, leb, ◌==◌, any, keep, length,
  take, map,
}
use shell_sentry.Base.Int.{ℤ, ltb_ℤ}
use shell_sentry.Base.Order.{order_by}
use shell_sentry.Ports.{CommandRecord, Session}

pub record SessionRow : Type 0 where
  pub id : ℕ
  pub start_ts : ℤ
  pub end_ts : ℤ
  pub command_count : ℕ

pub record CommandRow (F : Type 0) : Type 0 where
  pub id : ℕ
  pub session_fk : ℕ
  pub columns : CommandRecord F

-- the rows, and the greatest id that either table ever had
pub record Tables (F : Type 0) : Type 0 where
  pub sessions : List SessionRow
  pub commands : List (CommandRow F)
  pub last_session : ℕ
  pub last_command : ℕ

-- ORDER BY start_ts ASC, id ASC
unfoldable pub by_start : SessionRow → SessionRow → Bool
by_start a b =
    if ltb_ℤ a.start_ts b.start_ts
    then true
    else if ltb_ℤ b.start_ts a.start_ts
    then false
    else leb a.id b.id

-- WHERE id IN (…)
abbrev pub is_in : List ℕ → ℕ → Bool
is_in ids n = any (λ i. i == n) ids

module _ {F : Type 0} where
  -- ORDER BY id ASC
  abbrev pub by_id : CommandRow F → CommandRow F → Bool
  by_id a b = leb a.id b.id

  abbrev pub empty_tables : Tables F
  empty_tables = record { sessions = []; commands = []; last_session = 0; last_command = 0 }

  -- INSERT INTO session, and the id of the row
  unfoldable pub insert_session : Session F → Tables F → ℕ × Tables F
  insert_session s t =
      let id = suc t.last_session in
      let row : SessionRow = record {
        id = id;
        start_ts = s.start_ts;
        end_ts = s.end_ts;
        command_count = length s.commands;
      } in
      (id, record t { sessions = t.sessions ++ row ∷ []; last_session = id })

  -- INSERT INTO command
  unfoldable pub insert_command : ℕ → CommandRecord F → Tables F → Tables F
  insert_command sid c t =
      let id = suc t.last_command in
      let row : CommandRow F = record { id = id; session_fk = sid; columns = c } in
      record t { commands = t.commands ++ row ∷ []; last_command = id }

  -- SELECT id FROM session ORDER BY start_ts ASC, id ASC LIMIT ?
  unfoldable pub oldest : ℕ → Tables F → List ℕ
  oldest n t = map (λ (r : SessionRow). r.id) (take n (order_by by_start t.sessions))

  -- DELETE FROM command WHERE session_fk IN (…)
  unfoldable pub delete_commands : ℕ → Tables F → Tables F
  unfolding oldest
  delete_commands n t =
      let ids = oldest n t in
      record t { commands = keep (λ c. not (is_in ids c.session_fk)) t.commands }

  -- DELETE FROM session WHERE id IN (…)
  unfoldable pub delete_sessions : ℕ → Tables F → Tables F
  unfolding oldest
  delete_sessions n t =
      let ids = oldest n t in record t { sessions = keep (λ r. not (is_in ids r.id)) t.sessions }

  -- SELECT … FROM command WHERE session_fk=? ORDER BY id ASC
  unfoldable pub commands_of : ℕ → Tables F → List (CommandRecord F)
  commands_of sid t =
      map (λ (c : CommandRow F). c.columns)
        (order_by by_id (keep (λ (c : CommandRow F). c.session_fk == sid) t.commands))
