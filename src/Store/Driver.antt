-- ===== src/Store/Driver.antt =====
-- The database driver: each statement may fail, as the world has it. One that fails does nothing;
-- one that does not has the meaning of its SQL text.
use shell_sentry.Base.{Option, none, some, ◌++◌}
use shell_sentry.Text.{Text, codes}
use shell_sentry.Result.{Result, ok, err, Act}
use shell_sentry.Store.Tables.{Tables}

-- what the methods ask of it; `scan_session` and `scan_command` stand for all rows of a result
pub data Statement : Type 0 where
  make_dir open_db create_tables begin commit : Statement
  insert_session last_insert_id insert_command : Statement
  count_sessions delete_commands delete_sessions : Statement
  query_sessions scan_session iterate_sessions : Statement
  query_commands scan_command iterate_commands : Statement

pub record Driver (W : Type 0) : Type 0 where
  -- `none`, or the text of the error
  pub attempt : Statement → W → Option Text × W

-- the world, and the database of the user
pub record Db (W F : Type 0) : Type 0 where
  pub world : W
  pub tables : Tables F

-- what a `return fmt.Errorf("…: %w", err)` says in front of the driver's error
abbrev pub context_of : Statement → Text
context_of Statement.make_dir = codes "mkdir user dir: "
context_of Statement.open_db = codes "open db: "
context_of Statement.create_tables = codes "schema: "
context_of Statement.begin = codes "begin: "
context_of Statement.commit = codes "commit: "
context_of Statement.insert_session = codes "insert session: "
context_of Statement.last_insert_id = codes "session id: "
context_of Statement.insert_command = codes "insert command: "
context_of Statement.count_sessions = codes "count sessions: "
context_of Statement.delete_commands = codes "delete commands: "
context_of Statement.delete_sessions = codes "delete sessions: "
context_of Statement.query_sessions = codes "query sessions: "
context_of Statement.scan_session = codes "scan session: "
context_of Statement.iterate_sessions = codes "iterate sessions: "
context_of Statement.query_commands = codes "query commands: "
context_of Statement.scan_command = codes "scan command: "
context_of Statement.iterate_commands = codes "iterate commands: "

module _ {W F : Type 0} where
  -- the value, where the statement did not fail
  abbrev pub perform :
      {A : Type 0} → Statement → Option Text × W → A × Tables F → Tables F → Result A × Db W F
  perform q (some e, w) (a, done) undone =
      (err (context_of q ++ e), record { world = w; tables = undone })
  perform q (none, w) (a, done) undone = (ok a, record { world = w; tables = done })

  -- a statement with its value and its effect on the tables
  unfoldable pub execute :
      {A : Type 0} → Driver W → Statement → (Tables F → A × Tables F) → Act (Db W F) A
  execute v q effect db = perform q (v.attempt q db.world) (effect db.tables) db.tables

  -- the tables as they were, for `defer tx.Rollback()`
  abbrev pub roll_back : {A : Type 0} → Tables F → Result A × Db W F → Result A × Db W F
  roll_back before (ok a, db) = (ok a, db)
  roll_back before (err e, db) = (err e, record db { tables = before })
