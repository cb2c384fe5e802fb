-- ===== src/Store/Methods.antt =====
-- The methods of `Store`. What other connections of the same user do is not modelled: SQLite serializes
-- the transactions.
use shell_sentry.Base.{ℕ, ◌-◌, true, List, [], ◌∷◌, if◌then◌else◌, ltb, length}
use shell_sentry.Base.Int.{ℤ, pos, pos_part, ltb_ℤ}
use shell_sentry.Base.Order.{order_by}
use shell_sentry.Result.{Act, pure, ◌>>=◌, ◌>>◌}
use shell_sentry.Ports.{CommandRecord, Session}
use shell_sentry.Store.Tables.{
  SessionRow, by_start, insert_session, insert_command, delete_commands, delete_sessions,
  commands_of,
}
use shell_sentry.Store.Driver.{Statement, Driver, Db, execute, roll_back}

module _ {W F : Type 0} (v : Driver W) where
  -- a statement without an effect on the tables
  abbrev pub only : Statement → Act (Db W F) (Unit {0})
  only q = execute v q (λ t. (tt, t))

  -- `open`
  unfoldable pub open_store : Act (Db W F) (Unit {0})
  open_store = do only Statement.make_dir; only Statement.open_db; only Statement.create_tables

  -- db.Begin, the body on the transaction, tx.Commit, and the deferred tx.Rollback
  unfoldable pub transact : {A : Type 0} → Act (Db W F) A → Act (Db W F) A
  transact {A} body db =
      let whole : Act (Db W F) A = do only Statement.begin; a ← body; only Statement.commit; pure a
      in roll_back db.tables (whole db)

  -- the loop of `SaveSession`
  unfoldable pub insert_commands : ℕ → List (CommandRecord F) → Act (Db W F) (Unit {0})
  insert_commands sid [] = pure tt
  insert_commands sid (c ∷ cs) = do
    execute v Statement.insert_command (λ t. (tt, insert_command sid c t))
    insert_commands sid cs

  unfoldable pub save_session : Session F → Act (Db W F) (Unit {0})
  unfolding open_store transact insert_commands
  save_session s = do
    open_store
    transact do
      sid ← execute v Statement.insert_session (insert_session s)
      only Statement.last_insert_id
      insert_commands sid s.commands

  unfoldable pub count_sessions : Act (Db W F) ℕ
  unfolding open_store
  count_sessions = do open_store; execute v Statement.count_sessions (λ t. (length t.sessions, t))

  -- what `pruneOldestTx` does once it knows how many sessions there are
  unfoldable pub delete_oldest : ℕ → ℕ → Act (Db W F) ℕ
  delete_oldest keep total =
      if ltb keep total
      then (do
        execute v Statement.delete_commands (λ t. (tt, delete_commands (total - keep) t))
        execute v Statement.delete_sessions (λ t. (tt, delete_sessions (total - keep) t))
        pure (total - keep))
      else pure 0

  -- `pruneOldestTx`
  unfoldable pub prune_oldest : ℤ → Act (Db W F) ℕ
  unfolding delete_oldest
  prune_oldest keep =
      if ltb_ℤ (pos 0) keep
      then (do
        total ← execute v Statement.count_sessions (λ t. (length t.sessions, t))
        delete_oldest (pos_part keep) total)
      else pure 0

  -- the second loop of `loadSessionsTx`
  unfoldable pub load_each : List SessionRow → Act (Db W F) (List (Session F))
  load_each [] = pure []
  load_each (r ∷ rows) = do
    commands ← execute v Statement.query_commands (λ t. (commands_of r.id t, t))
    only Statement.scan_command
    only Statement.iterate_commands
    rest ← load_each rows
    pure (
        record { start_ts = r.start_ts; end_ts = r.end_ts; commands = commands; valid = true }
        ∷ rest)

  -- `loadSessionsTx`
  unfoldable pub load_rows : Act (Db W F) (List (Session F))
  unfolding load_each
  load_rows = do
    rows ← execute v Statement.query_sessions (λ t. (order_by by_start t.sessions, t))
    only Statement.scan_session
    only Statement.iterate_sessions
    load_each rows

  -- `PruneOldest`
  unfoldable pub prune : ℤ → Act (Db W F) ℕ
  unfolding open_store transact prune_oldest
  prune keep = do open_store; transact (prune_oldest keep)

  -- `LoadSessions`
  unfoldable pub load_sessions : Act (Db W F) (List (Session F))
  unfolding open_store load_rows
  load_sessions = do open_store; load_rows

  unfoldable pub prune_and_load : ℤ → Act (Db W F) (List (Session F) × ℕ)
  unfolding open_store transact prune_oldest load_rows
  prune_and_load keep = do
    open_store
    transact do pruned ← prune_oldest keep; sessions ← load_rows; pure (sessions, pruned)
