-- ===== src/Tests/Store.antt =====
-- The theorems of the store at concrete databases.
use shell_sentry.Base.{
  ℕ, suc, List, [], ◌∷◌, Option, none, some, ◌≡◌, refl, inl, inr, true, drop, ◌++◌, arith,
}
use shell_sentry.Base.Int.{pos}
use shell_sentry.Text.{Text, codes}
use shell_sentry.Result.{ok}
use shell_sentry.Ports.{Session}
use shell_sentry.Store.Tables.{
  SessionRow, CommandRow, Tables, by_start, insert_session, insert_command, oldest, delete_commands,
  delete_sessions, commands_of,
}
use shell_sentry.Store.Driver.{Driver, Db, Statement, execute}
use shell_sentry.Store.Methods.{
  open_store, transact, insert_commands, save_session, prune, prune_oldest, delete_oldest,
  load_each, load_rows, prune_and_load,
}
use shell_sentry.Store.Laws.{history, excess}
use shell_sentry.Store.Retention.{IsSound}
use shell_sentry.Store.Refinement.{Op, run_op, Refines, run_op-Refines}
use shell_sentry.Store.Calls.{after, run_ops, run_ops-history}
use shell_sentry.Store.Atomic.{store_err, save_then_load}
use shell_sentry.Feature.{Feature, build_feature}
use shell_sentry.Tests.Surroundings.{floats, deps}

abbrev feat : Feature ℕ
feat = build_feature floats deps.dicts (pos 0) (codes "US") (codes "ls") [] (pos 5)

-- a driver that counts the statements
abbrev pub counting : Driver ℕ
counting = record { attempt = λ q n. (none, suc n) }

-- one whose commit fails
abbrev commit_fails : Statement → ℕ → Option Text × ℕ
commit_fails Statement.commit n = (some (codes "disk full"), n)
commit_fails q n = (none, n)

abbrev full_disk : Driver ℕ
full_disk = record { attempt = commit_fails }

abbrev row : ℕ → ℕ → SessionRow
row i start = record { id = i; start_ts = pos start; end_ts = pos (suc start); command_count = 1 }

abbrev command_row : ℕ → ℕ → CommandRow ℕ
command_row i sid = record {
  id = i;
  session_fk = sid;
  columns = record { ts = pos i; feat = feat; raw_cmd = codes "ls"; ip = codes "10.0.0.1" };
}

-- the row that was inserted last began first
abbrev pub two_sessions : Tables ℕ
two_sessions = record {
  sessions = row 1 20 ∷ row 2 10 ∷ [];
  commands = command_row 1 1 ∷ command_row 2 2 ∷ command_row 3 2 ∷ [];
  last_session = 2;
  last_command = 3;
}

abbrev pub db : Db ℕ ℕ
db = record { world = 0; tables = two_sessions }

pub two_sessions-IsSound : IsSound two_sessions
two_sessions-IsSound = record {
  distinct = ((λ e. omega (arith, e), tt), (tt, tt));
  below = (omega arith, (omega arith, tt));
  owned = (inl refl, (inr (inl refl), (inr (inl refl), tt)));
}

abbrev pub typed : Session ℕ
typed = record {
  start_ts = pos 30;
  end_ts = pos 40;
  commands =
      record { ts = pos 31; feat = feat; raw_cmd = codes "make"; ip = codes "10.0.0.2" }
      ∷ record { ts = pos 32; feat = feat; raw_cmd = codes "ls"; ip = codes "10.0.0.2" }
      ∷ [];
  valid = true;
}

run_op-Refines_example :
    Refines counting (Op.pruning (pos 1)) db (run_op counting (Op.pruning (pos 1)) db)
run_op-Refines_example = run_op-Refines counting (Op.pruning (pos 1)) db two_sessions-IsSound tt

-- one more session, and then the oldest is dropped
abbrev two_calls : List (Op ℕ)
two_calls = Op.saving typed ∷ Op.pruning (pos 2) ∷ []

run_ops-history_example :
    (history (run_ops counting two_calls db).tables ≡ after two_calls (history two_sessions))
    × IsSound (run_ops counting two_calls db).tables
unfolding run_op save_session prune open_store transact insert_commands prune_oldest delete_oldest
    execute insert_session insert_command delete_commands delete_sessions oldest by_start
run_ops-history_example =
    run_ops-history counting two_calls db two_sessions-IsSound ((refl, (refl, tt)), (tt, tt))

store_err_example : two_sessions ≡ two_sessions
unfolding prune_and_load open_store transact prune_oldest delete_oldest load_rows load_each execute
    delete_commands delete_sessions oldest commands_of by_start
store_err_example = store_err full_disk typed (pos 1) db db (codes "commit: disk full") (inr refl)

save_then_load_example :
    (saved : Db ℕ ℕ) × (loaded : Db ℕ ℕ) × (xs : List (Session ℕ)) × (save_session counting typed db
      ≡ (ok tt, saved))
    × (prune_and_load counting (pos 2) saved ≡ (ok (xs, excess (pos 2) saved.tables), loaded))
    × (xs ≡ drop (excess (pos 2) saved.tables) (history two_sessions ++ typed ∷ []))
    × IsSound loaded.tables
save_then_load_example =
    save_then_load counting (λ q w. refl) typed (pos 2) db two_sessions-IsSound (refl, (refl, tt))
