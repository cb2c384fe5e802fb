-- ===== src/Tests/Setup.antt =====
-- The theorems of the set-up of a session, and of the scorer's client.
use shell_sentry.Base.{
  ℕ, suc, ◌++◌, true, false, [], ◌∷◌, All, none, some, Option, length, ◌≡◌, refl, ◌≤◌, leb, subst,
}
use shell_sentry.Base.Int.{pos}
use shell_sentry.Text.{Text, codes, text_eq, trim_space}
use shell_sentry.Result.{Result, ok}
use shell_sentry.Complete.{line_complete}
use shell_sentry.Decide.{sev_none, sev_hard}
use shell_sentry.Ports.{ReadError, Ports, Session}
use shell_sentry.Repl.Judge.{judge}
use shell_sentry.Repl.Challenge.{challenge}
use shell_sentry.Shell.Marker.{inject_of}
use shell_sentry.Setup.Config.{load_config}
use shell_sentry.Setup.Artifacts.{Files}
use shell_sentry.Setup.Nonce.{rand_nonce, rand_nonce-inject_of}
use shell_sentry.Setup.Main.{Host, Ended, deps_of, persist, run_session}
use shell_sentry.Setup.Saved.{Saved, run_session-Saved}
use shell_sentry.Setup.Retries.{challenge_first}
use shell_sentry.Setup.Untrained.{untrained_judge}
use shell_sentry.Adapters.{Socket, IsLine, score, read_string, max_response_bytes, score_lem}
use shell_sentry.Tests.Surroundings.{floats, ports, quiet, deps, typed}
use shell_sentry.Setup.Recorded.{stored, persist-history}
use shell_sentry.Repl.State.{State}
use shell_sentry.Store.Driver.{Db, execute}
use shell_sentry.Store.Tables.{insert_session, insert_command}
use shell_sentry.Store.Laws.{history}
use shell_sentry.Store.Retention.{IsSound}
use shell_sentry.Store.Methods.{save_session, open_store, transact, insert_commands}
use shell_sentry.Tests.Store.{two_sessions, two_sessions-IsSound, counting, db, typed as latest}
use shell_sentry.Tests.Session.{feat, right}
use shell_sentry.Tests.Train.{config}

rand_nonce-inject_of_example :
    line_complete (inject_of (codes "echo 'a b'") (codes "0aff") 3) ≡ (true, [])
unfolding rand_nonce line_complete
rand_nonce-inject_of_example =
    rand_nonce-inject_of (ok (10 ∷ 255 ∷ [])) (codes "0aff") (codes "echo 'a b'") 3 refl refl

abbrev no_files : Files ℕ
no_files = record {
  read_file = λ path. none;
  decode_dicts = λ raw. none;
  decode_thresholds = λ raw. none;
  decode_rules = λ raw. none;
  sentinel = 0;
}

abbrev host_of : {W : Type 0} → Ports W ℕ → (Text → Session ℕ → W → Option Text × W) → Host W ℕ
host_of adapters save_session = record {
  files = no_files;
  read_config = λ path. ok [];
  parse_yaml = λ raw. ok config;
  current_user = ok (codes "alice");
  home_dir = codes "/home/alice";
  hostname = codes "box";
  ssh_connection = codes "10.0.0.1 5000 10.0.0.2 22";
  quote = λ s. s;
  open_geo = λ path. none;
  adapters = λ cfg. adapters;
  ensure_provisioned = λ socket user w. (none, w);
  random_bytes = λ w. (ok (1 ∷ 2 ∷ []), w);
  start_shell = λ nonce timeout w. (none, w);
  is_terminal = true;
  make_raw = λ w. (none, w);
  save_session = save_session;
}

abbrev host : Host ℕ ℕ
host = host_of ports (λ user s w. (none, suc w))

run_session-Saved_example :
    (e : Result (Unit {0}) × Ended ℕ ℕ) × (run_session floats host
        (codes "config.yaml")
        (codes "s1")
        (typed (codes "ls\n") ∷ [])
        0
      ≡ some e)
    × All (Saved floats host (codes "s1") (typed (codes "ls\n") ∷ [])) e.1.saved
run_session-Saved_example =
    run_session-Saved floats host (codes "config.yaml") (codes "s1") (typed (codes "ls\n") ∷ []) 0

-- the host with the store, behind a run of the loop that recorded a session
abbrev keeping : Host (Db ℕ ℕ × ℕ) ℕ
keeping = host_of quiet (λ user s w. stored w.1 (save_session counting s w.0))

abbrev recorded : State (Db ℕ ℕ × ℕ) ℕ
recorded = record {
  world = (db, 7);
  input = [];
  trace = [];
  session = latest;
  last_cmd_time = 0;
  authorized = [];
}

persist-history_example :
    (history (persist floats keeping (codes "alice") recorded).1.world.0.tables
      ≡ history two_sessions ++ latest ∷ [])
    × IsSound (persist floats keeping (codes "alice") recorded).1.world.0.tables
unfolding persist save_session open_store transact insert_commands execute insert_session
    insert_command
persist-history_example =
    persist-history counting floats keeping (λ user s d rest. refl) (codes "alice") recorded
      two_sessions-IsSound (refl, (refl, tt))

challenge_first_example :
    (challenge deps
      (codes "alice")
      (codes "s1")
      sev_hard
      (record right { input = record { line = codes " 123456"; err = ReadError.no_error } ∷ [] })).0
    ≡ true
unfolding load_config text_eq trim_space
challenge_first_example =
    challenge_first (λ path. ok []) (λ raw. ok (record config { otp_retries = pos 2 }))
      (codes "config.yaml") (record config { otp_retries = pos 2 }) deps (codes "alice")
      (codes "s1") sev_hard right (codes " 123456") [] refl refl refl

untrained_judge_example :
    (judge floats
      (deps_of floats host config (codes "alice"))
      (codes "alice")
      (codes "s1")
      (codes "rm -rf x")
      (codes "US")
      (pos 0)
      (codes "rm")
      (codes "rm" ∷ codes "-rf" ∷ codes "x" ∷ [])
      feat
      right).0
    ≡ sev_none
untrained_judge_example =
    untrained_judge floats host config (codes "alice") (codes "s1") (codes "rm -rf x") (codes "US")
      (pos 0) (codes "rm") (codes "rm" ∷ codes "-rf" ∷ codes "x" ∷ []) feat right refl refl refl
      (λ x e. let same : 50 ≡ x = cc in subst (λ x. leb x 0 ≡ false) same refl) refl

abbrev socket : Socket ℕ
socket = record {
  dial = none;
  send = λ req. none;
  received = codes "{}\nmore";
  end_error = codes "EOF";
  decode = λ line. ok (length line);
}

score_lem_example :
    (line : Text) × (rest : Text) × (codes "{}\nmore" ≡ line ++ rest)
    × IsLine line
    × (length line ≤ max_response_bytes)
    × (socket.decode line ≡ ok 3)
unfolding score read_string
score_lem_example = score_lem socket (codes "alice") (codes "s1") feat (pos 1) 3 refl
