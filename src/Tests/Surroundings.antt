-- ===== src/Tests/Surroundings.antt =====
-- Surroundings of the command loop that answer with constants: scores are numbers, the world counts
-- the readings of the clock, and one code is accepted.
use shell_sentry.Base.{ℕ, suc, ◌*◌, ◌/◌, true, List, [], ◌∷◌, none, some, leb}
use shell_sentry.Base.Int.{pos, pos_part}
use shell_sentry.Text.{Text, codes, text_eq}
use shell_sentry.Rules.{Rules}
use shell_sentry.Decide.{Floats, sev_hard}
use shell_sentry.Training.{TrainRow, build_dicts}
use shell_sentry.Ports.{Ports, score_of, Reading, no_error}
use shell_sentry.Repl.State.{Deps}

abbrev pub floats : Floats ℕ
floats = record {
  le = leb;
  of_int = pos_part;
  mul = λ a b. a * b;
  div = λ a b. a / b;
  two_pi = 6;
  cos = λ a. a;
  sin = λ a. a;
  inf = 1000000;
}

abbrev pub rules : Rules
rules = record {
  commands = record { deny = codes "rm" ∷ []; allow = codes "ls" ∷ [] };
  min_seconds_between = pos 2;
  countries = record { deny = codes "KP" ∷ []; allow = [] };
}

abbrev pub row : Text → TrainRow ℕ
row line = record {
  raw_cmd = line;
  country = codes "US";
  time_cos = 1;
  time_sin = 0;
  secs_since_last = pos 5;
}

abbrev pub rows : List (TrainRow ℕ)
rows = row (codes "ls /tmp") ∷ row (codes "cat x") ∷ row (codes "ls") ∷ []

abbrev pub ports : Ports ℕ ℕ
ports = record {
  country = λ ip w. (codes "US", w);
  now = λ w. (pos w, suc w);
  instant = λ w. (w, w);
  seconds_since = λ t w. (pos 100, w);
  cwd = λ w. (codes "/home/alice", w);
  run_command = λ line w. (none, w);
  score = λ user sid feat gen w. (score_of 50, w);
  deliver = λ a w. (true, w);
  validate = λ user code w. (some (text_eq code (codes "123456")), w);
}

-- ports that leave any world alone; the verifier returns an error
abbrev pub quiet : {W : Type 0} → Ports W ℕ
quiet = record {
  country = λ ip w. (codes "US", w);
  now = λ w. (pos 0, w);
  instant = λ w. (0, w);
  seconds_since = λ t w. (pos 100, w);
  cwd = λ w. (codes "/home/alice", w);
  run_command = λ line w. (none, w);
  score = λ user sid feat gen w. (score_of 50, w);
  deliver = λ a w. (true, w);
  validate = λ user code w. (none, w);
}

abbrev pub deps : Deps ℕ ℕ
deps = record {
  ports = ports;
  rules = rules;
  dicts = record { country = []; command = []; path = [] };
  soft_thr = 20;
  hard_thr = 10;
  gen = pos 1;
  otp_retries = pos 2;
  novelty_severity = sev_hard;
  host = codes "box";
  home_dir = codes "/home/alice";
}

abbrev pub trained : Deps ℕ ℕ
trained = record deps { dicts = build_dicts rows }

abbrev pub typed : Text → Reading
typed line = record { line = line; err = no_error }
