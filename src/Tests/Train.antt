-- ===== src/Tests/Train.antt =====
-- The theorems of the training command at a concrete store.
use shell_sentry.Base.{
  ℕ, [], ◌∷◌, ◌++◌, drop, any, false, ◌⊎◌, none, some, ◌≡◌, refl, if◌then◌else◌,
}
use shell_sentry.Base.Int.{ℤ, pos}
use shell_sentry.Text.{codes, text_eq}
use shell_sentry.Result.{ok}
use shell_sentry.Store.Driver.{Db}
use shell_sentry.Store.Methods.{prune_and_load}
use shell_sentry.Store.Laws.{history, excess}
use shell_sentry.Setup.Config.{Config}
use shell_sentry.Train.Python.{Interpreters}
use shell_sentry.Train.Job.{Surroundings, Call, dicts_path, dicts_tmp, train_session}
use shell_sentry.Train.Publish.{
  touches, is_ok, before_rename, PublishedFrom, train_session-PublishedFrom,
}
use shell_sentry.Train.History.{rows_for, train_on_history}
use shell_sentry.Tests.Surroundings.{floats}
use shell_sentry.Tests.Store.{counting, db, two_sessions-IsSound}

abbrev pub config : Config
config = record {
  root_path = codes "/srv";
  geo_ip_db_path = codes "/geo";
  daemon_addr = codes "localhost:1";
  score_timeout = pos 200;
  alert_socket = codes "/run/alert";
  otp_retries = pos 3;
  rules_path = codes "/etc/rules";
  model_ttl_sec = pos 60;
  model_hmac_key_path = [];
  otp_socket = codes "/run/otp";
  otp_root = codes "/root/otp";
  command_timeout_ms = pos 0;
  min_sessions_train = pos 1;
  max_sessions_keep = pos 1;
  python_bin = [];
  trainer_script = [];
  novelty_severity = codes "hard";
}

abbrev machine : Surroundings (Db ℕ ℕ) ℕ
machine = record {
  prune_and_load = λ user keep. prune_and_load counting keep;
  country = λ ip w. (codes "US", w);
  join = λ a b. a ++ codes "/" ++ b;
  decimal = λ n. codes "7";
  encode_dicts = λ d. ok (codes "{}");
  encode_matrix = λ m. ok (codes "[]");
  mkdir_all = λ p w. (none, w);
  write_file = λ p raw w. (none, w);
  rename = λ a b w. (none, w);
  remove = λ p w. w;
  now = λ w. (pos 7, w);
  run = λ bin args payload w. (none, w);
}

abbrev pythons : Interpreters
pythons = record {
  venv_python = codes "python/venv/bin/python";
  default_script = codes "python/trainer.py";
  quote = λ s. s;
  stat = λ p. if text_eq p (codes "python/trainer.py") then none else some (codes "no such file");
  look_path = λ p. ok (codes "/usr/bin/python3");
  import_error = λ bin. none;
}

train_session-PublishedFrom_example :
    PublishedFrom floats machine config (codes "alice") (codes "python3") (codes "trainer.py") db (
      train_session floats machine config
        (codes "alice")
        (codes "python3")
        (codes "trainer.py")
        (record { world = db; calls = [] }))
train_session-PublishedFrom_example =
    train_session-PublishedFrom floats machine config (codes "alice") (codes "python3")
      (codes "trainer.py") db

train_on_history_example :
    (let out =
        train_session floats machine config
          (codes "alice")
          (codes "python3")
          (codes "trainer.py")
          (record { world = db; calls = [] }) in
      let rows =
        rows_for (λ ip. codes "US") (drop (excess (pos 1) db.tables) (history db.tables)) in
      let path = dicts_path floats machine config (codes "alice") in
      let tmp = dicts_tmp floats machine config (codes "alice") in
      (any (touches path) out.1.calls ≡ false)
      ⊎ ((gen : ℤ) × (out.1.calls
            ≡ Call.removed tmp
              ∷ Call.renamed tmp path (is_ok out.0)
              ∷ before_rename floats machine config
                  (codes "alice")
                  (codes "python3")
                  (codes "trainer.py")
                  rows
                  gen)))
train_on_history_example =
    train_on_history floats machine config (codes "alice") (codes "python3") (codes "trainer.py")
      (λ ip. codes "US") (λ ip w. refl) counting db (λ keep d. refl) two_sessions-IsSound
