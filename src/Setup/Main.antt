-- ===== src/Setup/Main.antt =====
-- `runSession` of go/cmd/ssentry/main.go: what must succeed before a shell is started, the wiring of the
-- command loop, and what is saved behind it. The signals, the sizes of the terminal and the closing
-- of what was opened are left out.
use shell_sentry.Base.{
  ℕ, Bool, ◌&&◌, not, List, [], ◌∷◌, ◌++◌, if◌then◌else◌, Option, none, some, is_empty,
}
use mathlib.Core.Option
use shell_sentry.Base.Int.{ℤ}
use shell_sentry.Text.{Text, codes}
use shell_sentry.Result.{Result, ok, err, Act, pure, ◌>>=◌, ◌>>◌}
use shell_sentry.Username.{UsernameError, valid_username}
use shell_sentry.Decide.{Floats}
use shell_sentry.Ports.{Session, Ports, Reading}
use shell_sentry.Repl.State.{Deps, State}
use shell_sentry.Repl.Loop.{run_repl}
use shell_sentry.Setup.Config.{Config, load_config, novelty_sev, command_timeout_dur}
use shell_sentry.Setup.Artifacts.{Files, load_user_artifacts, load_rules, client_ip}
use shell_sentry.Setup.Nonce.{rand_nonce}

-- what `runSession` asks of the system, of the libraries and of the adapters
pub record Host (W F : Type 0) : Type 0 where
  pub files : Files F
  pub read_config : Text → Result Text
  pub parse_yaml : Text → Result Config
  pub current_user : Result Text
  pub home_dir : Text
  pub hostname : Text
  pub ssh_connection : Text
  -- %q
  pub quote : Text → Text
  -- geomaxmind.New: the resolver, `none` for an error
  pub open_geo : Text → Option (Text → W → Text × W)
  -- the adapters for a configuration
  pub adapters : Config → Ports W F
  -- EnsureProvisioned, rand.Read, ptyshell.New, term.IsTerminal, term.MakeRaw
  pub ensure_provisioned : Text → Text → W → Option Text × W
  pub random_bytes : W → Result (List ℕ) × W
  pub start_shell : Text → ℤ → W → Option Text × W
  pub is_terminal : Bool
  pub make_raw : W → Option Text × W
  -- Store.SaveSession
  pub save_session : Text → Session F → W → Option Text × W

abbrev pub username_message : (Text → Text) → UsernameError → Text
username_message quote (UsernameError.invalid user) = codes "invalid username " ++ quote user
username_message quote (UsernameError.has_separator user) =
    codes "invalid username " ++ quote user ++ codes ": contains path separator or NUL"

-- nopGeo.Country
abbrev pub nop_country : {W : Type 0} → Text → W → Text × W
nop_country ip w = ([], w)

-- a call that returns an error or nil
abbrev pub try : {W : Type 0} → Text → Option Text × W → Result (Unit {0}) × W
try m (none, w) = (ok tt, w)
try m (some e, w) = (err (m ++ e), w)

-- how a session ends: the world, and the sessions that were given to the store
pub record Ended (W F : Type 0) : Type 0 where
  pub world : W
  pub saved : List (Text × Session F)

module _ {W F : Type 0} (fl : Floats F) (h : Host W F) where
  abbrev pub deps_of : Config → Text → Deps W F
  deps_of cfg user =
      let artifacts = load_user_artifacts h.files cfg.root_path user in
      let country : Text → W → Text × W = elim (h.open_geo cfg.geo_ip_db_path) [
        | none ↦ nop_country
        | some c ↦ c
      ] in
      record {
        ports = record (h.adapters cfg) { country = country };
        rules = load_rules h.files cfg.rules_path;
        dicts = artifacts.dicts;
        soft_thr = artifacts.soft_thr;
        hard_thr = artifacts.hard_thr;
        gen = artifacts.gen;
        otp_retries = cfg.otp_retries;
        novelty_severity = novelty_sev cfg;
        host = h.hostname;
        home_dir = h.home_dir;
      }

  abbrev pub lift : {A : Type 0} → Text → Result A → Act W A
  lift m (ok a) w = (ok a, w)
  lift m (err e) w = (err (m ++ e), w)

  abbrev pub check_user : Text → Act W (Unit {0})
  check_user user w = elim (valid_username user) [
    | none ↦ (ok tt, w)
    | some e ↦ (err (codes "refusing session: " ++ username_message h.quote e), w)
  ]

  abbrev pub check_socket : Config → Act W (Unit {0})
  check_socket cfg w =
      if is_empty cfg.otp_socket
      then (err (codes "otp_socket not configured; start `ssentry otpd` and set otp_socket"), w)
      else (ok tt, w)

  abbrev pub draw_nonce : Act W Text
  draw_nonce w = let (r, w') = h.random_bytes w in (rand_nonce r, w')

  abbrev pub raw_mode : Act W (Unit {0})
  raw_mode w =
      if h.is_terminal then try (codes "set terminal raw mode: ") (h.make_raw w) else (ok tt, w)

  -- up to the call of `RunREPL`: the user and the dependencies of the loop
  unfoldable pub prepare : Text → Act W (Text × Deps W F)
  prepare path = do
    cfg ← lift [] (load_config h.read_config h.parse_yaml path)
    user ← lift (codes "current user: ") h.current_user
    check_user user
    check_socket cfg
    (λ w. try [] (h.ensure_provisioned cfg.otp_socket user w))
    nonce ← draw_nonce
    (λ w. try [] (h.start_shell nonce (command_timeout_dur cfg) w))
    raw_mode
    pure (user, deps_of cfg user)

  -- behind `RunREPL`
  unfoldable pub persist : Text → State W F → Result (Unit {0}) × Ended W F
  persist user t =
      if t.session.valid && not (is_empty t.session.commands)
      then (let (r, w) = try (codes "save session: ") (h.save_session user t.session t.world) in
          (r, record { world = w; saved = (user, t.session) ∷ [] }))
      else (ok tt, record { world = t.world; saved = [] })

  -- `none` would be a loop that runs out of fuel
  abbrev pub run_prepared :
      Text → List Reading → Result (Text × Deps W F) × W → Option (Result (Unit {0}) × Ended W F)
  run_prepared session_id input (err e, w) = some (err e, record { world = w; saved = [] })
  run_prepared session_id input (ok (user, d), w) =
      Option.map (persist user) (run_repl fl d user (client_ip h.ssh_connection) session_id w input)

  unfoldable pub run_session :
      Text → Text → List Reading → W → Option (Result (Unit {0}) × Ended W F)
  unfolding prepare persist
  run_session path session_id input w = run_prepared session_id input (prepare path w)
