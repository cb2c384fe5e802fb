-- ===== src/Train/Job.antt =====
-- `trainSession` with `flattenRows`, `runTrainer` and `writeJSON`, and the command around it. The store
-- and the resolver of countries are the interfaces of the source; the messages are left out.
use shell_sentry.Base.{
  ℕ, Bool, true, false, List, [], ◌∷◌, ◌++◌, if◌then◌else◌, Option, none, some, is_empty, length,
}
use shell_sentry.Base.Int.{ℤ, pos, ltb_ℤ}
use shell_sentry.Text.{Text, codes}
use shell_sentry.Result.{Result, ok, err, Act, context, ◌>>=◌, ◌>>◌}
use shell_sentry.Decide.{Floats}
use shell_sentry.Feature.{Dicts}
use shell_sentry.Ports.{CommandRecord, Session}
use shell_sentry.Training.{TrainRow, build_dicts, build_matrix}
use shell_sentry.Setup.Config.{Config}

pub record Surroundings (W F : Type 0) : Type 0 where
  -- sessionStore.PruneAndLoad and GeoResolver.Country, the latter's error ignored
  pub prune_and_load : Text → ℤ → Act W (List (Session F) × ℕ)
  pub country : Text → W → Text × W
  -- filepath.Join, strconv.FormatInt and the two JSON encoders
  pub join : Text → Text → Text
  pub decimal : ℤ → Text
  pub encode_dicts : Dicts → Result Text
  pub encode_matrix : List (List F) → Result Text
  -- os.MkdirAll, os.WriteFile, os.Rename, os.Remove: `none`, or the text of the error
  pub mkdir_all : Text → W → Option Text × W
  pub write_file : Text → Text → W → Option Text × W
  pub rename : Text → Text → W → Option Text × W
  pub remove : Text → W → W
  -- time.Now().Unix(), and running a program with arguments and standard input
  pub now : W → ℤ × W
  pub run : Text → List Text → Text → W → Option Text × W

-- the calls that change the user's directory, each with whether it succeeded
pub data Call (F : Type 0) : Type 0 where
  made_dir : Text → Bool → Call F
  wrote : Text → Dicts → Bool → Call F
  trained : List Text → List (List F) → Bool → Call F
  renamed : Text → Text → Bool → Call F
  removed : Text → Call F

-- the world, and the calls so far, the latest first
pub record Job (W F : Type 0) : Type 0 where
  pub world : W
  pub calls : List (Call F)

abbrev pub succeeded : Option Text → Bool
succeeded none = true
succeeded (some e) = false

module _ {W F : Type 0} where
  -- the rest of a call: its entry, and its error in a context
  abbrev pub note :
      (Bool → Call F) → Text → List (Call F) → Option Text × W → Result (Unit {0}) × Job W F
  note call m calls (none, w) = (ok tt, record { world = w; calls = call true ∷ calls })
  note call m calls (some e, w) = (err (m ++ e), record { world = w; calls = call false ∷ calls })

  abbrev pub with_calls : {A : Type 0} → List (Call F) → Result A × W → Result A × Job W F
  with_calls calls (r, w) = (r, record { world = w; calls = calls })

module _ {W F : Type 0} (fl : Floats F) (h : Surroundings W F) where
  abbrev pub row_of : CommandRecord F → Text → TrainRow F
  row_of c country = record {
    raw_cmd = c.raw_cmd;
    country = country;
    time_cos = c.feat.time_cos;
    time_sin = c.feat.time_sin;
    secs_since_last = c.feat.secs_since_last;
  }

  -- the inner loop of `flattenRows`
  unfoldable pub flatten_commands : List (CommandRecord F) → W → List (TrainRow F) × W
  flatten_commands [] w = ([], w)
  flatten_commands (c ∷ cs) w =
      let (country, w₁) = h.country c.ip w in
      let (rows, w₂) = flatten_commands cs w₁ in (row_of c country ∷ rows, w₂)

  unfoldable pub flatten_rows : List (Session F) → W → List (TrainRow F) × W
  unfolding flatten_commands
  flatten_rows [] w = ([], w)
  flatten_rows (s ∷ sessions) w =
      let (rows, w₁) = flatten_commands s.commands w in
      let (rest, w₂) = flatten_rows sessions w₁ in (rows ++ rest, w₂)

  abbrev pub make_dir : Text → Act (Job W F) (Unit {0})
  make_dir dir j =
      note (Call.made_dir dir) (codes "mkdir user dir: ") j.calls (h.mkdir_all dir j.world)

  -- `writeJSON`, behind the encoder
  abbrev pub write_encoded : Text → Dicts → Result Text → Act (Job W F) (Unit {0})
  write_encoded path d (ok raw) j =
      note (Call.wrote path d) (codes "write dicts: write file: ") j.calls
        (h.write_file path raw j.world)
  write_encoded path d (err e) j = (err (codes "write dicts: marshal: " ++ e), j)

  unfoldable pub write_dicts : Text → Dicts → Act (Job W F) (Unit {0})
  write_dicts path d = write_encoded path d (h.encode_dicts d)

  abbrev pub trainer_args : Text → Text → Text → ℤ → List Text
  trainer_args script out_dir hmac_key gen =
      let args = script ∷ codes "--outdir" ∷ out_dir ∷ codes "--gen" ∷ h.decimal gen ∷ [] in
      if is_empty hmac_key then args else args ++ codes "--hmac-key" ∷ hmac_key ∷ []

  -- `runTrainer`, behind the encoder
  abbrev pub run_encoded : Text → List Text → List (List F) → Result Text → Act (Job W F) (Unit {0})
  run_encoded bin args matrix (ok payload) j =
      note (Call.trained args matrix) (codes "python trainer: run " ++ bin ++ codes ": ") j.calls
        (h.run bin args payload j.world)
  run_encoded bin args matrix (err e) j = (err (codes "python trainer: marshal matrix: " ++ e), j)

  unfoldable pub run_trainer :
      Text → Text → Text → List (List F) → Text → ℤ → Act (Job W F) (Unit {0})
  run_trainer bin script out_dir matrix hmac_key gen =
      run_encoded bin (trainer_args script out_dir hmac_key gen) matrix (h.encode_matrix matrix)

  abbrev pub publish : Text → Text → Act (Job W F) (Unit {0})
  publish tmp path j =
      note (Call.renamed tmp path) (codes "publish dicts: ") j.calls (h.rename tmp path j.world)

  -- the deferred os.Remove
  abbrev pub remove_staged : Text → Result (Unit {0}) × Job W F → Result (Unit {0}) × Job W F
  remove_staged path (r, j) =
      (r, record { world = h.remove path j.world; calls = Call.removed path ∷ j.calls })

  abbrev pub user_dir : Config → Text → Text
  user_dir cfg user = h.join cfg.root_path user

  abbrev pub dicts_path : Config → Text → Text
  dicts_path cfg user = h.join (user_dir cfg user) (codes "dicts.json")

  abbrev pub dicts_tmp : Config → Text → Text
  dicts_tmp cfg user = dicts_path cfg user ++ codes ".tmp"

  -- steps 5 and 6
  unfoldable pub train_staged :
      Config → Text → Text → Text → List (List F) → Act (Job W F) (Unit {0})
  unfolding run_trainer
  train_staged cfg user bin script matrix j =
      let (gen, w) = h.now j.world in
      let rest : Act (Job W F) (Unit {0}) = do
        run_trainer bin script (user_dir cfg user) matrix cfg.model_hmac_key_path gen
        publish (dicts_tmp cfg user) (dicts_path cfg user)
      in rest (record j { world = w })

  -- what follows once there are rows
  unfoldable pub train_rows :
      Config → Text → Text → Text → List (TrainRow F) → Act (Job W F) (Unit {0})
  unfolding write_dicts train_staged
  train_rows cfg user bin script rows =
      let dicts = build_dicts rows in
      let matrix = build_matrix fl rows dicts in
      (do
        make_dir (user_dir cfg user)
        write_dicts (dicts_tmp cfg user) dicts
        (λ j. remove_staged (dicts_tmp cfg user) (train_staged cfg user bin script matrix j)))

  abbrev pub load : Text → ℤ → Act (Job W F) (List (Session F) × ℕ)
  load user keep j =
      with_calls j.calls (context (codes "prune+load: ") (h.prune_and_load user keep j.world))

  abbrev pub train_loaded :
      Config → Text → Text → Text → List (Session F) → Act (Job W F) (Unit {0})
  train_loaded cfg user bin script sessions j =
      if ltb_ℤ (pos (length sessions)) cfg.min_sessions_train
      then (ok tt, j)
      else (let (rows, w) = flatten_rows sessions j.world in
          if is_empty rows
          then (ok tt, record j { world = w })
          else train_rows cfg user bin script rows (record j { world = w }))

  unfoldable pub train_session : Config → Text → Text → Text → Act (Job W F) (Unit {0})
  unfolding flatten_rows train_rows
  train_session cfg user bin script = do
    loaded ← load user cfg.max_sessions_keep
    train_loaded cfg user bin script loaded.0
