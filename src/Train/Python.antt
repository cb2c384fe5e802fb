-- ===== src/Train/Python.antt =====
-- `resolvePython`. What the file system and `$PATH` hold and what the interpreter can import are
-- parameters.
use shell_sentry.Base.{◌++◌, if◌then◌else◌, Option, none, some, is_empty, ◌≡◌, refl}
use shell_sentry.Text.{Text, codes}
use shell_sentry.Result.{Result, ok, err}
use shell_sentry.Setup.Config.{Config}

pub record Interpreters : Type 0 where
  -- filepath.Join of several elements, and %q
  pub venv_python : Text
  pub default_script : Text
  pub quote : Text → Text
  -- os.Stat, `none` for no error
  pub stat : Text → Option Text
  -- exec.LookPath
  pub look_path : Text → Result Text
  -- running the check of the packages: its error and output
  pub import_error : Text → Option Text

module _ (y : Interpreters) where
  abbrev find_default : Option Text → Result Text → Result Text
  find_default none found = ok y.venv_python
  find_default (some e) (ok p) = ok p
  find_default (some e) (err m) =
      err (codes "no python interpreter: set python_bin or install python3: " ++ m)

  abbrev find_given : Text → Option Text → Result Text → Result Text
  find_given bin none found = ok bin
  find_given bin (some e) (ok p) = ok p
  find_given bin (some e) (err m) =
      err (codes "python_bin " ++ y.quote bin ++ codes " not found: " ++ e)

  unfoldable pub find_bin : Text → Result Text
  find_bin bin =
      if is_empty bin
      then find_default (y.stat y.venv_python) (y.look_path (codes "python3"))
      else find_given bin (y.stat bin) (y.look_path bin)

  abbrev pub script_of : Text → Text
  script_of script = if is_empty script then y.default_script else script

  -- with the interpreter found, the script and the packages
  abbrev check_packages : Text → Text → Option Text → Result (Text × Text)
  check_packages bin script none = ok (bin, script)
  check_packages bin script (some e) = err (
      codes "python "
      ++ bin
      ++ codes " cannot import required packages (scikit-learn, numpy) — run 'make venv': "
      ++ e)

  abbrev check_script : Text → Text → Option Text → Result (Text × Text)
  check_script bin script none = check_packages bin script (y.import_error bin)
  check_script bin script (some e) =
      err (codes "trainer script " ++ y.quote script ++ codes " not found: " ++ e)

  abbrev with_bin : Text → Result Text → Result (Text × Text)
  with_bin script (ok bin) = check_script bin script (y.stat script)
  with_bin script (err m) = err m

  unfoldable pub resolve_python : Config → Result (Text × Text)
  unfolding find_bin
  resolve_python cfg = with_bin (script_of cfg.trainer_script) (find_bin cfg.python_bin)

  check_packages_ok :
      (bin script : Text) (o : Option Text) {r : Text × Text}
      → check_packages bin script o ≡ ok r
      → (o ≡ none) × (r ≡ (bin, script))
  check_packages_ok bin script none h = (refl, cc)
  check_packages_ok bin script (some e) h = cc

  check_script_ok :
      (bin script : Text) (o : Option Text) {r : Text × Text}
      → check_script bin script o ≡ ok r
      → (o ≡ none) × (y.import_error bin ≡ none) × (r ≡ (bin, script))
  check_script_ok bin script none h =
      let (a, b) = check_packages_ok bin script (y.import_error bin) h in (refl, a, b)
  check_script_ok bin script (some e) h = cc

  with_bin_ok :
      (script : Text) (found : Result Text) {r : Text × Text}
      → with_bin script found ≡ ok r
      → (found ≡ ok r.0) × (y.stat script ≡ none) × (y.import_error r.0 ≡ none) × (r.1 ≡ script)
  with_bin_ok script (ok bin) {r} h =
      let (a, b, c) = check_script_ok bin script (y.stat script) h in
      let bins : bin ≡ r.0 = cc in (cc (bins), a, cc (b, bins), cc (c))
  with_bin_ok script (err m) h = cc

  -- If `resolvePython` returns no error, the script is the configured or the default one and exists,
  -- and the interpreter is the one that was found and can import the packages.
  pub resolve_python_lem :
      (cfg : Config) (bin script : Text)
      → resolve_python cfg ≡ ok (bin, script)
      → (find_bin cfg.python_bin ≡ ok bin)
        × (script ≡ script_of cfg.trainer_script)
        × (y.stat script ≡ none)
        × (y.import_error bin ≡ none)
  unfolding resolve_python
  resolve_python_lem cfg bin script h =
      let (a, b, c, d) = with_bin_ok (script_of cfg.trainer_script) (find_bin cfg.python_bin) h in
      (a, d, cc (b, d), c)
