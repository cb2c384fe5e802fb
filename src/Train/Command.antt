-- ===== src/Train/Command.antt =====
-- `trainCmd` of go/cmd/ssentry/train.go, with the path of the configuration as all commands choose it.
use shell_sentry.Base.{
  not, if◌then◌else◌, Option, none, some, is_empty, ◌≡◌, refl, ap, ◌∙◌, ◌⊎◌, inl, inr, Bool-cases,
}
use shell_sentry.Text.{Text, codes}
use shell_sentry.Result.{Result, ok, err, Act}
use shell_sentry.Username.{UsernameError, valid_username}
use shell_sentry.Decide.{Floats}
use shell_sentry.Setup.Config.{Config}
use shell_sentry.Setup.Main.{username_message}
use shell_sentry.Train.Python.{Interpreters, resolve_python}
use shell_sentry.Train.Job.{Surroundings, Job, train_session}

-- the flag, $SSENTRY_CONFIG, or config.yaml
abbrev pub config_path : Text → Text → Text
config_path flag env =
    if not (is_empty flag) then flag else if not (is_empty env) then env else codes "config.yaml"

-- what makes the command give up before it opens the database
abbrev pub Unready : Interpreters → Text → Result Config → Type 0
Unready y user cfg =
    ((e : UsernameError) × (valid_username user ≡ some e))
    ⊎ ((m : Text) × (cfg ≡ err m))
    ⊎ ((c : Config) × (m : Text) × (cfg ≡ ok c) × (resolve_python y c ≡ err m))

module _ {W F : Type 0} (fl : Floats F) (y : Interpreters) (load : Text → Result Config) where
  -- `open_geo` gives the surroundings with the resolver of the configuration, or with `nopGeo`
  abbrev pub with_python :
      Surroundings W F → Config → Text → Result (Text × Text) → Act (Job W F) (Unit {0})
  with_python h cfg user (err m) j = (err m, j)
  with_python h cfg user (ok (bin, script)) j = train_session fl h cfg user bin script j

  abbrev pub with_config :
      (Config → Surroundings W F) → Text → Result Config → Act (Job W F) (Unit {0})
  with_config open_geo user (err m) j = (err m, j)
  with_config open_geo user (ok cfg) j =
      with_python (open_geo cfg) cfg user (resolve_python y cfg) j

  abbrev pub with_user :
      (Config → Surroundings W F)
      → Text
      → Result Config
      → Option UsernameError
      → Act (Job W F) (Unit {0})
  with_user open_geo user cfg (some e) j = (err (username_message y.quote e), j)
  with_user open_geo user cfg none j = with_config open_geo user cfg j

  unfoldable pub train_cmd :
      (Config → Surroundings W F) → Text → Text → Text → Act (Job W F) (Unit {0})
  train_cmd open_geo user flag env j =
      if is_empty user
      then (err (codes "--user is required"), j)
      else with_user open_geo user (load (config_path flag env)) (valid_username user) j

  abbrev Refuses : Result (Unit {0}) × Job W F → Job W F → Type 0
  Refuses out j = (m : Text) × (out ≡ (err m, j))

  with_config-Refuses :
      (open_geo : Config → Surroundings W F) (user : Text) (cfg : Result Config) (j : Job W F)
      → Unready y user cfg
      → (o : Option UsernameError) → valid_username user ≡ o
      → Refuses (with_user open_geo user cfg o j) j
  with_config-Refuses open_geo user cfg j u (some e) q = (username_message y.quote e, refl)
  with_config-Refuses open_geo user cfg j (inl (e, r)) none q = cc
  with_config-Refuses open_geo user cfg j (inr (inl (m, r))) none q =
      (m, ap (λ c. with_config open_geo user c j) r)
  with_config-Refuses open_geo user cfg j (inr (inr (c, m, r, p))) none q = (
    m,
    ap (λ c. with_config open_geo user c j) r ∙ ap (λ b. with_python (open_geo c) c user b j) p,
  )

  -- With a name that is not accepted, a configuration that cannot be loaded, or an interpreter that
  -- cannot be found or used, `train` returns an error and has called neither the store nor the
  -- trainer, and has changed nothing in the user's directory.
  pub train_cmd-Unready :
      (open_geo : Config → Surroundings W F) (user flag env : Text) (j : Job W F)
      → Unready y user (load (config_path flag env))
      → (m : Text) × (train_cmd open_geo user flag env j ≡ (err m, j))
  unfolding train_cmd
  train_cmd-Unready open_geo user flag env j u = elim (Bool-cases (is_empty user)) [
    | inl e ↦ (codes "--user is required", rw e refl)
    | inr e ↦ rw e (
        with_config-Refuses open_geo user (load (config_path flag env)) j u (valid_username user)
          refl)
  ]
