-- ===== src/Setup/Artifacts.antt =====
-- `loadUserArtifacts`, `loadRules` and `clientIP`. What `os.ReadFile` finds and what the JSON decoder
-- makes of it are parameters; the warnings on stderr are left out.
use shell_sentry.Base.{[], ◌∷◌, Option, none, some}
use shell_sentry.Base.Int.{ℤ, pos}
use shell_sentry.Text.{Text, codes, fields}
use shell_sentry.Rules.{Rules, Filter}
use shell_sentry.Feature.{Dicts}
use shell_sentry.Username.{user_file}

-- thresholds.json; a `nil` pointer is `none`
pub record Thresholds (F : Type 0) : Type 0 where
  pub soft : Option F
  pub hard : Option F
  pub gen : ℤ

-- os.ReadFile and json.Unmarshal, `none` for an error
pub record Files (F : Type 0) : Type 0 where
  pub read_file : Text → Option Text
  pub decode_dicts : Text → Option Dicts
  pub decode_thresholds : Text → Option (Thresholds F)
  pub decode_rules : Text → Option Rules
  -- -1e18
  pub sentinel : F

pub record Artifacts (F : Type 0) : Type 0 where
  pub dicts : Dicts
  pub soft_thr : F
  pub hard_thr : F
  pub gen : ℤ

abbrev pub no_dicts : Dicts
no_dicts = record { country = []; command = []; path = [] }

abbrev pub no_filter : Filter
no_filter = record { deny = []; allow = [] }

abbrev pub no_rules : Rules
no_rules = record { commands = no_filter; min_seconds_between = pos 0; countries = no_filter }

-- `clientIP`, with the value of SSH_CONNECTION
unfoldable pub client_ip : Text → Text
client_ip connection = elim (fields connection) [ [] ↦ [] | ip ∷ _ ↦ ip ]

module _ {F : Type 0} (fs : Files F) where
  abbrev pub dicts_of : Option Text → Dicts
  dicts_of none = no_dicts
  dicts_of (some raw) = elim (fs.decode_dicts raw) [ none ↦ no_dicts | some d ↦ d ]

  -- soft, hard and the generation where there is no model
  abbrev pub no_model : F × F × ℤ
  no_model = (fs.sentinel, fs.sentinel, pos 0)

  abbrev pub if_both : Option F → Option F → ℤ → F × F × ℤ
  if_both (some soft) (some hard) gen = (soft, hard, gen)
  if_both (some soft) none gen = no_model
  if_both none hard gen = no_model

  abbrev pub thresholds_of : Option Text → F × F × ℤ
  thresholds_of none = no_model
  thresholds_of (some raw) = elim (fs.decode_thresholds raw) [
    | none ↦ no_model
    | some th ↦ if_both th.soft th.hard th.gen
  ]

  unfoldable pub load_user_artifacts : Text → Text → Artifacts F
  load_user_artifacts root user =
      let (soft, hard, gen) =
        thresholds_of (fs.read_file (user_file root user (codes "thresholds.json"))) in
      record {
        dicts = dicts_of (fs.read_file (user_file root user (codes "dicts.json")));
        soft_thr = soft;
        hard_thr = hard;
        gen = gen;
      }

  abbrev pub rules_of : Option Text → Rules
  rules_of none = no_rules
  rules_of (some raw) = elim (fs.decode_rules raw) [ none ↦ no_rules | some r ↦ r ]

  unfoldable pub load_rules : Text → Rules
  load_rules path = rules_of (fs.read_file path)
