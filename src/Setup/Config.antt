-- ===== src/Setup/Config.antt =====
-- go/cmd/ssentry/config.go. Reading the file and parsing the YAML are parameters.
use shell_sentry.Base.{
  ℕ, suc, ◌-◌, ◌*◌, ◌%◌, ◌≤◌, true, ◌||◌, ◌++◌, if◌then◌else◌, ltb, is_empty, ◌≡◌, refl, sym, ap,
  ◌∙◌, arith, Bool-cases, inl, inr,
}
use shell_sentry.Base.Int.{ℤ, pos, negsuc, ltb_ℤ}
use shell_sentry.Text.{Text, codes, text_eq}
use shell_sentry.Result.{Result, ok, err}
use shell_sentry.Decide.{Severity, sev_none, sev_soft, sev_hard}

pub record Config : Type 0 where
  pub root_path : Text
  pub geo_ip_db_path : Text
  pub daemon_addr : Text
  pub score_timeout : ℤ
  pub alert_socket : Text
  pub otp_retries : ℤ
  pub rules_path : Text
  pub model_ttl_sec : ℤ
  pub model_hmac_key_path : Text
  pub otp_socket : Text
  pub otp_root : Text
  pub command_timeout_ms : ℤ
  pub min_sessions_train : ℤ
  pub max_sessions_keep : ℤ
  pub python_bin : Text
  pub trainer_script : Text
  pub novelty_severity : Text

unfoldable pub novelty_sev : Config → Severity
unfolding text_eq
novelty_sev c =
    if is_empty c.novelty_severity || text_eq c.novelty_severity (codes "soft")
    then sev_soft
    else if text_eq c.novelty_severity (codes "off")
    then sev_none
    else if text_eq c.novelty_severity (codes "hard")
    then sev_hard
    else sev_soft

-- `LoadConfig`, behind the reading and the parsing
abbrev pub with_retries : Config → Config
with_retries c = if ltb_ℤ (pos 0) c.otp_retries then c else record c { otp_retries = pos 3 }

abbrev pub parsed : Result Config → Result Config
parsed (ok c) = ok (with_retries c)
parsed (err e) = err (codes "parse config: " ++ e)

unfoldable pub load_config : (Text → Result Text) → (Text → Result Config) → Text → Result Config
load_config read_file parse_yaml path = elim (read_file path) [
  | ok raw ↦ parsed (parse_yaml raw)
  | err e ↦ err (codes "read config: " ++ e)
]

abbrev modulus : ℕ
modulus = 18446744073709551616

-- the int64 that has these 64 bits
abbrev pub signed : ℕ → ℤ
signed n = if ltb n 9223372036854775808 then pos n else negsuc (modulus - 1 - n)

-- `time.Duration(n) * time.Millisecond`, in 64 bits
unfoldable pub of_milliseconds : ℤ → ℤ
of_milliseconds (pos n) = signed (n * 1000000 % modulus)
of_milliseconds (negsuc n) = signed ((modulus - suc n * 1000000 % modulus) % modulus)

abbrev pub score_timeout_dur : Config → ℤ
score_timeout_dur c = of_milliseconds c.score_timeout

abbrev pub command_timeout_dur : Config → ℤ
command_timeout_dur c = of_milliseconds c.command_timeout_ms

with_retries_positive : (c : Config) → ltb_ℤ (pos 0) (with_retries c).otp_retries ≡ true
with_retries_positive c = elim (Bool-cases (ltb_ℤ (pos 0) c.otp_retries)) [
  | inl e ↦ rw e e
  | inr e ↦ rw e refl
]

parsed_positive :
    (r : Result Config) {c : Config} → parsed r ≡ ok c → ltb_ℤ (pos 0) c.otp_retries ≡ true
parsed_positive (ok b) {c} h =
    let same : with_retries b ≡ c = cc in
    ap (λ (c : Config). ltb_ℤ (pos 0) c.otp_retries) (sym same) ∙ with_retries_positive b
parsed_positive (err e) h = cc

-- A configuration that is loaded allows at least one try of a code, whatever the file says.
pub load_config_positive :
    (read_file : Text → Result Text) (parse_yaml : Text → Result Config) (path : Text) (c : Config)
    → load_config read_file parse_yaml path ≡ ok c
    → ltb_ℤ (pos 0) c.otp_retries ≡ true
unfolding load_config
load_config_positive read_file parse_yaml path c h = of_raw (read_file path) h
  where
    of_raw :
        (r : Result Text)
        → (elim r [ ok raw ↦ parsed (parse_yaml raw) | err e ↦ err (codes "read config: " ++ e) ])
          ≡ ok c
        → ltb_ℤ (pos 0) c.otp_retries ≡ true
    of_raw (ok raw) k = parsed_positive (parse_yaml raw) k
    of_raw (err e) k = cc

-- A timeout of up to 9223372036854 milliseconds is the same number of nanoseconds times a million:
-- the multiplication does not overflow.
pub of_milliseconds_exact :
    (n : ℕ) → n ≤ 9223372036854 → of_milliseconds (pos n) ≡ pos (n * 1000000)
unfolding of_milliseconds
of_milliseconds_exact n h =
    let small : n * 1000000 % modulus ≡ n * 1000000 = omega (arith, h) in rw small (ground arith)
