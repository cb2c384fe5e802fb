-- ===== src/Feature.antt =====
-- go/core/feature.go and go/core/timecycle.go: the per-user encoders and the feature vector.
use shell_sentry.Base.{Bool, List, [], ◌∷◌, if◌then◌else◌, ◌≡◌, refl, arith}
use shell_sentry.Base.Int.{ℤ, pos, suc_ℤ}
use shell_sentry.Text.{Text, text_eq}
use shell_sentry.Text.Laws.{text_eq_iff}
use shell_sentry.Path.{no_path_index, detect_path}
use shell_sentry.Decide.{Floats}

-- map[string]int
abbrev pub Counts : Type 0
Counts = List (Text × ℤ)

-- `m[k]`: a missing key has the zero value
unfoldable pub get : Counts → Text → ℤ
get [] k = pos 0
get ((j, n) ∷ m) k = if text_eq j k then n else get m k

-- `m[k]++`
unfoldable pub increment : Counts → Text → Counts
increment [] k = (k, pos 1) ∷ []
increment ((j, n) ∷ m) k = if text_eq j k then (j, suc_ℤ n) ∷ m else (j, n) ∷ increment m k

pub get-increment :
    (m : Counts) (k j : Text)
    → get (increment m k) j ≡ (if text_eq k j then suc_ℤ (get m j) else get m j)
unfolding get increment
get-increment [] k j = refl
get-increment ((i, n) ∷ m) k j =
    ground (arith, text_eq_iff i k, text_eq_iff i j, text_eq_iff k j, get-increment m k j)

pub record Dicts : Type 0 where
  pub country : Counts
  pub command : Counts
  pub path : Counts

abbrev pub geo_id : Dicts → Text → ℤ
geo_id d country = get d.country country

abbrev pub cmd_index : Dicts → Text → ℤ
cmd_index d cmd = get d.command cmd

abbrev pub path_index : Dicts → Text → Bool → ℤ
path_index d path has_path = if has_path then get d.path path else no_path_index

pub record Feature (F : Type 0) : Type 0 where
  pub time_cos : F
  pub time_sin : F
  pub geo : ℤ
  pub cmd : ℤ
  pub path : ℤ
  pub secs_since_last : ℤ

module _ {F : Type 0} (fl : Floats F) where
  unfoldable pub time_cycle : ℤ → F × F
  time_cycle seconds_into_day =
      let angle = fl.div (fl.mul fl.two_pi (fl.of_int seconds_into_day)) (fl.of_int (pos 86400)) in
      (fl.cos angle, fl.sin angle)

  unfoldable pub build_feature : Dicts → ℤ → Text → Text → List Text → ℤ → Feature F
  build_feature d seconds_into_day country cmd args secs_since_last =
      let (cos, sin) = time_cycle seconds_into_day in
      let (path, has) = detect_path args in
      record {
        time_cos = cos;
        time_sin = sin;
        geo = geo_id d country;
        cmd = cmd_index d cmd;
        path = path_index d path has;
        secs_since_last = secs_since_last;
      }
