-- ===== src/Training/Matrix.antt =====
-- The training matrix against the features that the scorer is sent.
use shell_sentry.Base.{List, [], ◌∷◌, map, ◌≡◌, refl, ap}
use shell_sentry.Base.Int.{ℤ}
use shell_sentry.Text.{Text}
use shell_sentry.Decide.{Floats, split_command}
use shell_sentry.Feature.{Dicts, Feature, time_cycle, build_feature}
use shell_sentry.Training.{TrainRow, matrix_row, build_matrix}

-- what the command loop knows of a line
pub record Observed : Type 0 where
  pub line : Text
  pub country : Text
  pub seconds_into_day : ℤ
  pub secs_since_last : ℤ

module _ {F : Type 0} (fl : Floats F) where
  -- the row of the training set that such a line leaves
  abbrev pub row_of : Observed → TrainRow F
  row_of o =
      let (cos, sin) = time_cycle fl o.seconds_into_day in
      record {
        raw_cmd = o.line;
        country = o.country;
        time_cos = cos;
        time_sin = sin;
        secs_since_last = o.secs_since_last;
      }

  -- the feature that the command loop builds for it
  abbrev pub feature_of : Dicts → Observed → Feature F
  feature_of d o =
      let (cmd, args) = split_command o.line in
      build_feature fl d o.seconds_into_day o.country cmd args o.secs_since_last

  -- the fields of a feature in their order, as numbers
  abbrev pub vector : Feature F → List F
  vector f =
      f.time_cos
      ∷ f.time_sin
      ∷ fl.of_int f.geo
      ∷ fl.of_int f.cmd
      ∷ fl.of_int f.path
      ∷ fl.of_int f.secs_since_last
      ∷ []

  -- The matrix of a training set holds, row for row and column for column, the features that the
  -- command loop builds for the same lines with the same encoders.
  pub build_matrix-build_feature :
      (d : Dicts) (lines : List Observed)
      → build_matrix fl (map row_of lines) d ≡ map (λ o. vector (feature_of d o)) lines
  unfolding build_matrix matrix_row build_feature
  build_matrix-build_feature d [] = refl
  build_matrix-build_feature d (o ∷ lines) =
      ap (λ (rest : List (List F)). vector (feature_of d o) ∷ rest)
        (build_matrix-build_feature d lines)
