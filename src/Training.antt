-- ===== src/Training.antt =====
-- go/core/training.go: the encoders and the matrix of a training set.
pub mod Counts
pub mod Matrix
use shell_sentry.Base.{Bool, true, false, List, [], ◌∷◌, if◌then◌else◌, map, is_empty}
use shell_sentry.Base.Int.{ℤ}
use shell_sentry.Text.{Text}
use shell_sentry.Path.{detect_path}
use shell_sentry.Decide.{Floats, split_command}
use shell_sentry.Feature.{Dicts, increment, geo_id, cmd_index, path_index}

pub record TrainRow (F : Type 0) : Type 0 where
  pub raw_cmd : Text
  pub country : Text
  pub time_cos : F
  pub time_sin : F
  pub secs_since_last : ℤ

module _ {F : Type 0} where
  -- one round of the loop of `BuildDicts`
  unfoldable pub add_row : Dicts → TrainRow F → Dicts
  add_row d r =
      let (cmd, args) = split_command r.raw_cmd in
      let (p, ok) = detect_path args in
      record {
        command = if is_empty cmd then d.command else increment d.command cmd;
        country = if is_empty r.country then d.country else increment d.country r.country;
        path = if ok then increment d.path p else d.path;
      }

  pub add_rows : Dicts → List (TrainRow F) → Dicts
  unfolding add_row
  add_rows d [] = d
  add_rows d (r ∷ rows) = add_rows (add_row d r) rows

  unfoldable pub build_dicts : List (TrainRow F) → Dicts
  unfolding add_rows
  build_dicts rows = add_rows (record { country = []; command = []; path = [] }) rows

module _ {F : Type 0} (fl : Floats F) where
  pub matrix_row : Dicts → TrainRow F → List F
  matrix_row d r =
      let (cmd, args) = split_command r.raw_cmd in
      let (p, has_path) = detect_path args in
      r.time_cos
      ∷ r.time_sin
      ∷ fl.of_int (geo_id d r.country)
      ∷ fl.of_int (cmd_index d cmd)
      ∷ fl.of_int (path_index d p has_path)
      ∷ fl.of_int r.secs_since_last
      ∷ []

  unfoldable pub build_matrix : List (TrainRow F) → Dicts → List (List F)
  unfolding matrix_row
  build_matrix rows d = map (matrix_row d) rows
