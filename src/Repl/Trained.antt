-- ===== src/Repl/Trained.antt =====
-- The novelty gate against the encoders of a training set.
use shell_sentry.Base.{Bool, true, false, List, [], ◌∷◌, ◌++◌, ◌≡◌, arith}
use shell_sentry.Base.Int.{pos, is_zero}
use shell_sentry.Text.Laws.{text_eq_refl}
use shell_sentry.Path.{detect_path}
use shell_sentry.Decide.{sev_none, split_command}
use shell_sentry.Training.{TrainRow, build_dicts}
use shell_sentry.Training.Counts.{count, has_command, has_country, has_path, build_dicts_counts}
use shell_sentry.Repl.State.{Deps}
use shell_sentry.Repl.Novelty.{never_seen, novelty_severity}

count-pos {ℓ} :
    {A : Type ℓ} (p : A → Bool) (before : List A) (x : A) (after : List A)
    → p x ≡ true
    → is_zero (pos (count p (before ++ x ∷ after))) ≡ false
count-pos p [] x after h = rw h
count-pos p (y ∷ before) x after h = ground (arith, count-pos p before x after h)

module _ {F : Type 0} where
  trained-seen :
      (before : List (TrainRow F)) (r : TrainRow F) (after : List (TrainRow F))
      → never_seen
          (build_dicts (before ++ r ∷ after))
          (split_command r.raw_cmd).0
          r.country
          (detect_path (split_command r.raw_cmd).1).0
          (detect_path (split_command r.raw_cmd).1).1
        ≡ []
  unfolding never_seen
  trained-seen before r after =
      let rows = before ++ r ∷ after in
      let (cmd, args) = split_command r.raw_cmd in
      let (p, ok) = detect_path args in
      ground (
        arith,
        (build_dicts_counts rows cmd).0,
        (build_dicts_counts rows r.country).1,
        (build_dicts_counts rows p).2,
        count-pos (has_command cmd) before r after,
        count-pos (has_country r.country) before r after,
        count-pos (has_path p) before r after,
        text_eq_refl cmd,
        text_eq_refl r.country,
        text_eq_refl p,
      )

module _ {W F : Type 0} (d : Deps W F) where
  -- With the encoders of a training set, no row of the set is novel: neither its command, nor its
  -- country, nor its path, however the gate is configured.
  pub novelty_severity-trained :
      (before : List (TrainRow F)) (r : TrainRow F) (after : List (TrainRow F))
      → d.dicts ≡ build_dicts (before ++ r ∷ after)
      → novelty_severity d
          (split_command r.raw_cmd).0
          r.country
          (detect_path (split_command r.raw_cmd).1).0
          (detect_path (split_command r.raw_cmd).1).1
        ≡ (sev_none, [])
  unfolding novelty_severity
  novelty_severity-trained before r after e =
      let n = trained-seen before r after in ground (arith, n, e)
