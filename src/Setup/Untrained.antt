-- ===== src/Setup/Untrained.antt =====
-- A user without artifacts on a host without rules.
use shell_sentry.Base.{
  Bool, false, List, [], ◌∷◌, none, any, ◌≡◌, refl, ap, ◌∙◌, arith, Bool-cases, inl, inr,
}
use shell_sentry.Base.Int.{ℤ}
use shell_sentry.Text.{Text, codes}
use shell_sentry.Rules.{RuleOutcome, check, split_segments, token_prefix_match, contains}
use shell_sentry.Path.{detect_path}
use shell_sentry.Decide.{Floats, sev_none, decide}
use shell_sentry.Feature.{Feature}
use shell_sentry.Ports.{Scored, score_of}
use shell_sentry.Username.{user_file}
use shell_sentry.Repl.State.{Deps, State}
use shell_sentry.Repl.Novelty.{never_seen, novelty_severity, is_off}
use shell_sentry.Repl.Judge.{score_severity, judge}
use shell_sentry.Setup.Config.{Config}
use shell_sentry.Setup.Artifacts.{
  no_dicts, no_rules, load_user_artifacts, load_rules, thresholds_of, dicts_of, rules_of,
}
use shell_sentry.Setup.Main.{Host, deps_of}

none_applies : (segs : List Text) → any (token_prefix_match []) segs ≡ false
unfolding token_prefix_match
none_applies [] = refl
none_applies (s ∷ segs) = none_applies segs

check-no_rules :
    (line country : Text) (secs : ℤ) → check no_rules line country secs ≡ RuleOutcome.rule_none
unfolding check contains
check-no_rules line country secs = rw (none_applies (split_segments line)) refl

never_seen-no_dicts :
    (cmd country path : Text) (has : Bool) → never_seen no_dicts cmd country path has ≡ []
unfolding never_seen
never_seen-no_dicts cmd country path has = ground arith

module _ {W F : Type 0} (fl : Floats F) (d : Deps W F) (user session_id : Text) where
  novelty_untrained :
      (cmd country path : Text) (has : Bool)
      → d.dicts ≡ no_dicts
      → novelty_severity d cmd country path has ≡ (sev_none, [])
  unfolding novelty_severity
  novelty_untrained cmd country path has e = elim (Bool-cases (is_off d.novelty_severity)) [
    | inl o ↦ rw o refl
    | inr o ↦ rw (o, e, never_seen-no_dicts cmd country path has) refl
  ]

  score_untrained :
      (feat : Feature F) (s : State W F) (o : Scored F)
      → (d.ports.score user session_id feat d.gen s.world).0 ≡ o
      → ((x : F) → o ≡ score_of x → (fl.le x d.soft_thr ≡ false) × (fl.le x d.hard_thr ≡ false))
      → (fl.le fl.inf d.soft_thr ≡ false) × (fl.le fl.inf d.hard_thr ≡ false)
      → (score_severity fl d user session_id feat s).0 ≡ sev_none
  unfolding score_severity decide
  score_untrained feat s (score_of x) e f i =
      let (soft, hard) = f x refl in ground (arith, e, soft, hard)
  score_untrained feat s (Scored.score_error m) e f (soft, hard) = ground (arith, e, soft, hard)

  judge_untrained :
      (line country : Text) (secs : ℤ) (cmd : Text) (args : List Text) (feat : Feature F)
      (s : State W F)
      → d.rules ≡ no_rules
      → d.dicts ≡ no_dicts
      → (score_severity fl d user session_id feat s).0 ≡ sev_none
      → (judge fl d user session_id line country secs cmd args feat s).0 ≡ sev_none
  unfolding judge
  judge_untrained line country secs cmd args feat s r e v =
      let outcome = ap (λ r. check r line country secs) r ∙ check-no_rules line country secs in
      let novel = novelty_untrained cmd country (detect_path args).0 (detect_path args).1 e in
      rw outcome (rw (v, novel) refl)

module _ {W F : Type 0} (fl : Floats F) (h : Host W F) (cfg : Config) (user session_id : Text) where
  -- With no dicts.json, no thresholds.json and no rules file that can be read, no line is judged an
  -- anomaly, whatever the scorer answers, if no score that it gives, and not +Inf, is as low as -1e18.
  pub untrained_judge :
      (line country : Text) (secs : ℤ) (cmd : Text) (args : List Text) (feat : Feature F)
      (s : State W F)
      → h.files.read_file (user_file cfg.root_path user (codes "dicts.json")) ≡ none
      → h.files.read_file (user_file cfg.root_path user (codes "thresholds.json")) ≡ none
      → h.files.read_file cfg.rules_path ≡ none
      → ((x : F)
          → ((deps_of fl h cfg user).ports.score user session_id feat
              (deps_of fl h cfg user).gen
              s.world).0
            ≡ score_of x
          → fl.le x h.files.sentinel ≡ false)
      → fl.le fl.inf h.files.sentinel ≡ false
      → (judge fl (deps_of fl h cfg user) user session_id line country secs cmd args feat s).0
        ≡ sev_none
  unfolding load_user_artifacts load_rules
  untrained_judge line country secs cmd args feat s no_dicts_file no_thresholds no_rules_file above
        above_inf =
      let d = deps_of fl h cfg user in
      let thresholds = ap (thresholds_of h.files) no_thresholds in
      let soft : d.soft_thr ≡ h.files.sentinel = ap (λ (t : F × F × ℤ). t.0) thresholds in
      let hard : d.hard_thr ≡ h.files.sentinel = ap (λ (t : F × F × ℤ). t.1) thresholds in
      judge_untrained fl d user session_id line country secs cmd args feat s
        (ap (rules_of h.files) no_rules_file) (ap (dicts_of h.files) no_dicts_file)
        (score_untrained fl d user session_id feat s _ refl
          (λ x e. (ap (fl.le x) soft ∙ above x e, ap (fl.le x) hard ∙ above x e))
          (ap (fl.le fl.inf) soft ∙ above_inf, ap (fl.le fl.inf) hard ∙ above_inf))
