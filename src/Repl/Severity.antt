-- ===== src/Repl/Severity.antt =====
-- How severe a line is judged.
use shell_sentry.Base.{
  Bool, true, false, ◌&&◌, ◌||◌, not, is_empty, if◌then◌else◌, List, ◌≡◌, ◌≢◌, ◌↔◌, ◌⊎◌, ap, ◌∙◌,
  arith,
}
use shell_sentry.Base.Int.{ℤ, is_zero}
use shell_sentry.Text.{Text, codes}
use shell_sentry.Rules.{RuleOutcome, rule_allow, rule_challenge_hard, rule_none, check}
use shell_sentry.Path.{detect_path}
use shell_sentry.Decide.{Floats, Severity, sev_none, sev_soft, sev_hard, decide}
use shell_sentry.Feature.{Feature, geo_id, cmd_index, path_index}
use shell_sentry.Ports.{Scored}
use shell_sentry.Repl.State.{Deps, State, alert}
use shell_sentry.Repl.Novelty.{novelty_severity, never_seen}
use shell_sentry.Repl.Judge.{score_severity, judge}

abbrev is_hard : Severity → Bool
is_hard Severity.sev_hard = true
is_hard _ = false

abbrev stronger : Severity → Severity → Severity
stronger Severity.sev_none s = s
stronger Severity.sev_soft s = if is_hard s then Severity.sev_hard else Severity.sev_soft
stronger Severity.sev_hard s = Severity.sev_hard

-- the severity by the outcome of the rules, of the model and of the novelty gate
abbrev combined : RuleOutcome → Severity → Severity → Severity
combined RuleOutcome.rule_allow model novelty = Severity.sev_none
combined RuleOutcome.rule_challenge_hard model novelty = Severity.sev_hard
combined RuleOutcome.rule_challenge_soft model novelty = stronger Severity.sev_soft novelty
combined RuleOutcome.rule_none model novelty = stronger model novelty

decided :
    (outcome : RuleOutcome) (gate : Severity) (hard soft novel : Bool) (sev : Severity)
    → sev
      ≡ combined outcome
          (if hard then sev_hard else if soft then sev_soft else sev_none)
          (if novel then gate else sev_none)
    → ((sev ≡ sev_hard) ↔ (
        (outcome ≡ rule_challenge_hard)
        ⊎ ((outcome ≡ rule_none) × (hard ≡ true))
        ⊎ ((outcome ≢ rule_allow) × (gate ≡ sev_hard) × (novel ≡ true))))
      × ((sev ≡ sev_none) ↔ (
          (outcome ≡ rule_allow)
          ⊎ ((outcome ≡ rule_none)
              × (hard ≡ false)
              × (soft ≡ false)
              × ((gate ≡ sev_none) ⊎ (novel ≡ false)))))
decided outcome gate hard soft novel sev h =
    ((λ k. ground arith, λ k. ground arith), (λ k. ground arith, λ k. ground arith))

module _ {W F : Type 0} (fl : Floats F) (d : Deps W F) (user session_id : Text) where
  -- A line that a deny rule catches is judged hard, whatever novelty says and without a call of the
  -- scorer: the state changes by the `rule-deny` alert alone.
  pub judge-deny :
      (line country : Text) (secs : ℤ) (cmd : Text) (args : List Text) (feat : Feature F)
      (s : State W F)
      → check d.rules line country secs ≡ rule_challenge_hard
      → judge fl d user session_id line country secs cmd args feat s
        ≡ (sev_hard, alert d user session_id (codes "rule-deny") (codes "deny rule matched") line s)
  unfolding judge
  judge-deny line country secs cmd args feat s h = ground arith

  -- A line that an allow rule lets through is judged normal, with no alert and no call of a port.
  pub judge-allow :
      (line country : Text) (secs : ℤ) (cmd : Text) (args : List Text) (feat : Feature F)
      (s : State W F)
      → check d.rules line country secs ≡ rule_allow
      → judge fl d user session_id line country secs cmd args feat s ≡ (sev_none, s)
  unfolding judge
  judge-allow line country secs cmd args feat s h = rw h

  -- the score that is compared: that of the scorer, or +Inf where it cannot be had
  abbrev pub compared : Scored F → F
  compared (Scored.score_of x) = x
  compared (Scored.score_error e) = fl.inf

  abbrev pub is_below : F → Feature F → State W F → Bool
  is_below thr feat s = fl.le (compared (d.ports.score user session_id feat d.gen s.world).0) thr

  -- whether the command word, the country or the path, if there is one, has no index in the encoder of
  -- its kind, which is not empty
  abbrev pub is_novel : Text → Text → List Text → Bool
  is_novel cmd country args =
      let (path, has_path) = detect_path args in
      (not (is_empty cmd) && not (is_empty d.dicts.command) && is_zero (cmd_index d.dicts cmd))
      || (not (is_empty country)
          && not (is_empty d.dicts.country)
          && is_zero (geo_id d.dicts country))
      || (has_path && not (is_empty d.dicts.path) && is_zero (path_index d.dicts path true))

  novelty_severity_lem :
      (cmd country : Text) (args : List Text)
      → (novelty_severity d cmd country (detect_path args).0 (detect_path args).1).0
        ≡ (if is_novel cmd country args then d.novelty_severity else sev_none)
  unfolding novelty_severity never_seen
  novelty_severity_lem cmd country args = ground arith

  model_lem :
      (feat : Feature F) (s : State W F)
      → (score_severity fl d user session_id feat s).0 ≡ (
          if is_below d.hard_thr feat s
          then sev_hard
          else if is_below d.soft_thr feat s
          then sev_soft
          else sev_none)
  unfolding score_severity decide
  model_lem feat s = ground arith

  judge-combined :
      (line country : Text) (secs : ℤ) (cmd : Text) (args : List Text) (feat : Feature F)
      (s : State W F)
      → (judge fl d user session_id line country secs cmd args feat s).0
        ≡ combined
            (check d.rules line country secs)
            (score_severity fl d user session_id feat s).0
            (novelty_severity d cmd country (detect_path args).0 (detect_path args).1).0
  unfolding judge
  judge-combined line country secs cmd args feat s = ground arith

  -- A line is judged hard if and only if a deny rule catches it, or no rule does and the score of the
  -- model, or +Inf where the scorer fails, is at most the hard threshold, or no allow rule does, the
  -- novelty gate is configured as hard, and the command word, the country or the path is novel. It is
  -- judged normal if and only if an allow rule lets it through, or no rule catches it, that score lies
  -- above both thresholds, and the gate is off or nothing of the line is novel.
  pub judge_lem :
      (line country : Text) (secs : ℤ) (cmd : Text) (args : List Text) (feat : Feature F)
      (s : State W F)
      → (let outcome = check d.rules line country secs in
          let sev = (judge fl d user session_id line country secs cmd args feat s).0 in
          ((sev ≡ sev_hard) ↔ (
            (outcome ≡ rule_challenge_hard)
            ⊎ ((outcome ≡ rule_none) × (is_below d.hard_thr feat s ≡ true))
            ⊎ ((outcome ≢ rule_allow)
                × (d.novelty_severity ≡ sev_hard)
                × (is_novel cmd country args ≡ true))))
          × ((sev ≡ sev_none) ↔ (
              (outcome ≡ rule_allow)
              ⊎ ((outcome ≡ rule_none)
                  × (is_below d.hard_thr feat s ≡ false)
                  × (is_below d.soft_thr feat s ≡ false)
                  × ((d.novelty_severity ≡ sev_none) ⊎ (is_novel cmd country args ≡ false))))))
  judge_lem line country secs cmd args feat s =
      let outcome = check d.rules line country secs in
      let novelty = (novelty_severity d cmd country (detect_path args).0 (detect_path args).1).0 in
      decided outcome d.novelty_severity (is_below d.hard_thr feat s) (is_below d.soft_thr feat s)
        (is_novel cmd country args) _
        (judge-combined line country secs cmd args feat s
          ∙ ap (λ m. combined outcome m novelty) (model_lem feat s)
          ∙ ap (combined outcome _) (novelty_severity_lem cmd country args))
