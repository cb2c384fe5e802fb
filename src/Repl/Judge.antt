-- ===== src/Repl/Judge.antt =====
-- The first half of a round of `RunREPL`: how severe is the line?
use shell_sentry.Base.{List, ltb, if◌then◌else◌}
use shell_sentry.Base.Int.{ℤ}
use shell_sentry.Text.{Text, codes}
use shell_sentry.Rules.{RuleOutcome, check}
use shell_sentry.Path.{detect_path}
use shell_sentry.Decide.{Floats, Severity, rank, decide}
use shell_sentry.Feature.{Feature}
use shell_sentry.Ports.{Scored}
use shell_sentry.Repl.State.{Deps, State, alert}
use shell_sentry.Repl.Novelty.{novelty_severity}

module _ {W F : Type 0} (fl : Floats F) (d : Deps W F) (user session_id : Text) where
  -- On an error the score is +Inf.
  unfoldable pub score_severity : Feature F → State W F → Severity × State W F
  score_severity feat s =
      let (scored, w) = d.ports.score user session_id feat d.gen s.world in
      let s' = record s { world = w } in
      elim scored [
        | Scored.score_of x ↦ (decide fl x d.soft_thr d.hard_thr, s')
        | Scored.score_error e ↦ (
          decide fl fl.inf d.soft_thr d.hard_thr,
          alert d user session_id (codes "scorer-timeout") (codes "scorer unavailable") e s',
        )
      ]

  -- the `switch` on the outcome of the rules
  unfoldable pub rule_severity : RuleOutcome → Feature F → State W F → Severity × State W F
  unfolding score_severity
  rule_severity RuleOutcome.rule_challenge_hard feat s = (Severity.sev_hard, s)
  rule_severity RuleOutcome.rule_challenge_soft feat s = (Severity.sev_soft, s)
  rule_severity RuleOutcome.rule_allow feat s = (Severity.sev_none, s)
  rule_severity RuleOutcome.rule_none feat s = score_severity feat s

  -- the alert on a deny rule
  unfoldable pub deny_alert : RuleOutcome → Text → State W F → State W F
  deny_alert RuleOutcome.rule_challenge_hard line s =
      alert d user session_id (codes "rule-deny") (codes "deny rule matched") line s
  deny_alert _ line s = s

  -- the novelty gate, which an allow rule bypasses
  unfoldable pub novelty_gate :
      RuleOutcome → Text → Text → List Text → Text → Severity × State W F → Severity × State W F
  novelty_gate RuleOutcome.rule_allow country cmd args line r = r
  novelty_gate _ country cmd args line (sev, s) =
      let (path, has_path) = detect_path args in
      let (nsev, reason) = novelty_severity d cmd country path has_path in
      if ltb (rank sev) (rank nsev)
      then (nsev, alert d user session_id (codes "novelty") reason line s)
      else (sev, s)

  unfoldable pub judge :
      Text → Text → ℤ → Text → List Text → Feature F → State W F → Severity × State W F
  unfolding rule_severity deny_alert novelty_gate
  judge line country secs cmd args feat s =
      let outcome = check d.rules line country secs in
      let (sev, s') = rule_severity outcome feat s in
      novelty_gate outcome country cmd args line (sev, deny_alert outcome line s')
