-- ===== src/Repl/Kept.antt =====
-- Every part of a round keeps the trace and the variables consistent.
use shell_sentry.Base.{
  ℕ, ◌≤◌, Bool, true, false, List, ◌≡◌, refl, arith, Bool-cases, length, inl, inr,
}
use shell_sentry.Base.Int.{ℤ, pos_part}
use shell_sentry.Text.{Text, codes, text_eq}
use shell_sentry.Rules.{
  RuleOutcome, rule_none, rule_allow, rule_challenge_soft, rule_challenge_hard, check, contains,
}
use shell_sentry.Decide.{Floats, Severity, sev_none, sev_soft, sev_hard}
use shell_sentry.Feature.{Feature}
use shell_sentry.Repl.State.{Deps, State, alert}
use shell_sentry.Repl.Judge.{score_severity, rule_severity, deny_alert, novelty_gate, judge}
use shell_sentry.Repl.Challenge.{challenge, settle, police}
use shell_sentry.Repl.Trace.{calls, IsConsistent}
use shell_sentry.Repl.Otp.{Asked, Asked-trans, challenge_loop-Asked}

module _ {W F : Type 0} (d : Deps W F) (user session_id : Text) where
  alert-Asked :
      (sev reason detail : Text) (s : State W F)
      → text_eq sev (codes "bad-otp") ≡ false
      → text_eq sev (codes "hard-otp") ≡ false
      → Asked 0 s false (alert d user session_id sev reason detail s)
  unfolding alert
  alert-Asked sev reason detail s h k = ground arith

module _ {W F : Type 0} (fl : Floats F) (d : Deps W F) (user session_id : Text) where
  score_severity-Asked :
      (feat : Feature F) (s : State W F)
      → Asked 0 s false (score_severity fl d user session_id feat s).1
  unfolding score_severity alert text_eq
  score_severity-Asked feat s = ground arith

  rule_severity-Asked :
      (outcome : RuleOutcome) (feat : Feature F) (s : State W F)
      → Asked 0 s false (rule_severity fl d user session_id outcome feat s).1
  unfolding rule_severity
  rule_severity-Asked rule_none feat s = score_severity-Asked feat s
  rule_severity-Asked rule_allow feat s = ground arith
  rule_severity-Asked rule_challenge_soft feat s = ground arith
  rule_severity-Asked rule_challenge_hard feat s = ground arith

  deny_alert-Asked :
      (outcome : RuleOutcome) (line : Text) (s : State W F)
      → Asked 0 s false (deny_alert fl d user session_id outcome line s)
  unfolding deny_alert text_eq
  deny_alert-Asked rule_challenge_hard line s = alert-Asked d user session_id _ _ line s refl refl
  deny_alert-Asked _ line s = ground arith

  novelty_gate-Asked :
      (outcome : RuleOutcome) (country cmd : Text) (args : List Text) (line : Text) (sev : Severity)
      (s : State W F)
      → Asked 0 s false (novelty_gate fl d user session_id outcome country cmd args line (sev, s)).1
  unfolding novelty_gate alert text_eq
  novelty_gate-Asked rule_allow country cmd args line sev s = ground arith
  novelty_gate-Asked _ country cmd args line sev s = ground arith

  pub judge-Asked :
      (line country : Text) (secs : ℤ) (cmd : Text) (args : List Text) (feat : Feature F)
      (s : State W F)
      → Asked 0 s false (judge fl d user session_id line country secs cmd args feat s).1
  unfolding judge
  judge-Asked line country secs cmd args feat s =
      let outcome = check d.rules line country secs in
      let (sev, t) = rule_severity fl d user session_id outcome feat s in
      let u = deny_alert fl d user session_id outcome line t in
      Asked-trans 0 0 0 s t _ false (omega arith) (rule_severity-Asked outcome feat s) (
        Asked-trans 0 0 0 t u _ false (omega arith) (deny_alert-Asked outcome line t)
          (novelty_gate-Asked outcome country cmd args line sev u))

pub Asked-IsConsistent :
    {W F : Type 0} (n : ℕ) (s t : State W F) → Asked n s false t → IsConsistent s → IsConsistent t
Asked-IsConsistent n s t a h = ground arith

-- The policy keeps the records; it runs nothing and uses up input at most.
pub record Policed {W F : Type 0} (s t : State W F) : Type 0 where
  pub consistent : IsConsistent s → IsConsistent t
  pub calls_kept : calls t.trace ≡ calls s.trace
  pub input_used : length t.input ≤ length s.input

module _ {W F : Type 0} (d : Deps W F) (user session_id : Text) where
  Asked-Policed : (s t : State W F) → Asked 0 s false t → Policed s t
  Asked-Policed s t a = record {
    consistent = Asked-IsConsistent 0 s t a;
    calls_kept = a.calls_kept;
    input_used = a.input_used;
  }

  settle-Policed :
      (line : Text) (n : ℕ) (s : State W F) (b : Bool) (t : State W F)
      → Asked n s b t
      → Policed s (settle d user session_id line (b, t))
  unfolding settle alert text_eq
  settle-Policed line n s true t a = record {
    consistent = λ h. ground arith;
    calls_kept = a.calls_kept;
    input_used = a.input_used;
  }
  settle-Policed line n s false t a = record {
    consistent = λ h. ground arith;
    calls_kept = a.calls_kept;
    input_used = a.input_used;
  }

  pub police-Policed :
      (sev : Severity) (line : Text) (s : State W F)
      → Policed s (police d user session_id sev line s)
  unfolding police challenge
  police-Policed sev_none line s = ground arith
  police-Policed sev_soft line s =
      unfold text_eq in Asked-Policed s _ (alert-Asked d user session_id _ _ line s refl refl)
  police-Policed sev_hard line s = elim (Bool-cases (contains s.authorized line)) [
    | inl e ↦
        rw e
          (unfold text_eq in Asked-Policed s _ (alert-Asked d user session_id _ _ line s refl refl))
    | inr e ↦ rw e (
        settle-Policed line (pos_part d.otp_retries) s _ _
          (challenge_loop-Asked d user session_id (pos_part d.otp_retries) s))
  ]
