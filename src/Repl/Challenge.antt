-- ===== src/Repl/Challenge.antt =====
-- The second half of a round of `RunREPL`: the challenge policy. In the source a failed challenge is
-- followed by a `break`, which leaves the `switch` that it stands in and not the loop: the round
-- goes on behind the `switch`, as it does in every other case.
use shell_sentry.Base.{
  ℕ, zero, suc, Bool, true, false, ◌&&◌, ◌∷◌, [], Option, none, some, if◌then◌else◌, is_empty,
}
use shell_sentry.Base.Int.{pos_part}
use shell_sentry.Text.{Text, codes, trim_space}
use shell_sentry.Rules.{contains}
use shell_sentry.Decide.{Severity}
use shell_sentry.Repl.State.{Deps, State, Event, is_end, alert, read}

abbrev otp_name : Severity → Text
otp_name Severity.sev_hard = codes "hard-otp"
otp_name _ = codes "soft-otp"

-- how a try ends: `return true`, `return false`, or on to the next one
pub data Try (S : Type 0) : Type 0 where
  pass : S → Try S
  give_up : S → Try S
  retry : S → Try S

-- what an answer of `Validate` means; an error is no pass
abbrev pub judge_answer : {S : Type 0} → Option Bool → S → S → Try S
judge_answer none passed failed = retry failed
judge_answer (some true) passed failed = pass passed
judge_answer (some false) passed failed = retry failed

-- the rest of the loop behind a try
abbrev pub follow : {S : Type 0} → (S → Bool × S) → Try S → Bool × S
follow rest (pass t) = (true, t)
follow rest (give_up t) = (false, t)
follow rest (retry t) = rest t

module _ {W F : Type 0} (d : Deps W F) (user session_id : Text) where
  -- the body of the loop
  unfoldable pub try_once : Severity → State W F → Try (State W F)
  try_once sev s =
      let (r, s₁) = read (codes "OTP: ") s in
      let code = trim_space r.line in
      let (answer, w) = d.ports.validate user code s₁.world in
      let s₂ = record s₁ { world = w; trace = Event.validated code ∷ s₁.trace } in
      if is_empty code && is_end r.err
      then give_up s₁
      else judge_answer answer (alert d user session_id (otp_name sev) (codes "otp passed") [] s₂)
          s₂

  -- The loop; the number is the tries left.
  unfoldable pub challenge_loop : Severity → ℕ → State W F → Bool × State W F
  challenge_loop sev zero s = (false, s)
  challenge_loop sev (suc tries) s = follow (challenge_loop sev tries) (try_once sev s)

  unfoldable pub challenge : Severity → State W F → Bool × State W F
  unfolding challenge_loop
  challenge sev s = challenge_loop sev (pos_part d.otp_retries) s

  -- what follows the answer of `challenge`
  unfoldable pub settle : Text → Bool × State W F → State W F
  settle line (true, s) = record s { authorized = line ∷ s.authorized }
  settle line (false, s) =
      alert d user session_id (codes "bad-otp") (codes "otp failed") line
        (record s { session = record s.session { valid = false } })

  -- the `switch` on the severity
  unfoldable pub police : Severity → Text → State W F → State W F
  unfolding challenge settle
  police Severity.sev_none line s = s
  police Severity.sev_soft line s =
      alert d user session_id (codes "soft-log") (codes "soft anomaly logged") line s
  police Severity.sev_hard line s =
      if contains s.authorized line
      then alert d user session_id (codes "otp-cached") (codes "prior OTP authorization reused")
          line s
      else settle line (challenge Severity.sev_hard s)
