-- ===== src/Repl/State.antt =====
-- The dependencies and the variables of `RunREPL`, and the two calls that every part makes: an alert
-- and a read. The user's input is the list of what `ReadLine` returns; once it is used up, the
-- reader stands at the end of input. Each call of a port, of the reader or of its writer is put on
-- the trace, the latest first.
use shell_sentry.Base.{ℕ, Bool, true, false, List, [], ◌∷◌}
use shell_sentry.Base.Int.{ℤ}
use shell_sentry.Text.{Text}
use shell_sentry.Rules.{Rules}
use shell_sentry.Decide.{Severity}
use shell_sentry.Feature.{Dicts}
use shell_sentry.Ports.{Session, Alert, Ports, ReadError, Reading}

-- `Store` is used by the caller of the loop alone, and `ScoreTimeout` by the scorer's port.
pub record Deps (W F : Type 0) : Type 0 where
  pub ports : Ports W F
  pub rules : Rules
  pub dicts : Dicts
  pub soft_thr : F
  pub hard_thr : F
  pub gen : ℤ
  pub otp_retries : ℤ
  pub novelty_severity : Severity
  pub host : Text
  pub home_dir : Text

pub data Event : Type 0 where
  prompted : Text → Event  -- ReadLine(prompt)
  rejected : Text → Event  -- the message on an incomplete line, with its reason
  alerted : Alert → Event
  validated : Text → Event  -- Validate was called with this code
  ran : Text → Bool → Event  -- RunCommand was called with this line; did it return no error?

-- the variables of `RunREPL`, with the world, the input left and the trace
pub record State (W F : Type 0) : Type 0 where
  pub world : W
  pub input : List Reading
  pub trace : List Event
  pub session : Session F
  pub last_cmd_time : ℕ
  pub authorized : List Text

abbrev pub is_end : ReadError → Bool
is_end ReadError.end_of_input = true
is_end _ = false

module _ {W F : Type 0} where
  -- The alert is delivered or not; a failure is only printed on stderr.
  unfoldable pub alert : Deps W F → Text → Text → Text → Text → Text → State W F → State W F
  alert d user sid sev reason detail s =
      let (ts, w) = d.ports.now s.world in
      let a : Alert = record {
        ts = ts;
        user = user;
        session_id = sid;
        severity = sev;
        reason = reason;
        detail = detail;
      } in
      let (_, w') = d.ports.deliver a w in record s { world = w'; trace = alerted a ∷ s.trace }

  -- lr.ReadLine(prompt)
  unfoldable pub read : Text → State W F → Reading × State W F
  read prompt s = elim s.input [
    | [] ↦ (
      record { line = []; err = ReadError.end_of_input },
      record s { trace = prompted prompt ∷ s.trace },
    )
    | r ∷ rs ↦ (r, record s { input = rs; trace = prompted prompt ∷ s.trace })
  ]
