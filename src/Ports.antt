-- ===== src/Ports.antt =====
-- go/core/session.go and go/ports/ports.go: the session that is recorded, and what the command loop
-- asks of its surroundings. A port is a function on an abstract world `W`: the model says nothing
-- of what a scorer, a clock, a shell or a socket answers.
use shell_sentry.Base.{ℕ, Bool, true, List, [], ◌∷◌, ◌++◌, Option}
use shell_sentry.Base.Int.{ℤ, pos}
use shell_sentry.Text.{Text}
use shell_sentry.Feature.{Feature}

pub record CommandRecord (F : Type 0) : Type 0 where
  pub ts : ℤ
  pub feat : Feature F
  pub raw_cmd : Text
  pub ip : Text

pub record Session (F : Type 0) : Type 0 where
  pub start_ts : ℤ
  pub end_ts : ℤ
  pub commands : List (CommandRecord F)
  pub valid : Bool

module _ {F : Type 0} where
  abbrev pub new_session : ℤ → Session F
  new_session start_ts = record { start_ts = start_ts; end_ts = pos 0; commands = []; valid = true }

  abbrev pub add : Session F → CommandRecord F → Session F
  add s rec = record s { commands = s.commands ++ rec ∷ [] }

pub record Alert : Type 0 where
  pub ts : ℤ
  pub user : Text
  pub session_id : Text
  pub severity : Text
  pub reason : Text
  pub detail : Text

-- a score, or the text of the error
pub data Scored (F : Type 0) : Type 0 where
  score_of : F → Scored F
  score_error : Text → Scored F

pub record Ports (W F : Type 0) : Type 0 where
  -- GeoResolver.Country(ip), its error ignored by the callers
  pub country : Text → W → Text × W
  -- the wall clock, in seconds
  pub now : W → ℤ × W
  -- a reading of the monotonic clock, and int(time.Since(t).Seconds())
  pub instant : W → ℕ × W
  pub seconds_since : ℕ → W → ℤ × W
  -- Shell.Cwd, its error ignored by the callers
  pub cwd : W → Text × W
  -- Shell.RunCommand: `none`, or the text of the error
  pub run_command : Text → W → Option Text × W
  -- Scorer.Score(user, session, features, generation) under the deadline
  pub score : Text → Text → Feature F → ℤ → W → Scored F × W
  -- Alerter.Alert: whether it was delivered
  pub deliver : Alert → W → Bool × W
  -- OTPVerifier.Validate(user, code): `none` is an error
  pub validate : Text → Text → W → Option Bool × W

-- how a `ReadLine` ended
pub data ReadError : Type 0 where
  no_error end_of_input other_error : ReadError

pub record Reading : Type 0 where
  pub line : Text
  pub err : ReadError
