-- ===== src/Repl/Loop.antt =====
-- `RunREPL`: a round, the loop and the session that it returns.
use shell_sentry.Base.{
  ℕ, zero, suc, Bool, true, false, ◌&&◌, ◌||◌, List, [], ◌∷◌, length, Option, none, some,
  if◌then◌else◌, is_empty,
}
use mathlib.Core.Option
use shell_sentry.Base.Int.{ℤ, pos, ltb_ℤ, rem}
use shell_sentry.Text.{Text, codes, text_eq, trim_space, trim_line_end}
use shell_sentry.Complete.{line_complete}
use shell_sentry.Decide.{Floats, split_command}
use shell_sentry.Feature.{Feature, build_feature}
use shell_sentry.Ports.{new_session, add, ReadError, Reading}
use shell_sentry.Repl.State.{Deps, State, Event, is_end, alert, read}
use shell_sentry.Repl.Prompt.{build_prompt}
use shell_sentry.Repl.Judge.{judge}
use shell_sentry.Repl.Challenge.{police}

-- how a round ends: the loop is left, or goes on
pub data Next (S : Type 0) : Type 0 where
  stop : S → Next S
  again : S → Next S

abbrev pub stop_if : {S : Type 0} → Bool → S → Next S
stop_if true s = stop s
stop_if false s = again s

-- the rest of the loop behind a round
abbrev pub carry_on : {S : Type 0} → (S → Option S) → Next S → Option S
carry_on rest (stop s) = some s
carry_on rest (again s) = rest s

module _ {W F : Type 0} (fl : Floats F) (d : Deps W F) (user ip session_id country : Text) where
  -- what follows the answer of the shell; the Boolean tells that the input has ended
  unfoldable pub after_command :
      Text → ℤ → Feature F → Bool → State W F → Option Text × W → Next (State W F)
  after_command line now feat ended s (some e, w) =
      let s' =
        alert d user session_id (codes "shell-error") (codes "shell command failed") e
          (record s { world = w; trace = Event.ran line false ∷ s.trace }) in
      stop (record s' { session = record s'.session { valid = false } })
  after_command line now feat ended s (none, w) =
      let (t, w') = d.ports.instant w in
      stop_if ended (record s {
        world = w';
        trace = Event.ran line true ∷ s.trace;
        session = add s.session (record { ts = now; feat = feat; raw_cmd = line; ip = ip });
        last_cmd_time = t;
      })

  unfoldable pub run_line : Text → ℤ → Feature F → Bool → State W F → Next (State W F)
  unfolding after_command
  run_line line now feat ended s =
      after_command line now feat ended s (d.ports.run_command line s.world)

  -- a complete line: from the reading of the clock on
  unfoldable pub handle_line : Text → Bool → State W F → Next (State W F)
  unfolding run_line
  handle_line line ended s =
      let (now, w) = d.ports.now s.world in
      let (elapsed, w') = d.ports.seconds_since s.last_cmd_time w in
      let secs = if ltb_ℤ elapsed (pos 0) then pos 0 else elapsed in
      let (cmd, args) = split_command line in
      let feat = build_feature fl d.dicts (rem now 86400) country cmd args secs in
      let (sev, s') =
        judge fl d user session_id line country secs cmd args feat (record s { world = w' }) in
      run_line line now feat ended (police d user session_id sev line s')

  -- the tests on a line that was read
  unfoldable pub take_line : Text → ReadError → State W F → Next (State W F)
  take_line line err s =
      if text_eq line (codes "exit") || (is_end err && is_empty line)
      then stop s
      else if is_empty (trim_space line)
      then stop_if (is_end err) s
      else (let (complete, reason) = line_complete line in
          if complete
          then handle_line line (is_end err) s
          else stop_if (is_end err) (record s { trace = Event.rejected reason ∷ s.trace }))

  unfoldable pub round : State W F → Next (State W F)
  round s =
      let (cwd, w) = d.ports.cwd s.world in
      let (r, s') = read (build_prompt user d.host d.home_dir cwd) (record s { world = w }) in
      take_line (trim_line_end r.line) r.err s'

  -- The loop on fuel; `none` means that the fuel ran out.
  unfoldable pub loop : ℕ → State W F → Option (State W F)
  loop zero s = none
  loop (suc fuel) s = carry_on (loop fuel) (round s)

module _ {W F : Type 0} (fl : Floats F) (d : Deps W F) (user ip session_id : Text) where
  -- the state in which the loop begins, with the country
  pub begin : W → List Reading → Text × State W F
  begin w input =
      let (country, w₁) = d.ports.country ip w in
      let (start_ts, w₂) = d.ports.now w₁ in
      let (t, w₃) = d.ports.instant w₂ in
      (
        country,
        record {
          world = w₃;
          input = input;
          trace = [];
          session = new_session start_ts;
          last_cmd_time = t;
          authorized = [];
        },
      )

  -- `s.EndTS = d.Now()`
  pub finish : State W F → State W F
  finish s =
      let (end_ts, w) = d.ports.now s.world in
      record s { world = w; session = record s.session { end_ts = end_ts } }

  -- A round that does not end the loop takes a line from the input, so there is fuel for one more
  -- round than there are lines.
  unfoldable pub run_repl : W → List Reading → Option (State W F)
  unfolding begin loop finish
  run_repl w input =
      let (country, s) = begin w input in
      Option.map finish (loop fl d user ip session_id country (suc (length input)) s)
