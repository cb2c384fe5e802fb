-- ===== src/Shell/Run.antt =====
-- `RunCommand`, `runCaptured`, `Cwd` and `drainMarkerEOL`. The pty's output is the list of the bytes
-- that it still gives, behind which a read fails.
use shell_sentry.Base.{
  ℕ, zero, suc, ◌+◌, ◌-◌, Bool, true, false, ◌&&◌, not, [], ◌∷◌, ◌++◌, Option, none, some, ltb,
  ◌==◌, if◌then◌else◌, length, take, drop, is_empty,
}
use shell_sentry.Base.Int.{ℤ}
use shell_sentry.Text.{Text, codes, has_prefix, index}
use shell_sentry.Text.Bytes.{trim_bytes}
use shell_sentry.Shell.Marker.{marker_of, inject_of, marker_prefix_hold, echo_end, strip_echo, atoi}

-- the errors that the two functions return
pub data Failure : Type 0 where
  inject_failed no_sentinel read_failed exit_code_failed bad_exit_code write_failed : Failure

-- What the surroundings do: whether the pty takes the injected line, whether the deadline has passed
-- once so many bytes were read (never, without a timeout), and whether the user's terminal takes a
-- text behind what it took before.
pub record Terminal : Type 0 where
  pub injects : Text → Bool
  pub late : ℕ → Bool
  pub writes : Text → Text → Bool

-- the end of a run: the exit code or the error, the text that the user was shown, and what the pty
-- still gives
pub record Outcome : Type 0 where
  pub code : Option ℤ
  pub failure : Option Failure
  pub shown : Text
  pub left : Text

abbrev pub failed : Failure → Text → Text → Outcome
failed e shown left = record { code = none; failure = some e; shown = shown; left = left }

-- `drainMarkerEOL`, with the rounds left
unfoldable pub drain : ℕ → Text → Text
drain zero pty = pty
drain (suc n) [] = []
drain (suc n) (b ∷ pty) = elim (b == b'\n') [
  | true ↦ pty
  | false ↦ elim (b == b'\r') [ true ↦ drain n pty | false ↦ pty ]
]

-- the bytes up to the closing 0x1e, and what the pty gives behind it; `none` where the read fails
unfoldable pub read_exit : Text → Option (Text × Text)
read_exit [] = none
read_exit (b ∷ pty) = elim (b == 0x1e) [
  | true ↦ some ([], pty)
  | false ↦ elim (read_exit pty) [ none ↦ none | some (e, left) ↦ some (b ∷ e, left) ]
]

-- the exit code's text, where `rest` was read with the marker
unfoldable pub exit_text : Text → Text → Option (Text × Text)
unfolding read_exit
exit_text rest pty = elim (index rest (0x1e ∷ [])) [
  | some i ↦ some (take i rest, pty)
  | none ↦ elim (read_exit pty) [ none ↦ none | some (e, left) ↦ some (rest ++ e, left) ]
]

-- the variables of the loop of `RunCommand`; `shown` is what was written to the user
pub record Stream : Type 0 where
  pub acc : Text
  pub echo_handled : Bool
  pub flushed : ℕ
  pub shown : Text

abbrev pub fresh : Stream
fresh = record { acc = []; echo_handled = false; flushed = 0; shown = [] }

module _ (t : Terminal) (marker inject line : Text) where
  -- `flushed` behind the echo, where there is one
  abbrev pub skip_echo : Text → Stream → ℕ
  skip_echo full s =
      if s.echo_handled
      then s.flushed
      else elim (echo_end full line) [ none ↦ s.flushed | some i ↦ i ]

  -- The body of the loop where the marker is not there yet; `none` is a failed write.
  unfoldable pub absorb : Text → Stream → Option Stream
  absorb full s =
      if not s.echo_handled && has_prefix inject full
      then some (record s { acc = full })
      else (let flushed = skip_echo full s in
          let safe = length full - marker_prefix_hold full marker in
          let chunk = drop flushed (take safe full) in
          if ltb flushed safe
          then (if t.writes s.shown chunk
              then some (record {
                acc = full;
                echo_handled = true;
                flushed = safe;
                shown = s.shown ++ chunk;
              })
              else none)
          else some
              (record { acc = full; echo_handled = true; flushed = flushed; shown = s.shown }))

  -- the text of the command and how much of it the user has, once the marker is there
  abbrev pub tail_of : Text → Stream → Text
  tail_of output s = if s.echo_handled then drop s.flushed output else strip_echo output line

  abbrev pub finish_run : ℤ → Text → Text → Stream → Outcome
  finish_run code tail left s =
      if is_empty tail
      then record { code = some code; failure = none; shown = s.shown; left = drain 2 left }
      else if t.writes s.shown tail
      then record { code = some code; failure = none; shown = s.shown ++ tail; left = drain 2 left }
      else failed write_failed s.shown left

  abbrev pub with_code : Text → Text → Stream → Option ℤ → Outcome
  with_code tail left s none = failed bad_exit_code s.shown left
  with_code tail left s (some code) = finish_run code tail left s

  abbrev pub with_exit : Text → Stream → Option (Text × Text) → Outcome
  with_exit tail s none = failed exit_code_failed s.shown []
  with_exit tail s (some (e, left)) = with_code tail left s (atoi (trim_bytes e))

  -- the body of the loop where the marker is at `idx`
  unfoldable pub close : ℕ → Text → Text → Stream → Outcome
  close idx full pty s =
      with_exit (tail_of (take idx full) s) s (exit_text (drop (idx + length marker) full) pty)

  unfoldable pub stream : Text → Stream → Outcome
  stream [] s =
      if t.late (length s.acc) then failed no_sentinel s.shown [] else failed read_failed s.shown []
  stream (b ∷ pty) s =
      let full = s.acc ++ b ∷ [] in
      elim (t.late (length s.acc)) [
        | true ↦ failed no_sentinel s.shown (b ∷ pty)
        | false ↦ elim (index full marker) [
          | some idx ↦ close idx full pty s
          | none ↦ elim (absorb full s) [
            | none ↦ failed write_failed s.shown pty
            | some s' ↦ stream pty s'
          ]
        ]
      ]

  -- the loop of `runCaptured`; nothing is shown, and the text is in `shown` at the end
  abbrev captured_code : Text → Text → Option ℤ → Outcome
  captured_code output left none = failed bad_exit_code [] left
  captured_code output left (some code) = record {
    code = some code;
    failure = none;
    shown = output;
    left = drain 2 left;
  }

  abbrev captured_exit : Text → Option (Text × Text) → Outcome
  captured_exit output none = failed exit_code_failed [] []
  captured_exit output (some (e, left)) = captured_code output left (atoi (trim_bytes e))

  capture : Text → Text → Outcome
  capture acc [] =
      if t.late (length acc) then failed no_sentinel [] [] else failed read_failed [] []
  capture acc (b ∷ pty) =
      let full = acc ++ b ∷ [] in
      elim (t.late (length acc)) [
        | true ↦ failed no_sentinel [] (b ∷ pty)
        | false ↦ elim (index full marker) [
          | some idx ↦
              captured_exit (take idx full) (exit_text (drop (idx + length marker) full) pty)
          | none ↦ capture full pty
        ]
      ]

-- A call: the next id, and the outcome. The raw mode of the user's terminal and the proxy of the
-- user's keys are in `Shell.Modes`; what the user types is part of what the pty answers.
unfoldable pub run_command : Terminal → Text → Text → ℕ → Text → ℕ × Outcome
unfolding stream absorb close
run_command t nonce line next_id pty =
    let id = suc next_id in
    let inject = inject_of line nonce id in
    (
      id,
      if t.injects inject
          then stream t (marker_of nonce id) inject line pty fresh
          else failed inject_failed [] pty,
    )

unfoldable pub run_captured : Terminal → Text → Text → ℕ → Text → ℕ × Outcome
unfolding capture
run_captured t nonce line next_id pty =
    let id = suc next_id in
    let inject = inject_of line nonce id in
    (
      id,
      if t.injects inject
          then capture t (marker_of nonce id) inject line [] pty
          else failed inject_failed [] pty,
    )

-- what `Cwd` makes of the end of a run
abbrev directory : Outcome → Option Text
directory o = elim o.failure [
  | some e ↦ none
  | none ↦ some (trim_bytes (strip_echo o.shown (codes "pwd")))
]

-- The id, the directory (`none` is an error), and what the pty still gives.
unfoldable pub cwd : Terminal → Text → ℕ → Text → ℕ × Option Text × Text
unfolding run_captured
cwd t nonce next_id pty =
    let (id, o) = run_captured t nonce (codes "pwd") next_id pty in (id, directory o, o.left)
