-- ===== src/Shell/Session.antt =====
-- The calls of `RunCommand` of one session, each on what the one before left of the pty's output.
use shell_sentry.Base.{
  ℕ, suc, ◌≤◌, false, List, [], ◌∷◌, ◌++◌, map, Option, none, some, ◌≡◌, refl, ap,
}
use shell_sentry.Base.Int.{ℤ, pos}
use shell_sentry.Text.{Text, has_prefix}
use shell_sentry.Shell.Marker.{max_int, marker_of}
use shell_sentry.Shell.Run.{Failure, Terminal, Outcome, run_command}
use shell_sentry.Shell.Flow.{IsCalm, IsFirst}
use shell_sentry.Shell.Echo.{pty_text}
use shell_sentry.Shell.Shown.{run_command_plain}

-- a command: the line, which is not empty, the text that the pty gives for it, and its exit code
pub record Job : Type 0 where
  pub head : ℕ
  pub rest : Text
  pub text : Text
  pub code : ℕ

abbrev pub line_of : Job → Text
line_of j = j.head ∷ j.rest

-- what the user learns of a call
abbrev pub Seen : Type 0
Seen = Option ℤ × Option Failure × Text

abbrev pub seen : Outcome → Seen
seen o = (o.code, o.failure, o.shown)

-- what the calls with these lines end with, and what is left of the output
unfoldable pub run_all : Terminal → Text → List Text → ℕ → Text → List Seen × Text
run_all t nonce [] next_id pty = ([], pty)
run_all t nonce (line ∷ lines) next_id pty =
    let (id, o) = run_command t nonce line next_id pty in
    let (outcomes, left) = run_all t nonce lines id o.left in (seen o ∷ outcomes, left)

-- the output of the pty for commands that end one behind the other
abbrev pub pty_of : Text → ℕ → List Job → Text → Text
pty_of nonce next_id [] later = later
pty_of nonce next_id (j ∷ jobs) later =
    pty_text j.text (marker_of nonce (suc next_id)) j.code (pty_of nonce (suc next_id) jobs later)

-- every exit code fits, no text has its marker in it, and none begins like its line
abbrev pub IsPlain : Text → ℕ → List Job → Type 0
IsPlain nonce next_id [] = Unit {0}
IsPlain nonce next_id (j ∷ jobs) =
    (j.code ≤ max_int)
    × IsFirst (marker_of nonce (suc next_id)) j.text
    × (has_prefix (j.text ++ marker_of nonce (suc next_id)) (j.head ∷ []) ≡ false)
    × IsPlain nonce (suc next_id) jobs

-- Let nothing fail, and let the pty give, for any number of commands, the output of each, then its marker
-- for the first time, its exit code and the end of that line, where no output begins like its line. Then
-- each call of `RunCommand` returns the exit code of its own command, and the user was shown the output of
-- that command, all of it and nothing else; what follows the last one is left.
pub run_all_in_step :
    (t : Terminal) (nonce : Text) (jobs : List Job) (next_id : ℕ) (later : Text)
    → IsCalm t
    → IsPlain nonce next_id jobs
    → run_all t nonce (map line_of jobs) next_id (pty_of nonce next_id jobs later)
      ≡ (map (λ (j : Job). (some (pos j.code), none, j.text)) jobs, later)
unfolding run_all
run_all_in_step t nonce [] next_id later calm h = refl
run_all_in_step t nonce (j ∷ jobs) next_id later calm (small, first, other, h) =
    let behind = pty_of nonce (suc next_id) jobs later in
    let one =
      run_command_plain t nonce j.text behind next_id j.code j.head j.rest calm small first other in
    rw one (
      ap (λ (r : List Seen × Text). ((some (pos j.code), none, j.text) ∷ r.0, r.1))
        (run_all_in_step t nonce jobs (suc next_id) later calm h))
