-- ===== src/Shell/Modes.antt =====
-- `makeRawPolling`, and what `RunCommand` does around its loop: the modes of the user's terminal, and the
-- proxy of the user's keys while the command runs. The loop itself is Shell/Run.antt.
use Prim.Native.Nat.{bit_and, bit_or, bit_xor}
use shell_sentry.Base.{
  ℕ, Bool, true, false, ◌&&◌, not, if◌then◌else◌, List, [], ◌∷◌, ◌++◌, All, Option, none, some, ◌≡◌,
  refl, arith,
}
use shell_sentry.Text.{Text}
use shell_sentry.Shell.Proxy.{Round, proxy_input, keys_of, proxy_input_lem}

-- the constants of golang.org/x/sys/unix, which differ between systems
pub record Masks : Type 0 where
  pub ignbrk : ℕ
  pub brkint : ℕ
  pub parmrk : ℕ
  pub istrip : ℕ
  pub inlcr : ℕ
  pub igncr : ℕ
  pub icrnl : ℕ
  pub ixon : ℕ
  pub opost : ℕ
  pub onlcr : ℕ
  pub echo : ℕ
  pub echonl : ℕ
  pub icanon : ℕ
  pub isig : ℕ
  pub iexten : ℕ
  pub csize : ℕ
  pub parenb : ℕ
  pub cs8 : ℕ

pub record Termios : Type 0 where
  pub iflag : ℕ
  pub oflag : ℕ
  pub lflag : ℕ
  pub cflag : ℕ
  pub vmin : ℕ
  pub vtime : ℕ

-- A terminal. `ioctls` says which of the calls to come succeed; behind its end all do.
pub record Tty : Type 0 where
  pub is_terminal : Bool
  pub modes : Termios
  pub ioctls : List Bool

-- Go's `&^`
abbrev pub and_not : ℕ → ℕ → ℕ
and_not a b = bit_xor a (bit_and a b)

abbrev pub all_of : List ℕ → ℕ
all_of [] = 0
all_of (a ∷ masks) = bit_or a (all_of masks)

abbrev pub raw_modes : Masks → Termios → Termios
raw_modes m old = record {
  iflag = and_not old.iflag (
      all_of
        (m.ignbrk ∷ m.brkint ∷ m.parmrk ∷ m.istrip ∷ m.inlcr ∷ m.igncr ∷ m.icrnl ∷ m.ixon ∷ []));
  oflag = and_not old.oflag m.opost;
  lflag = and_not old.lflag (all_of (m.echo ∷ m.echonl ∷ m.icanon ∷ m.isig ∷ m.iexten ∷ []));
  cflag = bit_or (and_not old.cflag (all_of (m.csize ∷ m.parenb ∷ []))) m.cs8;
  vmin = 0;
  vtime = 1;
}

-- whether the next call succeeds, and the calls behind it
abbrev pub next_call : List Bool → Bool × List Bool
next_call [] = (true, [])
next_call (b ∷ calls) = (b, calls)

abbrev pub get_modes : Tty → Option Termios × Tty
get_modes tty =
    let (succeeds, calls) = next_call tty.ioctls in
    (if succeeds then some tty.modes else none, record tty { ioctls = calls })

abbrev pub set_modes : Termios → Tty → Bool × Tty
set_modes modes tty =
    let (succeeds, calls) = next_call tty.ioctls in
    (succeeds, record tty { ioctls = calls; modes = if succeeds then modes else tty.modes })

-- the old modes, to which `restore` goes back; `none` is an error
abbrev pub set_raw : Masks → Option Termios × Tty → Option Termios × Tty
set_raw m (none, tty) = (none, tty)
set_raw m (some old, tty) =
    let (done, tty') = set_modes (raw_modes m old) tty in (if done then some old else none, tty')

unfoldable pub make_raw_polling : Masks → Tty → Option Termios × Tty
make_raw_polling m tty = set_raw m (get_modes tty)

-- What a call of `RunCommand` does to the user's terminal: the modes while the command runs, the keys that
-- were sent to the command with the rounds of the proxy that are left, and the terminal behind the call.
pub record Attended : Type 0 where
  pub during : Termios
  pub sent : Text
  pub rounds : List Round
  pub tty : Tty

-- no proxy, and nothing to restore
abbrev pub unattended : List Round → Tty → Attended
unattended rounds tty = record { during = tty.modes; sent = []; rounds = rounds; tty = tty }

abbrev pub attended : (Text → Text → Bool) → List Round → Option Termios × Tty → Attended
attended takes rounds (none, tty) = unattended rounds tty
attended takes rounds (some old, tty) =
    let (sent, left) = proxy_input takes [] rounds in
    record { during = tty.modes; sent = sent; rounds = left; tty = (set_modes old tty).1 }

unfoldable pub attend : Masks → (Text → Text → Bool) → List Round → Tty → Attended
unfolding make_raw_polling
attend m takes rounds tty =
    if tty.is_terminal
    then attended takes rounds (make_raw_polling m tty)
    else unattended rounds tty

-- whether both calls of `makeRawPolling` succeed, and whether the call that restores does
abbrev pub sets_raw : List Bool → Bool
sets_raw calls = (next_call calls).0 && (next_call (next_call calls).1).0

abbrev pub restores : List Bool → Bool
restores calls = (next_call (next_call (next_call calls).1).1).0

-- Modes `new` that come from `old` by raw mode with polling: a read of the terminal waits for no byte and
-- at most a tenth of a second; the keys are neither echoed nor gathered to lines, nor read as signals or
-- as the other special keys; no byte is changed on its way in or out; and a byte has eight bits without
-- parity.
pub IsRawPolling : Masks → Termios → Termios → Type 0
IsRawPolling m old new =
    let input =
      all_of
        (m.ignbrk ∷ m.brkint ∷ m.parmrk ∷ m.istrip ∷ m.inlcr ∷ m.igncr ∷ m.icrnl ∷ m.ixon ∷ []) in
    (new.vmin ≡ 0)
    × (new.vtime ≡ 1)
    × (new.lflag
        ≡ and_not old.lflag (all_of (m.echo ∷ m.echonl ∷ m.icanon ∷ m.isig ∷ m.iexten ∷ [])))
    × (new.oflag ≡ and_not old.oflag m.opost)
    × (new.iflag ≡ and_not old.iflag input)
    × (new.cflag ≡ bit_or (and_not old.cflag (all_of (m.csize ∷ m.parenb ∷ []))) m.cs8)

attend_cases :
    (m : Masks) (takes : Text → Text → Bool) (rounds : List Round) (tty : Tty)
    → (let a = attend m takes rounds tty in
        let raw = tty.is_terminal && sets_raw tty.ioctls in
        (a.during ≡ (if raw then raw_modes m tty.modes else tty.modes))
        × ((a.sent, a.rounds) ≡ (if raw then proxy_input takes [] rounds else ([], rounds)))
        × (a.tty.modes ≡ (if raw && not (restores tty.ioctls) then a.during else tty.modes)))
unfolding attend make_raw_polling
attend_cases m takes rounds tty = ground arith

raw_modes-IsRawPolling : (m : Masks) (old : Termios) → IsRawPolling m old (raw_modes m old)
unfolding IsRawPolling
raw_modes-IsRawPolling m old = (refl, refl, refl, refl, refl, refl)

-- Let the pty take every text, and let `done` be closed when the reads `busy` of the proxy have begun.
-- On a terminal that can be made raw, the modes are `IsRawPolling` while the command runs, and the keys
-- that the reads of `busy` give are all sent to it, in order; no further read begins. On any other the
-- modes stay and the terminal is not read. Behind the call the modes are those of before it, but where a
-- terminal that was made raw refuses to be set back.
pub attend_lem :
    (m : Masks) (takes : Text → Text → Bool) (keys : Text) (busy later : List Round) (tty : Tty)
    → ((s k : Text) → takes s k ≡ true)
    → All (λ (r : Round). r.done ≡ false) busy
    → (let ended = record { done = true; keys = keys } ∷ later in
        let a = attend m takes (busy ++ ended) tty in
        let raw = tty.is_terminal && sets_raw tty.ioctls in
        (raw ≡ true → IsRawPolling m tty.modes a.during)
        × (raw ≡ false → a.during ≡ tty.modes)
        × (a.sent ≡ (if raw then keys_of busy else []))
        × (a.rounds ≡ (if raw then ended else busy ++ ended))
        × (a.tty.modes ≡ (if raw && not (restores tty.ioctls) then a.during else tty.modes)))
attend_lem m takes keys busy later tty all h =
    let rounds = busy ++ record { done = true; keys = keys } ∷ later in
    let (during, moved, after) = attend_cases m takes rounds tty in
    let proxied = proxy_input_lem takes [] keys busy later all h in
    let is_raw = raw_modes-IsRawPolling m tty.modes in
    (
      (λ raw. rw (during, raw) is_raw),
      (λ not_raw. rw (during, not_raw) refl),
      ground (arith, moved, proxied),
      ground (arith, moved, proxied),
      after,
    )
