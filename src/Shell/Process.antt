-- ===== src/Shell/Process.antt =====
-- `New` and `Close`: the process of the shell, and its pty.
use Prim.Native.Nat.{bit_or}
use shell_sentry.Base.{
  Bool, true, false, ◌&&◌, [], ◌++◌, Option, none, some, ◌≡◌, ◌≢◌, refl, ◌⊎◌, inl, inr, arith,
}
use shell_sentry.Text.{Text, codes}
use shell_sentry.Result.{Result, ok, err}
use shell_sentry.Shell.Modes.{Masks, Termios, Tty, get_modes, set_modes, next_call}

-- the process with its pty, and whether changes of the window's size are followed
pub record Child : Type 0 where
  pub running : Bool
  pub waited_for : Bool
  pub pty_open : Bool
  pub pty : Tty
  pub watches_size : Bool
  -- what was written to it
  pub input : Text

-- what `New` asks of the libraries: pty.Start with the modes of the new pty and the calls on it that
-- will succeed, and term.MakeRaw
pub record Start : Type 0 where
  pub start : Result Tty
  pub make_raw : Tty → Option Text × Tty
  pub user_is_terminal : Bool

abbrev pub started : Tty → Child
started tty = record {
  running = true;
  waited_for = false;
  pty_open = true;
  pty = tty;
  watches_size = false;
  input = [];
}

-- the ends of lines, which MakeRaw turns off; an error is ignored
abbrev pub with_line_ends : Masks → Option Termios × Tty → Tty
with_line_ends m (none, tty) = tty
with_line_ends m (some modes, tty) =
    (set_modes (record modes { oflag = bit_or modes.oflag (bit_or m.opost m.onlcr) }) tty).1

-- the error, and the process, if one was started
abbrev pub made_raw : Masks → Start → Option Text × Tty → Option Text × Option Child
made_raw m s (some e, tty) = (
  some (codes "ptyshell: set pty raw mode: " ++ e),
  some (record (started tty) { pty_open = false; running = false }),
)
made_raw m s (none, tty) =
    let child = started (with_line_ends m (get_modes tty)) in
    (none, some (record child { watches_size = s.user_is_terminal }))

abbrev pub new_started : Masks → Start → Result Tty → Option Text × Option Child
new_started m s (err e) = (some (codes "ptyshell: start pty: " ++ e), none)
new_started m s (ok tty) = made_raw m s (s.make_raw tty)

unfoldable pub new_shell : Masks → Start → Option Text × Option Child
new_shell m s = new_started m s s.start

unfoldable pub close_shell : Child → Child
close_shell c = record c {
  watches_size = false;
  input = c.input ++ codes "exit\n";
  pty_open = false;
  running = false;
  waited_for = true;
}

-- nothing of the process is left but, at most, its exit status
abbrev pub IsGone : Option Child → Type 0
IsGone none = Unit {0}
IsGone (some c) = (c.running ≡ false) × (c.pty_open ≡ false) × (c.watches_size ≡ false)

abbrev pub IsReady : Masks → Start → Child → Type 0
IsReady m s c =
    (tty : Tty) × (raw : Tty) × (s.start ≡ ok tty)
    × (s.make_raw tty ≡ (none, raw))
    × (c.running ≡ true)
    × (c.pty_open ≡ true)
    × (((next_call raw.ioctls).0 && (next_call (next_call raw.ioctls).1).0) ≡ true
        → c.pty.modes
          ≡ record raw.modes { oflag = bit_or raw.modes.oflag (bit_or m.opost m.onlcr) })

abbrev pub Settles : Masks → Start → Option Text × Option Child → Type 0
Settles m s o =
    ((o.0 ≢ none) × IsGone o.1)
    ⊎ ((o.0 ≡ none)
        × (c : Child) × (o.1 ≡ some c)
        × IsReady m s c
        × IsGone (some (close_shell c))
        × ((close_shell c).waited_for ≡ true))

-- Either `New` returns an error, and the process that it may have started is ended and its pty closed; or it
-- returns none, the process runs on a pty in the raw modes but with the ends of lines turned on, if the
-- calls for that succeed, and `Close` ends it, waits for it and closes the pty.
pub new_shell-Settles : (m : Masks) (s : Start) → Settles m s (new_shell m s)
unfolding new_shell close_shell
new_shell-Settles m s = begun s.start refl
  where
    raw :
        (tty : Tty) (r : Option Text × Tty)
        → s.start ≡ ok tty
        → s.make_raw tty ≡ r
        → Settles m s (made_raw m s r)
    raw tty (some e, tty') h k = inl (λ q. cc, (refl, refl, refl))
    raw tty (none, tty') h k = inr (
      refl,
      _,
      refl,
      (tty, tty', h, k, refl, refl, λ both. ground arith),
      (refl, refl, refl),
      refl,
    )

    begun : (r : Result Tty) → s.start ≡ r → Settles m s (new_started m s r)
    begun (err e) h = inl (λ q. cc, tt)
    begun (ok tty) h = raw tty (s.make_raw tty) h refl
