-- ===== src/Tests/Shell.antt =====
-- The marker protocol on a short marker.
use Prim.Native.Nat.{◌≤◌}
use shell_sentry.Base.{List, ◌-◌, true, false, none, some, ◌∷◌, [], ◌++◌, ◌≡◌, refl, arith, length}
use shell_sentry.Base.Int.{pos, negsuc}
use shell_sentry.Text.{Text, codes, has_prefix, index}
use shell_sentry.Text.Bytes.{trim_bytes}
use shell_sentry.Shell.Marker.{
  inject_of, marker_prefix_hold, marker_of, echo_end, atoi, strip_echo, decimal,
}
use shell_sentry.Shell.Run.{Terminal, run_command, run_captured, cwd, exit_text, drain, Stream}
use shell_sentry.Shell.Echo.{pty_text, returned, typed_line}
use shell_sentry.Shell.Shown.{run_command-echo_crlf}
use shell_sentry.Shell.Session.{Job, run_all, run_all_in_step}
use shell_sentry.Shell.Proxy.{Round}
use shell_sentry.Shell.Modes.{Masks, Termios, Tty, IsRawPolling, raw_modes, attend, attend_lem}
use shell_sentry.Shell.Hold.{marker_prefix_hold_safe}

abbrev marker : Text
marker = 0x1e ∷ codes "ab1" ++ 0x1e ∷ []

marker_prefix_hold_safe_example :
    length (codes "out" ++ 0x1e ∷ codes "ab")
      - marker_prefix_hold (codes "out" ++ 0x1e ∷ codes "ab") marker
    ≤ 3
marker_prefix_hold_safe_example =
    marker_prefix_hold_safe (codes "out") (0x1e ∷ codes "ab") (b'1' ∷ 0x1e ∷ []) marker refl
      (omega arith)

-- nothing fails and there is no timeout
abbrev calm : Terminal
calm = record { injects = λ x. true; late = λ n. false; writes = λ x y. true }

run_test :
    (run_command calm
      (codes "ab")
      (codes "ls")
      0
      (codes "x\ny\n" ++ marker_of (codes "ab") 1 ++ codes "0" ++ 0x1e ∷ codes "\r\nz")).1
    ≡ record { code = some (pos 0); failure = none; shown = codes "x\ny\n"; left = codes "z" }
unfolding run_command marker_of inject_of index marker_prefix_hold echo_end exit_text atoi
    trim_bytes drain strip_echo decimal has_prefix
run_test = refl

captured_test :
    (run_captured calm
      (codes "ab")
      (codes "pwd")
      4
      (codes "/home\r\n" ++ marker_of (codes "ab") 5 ++ codes "0" ++ 0x1e ∷ codes "\r\n")).1
    ≡ record { code = some (pos 0); failure = none; shown = codes "/home\r\n"; left = [] }
unfolding run_captured marker_of inject_of index exit_text atoi trim_bytes drain decimal
captured_test = refl

marker_run : marker_of (codes "ab") 12 ≡ 0x1e ∷ codes "ab12" ++ 0x1e ∷ []
unfolding marker_of decimal
marker_run = refl

atoi_run :
    (atoi (codes "127") ≡ some (pos 127))
    × (atoi (codes "-1") ≡ some (negsuc 0))
    × (atoi (codes "1x") ≡ none)
unfolding atoi
atoi_run = (refl, refl, refl)

cwd_run :
    cwd calm (codes "ab") 4 (
      codes "pwd; printf\r\n/home\r\n"
      ++ marker_of (codes "ab") 5
      ++ codes "0"
      ++ 0x1e ∷ codes "\r\n")
    ≡ (5, some (codes "/home"), [])
unfolding cwd run_captured marker_of inject_of index exit_text atoi trim_bytes drain decimal
    strip_echo echo_end has_prefix
cwd_run = refl

abbrev shown_so_far : Stream
shown_so_far = record { acc = codes "out"; echo_handled = true; flushed = 3; shown = codes "out" }

-- two commands, the second of which fails
abbrev two_jobs : List Job
two_jobs =
    record { head = b'l'; rest = codes "s"; text = codes "x\ny\n"; code = 0 }
    ∷ record { head = b'c'; rest = codes "at q"; text = codes "no q\n"; code = 130 }
    ∷ []

run_all_in_step_example :
    run_all calm (codes "ab") (codes "ls" ∷ codes "cat q" ∷ []) 0 (
      pty_text
        (codes "x\ny\n")
        (marker_of (codes "ab") 1)
        0
        (pty_text (codes "no q\n") (marker_of (codes "ab") 2) 130 (codes "$")))
    ≡ (
      (some (pos 0), none, codes "x\ny\n") ∷ (some (pos 130), none, codes "no q\n") ∷ [],
      codes "$",
    )
unfolding index has_prefix marker_of decimal
run_all_in_step_example =
    run_all_in_step calm (codes "ab") two_jobs 0 (codes "$") (λ x. refl, λ n. refl, λ x y. refl)
      (omega arith, refl, refl, (omega arith, refl, refl, tt))

-- a shell that echoes the line, through a line discipline that ends lines in two bytes
run_command-echo_crlf_example :
    run_command calm (codes "ab") (codes "ls") 0 (
      pty_text
        (typed_line (codes "ls") (codes "ab") 1 ++ (codes "\r\n" ++ codes "x\r\n"))
        (marker_of (codes "ab") 1)
        0
        (codes "$"))
    ≡ (
      1,
      returned 0
          (typed_line (codes "ls") (codes "ab") 1 ++ (codes "\r\n" ++ codes "x\r\n"))
          (codes "$"),
    )
unfolding index has_prefix marker_of decimal
run_command-echo_crlf_example =
    run_command-echo_crlf calm (codes "ab") (codes "x\r\n") (codes "$") 0 0 (codes "ls")
      (λ x. refl, λ n. refl, λ x y. refl) (omega arith) (omega arith) (omega arith) refl

abbrev typing : List Round
typing =
    record { done = false; keys = codes ":w" }
    ∷ record { done = false; keys = [] }
    ∷ record { done = false; keys = codes "q" }
    ∷ []

abbrev masks : Masks
masks = record {
  ignbrk = 1;
  brkint = 2;
  parmrk = 8;
  istrip = 32;
  inlcr = 64;
  igncr = 128;
  icrnl = 256;
  ixon = 1024;
  opost = 1;
  onlcr = 4;
  echo = 8;
  echonl = 64;
  icanon = 2;
  isig = 1;
  iexten = 32768;
  csize = 48;
  parenb = 256;
  cs8 = 48;
}

-- the modes of a terminal at a prompt, and a terminal on which every call succeeds
abbrev cooked : Termios
cooked = record { iflag = 17664; oflag = 5; lflag = 35387; cflag = 191; vmin = 1; vtime = 0 }

abbrev tty : Tty
tty = record { is_terminal = true; modes = cooked; ioctls = [] }

-- the keys of an editor are sent to it, and no read begins later
attend_lem_example :
    (let ended : List Round = record { done = true; keys = codes "ls" } ∷ [] in
      let a = attend masks (λ s k. true) (typing ++ ended) tty in
      (true ≡ true → IsRawPolling masks cooked a.during)
      × (true ≡ false → a.during ≡ cooked)
      × (a.sent ≡ codes ":wq")
      × (a.rounds ≡ ended)
      × (a.tty.modes ≡ cooked))
attend_lem_example =
    attend_lem masks (λ s k. true) (codes "ls") typing [] tty (λ s k. refl)
      (refl, (refl, (refl, tt)))

-- the echo is off, the ends of lines are as they came, and a read does not wait
raw_test :
    raw_modes masks cooked
    ≡ record { iflag = 16384; oflag = 4; lflag = 2608; cflag = 191; vmin = 0; vtime = 1 }
raw_test = refl
