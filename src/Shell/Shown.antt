-- ===== src/Shell/Shown.antt =====
-- What the user sees of a command, and what not.
use shell_sentry.Base.{
  ℕ, suc, ◌+◌, ◌≤◌, false, [], ◌∷◌, ◌++◌, none, some, append_assoc, length, length-append, drop,
  ◌==◌, ◌≡◌, ◌≢◌, refl, sym, ap, ◌∙◌, arith, append-nil,
}
use shell_sentry.Base.Keep.{All-append}
use shell_sentry.Base.Slices.{drop-append}
use shell_sentry.Text.{Text, codes, has_prefix, index}
use shell_sentry.Text.Laws.{has_prefix_append}
use shell_sentry.Shell.Marker.{max_int, marker_of, inject_of, echo_end}
use shell_sentry.Shell.Free.{Free}
use shell_sentry.Shell.Run.{Terminal, run_command}
use shell_sentry.Shell.Flow.{IsCalm, IsFirst}
use shell_sentry.Shell.Echo.{
  two_more, not_longer, marker_long, protocol, typed_line, inject_of-typed_line, typed_line-Free,
  has_prefix-cancel, echo_end_lf, echo_end-none, pty_text, returned, diverge_lem,
}

no_echo : (c d : ℕ) (line : Text) → (c == d) ≡ false → echo_end (c ∷ []) (d ∷ line) ≡ none
unfolding echo_end index has_prefix
no_echo c d line h = ground arith

head_differs : (c d : ℕ) (s : Text) → has_prefix (c ∷ s) (d ∷ []) ≡ false → (c == d) ≡ false
unfolding has_prefix
head_differs c d s h = ground arith

not_injected :
    (c d : ℕ) (line nonce : Text) (id : ℕ)
    → (c == d) ≡ false
    → has_prefix (inject_of (d ∷ line) nonce id) (c ∷ []) ≡ false
unfolding has_prefix inject_of
not_injected c d line nonce id h = ground arith

module _ (t : Terminal) (nonce text later : Text) (next_id n : ℕ) where
  -- Where the pty gives the output of a command, and nothing that begins like the line, then the first
  -- marker, the exit code and the end of that line, and nothing fails, `RunCommand` returns the exit
  -- code; the user was shown the output, all of it and nothing else, and what follows is left.
  pub run_command_plain :
      (d : ℕ) (line : Text)
      → IsCalm t
      → n ≤ max_int
      → IsFirst (marker_of nonce (suc next_id)) text
      → has_prefix (text ++ marker_of nonce (suc next_id)) (d ∷ []) ≡ false
      → run_command t nonce
          (d ∷ line)
          next_id
          (pty_text text (marker_of nonce (suc next_id)) n later)
        ≡ (suc next_id, returned n text later)
  run_command_plain d line calm small first other =
      let marker = marker_of nonce (suc next_id) in
      let size = length-append text marker in
      let (c, b, rest, e) =
        two_more (text ++ marker) (omega (arith, marker_long nonce (suc next_id), size)) in
      let differs = head_differs c d (b ∷ rest) (ap (λ x. has_prefix x (d ∷ [])) (sym e) ∙ other) in
      diverge_lem t calm nonce (d ∷ line) text later next_id n small first [] c (b ∷ rest) text
        (sym e) (omega arith) (has_prefix_append [] (inject_of (d ∷ line) nonce (suc next_id)))
        (not_injected c d line nonce (suc next_id) differs) 0 (rw (no_echo c d line differs) refl)
        (omega arith) refl

  -- An echo of the injected line that ends in a bare newline is not shown.
  pub run_command-echo_lf :
      (line : Text)
      → IsCalm t
      → n ≤ max_int
      → Free b'\n' line
      → Free b'\n' nonce
      → IsFirst (marker_of nonce (suc next_id)) (inject_of line nonce (suc next_id) ++ text)
      → run_command t nonce line next_id (
          pty_text
            (inject_of line nonce (suc next_id) ++ text)
            (marker_of nonce (suc next_id))
            n
            later)
        ≡ (suc next_id, returned n text later)
  run_command-echo_lf line calm small h k first =
      let id = suc next_id in
      let marker = marker_of nonce id in
      let inject = inject_of line nonce id in
      let typed = typed_line line nonce id in
      let spelled = inject_of-typed_line line nonce id in
      let (c, b, rest, e) =
        two_more (text ++ marker)
          (omega (arith, marker_long nonce id, length-append text marker)) in
      let whole : (inject ++ c ∷ []) ++ b ∷ rest ≡ (inject ++ text) ++ marker =
        append_assoc inject (c ∷ []) (b ∷ rest)
        ∙ ap (λ x. inject ++ x) (sym e)
        ∙ sym (append_assoc inject text marker) in
      let size : length inject ≡ length typed + 1 =
        ap length spelled ∙ length-append typed (b'\n' ∷ []) in
      let echo : echo_end (inject ++ c ∷ []) line ≡ some (length typed + 1) =
        ap (λ x. echo_end (x ++ c ∷ []) line) spelled
        ∙ ap (λ x. echo_end x line) (append_assoc typed (b'\n' ∷ []) (c ∷ []))
        ∙ echo_end_lf line (protocol nonce id) (c ∷ []) (typed_line-Free line nonce id h k) in
      diverge_lem t calm nonce line (inject ++ text) later next_id n small first inject c (b ∷ rest)
        text whole (omega arith)
        (ap (λ x. has_prefix x inject) (sym (append-nil inject)) ∙ has_prefix_append inject [])
        (not_longer inject c) (length typed + 1) (rw echo refl)
        (omega (arith, size, length-append inject text))
        (ap (λ i. drop i (inject ++ text)) (sym size) ∙ drop-append inject text)

  -- An echo that ends in a carriage return and a newline, as the pty is set to end its lines, is shown:
  -- the user sees the line with the text of the protocol, and the output behind it.
  pub run_command-echo_crlf :
      (line : Text)
      → IsCalm t
      → n ≤ max_int
      → Free b'\n' line
      → Free b'\n' nonce
      → IsFirst
          (marker_of nonce (suc next_id))
          (typed_line line nonce (suc next_id) ++ (codes "\r\n" ++ text))
      → run_command t nonce line next_id (
          pty_text
            (typed_line line nonce (suc next_id) ++ (codes "\r\n" ++ text))
            (marker_of nonce (suc next_id))
            n
            later)
        ≡ (
          suc next_id,
          returned n (typed_line line nonce (suc next_id) ++ (codes "\r\n" ++ text)) later,
        )
  run_command-echo_crlf line calm small h k first =
      let id = suc next_id in
      let marker = marker_of nonce id in
      let inject = inject_of line nonce id in
      let typed = typed_line line nonce id in
      let out = typed ++ (codes "\r\n" ++ text) in
      let spelled = inject_of-typed_line line nonce id in
      let whole : (typed ++ b'\r' ∷ []) ++ (b'\n' ∷ text ++ marker) ≡ out ++ marker =
        append_assoc typed (b'\r' ∷ []) (b'\n' ∷ text ++ marker)
        ∙ sym (append_assoc typed (codes "\r\n" ++ text) marker) in
      let free = typed_line-Free line nonce id h k in
      let no_newline : Free b'\n' (typed ++ b'\r' ∷ []) =
        All-append (λ c. c ≢ b'\n') typed (b'\r' ∷ []) free (omega arith) in
      diverge_lem t calm nonce line out later next_id n small first typed b'\r'
        (b'\n' ∷ text ++ marker) out whole (omega arith)
        (ap (λ x. has_prefix x typed) spelled ∙ has_prefix_append typed (b'\n' ∷ []))
        (ap (λ x. has_prefix x (typed ++ b'\r' ∷ [])) spelled
          ∙ has_prefix-cancel typed (b'\n' ∷ []) (b'\r' ∷ [])
          ∙ (unfold has_prefix in refl))
        0 (rw (echo_end-none (typed ++ b'\r' ∷ []) line no_newline) refl) (omega arith) refl
