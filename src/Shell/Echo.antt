-- ===== src/Shell/Echo.antt =====
-- `RunCommand` from the bytes of the pty to what the user sees, with and without an echo of the
-- injected line.
use shell_sentry.Base.{
  ℕ, suc, ◌+◌, ◌≤◌, ◌<◌, true, false, [], ◌∷◌, ◌++◌, none, some, append_assoc, length,
  length-append, take, drop, ◌≡◌, ◌≢◌, refl, sym, ap, ◌∙◌, arith, Bool-cases, inl, inr,
}
use shell_sentry.Base.Int.{pos}
use shell_sentry.Base.Keep.{All-append}
use shell_sentry.Base.Slices.{take-append}
use shell_sentry.Text.{Text, codes, has_prefix}
use shell_sentry.Text.Laws.{has_prefix_append}
use shell_sentry.Text.Index.{prefix_length, index-first, index_absent}
use shell_sentry.Shell.Marker.{decimal, max_int, marker_of, inject_of, echo_end}
use shell_sentry.Shell.Free.{Free, decimal-Free}
use shell_sentry.Shell.Run.{Terminal, Outcome, stream, fresh, drain, skip_echo, run_command}
use shell_sentry.Shell.Flow.{IsCalm, IsFirst, not_yet, absorb-IsOpen}
use shell_sentry.Shell.Output.{ended, stream_on, hold_run, open_run}

module _ (t : Terminal) (calm : IsCalm t) (marker inject line out left : Text) (n : ℕ)
    (small : n ≤ max_int) (first : IsFirst marker out) (some_marker : 0 < length marker) where
  -- The text up to the first byte that is no longer an echo decides how much of it is dropped.
  diverge_run :
      (held : Text) (c b : ℕ) (rest : Text)
      → (held ++ c ∷ []) ++ b ∷ rest ≡ out ++ marker
      → has_prefix inject held ≡ true
      → has_prefix inject (held ++ c ∷ []) ≡ false
      → skip_echo t marker inject line (held ++ c ∷ []) fresh ≤ length out
      → stream t marker inject line (out ++ marker ++ (decimal n ++ 0x1e ∷ left)) fresh
        ≡ ended n (drop (skip_echo t marker inject line (held ++ c ∷ []) fresh) out) left
  diverge_run held c b rest whole echo over bound =
      let tail = decimal n ++ 0x1e ∷ left in
      let full = held ++ c ∷ [] in
      let more : 0 < length (b ∷ rest) = omega arith in
      let bytes : (out ++ marker) ++ tail ≡ held ++ (c ∷ (b ∷ rest) ++ tail) =
        ap (λ x. x ++ tail) (sym whole)
        ∙ append_assoc full (b ∷ rest) tail
        ∙ append_assoc held (c ∷ []) ((b ∷ rest) ++ tail) in
      let away = λ (q r : Text) (e : held ≡ q ++ r).
        not_yet marker out q (r ++ c ∷ b ∷ rest)
          (sym (append_assoc q r (c ∷ b ∷ rest))
            ∙ ap (λ x. x ++ c ∷ b ∷ rest) (sym e)
            ∙ sym (append_assoc held (c ∷ []) (b ∷ rest))
            ∙ whole)
          (omega (arith, length-append r (c ∷ b ∷ rest))) first some_marker in
      let (s', run, o) =
        absorb-IsOpen t calm marker inject line out full (b ∷ rest) _ (record fresh { acc = held })
          whole more over bound refl in
      ap (λ x. stream t marker inject line x fresh) bytes
      ∙ hold_run t calm marker inject line held [] (c ∷ (b ∷ rest) ++ tail) away echo
      ∙ stream_on t calm marker inject line c ((b ∷ rest) ++ tail) (record fresh { acc = held }) s'
          (not_yet marker out full (b ∷ rest) whole more first some_marker) run
      ∙ open_run t calm marker inject line out left n small first some_marker _ b rest full s' o
          whole

pub two_more : (s : Text) → 1 < length s → (c : ℕ) × (b : ℕ) × (rest : Text) × (s ≡ c ∷ b ∷ rest)
two_more [] h = absurd (omega (arith, h))
two_more (c ∷ []) h = absurd (omega (arith, h))
two_more (c ∷ b ∷ rest) h = (c, b, rest, refl)

pub not_longer : (s : Text) (c : ℕ) → has_prefix s (s ++ c ∷ []) ≡ false
not_longer s c = elim (Bool-cases (has_prefix s (s ++ c ∷ []))) [
  | inl e ↦ absurd (omega (arith, prefix_length s (s ++ c ∷ []) e, length-append s (c ∷ [])))
  | inr e ↦ e
]

pub marker_long : (nonce : Text) (id : ℕ) → 1 < length (marker_of nonce id)
unfolding marker_of
marker_long nonce id = omega (arith, length-append (nonce ++ decimal id) (0x1e ∷ []))

-- what is injected behind the line, and all of it without its newline
abbrev pub protocol : Text → ℕ → Text
protocol nonce id =
    codes "; printf '\\036" ++ (nonce ++ (decimal id ++ codes "\\036%d\\036\\n' $?"))

abbrev pub typed_line : Text → Text → ℕ → Text
typed_line line nonce id = line ++ protocol nonce id

pub inject_of-typed_line :
    (line nonce : Text) (id : ℕ) → inject_of line nonce id ≡ typed_line line nonce id ++ b'\n' ∷ []
unfolding inject_of
inject_of-typed_line line nonce id = simp append_assoc

pub typed_line-Free :
    (line nonce : Text) (id : ℕ)
    → Free b'\n' line
    → Free b'\n' nonce
    → Free b'\n' (typed_line line nonce id)
typed_line-Free line nonce id h k =
    let plain = λ (c : ℕ). c ≢ b'\n' in
    All-append plain line _ h (
      All-append plain (codes "; printf '\\036") _ (omega arith) (
        All-append plain nonce _ k
          (All-append plain (decimal id) _ (decimal-Free b'\n' (omega arith) id) (omega arith))))

pub has_prefix-cancel : (p s t : Text) → has_prefix (p ++ s) (p ++ t) ≡ has_prefix s t
unfolding has_prefix
has_prefix-cancel [] s t = refl
has_prefix-cancel (c ∷ p) s t = ground (arith, has_prefix-cancel p s t)

-- a first line that is an echo is dropped with its newline, and one that has not ended is not
pub echo_end_lf :
    (line more rest : Text)
    → Free b'\n' (line ++ more)
    → echo_end ((line ++ more) ++ b'\n' ∷ rest) line ≡ some (length (line ++ more) + 1)
unfolding echo_end
echo_end_lf line more rest h =
    let at = index-first (line ++ more) rest b'\n' h in
    let begins : has_prefix (take (length (line ++ more)) ((line ++ more) ++ b'\n' ∷ rest)) line
        ≡ true =
      ap (λ x. has_prefix x line) (take-append (line ++ more) (b'\n' ∷ rest))
      ∙ has_prefix_append line more in
    rw (at, echo_end, begins) refl

pub echo_end-none : (s line : Text) → Free b'\n' s → echo_end s line ≡ none
unfolding echo_end
echo_end-none s line h = rw (index_absent s b'\n' h, echo_end) refl

-- the bytes of the pty for a command with this output and this exit code, and what is left behind
abbrev pub pty_text : Text → Text → ℕ → Text → Text
pty_text out marker n later = out ++ marker ++ (decimal n ++ (0x1e ∷ codes "\r\n" ++ later))

-- the command ended with the code, the user saw the text, and the next command finds what is left
abbrev pub returned : ℕ → Text → Text → Outcome
returned n shown later = record { code = some (pos n); failure = none; shown = shown; left = later }

drained :
    (n : ℕ) (shown later : Text) → ended n shown (codes "\r\n" ++ later) ≡ returned n shown later
drained n shown later = unfold drain in refl

module _ (t : Terminal) (calm : IsCalm t) (nonce line out later : Text) (next_id n : ℕ)
    (small : n ≤ max_int) (first : IsFirst (marker_of nonce (suc next_id)) out) where
  abbrev marker : Text
  marker = marker_of nonce (suc next_id)

  abbrev inject : Text
  inject = inject_of line nonce (suc next_id)

  run_of_stream :
      (shown : Text)
      → stream t marker inject line (pty_text out marker n later) fresh
        ≡ ended n shown (codes "\r\n" ++ later)
      → run_command t nonce line next_id (pty_text out marker n later)
        ≡ (suc next_id, returned n shown later)
  unfolding run_command
  run_of_stream shown e = rw (calm.0 inject, e) (ap (λ o. (suc next_id, o)) (drained n shown later))

  -- what is dropped of the output where the echo ends behind `held`
  pub diverge_lem :
      (held : Text) (c : ℕ) (rest shown : Text)
      → (held ++ c ∷ []) ++ rest ≡ out ++ marker
      → 0 < length rest
      → has_prefix inject held ≡ true
      → has_prefix inject (held ++ c ∷ []) ≡ false
      → (k : ℕ) → skip_echo t marker inject line (held ++ c ∷ []) fresh ≡ k
      → k ≤ length out
      → drop k out ≡ shown
      → run_command t nonce line next_id (pty_text out marker n later)
        ≡ (suc next_id, returned n shown later)
  diverge_lem held c [] shown whole more echo over k e bound rest = absurd (omega (arith, more))
  diverge_lem held c (b ∷ rest) shown whole more echo over k e bound q = run_of_stream shown (
      diverge_run t calm marker inject line out (codes "\r\n" ++ later) n small first
        (omega (arith, marker_long nonce (suc next_id))) held c b rest whole echo over (rw e bound)
      ∙ ap (λ k. ended n (drop k out) (codes "\r\n" ++ later)) e
      ∙ ap (λ x. ended n x (codes "\r\n" ++ later)) q)
