-- ===== src/Shell/ExitCode.antt =====
-- The exit code, from the shell's printf to the caller.
use shell_sentry.Base.{
  ℕ, zero, suc, ◌+◌, ◌/◌, ◌%◌, ◌≤◌, [], ◌∷◌, ◌++◌, some, ◌≡◌, refl, ap, ◌∙◌, arith, ◌==◌,
  Bool-cases, inl, inr, All,
}
use shell_sentry.Base.Int.{pos}
use shell_sentry.Text.{Text, index, has_prefix}
use shell_sentry.Text.Bytes.{space_width, is_blank, trim_left, trim_right, trim_bytes}
use shell_sentry.Shell.Marker.{decimal_from, decimal, max_int, atoi}
use shell_sentry.Shell.Run.{
  Terminal, Stream, read_exit, exit_text, with_exit, with_code, finish_run,
}
use shell_sentry.Shell.Decimal.{atoi-decimal}

abbrev AreDigits : Text → Type 0
AreDigits = All (λ c. (b'0' ≤ c) × (c ≤ b'9'))

decimal_from-AreDigits :
    (fuel n : ℕ) (out : Text) → AreDigits out → AreDigits (decimal_from fuel n out)
unfolding decimal_from
decimal_from-AreDigits zero n out h = h
decimal_from-AreDigits (suc fuel) n out h =
    let low : b'0' ≤ b'0' + n % 10 = omega arith in
    let high : b'0' + n % 10 ≤ b'9' = omega arith in
    elim (Bool-cases (n / 10 == 0)) [
      | inl e ↦ rw (e, decimal_from) ((low, high), h)
      | inr e ↦ rw (e, decimal_from) (decimal_from-AreDigits fuel (n / 10) _ ((low, high), h))
    ]

decimal-AreDigits : (n : ℕ) → AreDigits (decimal n)
unfolding decimal
decimal-AreDigits n = decimal_from-AreDigits (suc n) n [] tt

read_exit-append : (e left : Text) → AreDigits e → read_exit (e ++ 0x1e ∷ left) ≡ some (e, left)
unfolding read_exit
read_exit-append [] left h = refl
read_exit-append (c ∷ e) left h =
    let below : b'0' ≤ c = h.0.0 in ground (arith, read_exit-append e left h.1)

digit_space : (c : ℕ) (s : Text) → b'0' ≤ c → c ≤ b'9' → space_width (c ∷ s) ≡ 0
unfolding space_width
digit_space c [] l h = ground arith
digit_space c (d ∷ []) l h = ground arith
digit_space c (d ∷ e ∷ s) l h = ground arith

trim_left-AreDigits : (e : Text) → AreDigits e → trim_left 0 e ≡ e
unfolding trim_left
trim_left-AreDigits [] h = refl
trim_left-AreDigits (c ∷ e) h = rw (digit_space c e h.0.0 h.0.1, trim_left) refl

trim_right-AreDigits : (e : Text) → AreDigits e → trim_right e ≡ e
unfolding trim_right is_blank
trim_right-AreDigits [] h = refl
trim_right-AreDigits (c ∷ e) h =
    rw (digit_space c e h.0.0 h.0.1, is_blank) (ap (◌∷◌ c) (trim_right-AreDigits e h.1))

trim_bytes-AreDigits : (e : Text) → AreDigits e → trim_bytes e ≡ e
unfolding trim_bytes
trim_bytes-AreDigits e h = ap trim_right (trim_left-AreDigits e h) ∙ trim_right-AreDigits e h

exit_text-append : (e left : Text) → AreDigits e → exit_text [] (e ++ 0x1e ∷ left) ≡ some (e, left)
unfolding exit_text index has_prefix
exit_text-append e left h = ground (arith, read_exit-append e left h)

-- Where an exit code that fits in an int64 stands behind the marker in decimal, and the closing byte
-- behind it, `RunCommand` ends as it does for that code, and what follows is left.
pub with_exit-decimal :
    (t : Terminal) (marker inject line tail left : Text) (n : ℕ) (s : Stream)
    → n ≤ max_int
    → with_exit t marker inject line tail s (exit_text [] (decimal n ++ 0x1e ∷ left))
      ≡ finish_run t marker inject line (pos n) tail left s
with_exit-decimal t marker inject line tail left n s l =
    let d = decimal-AreDigits n in
    ap (with_exit t marker inject line tail s) (exit_text-append (decimal n) left d)
    ∙ ap (with_code t marker inject line tail left s)
        (ap atoi (trim_bytes-AreDigits (decimal n) d) ∙ atoi-decimal n l)
