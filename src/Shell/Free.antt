-- ===== src/Shell/Free.antt =====
-- Texts that are free of a character.
use shell_sentry.Base.{
  ℕ, zero, suc, ◌+◌, ◌/◌, ◌%◌, ◌<◌, [], ◌==◌, ◌≢◌, arith, All, Bool-cases, inl, inr,
}
use shell_sentry.Text.{Text}
use shell_sentry.Shell.Marker.{decimal_from, decimal}

abbrev pub Free : ℕ → Text → Type 0
Free q = All (λ c. c ≢ q)

module _ (q : ℕ) (below : q < b'0') where
  decimal_from-Free : (fuel n : ℕ) (out : Text) → Free q out → Free q (decimal_from fuel n out)
  unfolding decimal_from
  decimal_from-Free zero n out h = h
  decimal_from-Free (suc fuel) n out h =
      let digit : b'0' + n % 10 ≢ q = omega (arith, below) in
      elim (Bool-cases (n / 10 == 0)) [
        | inl e ↦ rw (e, decimal_from) (digit, h)
        | inr e ↦ rw (e, decimal_from) (decimal_from-Free fuel (n / 10) _ (digit, h))
      ]

  pub decimal-Free : (n : ℕ) → Free q (decimal n)
  unfolding decimal
  decimal-Free n = decimal_from-Free (suc n) n [] tt
