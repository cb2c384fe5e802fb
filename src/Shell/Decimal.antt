-- ===== src/Shell/Decimal.antt =====
-- Numbers in the protocol: the id in the marker, and the exit code behind it.
use shell_sentry.Base.{
  ℕ, zero, suc, ◌+◌, ◌*◌, ◌/◌, ◌%◌, ◌≤◌, ◌<◌, true, false, [], ◌∷◌, ◌++◌, some, ◌≡◌, ◌≢◌, refl, sym,
  ap, ◌∙◌, arith, ◌==◌, Bool-cases, inl, inr, Empty, drop,
}
use shell_sentry.Base.Int.{pos}
use shell_sentry.Base.Slices.{append_cancel}
use shell_sentry.Text.{Text}
use shell_sentry.Shell.Marker.{
  decimal_from, decimal, marker_of, digits_value, positive, max_int, atoi,
}

digits_value-digit :
    (a k : ℕ) (out : Text)
    → k < 10
    → digits_value a ((b'0' + k) ∷ out) ≡ digits_value (a * 10 + k) out
digits_value-digit a k out l = ground arith

last_digit : (n : ℕ) → (n / 10 == 0) ≡ true → 0 * 10 + n % 10 ≡ n
last_digit n e = let none_left : n / 10 ≡ 0 = ground arith in omega (arith, none_left)

earlier : (n fuel : ℕ) → (n / 10 == 0) ≡ false → n < suc fuel → n / 10 < fuel
earlier n fuel e l = let some_left : n / 10 ≢ 0 = ground arith in omega (arith, some_left, l)

-- From fuel for more rounds than the number, the digits in front of `out` are read as the number.
digits_value-decimal_from :
    (fuel n : ℕ) (out : Text)
    → n < fuel
    → digits_value 0 (decimal_from fuel n out) ≡ digits_value n out
unfolding decimal_from
digits_value-decimal_from zero n out l = absurd (omega arith)
digits_value-decimal_from (suc fuel) n out l = elim (Bool-cases (n / 10 == 0)) [
  | inl e ↦
      rw (e, decimal_from)
        (digits_value-digit 0 (n % 10) out (omega arith)
          ∙ ap (λ m. digits_value m out) (last_digit n e))
  | inr e ↦
      rw (e, decimal_from)
        (digits_value-decimal_from fuel (n / 10) _ (earlier n fuel e l)
          ∙ digits_value-digit (n / 10) (n % 10) out (omega arith)
          ∙ ap (λ m. digits_value m out) (omega arith))
]

-- the text begins with a digit
abbrev IsNumber : Text → Type 0
IsNumber [] = Empty
IsNumber (c ∷ s) = b'0' ≤ c

decimal_from-IsNumber :
    (fuel n : ℕ) (out : Text) → IsNumber out → IsNumber (decimal_from fuel n out)
unfolding decimal_from
decimal_from-IsNumber zero n out h = h
decimal_from-IsNumber (suc fuel) n out h =
    let digit : b'0' ≤ b'0' + n % 10 = omega arith in
    elim (Bool-cases (n / 10 == 0)) [
      | inl e ↦ rw (e, decimal_from) digit
      | inr e ↦ rw (e, decimal_from) (decimal_from-IsNumber fuel (n / 10) _ digit)
    ]

atoi_number : (s : Text) → IsNumber s → atoi s ≡ positive (digits_value 0 s)
unfolding atoi
atoi_number [] h = elim h [ ]
atoi_number (c ∷ s) h = ground arith

decimal-IsNumber : (n : ℕ) → IsNumber (decimal n)
unfolding decimal
decimal-IsNumber n =
    let digit : b'0' ≤ b'0' + n % 10 = omega arith in
    elim (Bool-cases (n / 10 == 0)) [
      | inl e ↦ rw (e, decimal_from) digit
      | inr e ↦ rw (e, decimal_from) (decimal_from-IsNumber n (n / 10) _ digit)
    ]

digits_value-decimal : (n : ℕ) → digits_value 0 (decimal n) ≡ some n
unfolding decimal
digits_value-decimal n = digits_value-decimal_from (suc n) n [] (omega arith)

-- A count that fits in an int64 is read back as it was printed.
pub atoi-decimal : (n : ℕ) → n ≤ max_int → atoi (decimal n) ≡ some (pos n)
atoi-decimal n l =
    atoi_number (decimal n) (decimal-IsNumber n) ∙ rw (digits_value-decimal n) (ground arith)

snoc_cancel : (a b : Text) (x : ℕ) → a ++ x ∷ [] ≡ b ++ x ∷ [] → a ≡ b
snoc_cancel [] [] x h = refl
snoc_cancel [] (d ∷ []) x h = cc
snoc_cancel [] (d ∷ e ∷ b) x h = cc
snoc_cancel (c ∷ []) [] x h = cc
snoc_cancel (c ∷ e ∷ a) [] x h = cc
snoc_cancel (c ∷ a) (d ∷ b) x h = let rest = snoc_cancel a b x cc in cc

marker_of_injective : (nonce : Text) (i j : ℕ) → marker_of nonce i ≡ marker_of nonce j → i ≡ j
unfolding marker_of
marker_of_injective nonce i j h =
    let same =
      append_cancel nonce (decimal i) (decimal j)
        (snoc_cancel (nonce ++ decimal i) (nonce ++ decimal j) 0x1e (ap (drop 1) h)) in
    let back : some i ≡ some j =
      sym (digits_value-decimal i) ∙ ap (digits_value 0) same ∙ digits_value-decimal j in
    cc

-- Under one nonce, two commands with different ids have different markers.
pub marker_of_distinct : (nonce : Text) (i j : ℕ) → i ≢ j → marker_of nonce i ≢ marker_of nonce j
marker_of_distinct nonce i j n h = n (marker_of_injective nonce i j h)
