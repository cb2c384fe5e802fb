-- ===== src/Setup/Nonce.antt =====
-- `randNonce`: the random bytes are a parameter.
use shell_sentry.Base.{
  ℕ, ◌+◌, ◌-◌, ◌/◌, ◌%◌, true, List, [], ◌∷◌, ◌++◌, if◌then◌else◌, ltb, All, ◌≡◌, ◌≢◌, sym, arith,
  Bool-cases, inl, inr,
}
use shell_sentry.Text.{Text, codes}
use shell_sentry.Result.{Result, ok, err}
use shell_sentry.Complete.{line_complete}
use shell_sentry.Shell.Marker.{inject_of}
use shell_sentry.Shell.Sealed.{inject_of_complete}

abbrev pub hex_digit : ℕ → ℕ
hex_digit n = if ltb n 10 then b'0' + n else b'a' + (n - 10)

-- hex.EncodeToString
unfoldable pub hex_of : List ℕ → Text
hex_of [] = []
hex_of (b ∷ bs) = hex_digit (b / 16) ∷ hex_digit (b % 16) ∷ hex_of bs

unfoldable pub rand_nonce : Result (List ℕ) → Result Text
unfolding hex_of
rand_nonce (ok bytes) = ok (hex_of bytes)
rand_nonce (err e) = err (codes "generate sentinel nonce: " ++ e)

hex_digit_plain : (n : ℕ) → hex_digit n ≢ b'\''
hex_digit_plain n = elim (Bool-cases (ltb n 10)) [
  | inl e ↦ rw e (omega arith)
  | inr e ↦ rw e (omega arith)
]

hex_of-plain : (bs : List ℕ) → All (λ c. c ≢ b'\'') (hex_of bs)
unfolding hex_of
hex_of-plain [] = tt
hex_of-plain (b ∷ bs) = (hex_digit_plain (b / 16), (hex_digit_plain (b % 16), hex_of-plain bs))

-- With a nonce of `randNonce`, whatever its random bytes, the text that is injected for a line that
-- `LineComplete` takes for complete is complete to `LineComplete` too. Its heuristic reads no
-- here-documents and no comments, among others: whether a shell waits behind such a line is left open.
pub rand_nonce-inject_of :
    (bytes : Result (List ℕ)) (nonce line : Text) (id : ℕ)
    → rand_nonce bytes ≡ ok nonce
    → (line_complete line).0 ≡ true
    → line_complete (inject_of line nonce id) ≡ (true, [])
unfolding rand_nonce
rand_nonce-inject_of (ok bs) nonce line id h k =
    let same : hex_of bs ≡ nonce = cc in
    inject_of_complete line nonce id k (rw (sym same) (hex_of-plain bs))
rand_nonce-inject_of (err e) nonce line id h k = cc
