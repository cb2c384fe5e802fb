-- ===== src/Result.antt =====
-- A Go value with an `error`, and calls that fail over a state. Where a Go function returns an error,
-- its callers use nothing else of what it returns.
use shell_sentry.Base.{◌++◌, ◌≡◌, refl}
use shell_sentry.Text.{Text}

-- a value, or the text of the error
pub data Result (A : Type 0) : Type 0 where
  ok : A → Result A
  err : Text → Result A

-- a call that works on a state
abbrev pub Act : Type 0 → Type 0 → Type 0
Act S A = S → Result A × S

module _ {S A : Type 0} where
  abbrev pub pure : A → Act S A
  pure a s = (ok a, s)

  abbrev pub fail : Text → Act S A
  fail m s = (err m, s)

  -- fmt.Errorf("<context>: %w", err)
  abbrev pub context : Text → Result A × S → Result A × S
  context m (ok a, s) = (ok a, s)
  context m (err e, s) = (err (m ++ e), s)

-- the rest of the function, behind `if err != nil { return err }`
abbrev pub and_then : {S A B : Type 0} → (A → Act S B) → Result A × S → Result B × S
and_then f (ok a, s) = f a s
and_then f (err e, s) = (err e, s)

infixl 5 ◌>>=◌ ◌>>◌
abbrev pub ◌>>=◌ : {S A B : Type 0} → Act S A → (A → Act S B) → Act S B
◌>>=◌ m f s = and_then f (m s)

abbrev pub ◌>>◌ : {S A B : Type 0} → Act S A → Act S B → Act S B
◌>>◌ m k = m >>= λ _. k

-- A result that is not an error comes from a first call that returned none.
pub and_then-eq-ok :
    {S A B : Type 0} (f : A → Act S B) (r : Result A × S) {b : B} {s' : S}
    → and_then f r ≡ (ok b, s')
    → (a : A) × (s : S) × (r ≡ (ok a, s)) × (f a s ≡ (ok b, s'))
and_then-eq-ok f (ok a, s) h = (a, s, refl, h)
and_then-eq-ok f (err e, s) h = cc

pub pure-eq-ok : {S A : Type 0} {a b : A} {s s' : S} → pure a s ≡ (ok b, s') → (a ≡ b) × (s ≡ s')
pure-eq-ok h = (cc, cc)
