-- ===== src/Base/Slices.antt =====
-- Slices of a list: what `take` and `drop` leave, and where an append can be taken apart.
use Prim.Native.Nat.{ℕ, zero, suc, ◌≤◌}
use shell_sentry.Base.Lists.{length, take, drop}
use mathlib.Core.Path.{◌≡◌, refl, ap}
use mathlib.Core.List.{List, [], ◌∷◌, ◌++◌}
use native.Mathlib.Omega.{arith}

module _ {ℓ} {A : Type ℓ} where
  pub append_cancel : (xs ys zs : List A) → xs ++ ys ≡ xs ++ zs → ys ≡ zs
  append_cancel [] ys zs h = h
  append_cancel (x ∷ xs) ys zs h = append_cancel xs ys zs cc

  pub take-append : (xs ys : List A) → take (length xs) (xs ++ ys) ≡ xs
  take-append [] ys = refl
  take-append (x ∷ xs) ys = ap (◌∷◌ x) (take-append xs ys)

  pub drop-append : (xs ys : List A) → drop (length xs) (xs ++ ys) ≡ ys
  drop-append [] ys = refl
  drop-append (x ∷ xs) ys = drop-append xs ys

  pub drop_all : (xs : List A) → drop (length xs) xs ≡ []
  drop_all [] = refl
  drop_all (x ∷ xs) = drop_all xs

  pub take-drop : (n : ℕ) (xs : List A) → take n xs ++ drop n xs ≡ xs
  take-drop zero xs = refl
  take-drop (suc n) [] = refl
  take-drop (suc n) (x ∷ xs) = ap (◌∷◌ x) (take-drop n xs)

  pub length-take : (n : ℕ) (xs : List A) → n ≤ length xs → length (take n xs) ≡ n
  length-take zero xs h = refl
  length-take (suc n) [] h = omega (arith, h)
  length-take (suc n) (x ∷ xs) h = omega (arith, length-take n xs (omega (arith, h)))

  pub take-take : (n k : ℕ) (xs : List A) → n ≤ k → take n (take k xs) ≡ take n xs
  take-take zero k xs h = refl
  take-take (suc n) zero xs h = absurd (omega (arith, h))
  take-take (suc n) (suc k) [] h = refl
  take-take (suc n) (suc k) (x ∷ xs) h = ap (◌∷◌ x) (take-take n k xs (omega (arith, h)))

  -- a slice that ends in the first part
  pub take-append_le : (n : ℕ) (xs ys : List A) → n ≤ length xs → take n (xs ++ ys) ≡ take n xs
  take-append_le zero xs ys h = refl
  take-append_le (suc n) [] ys h = absurd (omega (arith, h))
  take-append_le (suc n) (x ∷ xs) ys h = ap (◌∷◌ x) (take-append_le n xs ys (omega (arith, h)))

  -- what is behind `n`, cut at `k`
  pub drop-take : (n k : ℕ) (xs : List A) → n ≤ k → drop n (take k xs) ++ drop k xs ≡ drop n xs
  drop-take zero k xs h = take-drop k xs
  drop-take (suc n) zero xs h = absurd (omega (arith, h))
  drop-take (suc n) (suc k) [] h = refl
  drop-take (suc n) (suc k) (x ∷ xs) h = drop-take n k xs (omega (arith, h))

  -- of two ways to cut a list, the longer first part begins with the shorter
  pub append_straddle :
      (xs ys fs bs : List A)
      → xs ++ ys ≡ fs ++ bs
      → length fs ≤ length xs
      → (mid : List A) × (xs ≡ fs ++ mid) × (bs ≡ mid ++ ys)
  append_straddle xs ys [] bs e h = (xs, refl, cc)
  append_straddle [] ys (a ∷ fs) bs e h = absurd (omega (arith, h))
  append_straddle (x ∷ xs) ys (a ∷ fs) bs e h =
      let (mid, p, q) = append_straddle xs ys fs bs (cc) (omega (arith, h)) in
      let same : x ≡ a = cc in (mid, cc (p, same), q)
