-- ===== src/Base/Order.antt =====
-- A list in the order of a test, equal members in the order in which they stood.
use shell_sentry.Base.Tests.{Bool-cases, ◌==◌}
use shell_sentry.Base.Keep.{keep_all, keep_cong, All-append, All-keep, All-map}
use shell_sentry.Base.Lists.{keep, All, any, take, drop}
use Prim.Native.Nat.{ℕ, zero, suc}
use mathlib.Core.Path.{◌≡◌, refl, sym, ap, ◌∙◌}
use mathlib.Core.Logic.{inl, inr, ◌≢◌}
use mathlib.Core.Bool.{Bool, true, false, not, ◌||◌}
use mathlib.Core.List.{List, [], ◌∷◌, ◌++◌, map}
use native.Mathlib.Omega.{arith}

module _ {A : Type 0} (le : A → A → Bool) where
  abbrev pub insert_by : A → List A → List A
  insert_by x [] = x ∷ []
  insert_by x (y ∷ ys) = elim (le x y) [ true ↦ x ∷ y ∷ ys | false ↦ y ∷ insert_by x ys ]

  abbrev pub order_by : List A → List A
  order_by [] = []
  order_by (x ∷ xs) = insert_by x (order_by xs)

  abbrev pub Ascends : List A → Type 0
  Ascends [] = Unit
  Ascends (x ∷ xs) = All (λ y. le x y ≡ true) xs × Ascends xs

All-insert_by :
    {A : Type 0} (le : A → A → Bool) (P : A → Type 0) (x : A) (ys : List A)
    → P x
    → All P ys
    → All P (insert_by le x ys)
All-insert_by le P x [] h k = (h, tt)
All-insert_by le P x (y ∷ ys) h k = elim (Bool-cases (le x y)) [
  | inl e ↦ rw (e, insert_by) (h, k)
  | inr e ↦ rw (e, insert_by) (k.0, All-insert_by le P x ys h k.1)
]

pub All-order_by :
    {A : Type 0} (le : A → A → Bool) (P : A → Type 0) (xs : List A)
    → All P xs
    → All P (order_by le xs)
All-order_by le P [] h = tt
All-order_by le P (x ∷ xs) h = All-insert_by le P x (order_by le xs) h.0 (All-order_by le P xs h.1)

module _ {A : Type 0} (le : A → A → Bool) where
  -- behind a member that comes before it, a member is inserted behind
  insert_by_last :
      (y x : A) (xs : List A)
      → le y x ≡ true
      → insert_by le y (xs ++ x ∷ []) ≡ insert_by le y xs ++ x ∷ []
  insert_by_last y x [] h = rw h
  insert_by_last y x (z ∷ xs) h = ground (arith, insert_by_last y x xs h)

  -- What comes after all others stands last.
  pub order_by_last :
      (xs : List A) (x : A)
      → All (λ y. le y x ≡ true) xs
      → order_by le (xs ++ x ∷ []) ≡ order_by le xs ++ x ∷ []
  order_by_last [] x h = refl
  order_by_last (y ∷ xs) x h =
      ap (insert_by le y) (order_by_last xs x h.1) ∙ insert_by_last y x (order_by le xs) h.0

  insert_by_first : (x : A) (ys : List A) → All (λ y. le x y ≡ true) ys → insert_by le x ys ≡ x ∷ ys
  insert_by_first x [] h = refl
  insert_by_first x (y ∷ ys) h = ground arith

  pub order_by-Ascends : (xs : List A) → Ascends le xs → order_by le xs ≡ xs
  order_by-Ascends [] h = refl
  order_by-Ascends (x ∷ xs) h =
      ap (insert_by le x) (order_by-Ascends xs h.1) ∙ insert_by_first x xs h.0

module _ {A : Type 0} (le : A → A → Bool) (total : (a b : A) → le a b ≡ false → le b a ≡ true)
    (trans : (a b c : A) → le a b ≡ true → le b c ≡ true → le a c ≡ true) where
  insert_by-Ascends : (x : A) (ys : List A) → Ascends le ys → Ascends le (insert_by le x ys)
  insert_by-Ascends x [] h = (tt, tt)
  insert_by-Ascends x (y ∷ ys) h = elim (Bool-cases (le x y)) [
    | inl e ↦
        rw (e, insert_by)
          ((e, All-map (λ z. le y z ≡ true) (λ z. le x z ≡ true) ys (λ z. trans x y z e) h.0), h)
    | inr e ↦
        rw (e, insert_by)
          (All-insert_by le (λ z. le y z ≡ true) x ys (total x y e) h.0, insert_by-Ascends x ys h.1)
  ]

  pub Ascends-order_by : (xs : List A) → Ascends le (order_by le xs)
  Ascends-order_by [] = tt
  Ascends-order_by (x ∷ xs) = insert_by-Ascends x (order_by le xs) (Ascends-order_by xs)

  -- a member that comes before all is inserted in front of what is kept of them
  keep_first :
      (p : A → Bool) (x : A) (ys : List A)
      → All (λ y. le x y ≡ true) ys
      → insert_by le x (keep p ys) ≡ x ∷ keep p ys
  keep_first p x [] h = refl
  keep_first p x (y ∷ ys) h = ground (arith, keep_first p x ys h.1)

  keep-insert_by-true :
      (p : A → Bool) (x : A) (ys : List A)
      → p x ≡ true
      → Ascends le ys
      → keep p (insert_by le x ys) ≡ insert_by le x (keep p ys)
  keep-insert_by-true p x [] h k = rw h
  keep-insert_by-true p x (y ∷ ys) h k = elim (Bool-cases (le x y)) [
    | inl e ↦
        let first =
          keep_first p x (y ∷ ys)
            (e, All-map (λ z. le y z ≡ true) (λ z. le x z ≡ true) ys (λ z. trans x y z e) k.0) in
        ground (arith, first)
    | inr e ↦ ground (arith, keep-insert_by-true p x ys h k.1)
  ]

  keep-insert_by-false :
      (p : A → Bool) (x : A) (ys : List A) → p x ≡ false → keep p (insert_by le x ys) ≡ keep p ys
  keep-insert_by-false p x [] h = rw h
  keep-insert_by-false p x (y ∷ ys) h = ground (arith, keep-insert_by-false p x ys h)

  -- Ordering commutes with a filter.
  pub keep-order_by :
      (p : A → Bool) (xs : List A) → keep p (order_by le xs) ≡ order_by le (keep p xs)
  keep-order_by p [] = refl
  keep-order_by p (x ∷ xs) = elim (Bool-cases (p x)) [
    | inl e ↦
        let kept : keep p (x ∷ xs) ≡ x ∷ keep p xs = ground arith in
        rw kept (
          keep-insert_by-true p x (order_by le xs) e (Ascends-order_by xs)
          ∙ ap (insert_by le x) (keep-order_by p xs))
    | inr e ↦
        let dropped : keep p (x ∷ xs) ≡ keep p xs = ground arith in
        rw dropped (keep-insert_by-false p x (order_by le xs) e ∙ keep-order_by p xs)
  ]

-- no two members have one key
abbrev pub Distinct : {A B : Type 0} → (A → B) → List A → Type 0
Distinct key [] = Unit
Distinct key (x ∷ xs) = All (λ y. key x ≢ key y) xs × Distinct key xs

module _ {A B : Type 0} (key : A → B) where
  Distinct-insert_by :
      (le : A → A → Bool) (x : A) (ys : List A)
      → All (λ y. key x ≢ key y) ys
      → Distinct key ys
      → Distinct key (insert_by le x ys)
  Distinct-insert_by le x [] h d = (tt, tt)
  Distinct-insert_by le x (y ∷ ys) h d = elim (Bool-cases (le x y)) [
    | inl e ↦ rw (e, insert_by) (h, d)
    | inr e ↦
        rw (e, insert_by)
          (
            All-insert_by le (λ z. key y ≢ key z) x ys (λ q. h.0 (sym q)) d.0,
            Distinct-insert_by le x ys h.1 d.1,
          )
  ]

  pub Distinct-order_by :
      (le : A → A → Bool) (xs : List A) → Distinct key xs → Distinct key (order_by le xs)
  Distinct-order_by le [] d = tt
  Distinct-order_by le (x ∷ xs) d =
      Distinct-insert_by le x (order_by le xs) (All-order_by le (λ y. key x ≢ key y) xs d.0)
        (Distinct-order_by le xs d.1)

  pub Distinct-keep : (p : A → Bool) (xs : List A) → Distinct key xs → Distinct key (keep p xs)
  Distinct-keep p [] d = tt
  Distinct-keep p (x ∷ xs) d = elim (Bool-cases (p x)) [
    | inl e ↦
        rw (e, keep)
          (
            All-map (λ y. (key x ≢ key y) × (p y ≡ true)) (λ y. key x ≢ key y) (keep p xs)
                (λ y h. h.0) (All-keep (λ y. key x ≢ key y) p xs d.0),
            Distinct-keep p xs d.1,
          )
    | inr e ↦ rw (e, keep) (Distinct-keep p xs d.1)
  ]

  -- a member with a new key
  pub Distinct-last :
      (xs : List A) (x : A)
      → Distinct key xs
      → All (λ y. key y ≢ key x) xs
      → Distinct key (xs ++ x ∷ [])
  Distinct-last [] x d h = (tt, tt)
  Distinct-last (y ∷ xs) x d h =
      (All-append (λ z. key y ≢ key z) xs (x ∷ []) d.0 (h.0, tt), Distinct-last xs x d.1 h.1)

module _ {A : Type 0} (key : A → ℕ) where
  -- Without the keys of its first members, a list is what is left behind them.
  pub keep-take :
      (n : ℕ) (xs : List A)
      → Distinct key xs
      → keep (λ x. not (any (λ i. i == key x) (map key (take n xs)))) xs ≡ drop n xs
  keep-take zero xs d = keep_all xs
  keep-take (suc n) [] d = refl
  keep-take (suc n) (x ∷ xs) d =
      let others = λ (y : A). not (any (λ i. i == key y) (map key (take n xs))) in
      let same =
        keep_cong (λ y. not (key x == key y || any (λ i. i == key y) (map key (take n xs)))) others
          xs (All-map (λ y. key x ≢ key y) _ xs (λ y h. ground arith) d.0) in
      ground (arith, same, keep-take n xs d.1)

module _ {A : Type 0} (le p : A → A → Bool) (w : A) where
  any-insert_by : (x : A) (ys : List A) → any (p w) (insert_by le x ys) ≡ (p w x || any (p w) ys)
  any-insert_by x [] = refl
  any-insert_by x (y ∷ ys) = ground (arith, any-insert_by x ys)

  pub any-order_by : (xs : List A) → any (p w) (order_by le xs) ≡ any (p w) xs
  any-order_by [] = refl
  any-order_by (x ∷ xs) = any-insert_by x (order_by le xs) ∙ ap (λ b. p w x || b) (any-order_by xs)
