-- ===== src/Base/Iff.antt =====
-- Boolean tests against the propositions that they decide.
use mathlib.Core.Path.{◌≡◌, refl}
use mathlib.Core.Logic.{◌≢◌, ◌⊎◌, inl, inr, ◌↔◌}
use mathlib.Core.Bool.{Bool, true, false, ◌&&◌, ◌||◌, not}
use mathlib.Core.List.{List, [], ◌∷◌}
use native.Mathlib.Omega.{arith}
use shell_sentry.Base.Tests.{Bool-cases}
use shell_sentry.Base.Lists.{any, all, is_empty, All, Any}

pub any_sound {ℓ} :
    {A : Type ℓ} (p : A → Bool) (P : A → Type 0)
    → ((a : A) → p a ≡ true → P a)
    → (xs : List A) → any p xs ≡ true
    → Any P xs
any_sound p P h [] e = cc
any_sound p P h (x ∷ xs) e = elim (Bool-cases (p x)) [
  | inl t ↦ inl (h x t)
  | inr f ↦ inr (any_sound p P h xs (rw f at e))
]

pub any_complete {ℓ} :
    {A : Type ℓ} (p : A → Bool) (P : A → Type 0)
    → ((a : A) → P a → p a ≡ true)
    → (xs : List A) → Any P xs
    → any p xs ≡ true
any_complete p P h [] e = elim e [ ]
any_complete p P h (x ∷ xs) (inl t) = rw (h x t)
any_complete p P h (x ∷ xs) (inr t) = ground (arith, any_complete p P h xs t)

pub false_iff : (b : Bool) {P : Type 0} → (b ≡ true) ↔ P → (b ≡ false) ↔ (¬ P)
false_iff true f = (λ h. cc, λ n. absurd (n (f.0 refl)))
false_iff false f = (λ h p. cc (f.1 p), λ n. refl)

pub or_iff :
    (b : Bool) {c : Bool} {P Q : Type 0}
    → (b ≡ true) ↔ P
    → (c ≡ true) ↔ Q
    → ((b || c) ≡ true) ↔ (P ⊎ Q)
or_iff true f g = (λ _. inl (f.0 refl), λ _. refl)
or_iff false f g = (λ h. inr (g.0 h), elim [ inl p ↦ cc (f.1 p) | inr q ↦ g.1 q ])

pub and_iff :
    (b : Bool) {c : Bool} {P Q : Type 0}
    → (b ≡ true) ↔ P
    → (c ≡ true) ↔ Q
    → ((b && c) ≡ true) ↔ (P × Q)
and_iff true f g = (λ h. (f.0 refl, g.0 h), λ h. g.1 h.1)
and_iff false f g = (λ h. cc, λ h. f.1 h.0)

pub and_and_iff :
    (b c : Bool) {d : Bool} {P Q R : Type 0}
    → (b ≡ true) ↔ P
    → (c ≡ true) ↔ Q
    → (d ≡ true) ↔ R
    → ((b && c && d) ≡ true) ↔ (P × Q × R)
and_and_iff true true f g h = (λ e. (f.0 refl, g.0 refl, h.0 e), λ e. h.1 e.2)
and_and_iff true false f g h = (λ e. cc, λ e. cc (g.1 e.1))
and_and_iff false c f g h = (λ e. cc, λ e. cc (f.1 e.0))

pub nonempty_iff : {A : Type 0} → (xs : List A) → (not (is_empty xs) ≡ true) ↔ (xs ≢ [])
nonempty_iff [] = (λ h. cc, λ h. absurd (h refl))
nonempty_iff (x ∷ xs) = (λ h e. cc, λ h. refl)

pub all_iff :
    {A : Type 0} (p : A → Bool) (P : A → Type 0)
    → ((s : A) → (p s ≡ true) ↔ P s)
    → (xs : List A) → (all p xs ≡ true) ↔ All P xs
all_iff p P h [] = (λ _. tt, λ _. refl)
all_iff p P h (x ∷ xs) = and_iff (p x) (h x) (all_iff p P h xs)

pub or_or_iff : (x y k : Bool) → (((x || y) || k) ≡ true) ↔ (((x || k) ≡ true) ⊎ ((y || k) ≡ true))
or_or_iff true y k = (λ h. inl refl, λ h. refl)
or_or_iff false true k = (λ h. inr refl, λ h. refl)
or_or_iff false false k = (λ h. inl h, elim [ inl h ↦ h | inr h ↦ h ])
