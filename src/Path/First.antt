-- ===== src/Path/First.antt =====
-- What `DetectPath` finds.
use shell_sentry.Base.{
  ℕ, Bool, true, false, ◌||◌, ◌==◌, List, [], ◌∷◌, ◌++◌, ◌≡◌, ◌⊎◌, inl, inr, refl, ap, arith, any,
  All, Bool-cases,
}
use shell_sentry.Text.{Text, has_prefix, contains_text}
use shell_sentry.Path.{is_path_like, detect_path}

abbrev pub begins_with : ℕ → Text → Bool
begins_with c [] = false
begins_with c (d ∷ s) = d == c

contains_slash : (a : Text) → contains_text a (b'/' ∷ []) ≡ any (λ c. c == b'/') a
unfolding contains_text has_prefix
contains_slash [] = refl
contains_slash (c ∷ a) = ground (arith, contains_slash a)

-- The five tests come to two: an argument is path-like if and only if it begins with `~` or holds
-- a `/`.
pub is_path_like_lem : (a : Text) → is_path_like a ≡ (begins_with b'~' a || any (λ c. c == b'/') a)
unfolding is_path_like
is_path_like_lem [] = refl
is_path_like_lem (c ∷ a) = unfold has_prefix in ground (arith, contains_slash (c ∷ a))

-- `DetectPath` finds the first path-like argument, or there is none.
pub detect_path_first :
    (args : List Text)
    → ((detect_path args ≡ ([], false)) × All (λ a. is_path_like a ≡ false) args)
      ⊎ ((before : List Text) × (p : Text) × (after : List Text) × (args ≡ before ++ p ∷ after)
          × (detect_path args ≡ (p, true))
          × (is_path_like p ≡ true)
          × All (λ a. is_path_like a ≡ false) before)
unfolding detect_path
detect_path_first [] = inl (refl, tt)
detect_path_first (a ∷ args) = elim (Bool-cases (is_path_like a)) [
  | inl e ↦ inr ([], a, args, refl, rw e, e, tt)
  | inr e ↦ elim (detect_path_first args) [
    | inl (m, n) ↦ inl (rw e m, (e, n))
    | inr (before, p, after, m, n, o, q) ↦
        inr (a ∷ before, p, after, ap (λ (l : List Text). a ∷ l) m, rw e n, o, (e, q))
  ]
]
