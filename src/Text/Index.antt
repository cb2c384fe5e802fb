-- ===== src/Text/Index.antt =====
-- Where `strings.Index` finds a text, and prefixes of a text that grows.
use shell_sentry.Base.{
  ℕ, suc, ◌+◌, ◌≤◌, ◌<◌, true, false, [], ◌∷◌, ◌++◌, Option, none, some, All, length, ◌≡◌, ◌≢◌,
  refl, sym, ap, ◌∙◌, arith, Bool-cases, inl, inr,
}
use shell_sentry.Text.{Text, has_prefix, index}

pub prefix-append : (s t p : Text) → has_prefix s p ≡ true → has_prefix (s ++ t) p ≡ true
unfolding has_prefix
prefix-append s t [] h = refl
prefix-append [] t (d ∷ p) h = cc
prefix-append (c ∷ s) t (d ∷ p) h = ground (arith, prefix-append s t p)

pub prefix_length : (s p : Text) → has_prefix s p ≡ true → length p ≤ length s
unfolding has_prefix
prefix_length s [] h = omega arith
prefix_length [] (d ∷ p) h = cc
prefix_length (c ∷ s) (d ∷ p) h =
    let rest : has_prefix s p ≡ true = ground arith in omega (arith, prefix_length s p rest)

-- what follows a text is of no account for a prefix that is no longer than the text
pub prefix_within : (s t p : Text) → length p ≤ length s → has_prefix (s ++ t) p ≡ has_prefix s p
unfolding has_prefix
prefix_within s t [] h = ground arith
prefix_within [] t (d ∷ p) h = absurd (omega (arith, h))
prefix_within (c ∷ s) t (d ∷ p) h = ground (arith, prefix_within s t p (omega (arith, h)))

-- what `index` makes of what it finds further on
abbrev pub further : Option ℕ → Option ℕ
further none = none
further (some i) = some (suc i)

pub index_here : (s p : Text) → has_prefix s p ≡ true → index s p ≡ some 0
unfolding index
index_here [] [] h = refl
index_here [] (d ∷ p) h = cc
index_here (c ∷ s) p h = rw (h, index) refl

pub index-further :
    (c : ℕ) (s p : Text) → has_prefix (c ∷ s) p ≡ false → index (c ∷ s) p ≡ further (index s p)
unfolding index
index-further c s p h = rw (h, index) (joined (index s p))
  where
    joined : (o : Option ℕ) → (elim o [ none ↦ none | some i ↦ some (suc i) ]) ≡ further o
    joined none = refl
    joined (some i) = refl

-- a text that is found ends in the text, and is found at the same place in a longer one
pub index-append :
    (s t p : Text) (i : ℕ)
    → 0 < length p
    → index s p ≡ some i
    → (i + length p ≤ length s) × (index (s ++ t) p ≡ some i)
index-append s t [] i l h = absurd (omega (arith, l))
index-append [] t (d ∷ p) i l h = unfold index in cc
index-append (c ∷ s) t (d ∷ p) i l h = elim (Bool-cases (has_prefix (c ∷ s) (d ∷ p))) [
  | inl e ↦
      let zero_i : some 0 ≡ some i = sym (index_here (c ∷ s) (d ∷ p) e) ∙ h in
      let at : 0 ≡ i = cc in
      let fits = prefix_length (c ∷ s) (d ∷ p) e in
      (
        omega (arith, fits, at),
        index_here (c ∷ s ++ t) (d ∷ p) (prefix-append (c ∷ s) t (d ∷ p) e) ∙ zero_i,
      )
  | inr e ↦
      behind (index s (d ∷ p)) (λ j. index-append s t (d ∷ p) j l)
        (sym (index-further c s (d ∷ p) e) ∙ h) e
]
  where
    behind :
        (o : Option ℕ)
        → ((j : ℕ)
            → o ≡ some j
            → (j + length (d ∷ p) ≤ length s) × (index (s ++ t) (d ∷ p) ≡ some j))
        → further o ≡ some i
        → has_prefix (c ∷ s) (d ∷ p) ≡ false
        → (i + length (d ∷ p) ≤ length (c ∷ s)) × (index (c ∷ s ++ t) (d ∷ p) ≡ some i)
    behind none q r e = cc
    behind (some j) q r e =
        let (fits, there) = q j refl in
        let at : suc j ≡ i = cc in
        let not_here = prefix_within (c ∷ s) t (d ∷ p) (omega (arith, fits)) ∙ e in
        (
          omega (arith, fits, at),
          index-further c (s ++ t) (d ∷ p) not_here ∙ ap further there ∙ ap some at,
        )

-- the first of several equal characters that stands behind others
pub index-first :
    (s t : Text) (d : ℕ) → All (λ c. c ≢ d) s → index (s ++ d ∷ t) (d ∷ []) ≡ some (length s)
index-first [] t d h = index_here (d ∷ t) (d ∷ []) (unfold has_prefix in ground arith)
index-first (c ∷ s) t d h =
    let differs = h.0 in
    index-further c (s ++ d ∷ t) (d ∷ []) (unfold has_prefix in ground arith)
    ∙ ap further (index-first s t d h.1)

pub index_absent : (s : Text) (d : ℕ) → All (λ c. c ≢ d) s → index s (d ∷ []) ≡ none
index_absent [] d h = unfold index in refl
index_absent (c ∷ s) d h =
    let differs = h.0 in
    index-further c s (d ∷ []) (unfold has_prefix in ground arith)
    ∙ ap further (index_absent s d h.1)

pub prefix_shorter : (s p q : Text) → has_prefix s (p ++ q) ≡ true → has_prefix s p ≡ true
unfolding has_prefix
prefix_shorter s [] q h = ground arith
prefix_shorter [] (d ∷ p) q h = cc
prefix_shorter (c ∷ s) (d ∷ p) q h = ground (arith, prefix_shorter s p q)
