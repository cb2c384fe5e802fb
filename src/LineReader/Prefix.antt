-- ===== src/LineReader/Prefix.antt =====
-- `longestCommonPrefix`.
use shell_sentry.Base.{
  ℕ, zero, suc, ◌≤◌, Bool, true, false, ◌&&◌, List, [], ◌∷◌, Option, none, some, all, is_empty,
  length, ◌≡◌, refl, sym, ap, ◌∙◌, arith, Bool-cases, inl, inr, ◌==◌,
}
use shell_sentry.Text.{Text, has_prefix}

-- `p[:len(p)-1]`
abbrev without_last : Text → Text
without_last [] = []
without_last (c ∷ []) = []
without_last (c ∷ d ∷ p) = c ∷ without_last (d ∷ p)

-- the inner loop, with as many rounds as `p` has bytes; `none` returns the empty string
unfoldable shrink : ℕ → Text → Text → Option Text
unfolding has_prefix
shrink zero s p = some p
shrink (suc n) s p = elim (has_prefix s p) [
  | true ↦ some p
  | false ↦ elim (is_empty (without_last p)) [ true ↦ none | false ↦ shrink n s (without_last p) ]
]

-- the outer loop; `none` is the string that the inner loop returned
unfoldable lcp_loop : Option Text → List Text → Text
unfolding shrink
lcp_loop none ss = []
lcp_loop (some p) [] = p
lcp_loop (some p) (s ∷ ss) = lcp_loop (shrink (length p) s p) ss

unfoldable pub longest_common_prefix : List Text → Text
unfolding lcp_loop
longest_common_prefix [] = []
longest_common_prefix (s ∷ ss) = lcp_loop (some s) ss

-- the bytes at which two strings agree, up to the first at which they do not
abbrev common : Text → Text → Text
common [] t = []
common (c ∷ s) [] = []
common (c ∷ s) (d ∷ t) = elim (c == d) [ true ↦ c ∷ common s t | false ↦ [] ]

common_prefix : (s t p : Text) → has_prefix (common s t) p ≡ (has_prefix s p && has_prefix t p)
unfolding has_prefix
common_prefix s t [] = refl
common_prefix [] t (d ∷ p) = refl
common_prefix (c ∷ s) [] (d ∷ p) = ground arith
common_prefix (c ∷ s) (e ∷ t) (d ∷ p) = ground (arith, common_prefix s t p)

common_whole : (s p : Text) → has_prefix s p ≡ true → common p s ≡ p
unfolding has_prefix
common_whole s [] h = refl
common_whole [] (d ∷ p) h = cc
common_whole (c ∷ s) (d ∷ p) h = ground (arith, common_whole s p)

-- one byte less makes no difference as long as the string is no prefix
common-without_last : (s p : Text) → has_prefix s p ≡ false → common (without_last p) s ≡ common p s
unfolding has_prefix
common-without_last s [] h = refl
common-without_last [] (c ∷ []) h = refl
common-without_last [] (c ∷ d ∷ p) h = refl
common-without_last (e ∷ s) (c ∷ []) h = ground arith
common-without_last (e ∷ s) (c ∷ d ∷ p) h = ground (arith, common-without_last s (d ∷ p))

length-without_last : (n : ℕ) (p : Text) → length p ≤ suc n → length (without_last p) ≤ n
length-without_last n [] h = omega arith
length-without_last n (c ∷ []) h = omega arith
length-without_last zero (c ∷ d ∷ p) h = omega (arith, h)
length-without_last (suc n) (c ∷ d ∷ p) h =
    omega (arith, length-without_last n (d ∷ p) (omega (arith, h)))

is_empty_nil : (xs : Text) → is_empty xs ≡ true → xs ≡ []
is_empty_nil [] h = refl
is_empty_nil (x ∷ xs) h = cc

and_assoc : (a b c : Bool) → ((a && b) && c) ≡ (a && (b && c))
and_assoc true b c = refl
and_assoc false b c = refl

abbrev value : Option Text → Text
value none = []
value (some q) = q

-- with enough rounds, the inner loop leaves what the two strings have in common
shrink_lem : (n : ℕ) (s p : Text) → length p ≤ n → value (shrink n s p) ≡ common p s
unfolding shrink
shrink_lem zero s [] h = refl
shrink_lem zero s (c ∷ p) h =
    let none_left : 1 ≤ 0 = omega (arith, h) in absurd (omega (arith, none_left))
shrink_lem (suc n) s p h = elim (Bool-cases (has_prefix s p)) [
  | inl e ↦ rw (e, shrink) (sym (common_whole s p e))
  | inr e ↦
      let same = common-without_last s p e in
      elim (Bool-cases (is_empty (without_last p))) [
        | inl k ↦
            let nil = is_empty_nil (without_last p) k in
            rw (e, shrink, k) (sym (ap (λ r. common r s) nil) ∙ same)
        | inr k ↦
            rw (e, shrink, k) (shrink_lem n s (without_last p) (length-without_last n p h) ∙ same)
      ]
]

prefix_of_nil :
    (ss : List Text) (q : Text)
    → has_prefix [] q ≡ (has_prefix [] q && all (λ s. has_prefix s q) ss)
unfolding has_prefix
prefix_of_nil [] [] = refl
prefix_of_nil (s ∷ ss) [] = prefix_of_nil ss []
prefix_of_nil ss (d ∷ q) = refl

lcp_loop_prefix :
    (o : Option Text) (ss : List Text) (q : Text)
    → has_prefix (lcp_loop o ss) q ≡ (has_prefix (value o) q && all (λ s. has_prefix s q) ss)
unfolding lcp_loop
lcp_loop_prefix none ss q = prefix_of_nil ss q
lcp_loop_prefix (some p) [] q = ground arith
lcp_loop_prefix (some p) (s ∷ ss) q =
    let others = all (λ s. has_prefix s q) ss in
    let enough : length p ≤ length p = omega arith in
    lcp_loop_prefix (shrink (length p) s p) ss q
    ∙ ap (λ r. has_prefix r q && others) (shrink_lem (length p) s p enough)
    ∙ ap (λ b. b && others) (common_prefix p s q)
    ∙ and_assoc (has_prefix p q) (has_prefix s q) others

-- A string is a prefix of the longest common prefix of some strings if and only if it is a prefix of
-- each of them: the result is a common prefix, and no common prefix is longer.
pub longest_common_prefix_lem :
    (s : Text) (ss : List Text) (q : Text)
    → has_prefix (longest_common_prefix (s ∷ ss)) q ≡ all (λ t. has_prefix t q) (s ∷ ss)
unfolding longest_common_prefix
longest_common_prefix_lem s ss q = lcp_loop_prefix (some s) ss q

pub longest_common_prefix_one : (s : Text) → longest_common_prefix (s ∷ []) ≡ s
unfolding longest_common_prefix lcp_loop
longest_common_prefix_one s = refl
