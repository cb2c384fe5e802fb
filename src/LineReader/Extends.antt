-- ===== src/LineReader/Extends.antt =====
-- Prefixes, and strings that are longer than a prefix of theirs.
use shell_sentry.Base.{
  ℕ, ◌≤◌, ◌<◌, true, List, [], ◌∷◌, ◌++◌, All, length, length-append, ◌≡◌, refl, ◌∙◌, arith,
}
use shell_sentry.Base.Iff.{all_iff}
use shell_sentry.Text.{Text, has_prefix}
use shell_sentry.Text.Index.{prefix-append, prefix_length}
use shell_sentry.LineReader.Prefix.{longest_common_prefix, longest_common_prefix_lem}

-- `s` is longer than its prefix `p`
abbrev pub Extends : Text → Text → Type 0
Extends p s = (c : ℕ) × (ext : Text) × (s ≡ p ++ c ∷ ext)

pub prefix_longer : (s p : Text) → has_prefix s p ≡ true → length p < length s → Extends p s
unfolding has_prefix
prefix_longer [] [] h k = absurd (omega (arith, k))
prefix_longer (c ∷ s) [] h k = (c, s, refl)
prefix_longer [] (d ∷ p) h k = cc
prefix_longer (c ∷ s) (d ∷ p) h k =
    let same : c ≡ d = ground arith in
    let rest : has_prefix s p ≡ true = ground arith in
    let (e, ext, q) = prefix_longer s p rest (omega (arith, k)) in (e, ext, cc (same, q))

-- with a byte behind it, a string is longer than its prefixes
pub Extends-with_byte : (s p : Text) (c : ℕ) → has_prefix s p ≡ true → Extends p (s ++ c ∷ [])
Extends-with_byte s p c h =
    let l = length-append s (c ∷ []) in
    let k = prefix_length s p h in
    prefix_longer (s ++ c ∷ []) p (prefix-append s (c ∷ []) p h) (omega (arith, l, k))

-- the common prefix of what has a prefix, if it is longer
pub Extends-lcp :
    (m : Text) (ms : List Text) (p : Text)
    → All (λ s. has_prefix s p ≡ true) (m ∷ ms)
    → length p < length (longest_common_prefix (m ∷ ms))
    → Extends p (longest_common_prefix (m ∷ ms))
Extends-lcp m ms p h k =
    let each =
      (all_iff (λ s. has_prefix s p) (λ s. has_prefix s p ≡ true) (λ s. (λ e. e, λ e. e))
          (m ∷ ms)).1
        h in
    prefix_longer (longest_common_prefix (m ∷ ms)) p (longest_common_prefix_lem m ms p ∙ each) k

pub prefix_whole : (s p : Text) → has_prefix s p ≡ true → length s ≤ length p → s ≡ p
unfolding has_prefix
prefix_whole [] [] h k = refl
prefix_whole (c ∷ s) [] h k = absurd (omega (arith, k))
prefix_whole [] (d ∷ p) h k = cc
prefix_whole (c ∷ s) (d ∷ p) h k =
    let rest : has_prefix s p ≡ true = ground arith in
    let same : c ≡ d = ground arith in cc (same, prefix_whole s p rest (omega (arith, k)))
