-- ===== src/LineReader/Kept.antt =====
-- What the completion of a first word rules out: nothing.
use shell_sentry.Base.{
  ℕ, ◌||◌, true, List, [], ◌∷◌, ◌++◌, Option, none, some, All, keep, take, drop, length, leb, ◌==◌,
  ◌≡◌, sym, ap, ◌∙◌, Bool-cases, inl, inr, append-nil,
}
use shell_sentry.Base.Iff.{all_iff}
use shell_sentry.Base.Keep.{All-map}
use shell_sentry.Text.{Text, has_prefix}
use shell_sentry.Text.Laws.{has_prefix_append}
use shell_sentry.LineReader.Prefix.{
  longest_common_prefix, longest_common_prefix_lem, longest_common_prefix_one,
}
use shell_sentry.LineReader.Words.{with_matches, complete_first_word, has_space}
use shell_sentry.Base.Slices.{take-append}
use shell_sentry.Text.Index.{prefix-append}

has_prefix_refl : (s : Text) → has_prefix s s ≡ true
has_prefix_refl s = ap (λ t. has_prefix t s) (sym (append-nil s)) ∙ has_prefix_append s []

-- the word `c` with a space behind it begins with `s`
abbrev pub Begins : Text → Text → Type 0
Begins s c = has_prefix (c ++ b' ' ∷ []) s ≡ true

-- what stands before the cursor in an answer
abbrev typed : Option (Text × ℕ) → Text
typed none = []
typed (some r) = take r.1 r.0

with_matches_kept :
    (prefix rest : Text) (ms : List Text) (r : Text × ℕ)
    → with_matches prefix rest ms ≡ some r
    → All (Begins (take r.1 r.0)) ms
unfolding with_matches
with_matches_kept prefix rest [] r h = tt
with_matches_kept prefix rest (m ∷ []) r h =
    let completed = longest_common_prefix (m ∷ []) ++ b' ' ∷ [] in
    let whole : completed ≡ take r.1 r.0 = sym (take-append completed rest) ∙ ap typed h in
    (
      ap (has_prefix (m ++ b' ' ∷ []))
            (sym whole ∙ ap (λ s. s ++ b' ' ∷ []) (longest_common_prefix_one m))
          ∙ has_prefix_refl (m ++ b' ' ∷ []),
      tt,
    )
with_matches_kept prefix rest (m ∷ n ∷ ms) r h =
    elim (Bool-cases (leb (length (longest_common_prefix (m ∷ n ∷ ms))) (length prefix))) [
      | inl l ↦ cc
      | inr l ↦
          let lcp = longest_common_prefix (m ∷ n ∷ ms) in
          let whole : lcp ≡ take r.1 r.0 = sym (take-append lcp rest) ∙ ap typed (rw l at h) in
          let each = longest_common_prefix_lem m (n ∷ ms) lcp in
          let prefixes =
            (all_iff (λ s. has_prefix s lcp) (λ s. has_prefix s lcp ≡ true) (λ s. (λ e. e, λ e. e))
                (m ∷ n ∷ ms)).0
              (sym each ∙ has_prefix_refl lcp) in
          All-map (λ s. has_prefix s lcp ≡ true) (Begins (take r.1 r.0)) (m ∷ n ∷ ms)
            (λ s e.
              ap (has_prefix (s ++ b' ' ∷ [])) (sym whole) ∙ prefix-append s (b' ' ∷ []) lcp e)
            prefixes
    ]

-- A completion of the first word rules out no candidate: every candidate that begins with what stood
-- before the cursor begins, with a space behind it, with what then stands before the cursor.
pub complete_first_word_kept :
    (line : Text) (pos : ℕ) (cs : List Text) (r : Text × ℕ)
    → complete_first_word line pos cs ≡ some r
    → All (Begins (take r.1 r.0)) (keep (λ c. has_prefix c (take pos line)) cs)
unfolding complete_first_word
complete_first_word_kept line pos cs r h =
    elim (Bool-cases (pos == 0 || has_space (take pos line))) [
      | inl l ↦ cc
      | inr l ↦ with_matches_kept (take pos line) (drop pos line) _ r (rw l at h)
    ]
