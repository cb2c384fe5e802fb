-- ===== src/Rules/Match.antt =====
-- The tests on entries, against the tokens that they compare.
use shell_sentry.Base.{
  true, false, List, [], ◌∷◌, ◌++◌, ◌≡◌, ◌≢◌, ◌↔◌, refl, arith, any, Any, length-append,
}
use shell_sentry.Base.Iff.{any_sound, any_complete}
use shell_sentry.Text.{Text, text_eq, fields}
use shell_sentry.Text.Laws.{text_eq_iff, text_eq_refl, text_eq_sound}
use shell_sentry.Rules.{
  entry_matches, entry_applies, token_prefix_match, has_shell_expansion, contains, bypasses,
}

-- the entry has tokens, and they begin the tokens of the line
abbrev pub TokenPrefix : Text → Text → Type 0
TokenPrefix line entry =
    (fields entry ≢ []) × ((rest : List Text) × (fields line ≡ fields entry ++ rest))

entry_matches_sound :
    (lt et : List Text) → entry_matches lt et ≡ true → (rest : List Text) × (lt ≡ et ++ rest)
unfolding entry_matches
entry_matches_sound lt [] h = (lt, refl)
entry_matches_sound [] (t ∷ et) h = cc
entry_matches_sound (l ∷ lt) (t ∷ et) h =
    let (rest, e) = entry_matches_sound lt et (ground arith) in
    (rest, ground (arith, text_eq_sound l t))

entry_matches_complete : (et rest : List Text) → entry_matches (et ++ rest) et ≡ true
unfolding entry_matches
entry_matches_complete [] rest = refl
entry_matches_complete (t ∷ et) rest = rw text_eq_refl (entry_matches_complete et rest)

entry_applies_sound : (line e : Text) → entry_applies (fields line) e ≡ true → TokenPrefix line e
unfolding entry_applies
entry_applies_sound line e h =
    (ground arith, entry_matches_sound (fields line) (fields e) (ground arith))

entry_applies_complete : (line e : Text) → TokenPrefix line e → entry_applies (fields line) e ≡ true
unfolding entry_applies
entry_applies_complete line e (some_token, tail) =
    rw tail.1
      (ground (arith, entry_matches_complete (fields e) tail.0, length-append (fields e) tail.0))

-- A list of entries matches a line if and only if the tokens of an entry, which has tokens, begin
-- the tokens of the line.
pub token_prefix_match_iff :
    (entries : List Text) (line : Text)
    → (token_prefix_match entries line ≡ true) ↔ Any (TokenPrefix line) entries
unfolding token_prefix_match
token_prefix_match_iff entries line = (
  any_sound (entry_applies (fields line)) (TokenPrefix line) (entry_applies_sound line) entries,
  any_complete (entry_applies (fields line)) (TokenPrefix line) (entry_applies_complete line)
      entries,
)

pub contains_iff : (l : List Text) (v : Text) → (contains l v ≡ true) ↔ Any (λ x. x ≡ v) l
unfolding contains
contains_iff l v = (
  any_sound (λ x. text_eq x v) (λ x. x ≡ v) (λ x. (text_eq_iff x v).0) l,
  any_complete (λ x. text_eq x v) (λ x. x ≡ v) (λ x. (text_eq_iff x v).1) l,
)

pub any_match_iff :
    (entries segs : List Text)
    → (any (token_prefix_match entries) segs ≡ true)
      ↔ Any (λ seg. Any (TokenPrefix seg) entries) segs
any_match_iff entries segs = (
  any_sound (token_prefix_match entries) (λ seg. Any (TokenPrefix seg) entries)
      (λ seg. (token_prefix_match_iff entries seg).0) segs,
  any_complete (token_prefix_match entries) (λ seg. Any (TokenPrefix seg) entries)
      (λ seg. (token_prefix_match_iff entries seg).1) segs,
)

pub bypasses_iff :
    (allow : List Text) (seg : Text)
    → (bypasses allow seg ≡ true)
      ↔ (Any (TokenPrefix seg) allow × (has_shell_expansion seg ≡ false))
unfolding bypasses
bypasses_iff allow seg = (
  λ h. ((token_prefix_match_iff allow seg).0 (ground arith), ground arith),
  λ h. rw ((token_prefix_match_iff allow seg).1 h.0, h.1),
)
