-- ===== src/LineReader/Vocabulary.antt =====
-- The candidates for a first word.
use shell_sentry.Base.{
  Bool, true, false, ◌||◌, List, [], ◌∷◌, any, any-append, All, take, ◌≡◌, ◌≢◌, refl, ap, ◌∙◌,
  arith, Bool-cases, inl, inr,
}
use shell_sentry.Base.Order.{
  Ascends, Ascends-order_by, Distinct, Distinct-last, Distinct-order_by, any-order_by,
}
use shell_sentry.Text.{Text, text_eq}
use shell_sentry.Text.Bytes.{byte_fields}
use shell_sentry.Text.Laws.{text_eq_refl, text_eq_sound}
use shell_sentry.Feature.{Dicts}
use shell_sentry.Ports.{Reading, ReadError}
use shell_sentry.LineReader.Words.{note_line, add_key, add_keys, text_le, keys, candidates}

text_le_total : (s t : Text) → text_le s t ≡ false → text_le t s ≡ true
unfolding text_le
text_le_total [] t h = cc
text_le_total (c ∷ s) [] h = refl
text_le_total (c ∷ s) (d ∷ t) h = ground (arith, text_le_total s t)

text_le_trans : (s t u : Text) → text_le s t ≡ true → text_le t u ≡ true → text_le s u ≡ true
unfolding text_le
text_le_trans [] t u h k = refl
text_le_trans (c ∷ s) [] u h k = cc
text_le_trans (c ∷ s) (d ∷ t) [] h k = cc
text_le_trans (c ∷ s) (d ∷ t) (e ∷ u) h k = ground (arith, text_le_trans s t u)

-- a word is in the set if it was or if it is the one that was added
any-add_key :
    (w k : Text) (set : List Text)
    → any (text_eq w) (add_key k set) ≡ (text_eq w k || any (text_eq w) set)
unfolding add_key
any-add_key w k set = elim (Bool-cases (any (text_eq k) set)) [
  | inl e ↦ rw e (elim (Bool-cases (text_eq w k)) [
    | inl t ↦ let same = text_eq_sound w k t in rw t (ap (λ x. any (text_eq x) set) same ∙ e)
    | inr f ↦ rw f refl
  ])
  | inr e ↦ rw e (any-append (text_eq w) set (k ∷ []) ∙ ground arith)
]

absent : (k : Text) (set : List Text) → any (text_eq k) set ≡ false → All (λ s. s ≢ k) set
absent k [] h = tt
absent k (s ∷ set) h = (
  λ e.
      let other : text_eq k s ≡ false = ground arith in
      cc (ap (text_eq k) e, text_eq_refl k, other),
  absent k set (ground arith),
)

Distinct-add_key :
    (k : Text) (set : List Text) → Distinct (λ s. s) set → Distinct (λ s. s) (add_key k set)
unfolding add_key
Distinct-add_key k set d = elim (Bool-cases (any (text_eq k) set)) [
  | inl e ↦ rw e d
  | inr e ↦ rw e (Distinct-last (λ s. s) set k d (absent k set e))
]

any-add_keys :
    (w : Text) (ks set : List Text)
    → any (text_eq w) (add_keys ks set) ≡ (any (text_eq w) ks || any (text_eq w) set)
unfolding add_keys
any-add_keys w [] set = refl
any-add_keys w (k ∷ ks) set =
    any-add_keys w ks (add_key k set)
    ∙ ap (λ b. any (text_eq w) ks || b) (any-add_key w k set)
    ∙ swap (any (text_eq w) ks) (text_eq w k) (any (text_eq w) set)
  where
    swap : (a b c : Bool) → (a || (b || c)) ≡ ((b || a) || c)
    swap a b c = ground arith

Distinct-add_keys :
    (ks set : List Text) → Distinct (λ s. s) set → Distinct (λ s. s) (add_keys ks set)
unfolding add_keys
Distinct-add_keys [] set d = d
Distinct-add_keys (k ∷ ks) set d = Distinct-add_keys ks (add_key k set) (Distinct-add_key k set d)

-- what a session's calls of `ReadLine` note
abbrev pub noted : List Text → List Reading → List Text
noted seen [] = seen
noted seen (r ∷ rs) = noted (note_line seen r) rs

-- the line was read without an error, and `w` is its first word
abbrev pub begins_with : Text → Reading → Bool
begins_with w r = elim r.err [
  | ReadError.no_error ↦ any (text_eq w) (take 1 (byte_fields r.line))
  | _ ↦ false
]

any-note_line :
    (w : Text) (seen : List Text) (line : Text) (e : ReadError)
    → any (text_eq w) (note_line seen (record { line = line; err = e }))
      ≡ (any (text_eq w) seen || begins_with w (record { line = line; err = e }))
unfolding note_line
any-note_line w seen line ReadError.no_error =
    any-append (text_eq w) seen (take 1 (byte_fields line))
any-note_line w seen line ReadError.end_of_input = ground arith
any-note_line w seen line ReadError.other_error = ground arith

any-noted :
    (w : Text) (seen : List Text) (rs : List Reading)
    → any (text_eq w) (noted seen rs) ≡ (any (text_eq w) seen || any (begins_with w) rs)
any-noted w seen [] = ground arith
any-noted w seen (r ∷ rs) =
    any-noted w (note_line seen r) rs
    ∙ ap (λ b. b || any (begins_with w) rs) (any-note_line w seen r.line r.err)
    ∙ or_assoc (any (text_eq w) seen) (begins_with w r) (any (begins_with w) rs)
  where
    or_assoc : (a b c : Bool) → ((a || b) || c) ≡ (a || (b || c))
    or_assoc a b c = ground arith

-- The candidates for a first word are the words of the trained vocabulary and the first words of the
-- lines that the session read without an error, and no others; they are sorted, and none of them
-- occurs twice.
pub candidates_lem :
    (d : Dicts) (rs : List Reading) (w : Text)
    → (any (text_eq w) (candidates d (noted [] rs))
        ≡ (any (begins_with w) rs || any (text_eq w) (keys d.command)))
      × Ascends text_le (candidates d (noted [] rs))
      × Distinct (λ s. s) (candidates d (noted [] rs))
unfolding candidates
candidates_lem d rs w =
    let known = add_keys (keys d.command) [] in
    let set = add_keys (noted [] rs) known in
    (
      any-order_by text_le text_eq w set
          ∙ any-add_keys w (noted [] rs) known
          ∙ ap (λ b. any (text_eq w) (noted [] rs) || b)
              (any-add_keys w (keys d.command) [] ∙ ground arith)
          ∙ ap (λ b. b || any (text_eq w) (keys d.command)) (any-noted w [] rs),
      Ascends-order_by text_le text_le_total text_le_trans set,
      Distinct-order_by (λ s. s) text_le set
          (Distinct-add_keys (noted [] rs) known (Distinct-add_keys (keys d.command) [] tt)),
    )
