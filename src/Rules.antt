-- ===== src/Rules.antt =====
-- go/core/rules.go: the admin pre-filter.
pub mod Segments
pub mod Match
pub mod Precedence
use shell_sentry.Base.{
  ℕ, Bool, true, false, ◌&&◌, ◌||◌, not, List, [], ◌∷◌, ◌++◌, ltb, leb, ◌==◌, if◌then◌else◌, any,
  all, is_empty, length, ◌≡◌, refl,
}
use shell_sentry.Base.Int.{ℤ, pos, ltb_ℤ}
use shell_sentry.Text.{Text, codes, text_eq, trim_space, fields, contains_text}

-- the anonymous structs of `Rules`
pub record Filter : Type 0 where
  pub deny : List Text
  pub allow : List Text

pub record Rules : Type 0 where
  pub commands : Filter
  pub min_seconds_between : ℤ
  pub countries : Filter

pub data RuleOutcome : Type 0 where
  rule_none rule_allow rule_challenge_soft rule_challenge_hard : RuleOutcome

-- the closure `flush`: the segments so far, with what `cur` holds
pub flush : Text → List Text → List Text
flush cur segs = let s = trim_space cur in if is_empty s then segs else segs ++ s ∷ []

-- The loop over the runes; a doubled `&` or `|` is consumed as one.
pub split_loop : Text → Text → List Text → List Text
unfolding flush
split_loop [] cur segs = flush cur segs
split_loop (c ∷ []) cur segs = elim (c == b'&' || c == b'|') [
  | true ↦ split_loop [] [] (flush cur segs)
  | false ↦ elim (c == b';') [
    | true ↦ split_loop [] [] (flush cur segs)
    | false ↦ split_loop [] (cur ++ c ∷ []) segs
  ]
]
split_loop (c ∷ d ∷ rest) cur segs = elim (c == b'&' || c == b'|') [
  | true ↦ elim (d == c) [
    | true ↦ split_loop rest [] (flush cur segs)
    | false ↦ split_loop (d ∷ rest) [] (flush cur segs)
  ]
  | false ↦ elim (c == b';') [
    | true ↦ split_loop (d ∷ rest) [] (flush cur segs)
    | false ↦ split_loop (d ∷ rest) (cur ++ c ∷ []) segs
  ]
]

unfoldable pub split_segments : Text → List Text
unfolding split_loop
split_segments line = split_loop line [] []

-- the inner loop of `tokenPrefixMatch`, with its test on the lengths
pub entry_matches : List Text → List Text → Bool
entry_matches line_tok [] = true
entry_matches [] (t ∷ et) = false
entry_matches (l ∷ line_tok) (t ∷ et) = text_eq l t && entry_matches line_tok et

-- one round of the outer loop: does the entry `e` match?
pub entry_applies : List Text → Text → Bool
unfolding entry_matches
entry_applies line_tok e =
    let et = fields e in
    if is_empty et || ltb (length line_tok) (length et) then false else entry_matches line_tok et

unfoldable pub token_prefix_match : List Text → Text → Bool
unfolding entry_applies
token_prefix_match entries line = any (entry_applies (fields line)) entries

abbrev first_is : List Text → Text → Bool
first_is [] w = false
first_is (f ∷ fs) w = text_eq f w

unfoldable pub has_shell_expansion : Text → Bool
has_shell_expansion seg =
    contains_text seg (codes "$(")
    || contains_text seg (codes "`")
    || contains_text seg (codes "${")
    || first_is (fields seg) (codes "eval")

unfoldable pub contains : List Text → Text → Bool
contains list v = any (λ x. text_eq x v) list

-- one round of the loop that keeps `allAllowed` true
pub bypasses : List Text → Text → Bool
bypasses allow seg = not (not (token_prefix_match allow seg) || has_shell_expansion seg)

unfoldable pub check : Rules → Text → Text → ℤ → RuleOutcome
unfolding contains bypasses
check r cmd_line country secs_since_last =
    let segs = split_segments cmd_line in
    if any (token_prefix_match r.commands.deny) segs
    then RuleOutcome.rule_challenge_hard
    else if contains r.countries.deny country
    then RuleOutcome.rule_challenge_hard
    else if contains r.countries.allow country
    then RuleOutcome.rule_allow
    else if ltb 0 (length r.commands.allow)
        && ltb 0 (length segs)
        && all (bypasses r.commands.allow) segs
    then RuleOutcome.rule_allow
    else if ltb_ℤ (pos 0) r.min_seconds_between && ltb_ℤ secs_since_last r.min_seconds_between
    then RuleOutcome.rule_challenge_soft
    else RuleOutcome.rule_none
