-- ===== src/Rules/Segments.antt =====
-- `splitSegments` against a plain cut at every operator character.
use shell_sentry.Base.{
  ℕ, Bool, true, false, ◌&&◌, ◌||◌, not, List, [], ◌∷◌, ◌++◌, append_assoc, append-nil, ◌==◌, ◌≡◌,
  refl, sym, inl, inr, arith, Bool-cases, is_empty, keep, keep-append,
}
use shell_sentry.Text.{Text, trim_space, is_space}
use shell_sentry.Text.Laws.{keep-trim_space}
use shell_sentry.Rules.{flush, split_loop, split_segments}

-- one of the characters of the top-level operators && || ; | &
abbrev pub is_operator : ℕ → Bool
is_operator c = c == b'&' || c == b'|' || c == b';'

-- The reference: every operator character ends a piece, and blank pieces are dropped.
pub pieces : Text → Text → List Text
pieces cur [] = flush cur []
pieces cur (c ∷ s) = elim (is_operator c) [
  | true ↦ flush cur [] ++ pieces [] s
  | false ↦ pieces (cur ++ c ∷ []) s
]

flush-append : (cur : Text) (segs : List Text) → flush cur segs ≡ segs ++ flush cur []
unfolding flush
flush-append cur segs = elim (Bool-cases (is_empty (trim_space cur))) [
  | inl e ↦ rw e (sym (append-nil segs))
  | inr e ↦ rw e
]

flush-nil : flush [] [] ≡ []
unfolding flush trim_space
flush-nil = refl

split_loop-pieces : (s cur : Text) (segs : List Text) → split_loop s cur segs ≡ segs ++ pieces cur s
unfolding split_loop pieces
split_loop-pieces [] cur segs = unfold flush in flush-append cur segs
split_loop-pieces (c ∷ []) cur segs = ground (
  arith,
  flush-append cur segs,
  flush-append [] (flush cur segs),
  flush-append (cur ++ c ∷ []) segs,
  flush-nil,
  append-nil (flush cur []),
  append-nil (flush cur segs),
)
split_loop-pieces (c ∷ d ∷ rest) cur segs = ground (
  arith,
  flush-append cur segs,
  flush-nil,
  split_loop-pieces (d ∷ rest) [] (flush cur segs),
  split_loop-pieces rest [] (flush cur segs),
  split_loop-pieces (d ∷ rest) (cur ++ c ∷ []) segs,
  append_assoc segs (flush cur []) (pieces [] (d ∷ rest)),
  append_assoc segs (flush cur []) (pieces [] rest),
)

split_segments-pieces : (line : Text) → split_segments line ≡ pieces [] line
unfolding split_segments
split_segments-pieces line = split_loop-pieces line [] []

pieces-append :
    (a cur : Text) (op : ℕ) (b : Text)
    → is_operator op ≡ true
    → pieces cur (a ++ op ∷ b) ≡ pieces cur a ++ pieces [] b
unfolding pieces
pieces-append [] cur op b h = ground arith
pieces-append (c ∷ a) cur op b h = ground (
  arith,
  pieces-append a [] op b h,
  pieces-append a (cur ++ c ∷ []) op b h,
  append_assoc (flush cur []) (pieces [] a) (pieces [] b),
)

-- A line cut at an operator character has the segments of its two sides, in order.
pub split_segments-chain :
    (a b : Text) (op : ℕ)
    → is_operator op ≡ true
    → split_segments (a ++ op ∷ b) ≡ split_segments a ++ split_segments b
split_segments-chain a b op h = simp split_segments-pieces (pieces-append a [] op b h)

abbrev pub flat : List Text → Text
flat [] = []
flat (s ∷ l) = s ++ flat l

-- neither white space nor an operator character
abbrev pub is_visible : ℕ → Bool
is_visible c = not (is_space c) && not (is_operator c)

is_space-not-visible : (c : ℕ) → is_space c ≡ true → is_visible c ≡ false
is_space-not-visible c h = rw h

flat-append : (xs ys : List Text) → flat (xs ++ ys) ≡ flat xs ++ flat ys
flat-append [] ys = refl
flat-append (x ∷ xs) ys = simp (flat-append xs ys, append_assoc)

keep-flush : (cur : Text) → keep is_visible (flat (flush cur [])) ≡ keep is_visible cur
unfolding flush
keep-flush cur =
    ground (arith, keep-trim_space is_visible cur is_space-not-visible, append-nil (trim_space cur))

keep-pieces : (s cur : Text) → keep is_visible (flat (pieces cur s)) ≡ keep is_visible (cur ++ s)
unfolding pieces
keep-pieces [] cur = rw append-nil (keep-flush cur)
keep-pieces (c ∷ s) cur = ground (
  arith,
  flat-append (flush cur []) (pieces [] s),
  keep-append is_visible (flat (flush cur [])) (flat (pieces [] s)),
  keep-flush cur,
  keep-pieces s [],
  keep-pieces s (cur ++ c ∷ []),
  keep-append is_visible cur (c ∷ s),
  append_assoc cur (c ∷ []) s,
)

-- The segments hold every character of the line that is neither white space nor an operator, in its
-- order, and no other such character.
pub keep-visible-flat :
    (line : Text) → keep is_visible (flat (split_segments line)) ≡ keep is_visible line
keep-visible-flat line = rw split_segments-pieces (keep-pieces line [])
