-- ===== src/LineReader/Cursor.antt =====
-- What a completion does to the line under the cursor.
use shell_sentry.Base.{
  ℕ, suc, ◌+◌, ◌≤◌, true, ◌&&◌, ◌||◌, not, List, [], ◌∷◌, ◌++◌, Option, none, some, append_assoc,
  All, keep, take, drop, length, length-append, is_empty, leb, ltb, ◌==◌, ◌≡◌, refl, sym, ap, ◌∙◌,
  arith, Bool-cases, inl, inr, subst,
}
use shell_sentry.Base.Keep.{All-map, All-All, All-keep}
use shell_sentry.Base.Slices.{length-take, take-drop, take-take}
use shell_sentry.Text.Index.{prefix-append}
use shell_sentry.Text.{Text, has_prefix}
use shell_sentry.Feature.{Dicts}
use shell_sentry.LineReader.Prefix.{longest_common_prefix, longest_common_prefix_lem}
use shell_sentry.LineReader.Words.{with_matches, complete_first_word, candidates, has_space}
use shell_sentry.LineReader.Files.{
  Entry, FileSystem, Cwd, last_end, ends_in_slash, is_skipped, path_matches, complete_base,
  matches_in, directory_of, complete_path, auto_complete,
}
use shell_sentry.LineReader.Extends.{
  Extends, prefix_longer, prefix_whole, Extends-with_byte, Extends-lcp,
}

-- the answer is the line with at least one byte inserted at the cursor, and the position behind it
abbrev pub Inserts : Text → ℕ → Text × ℕ → Type 0
Inserts line pos r =
    (c : ℕ) × (ext : Text) × (r.0 ≡ take pos line ++ (c ∷ ext) ++ drop pos line)
    × (r.1 ≡ pos + suc (length ext))

-- replacing what stands before the cursor by something longer is an insertion
Inserts-extended :
    (line : Text) (pos : ℕ) (before base completed : Text)
    → pos ≤ length line
    → take pos line ≡ before ++ base
    → Extends base completed
    → Inserts line pos ((before ++ completed) ++ drop pos line, length (before ++ completed))
Inserts-extended line pos before base completed h e (c, ext, q) =
    let whole : before ++ completed ≡ take pos line ++ c ∷ ext =
      ap (λ s. before ++ s) q
      ∙ sym (append_assoc before base (c ∷ ext))
      ∙ ap (λ s. s ++ c ∷ ext) (sym e) in
    let size = length-append (take pos line) (c ∷ ext) in
    let there = length-take pos line h in
    (c, ext, ap (λ s. s ++ drop pos line) whole, ap length whole ∙ omega (arith, size, there))

some_inj : {A : Type 0} {a b : A} → some a ≡ some b → a ≡ b
some_inj h = cc

with_matches-Inserts :
    (line : Text) (pos : ℕ) (ms : List Text) (r : Text × ℕ)
    → pos ≤ length line
    → All (λ m. has_prefix m (take pos line) ≡ true) ms
    → with_matches (take pos line) (drop pos line) ms ≡ some r
    → Inserts line pos r
unfolding with_matches
with_matches-Inserts line pos [] r h k e = cc
with_matches-Inserts line pos (m ∷ []) r h k e =
    let whole = longest_common_prefix_lem m [] (take pos line) ∙ ground (arith, k.0) in
    let longer = Extends-with_byte (longest_common_prefix (m ∷ [])) (take pos line) b' ' whole in
    subst (Inserts line pos) (some_inj e) (
      Inserts-extended line pos [] (take pos line) (longest_common_prefix (m ∷ []) ++ b' ' ∷ []) h
        refl longer)
with_matches-Inserts line pos (m ∷ n ∷ ms) r h k e =
    elim (Bool-cases (leb (length (longest_common_prefix (m ∷ n ∷ ms))) (length (take pos line)))) [
      | inl l ↦ cc
      | inr l ↦
          let longer = Extends-lcp m (n ∷ ms) (take pos line) k (ground arith) in
          let found = rw l at e in
          subst (Inserts line pos) (some_inj found) (
            Inserts-extended line pos [] (take pos line) (longest_common_prefix (m ∷ n ∷ ms)) h refl
              longer)
    ]

complete_first_word-Inserts :
    (line : Text) (pos : ℕ) (cs : List Text) (r : Text × ℕ)
    → pos ≤ length line
    → complete_first_word line pos cs ≡ some r
    → Inserts line pos r
unfolding complete_first_word
complete_first_word-Inserts line pos cs r h e =
    elim (Bool-cases (pos == 0 || has_space (take pos line))) [
      | inl l ↦ cc
      | inr l ↦
          let prefix = take pos line in
          let matches = keep (λ c. has_prefix c prefix) cs in
          let each =
            All-map (λ (c : Text). Unit {0} × (has_prefix c prefix ≡ true))
              (λ c. has_prefix c prefix ≡ true) matches (λ c p. p.1)
              (All-keep (λ c. Unit {0}) (λ c. has_prefix c prefix) cs
                (All-All (λ c. Unit {0}) cs (λ c. tt))) in
          with_matches-Inserts line pos matches r h each (rw l at e)
    ]

path_matches-prefix :
    (base : Text) (entries : List Entry)
    → All (λ m. has_prefix m base ≡ true) (path_matches base entries)
unfolding path_matches
path_matches-prefix base [] = tt
path_matches-prefix base (e ∷ entries) = elim (Bool-cases (is_skipped base e.name)) [
  | inl s ↦ rw s (path_matches-prefix base entries)
  | inr s ↦
      let whole : has_prefix e.name base ≡ true = ground arith in
      elim (Bool-cases e.is_dir) [
        | inl d ↦
            rw (s, d)
              (prefix-append e.name (b'/' ∷ []) base whole, path_matches-prefix base entries)
        | inr d ↦ rw (s, d) (whole, path_matches-prefix base entries)
      ]
]

matches_in-prefix :
    (fs : FileSystem) (base dir : Text)
    → All (λ m. has_prefix m base ≡ true) (matches_in fs base dir)
unfolding matches_in
matches_in-prefix fs base dir = elim (Bool-cases (is_empty dir)) [
  | inl e ↦ rw e tt
  | inr e ↦ rw e (of_listing (fs.read_dir dir))
]
  where
    of_listing :
        (o : Option (List Entry))
        → All
            (λ m. has_prefix m base ≡ true)
            (elim o [ none ↦ [] | some entries ↦ path_matches base entries ])
    of_listing none = tt
    of_listing (some entries) = path_matches-prefix base entries

-- behind its last slash, a token has none
last_end-drop : (c : ℕ) (s : Text) → last_end c (drop (last_end c s) s) ≡ 0
last_end-drop c [] = refl
last_end-drop c (d ∷ s) = elim (Bool-cases (ltb 0 (last_end c s))) [
  | inl m ↦ rw m (last_end-drop c s)
  | inr m ↦
      let none_left : last_end c s ≡ 0 = ground arith in
      elim (Bool-cases (d == c)) [
        | inl e ↦ rw (m, e) none_left
        | inr e ↦ rw (m, e, last_end) (rw (m, e) refl)
      ]
]

-- what ends in a slash is longer than its prefix without one
Extends-slash :
    (m base : Text)
    → last_end b'/' base ≡ 0
    → has_prefix m base ≡ true
    → ends_in_slash m ≡ true
    → Extends base m
Extends-slash [] base n k e = cc
Extends-slash (c ∷ m) base n k e = elim (Bool-cases (ltb (length base) (length (c ∷ m)))) [
  | inl l ↦ prefix_longer (c ∷ m) base k (ground arith)
  | inr l ↦
      let same = prefix_whole (c ∷ m) base k (ground arith) in
      let none_left = ap (last_end b'/') same ∙ n in
      let slash : last_end b'/' (c ∷ m) ≡ suc (length m) = ground (arith, e) in
      absurd (omega (arith, none_left, slash))
]

-- a match that ends in a slash is longer than a base without one
complete_base-Extends :
    (base : Text) (ms : List Text) (completed : Text)
    → last_end b'/' base ≡ 0
    → All (λ m. has_prefix m base ≡ true) ms
    → complete_base base ms ≡ some completed
    → Extends base completed
unfolding complete_base
complete_base-Extends base [] completed n k e = cc
complete_base-Extends base (m ∷ []) completed n k e = elim (Bool-cases (ends_in_slash m)) [
  | inl s ↦ subst (Extends base) (some_inj (rw s at e)) (Extends-slash m base n k.0 s)
  | inr s ↦ subst (Extends base) (some_inj (rw s at e)) (Extends-with_byte m base b' ' k.0)
]
complete_base-Extends base (m ∷ o ∷ ms) completed n k e =
    elim (Bool-cases (leb (length (longest_common_prefix (m ∷ o ∷ ms))) (length base))) [
      | inl l ↦ cc
      | inr l ↦
          subst (Extends base) (some_inj (rw l at e)) (Extends-lcp m (o ∷ ms) base k (ground arith))
    ]

last_end_bound : (c : ℕ) (s : Text) → last_end c s ≤ length s
last_end_bound c [] = omega arith
last_end_bound c (d ∷ s) = let b = last_end_bound c s in ground (arith, b)

complete_path-Inserts :
    (fs : FileSystem) (line : Text) (pos : ℕ) (cwd home : Text) (r : Text × ℕ)
    → pos ≤ length line
    → complete_path fs line pos cwd home ≡ some r
    → Inserts line pos r
unfolding complete_path
complete_path-Inserts fs line pos cwd home r h e =
    of_completed (complete_base base (matches_in fs base (directory_of fs token cwd home))) refl e
  where
    before : Text
    before = take pos line

    token_start : ℕ
    token_start = last_end b' ' before

    token : Text
    token = drop token_start before

    cut : ℕ
    cut = last_end b'/' token

    base : Text
    base = drop cut token

    parts : take pos line ≡ (take token_start line ++ take cut token) ++ base
    parts =
        let bound = last_end_bound b' ' before in
        let there = length-take pos line h in
        sym (take-drop token_start before)
        ∙ ap (λ s. s ++ token) (take-take token_start pos line (omega (arith, bound, there)))
        ∙ ap (λ s. take token_start line ++ s) (sym (take-drop cut token))
        ∙ sym (append_assoc (take token_start line) (take cut token) base)

    of_completed :
        (o : Option Text)
        → complete_base base (matches_in fs base (directory_of fs token cwd home)) ≡ o
        → (elim o [
          | none ↦ none
          | some completed ↦
              let new_line = take token_start line ++ take cut token ++ completed in
              some (new_line ++ drop pos line, length new_line)
        ])
          ≡ some r
        → Inserts line pos r
    of_completed none q f = cc
    of_completed (some completed) q f = subst (Inserts line pos) (some_inj f) (
        Inserts-extended line pos (take token_start line ++ take cut token) base completed h parts (
          complete_base-Extends base _ completed (last_end-drop b'/' token)
            (matches_in-prefix fs base _) q))

-- What the callback answers for a key is the line with at least one byte inserted at the cursor, and
-- the position behind what it inserted: it changes nothing that was typed, before or behind the
-- cursor. The position it is called with is one in the line.
pub auto_complete-Inserts :
    (fs : FileSystem) (d : Dicts) (seen : List Text) (cwd : Cwd) (home line : Text) (pos key : ℕ)
    (r : Text × ℕ)
    → pos ≤ length line
    → auto_complete fs d seen cwd home line pos key ≡ some r
    → Inserts line pos r
unfolding auto_complete
auto_complete-Inserts fs d seen cwd home line pos key r h e =
    elim (Bool-cases (not (key == b'\t'))) [
      | inl k ↦ cc
      | inr k ↦
          let e₁ = rw k at e in
          elim (Bool-cases (ltb 0 pos && not (has_space (take pos line)))) [
            | inl w ↦ complete_first_word-Inserts line pos (candidates d seen) r h (rw w at e₁)
            | inr w ↦ of_cwd cwd (rw w at e₁)
          ]
    ]
  where
    of_cwd :
        (c : Cwd)
        → (elim c [
          | Cwd.no_cwd_fn ↦ none
          | Cwd.cwd_error ↦ none
          | Cwd.at_dir dir ↦ complete_path fs line pos dir home
        ])
          ≡ some r
        → Inserts line pos r
    of_cwd Cwd.no_cwd_fn f = cc
    of_cwd Cwd.cwd_error f = cc
    of_cwd (Cwd.at_dir dir) f = complete_path-Inserts fs line pos dir home r h f
