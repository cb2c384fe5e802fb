-- ===== src/Training/Counts.antt =====
-- The encoders hold occurrence counts.
use shell_sentry.Base.{
  ℕ, zero, suc, ◌+◌, Bool, true, false, ◌&&◌, not, List, [], ◌∷◌, if◌then◌else◌, is_empty, ◌≡◌,
  refl, ap, ◌∙◌, arith,
}
use shell_sentry.Base.Int.{ℤ, pos, suc_ℤ}
use shell_sentry.Text.{Text, text_eq}
use shell_sentry.Path.{detect_path}
use shell_sentry.Decide.{split_command}
use shell_sentry.Feature.{Dicts, Counts, increment, get, get-increment}
use shell_sentry.Training.{TrainRow, add_row, add_rows, build_dicts}

-- how many members pass
abbrev pub count {ℓ} : {A : Type ℓ} → (A → Bool) → List A → ℕ
count p [] = 0
count p (x ∷ xs) = if p x then suc (count p xs) else count p xs

abbrev plus : ℤ → ℕ → ℤ
plus n zero = n
plus n (suc k) = plus (suc_ℤ n) k

plus-pos : (n k : ℕ) → plus (pos n) k ≡ pos (n + k)
plus-pos n zero = ap pos (omega arith)
plus-pos n (suc k) = plus-pos (suc n) k ∙ ap pos (omega arith)

bump_lem :
    (m : Counts) (k w : Text)
    → get (if is_empty k then m else increment m k) w
      ≡ (if not (is_empty w) && text_eq k w then suc_ℤ (get m w) else get m w)
unfolding text_eq
bump_lem m [] [] = refl
bump_lem m [] (x ∷ w) = refl
bump_lem m (c ∷ k) [] = get-increment m (c ∷ k) []
bump_lem m (c ∷ k) (x ∷ w) = get-increment m (c ∷ k) (x ∷ w)

bump_path_lem :
    (m : Counts) (ok : Bool) (p w : Text)
    → get (if ok then increment m p else m) w
      ≡ (if ok && text_eq p w then suc_ℤ (get m w) else get m w)
bump_path_lem m true p w = get-increment m p w
bump_path_lem m false p w = refl

plus_if :
    (b : Bool) (m n : ℤ) (k : ℕ)
    → m ≡ (if b then suc_ℤ n else n)
    → plus m k ≡ plus n (if b then suc k else k)
plus_if true m n k e = ap (λ x. plus x k) e
plus_if false m n k e = ap (λ x. plus x k) e

module _ {F : Type 0} where
  abbrev pub has_command : Text → TrainRow F → Bool
  has_command w r = not (is_empty w) && text_eq (split_command r.raw_cmd).0 w

  abbrev pub has_country : Text → TrainRow F → Bool
  has_country w r = not (is_empty w) && text_eq r.country w

  abbrev pub has_path : Text → TrainRow F → Bool
  has_path w r = let (p, ok) = detect_path (split_command r.raw_cmd).1 in ok && text_eq p w

  add_rows_counts :
      (rows : List (TrainRow F)) (d : Dicts) (w : Text)
      → (get (add_rows d rows).command w ≡ plus (get d.command w) (count (has_command w) rows))
        × (get (add_rows d rows).country w ≡ plus (get d.country w) (count (has_country w) rows))
        × (get (add_rows d rows).path w ≡ plus (get d.path w) (count (has_path w) rows))
  unfolding add_rows
  add_rows_counts [] d w = (refl, refl, refl)
  add_rows_counts (r ∷ rows) d w =
      let (x, y, z) = add_rows_counts rows (add_row d r) w in
      let (cmd, args) = split_command r.raw_cmd in
      let (p, ok) = detect_path args in
      (
        x ∙ plus_if (has_command w r) _ _ (count (has_command w) rows) (bump_lem d.command cmd w),
        y
            ∙ plus_if (has_country w r) _ _ (count (has_country w) rows)
                (bump_lem d.country r.country w),
        z ∙ plus_if (has_path w r) _ _ (count (has_path w) rows) (bump_path_lem d.path ok p w),
      )

  -- Each encoder gives a word its number of occurrences: the rows with that command word, with
  -- that country, and with that first path. The empty word counts as no command and no country.
  pub build_dicts_counts :
      (rows : List (TrainRow F)) (w : Text)
      → (get (build_dicts rows).command w ≡ pos (count (has_command w) rows))
        × (get (build_dicts rows).country w ≡ pos (count (has_country w) rows))
        × (get (build_dicts rows).path w ≡ pos (count (has_path w) rows))
  unfolding build_dicts get
  build_dicts_counts rows w =
      let (x, y, z) = add_rows_counts rows (record { country = []; command = []; path = [] }) w in
      (
        x ∙ plus-pos 0 (count (has_command w) rows) ∙ ap pos (omega arith),
        y ∙ plus-pos 0 (count (has_country w) rows) ∙ ap pos (omega arith),
        z ∙ plus-pos 0 (count (has_path w) rows) ∙ ap pos (omega arith),
      )
