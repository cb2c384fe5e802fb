-- ===== src/Shell/Hold.antt =====
-- The window that `markerPrefixHold` withholds.
use Prim.Native.Nat.{min}
use shell_sentry.Base.{
  ℕ, zero, suc, ◌+◌, ◌-◌, ◌≤◌, ◌<◌, true, [], ◌++◌, ◌≡◌, ap, ◌∙◌, arith, Bool-cases, inl, inr,
  length, length-append, drop,
}
use shell_sentry.Base.Slices.{drop-append, drop_all}
use shell_sentry.Text.{Text, has_prefix}
use shell_sentry.Text.Laws.{has_prefix_append}
use shell_sentry.Shell.Marker.{hold_from, marker_prefix_hold}

-- the loop finds every suffix that begins the marker, and no shorter one first
hold_from_complete :
    (k n : ℕ) (s marker : Text)
    → n ≤ k
    → has_prefix marker (drop (length s - n) s) ≡ true
    → n ≤ hold_from k s marker
unfolding hold_from
hold_from_complete zero n s marker l h = omega arith
hold_from_complete (suc k) zero s marker l h = omega arith
hold_from_complete (suc k) (suc n) s marker l h =
    ground (arith, hold_from_complete k (suc n) s marker)

-- What is not withheld lies in front of every marker that is still to come: if more text brings a
-- marker behind `before` to its end, no byte from `before` on was let through.
pub marker_prefix_hold_safe :
    (before straddle rest marker : Text)
    → marker ≡ straddle ++ rest
    → 0 < length rest
    → length (before ++ straddle) - marker_prefix_hold (before ++ straddle) marker ≤ length before
unfolding marker_prefix_hold
marker_prefix_hold_safe before straddle rest marker e l =
    let s = before ++ straddle in
    let size = length-append before straddle in
    let whole : length marker ≡ length straddle + length rest =
      ap length e ∙ length-append straddle rest in
    let at : length s - length straddle ≡ length before = omega (arith, size) in
    let found : has_prefix marker (drop (length s - length straddle) s) ≡ true =
      rw (at, drop-append, e) (has_prefix_append straddle rest) in
    omega (
      arith,
      size,
      hold_from_complete (min (length marker - 1) (length s)) (length straddle) s marker
          (omega (arith, size)) found,
    )

hold_from_sound :
    (k : ℕ) (s marker : Text)
    → (hold_from k s marker ≤ k)
      × (has_prefix marker (drop (length s - hold_from k s marker) s) ≡ true)
unfolding hold_from
hold_from_sound zero s marker =
    let none_left : length s - 0 ≡ length s = omega arith in
    (omega arith, rw (none_left, drop_all) (has_prefix_append [] marker))
hold_from_sound (suc k) s marker =
    let (b, f) = hold_from_sound k s marker in
    elim (Bool-cases (has_prefix marker (drop (length s - suc k) s))) [
      | inl e ↦ rw (e, hold_from) (omega arith, e)
      | inr e ↦ rw (e, hold_from) (omega (arith, b), f)
    ]

-- For a marker that is not empty, what is withheld of a text is its end, begins the marker and is
-- shorter than the marker.
pub marker_prefix_hold_needed :
    (s marker : Text)
    → 0 < length marker
    → (marker_prefix_hold s marker < length marker)
      × (marker_prefix_hold s marker ≤ length s)
      × (has_prefix marker (drop (length s - marker_prefix_hold s marker) s) ≡ true)
unfolding marker_prefix_hold
marker_prefix_hold_needed s marker l =
    let k = min (length marker - 1) (length s) in
    let (b, f) = hold_from_sound k s marker in (omega (arith, b), omega (arith, b), f)
