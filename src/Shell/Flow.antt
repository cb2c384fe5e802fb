-- ===== src/Shell/Flow.antt =====
-- How the loop of `RunCommand` carries the output of a command to the user, step by step.
use shell_sentry.Base.{
  ℕ, ◌-◌, ◌≤◌, ◌<◌, true, false, ◌&&◌, not, ◌++◌, Option, none, some, append_assoc, length,
  length-append, take, drop, ltb, ◌≡◌, refl, sym, ap, ◌∙◌, arith, Bool-cases, inl, inr,
}
use shell_sentry.Base.Slices.{drop-take, take-append_le, append_straddle}
use shell_sentry.Text.{Text, has_prefix, index}
use shell_sentry.Text.Index.{index-append}
use shell_sentry.Shell.Marker.{marker_prefix_hold}
use shell_sentry.Shell.Hold.{marker_prefix_hold_safe}
use shell_sentry.Shell.Run.{Terminal, Stream, absorb, skip_echo}

-- the pty takes the injected line, there is no timeout, and the user's terminal takes every text
abbrev pub IsCalm : Terminal → Type 0
IsCalm t =
    ((x : Text) → t.injects x ≡ true)
    × ((n : ℕ) → t.late n ≡ false)
    × ((x y : Text) → t.writes x y ≡ true)

-- the first marker in the text of the pty is the one behind `out`
abbrev pub IsFirst : Text → Text → Type 0
IsFirst marker out = index (out ++ marker) marker ≡ some (length out)

module _ (marker out : Text) (full rest : Text) (whole : full ++ rest ≡ out ++ marker)
    (more : 0 < length rest) where
  -- before its last byte, the marker is not found
  pub not_yet : IsFirst marker out → 0 < length marker → index full marker ≡ none
  not_yet first l = absent (index full marker) refl
    where
      absent : (o : Option ℕ) → index full marker ≡ o → o ≡ none
      absent none q = refl
      absent (some i) q =
          let (fits, there) = index-append full rest marker i l q in
          let same : some i ≡ some (length out) =
            sym there ∙ ap (λ s. index s marker) whole ∙ first in
          let at : i ≡ length out = cc in
          let a = length-append full rest in
          let b = length-append out marker in
          let sizes = ap length whole in absurd (omega (arith, fits, at, a, b, sizes, more))

  -- nothing of the marker is let through
  safe_bound : length full - marker_prefix_hold full marker ≤ length out
  safe_bound = elim (Bool-cases (ltb (length full) (length out))) [
    | inl e ↦ ground arith
    | inr e ↦
        let longer : length out ≤ length full = ground arith in
        let (mid, p, q) = append_straddle full rest out marker whole longer in
        rw p (marker_prefix_hold_safe out mid rest marker q more)
  ]

  same_slice : (n : ℕ) → n ≤ length full → n ≤ length out → take n full ≡ take n out
  same_slice n h k =
      sym (take-append_le n full rest h) ∙ ap (take n) whole ∙ take-append_le n out marker k

module _ (t : Terminal) (calm : IsCalm t) (marker inject line out : Text) where
  -- the loop has the text `full` and has written everything up to `flushed`; what it still has to
  -- write of `out`, with what it wrote, is `goal`
  pub record IsOpen (goal full : Text) (s : Stream) : Type 0 where
    pub read : s.acc ≡ full
    pub handled : s.echo_handled ≡ true
    pub within : s.flushed ≤ length out
    pub kept : s.shown ++ drop s.flushed out ≡ goal

  -- once the echo is over, a byte more leaves the goal alone
  pub absorb-IsOpen :
      (full rest goal : Text) (s : Stream)
      → full ++ rest ≡ out ++ marker
      → 0 < length rest
      → (not s.echo_handled && has_prefix inject full) ≡ false
      → skip_echo t marker inject line full s ≤ length out
      → s.shown ++ drop (skip_echo t marker inject line full s) out ≡ goal
      → (s' : Stream) × (absorb t marker inject line full s ≡ some s') × IsOpen goal full s'
  unfolding absorb
  absorb-IsOpen full rest goal s whole more over bound kept =
      let flushed = skip_echo t marker inject line full s in
      let safe = length full - marker_prefix_hold full marker in
      let chunk = drop flushed (take safe full) in
      elim (Bool-cases (ltb flushed safe)) [
        | inl e ↦
            let limit = safe_bound marker out full rest whole more in
            let same = same_slice marker out full rest whole more safe (omega arith) limit in
            let ahead : flushed ≤ safe = ground arith in
            (
              record { acc = full; echo_handled = true; flushed = safe; shown = s.shown ++ chunk },
              rw (over, e, calm.2 s.shown chunk) refl,
              record {
                read = refl;
                handled = refl;
                within = limit;
                kept =
                    append_assoc s.shown chunk (drop safe out)
                    ∙ ap (λ r. s.shown ++ (drop flushed r ++ drop safe out)) same
                    ∙ ap (λ r. s.shown ++ r) (drop-take flushed safe out ahead)
                    ∙ kept;
              },
            )
        | inr e ↦ (
          record { acc = full; echo_handled = true; flushed = flushed; shown = s.shown },
          rw (over, e) refl,
          record { read = refl; handled = refl; within = bound; kept = kept },
        )
      ]
