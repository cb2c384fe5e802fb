-- ===== src/Shell/Output.antt =====
-- What a run of `RunCommand` comes to: the exit code, and the text that the user was shown.
use shell_sentry.Base.{
  ℕ, ◌+◌, ◌≤◌, ◌<◌, true, [], ◌∷◌, ◌++◌, none, some, append_assoc, append-nil, length,
  length-append, take, drop, ◌≡◌, refl, sym, ap, ◌∙◌, arith,
}
use shell_sentry.Base.Int.{pos}
use shell_sentry.Base.Slices.{take-append, drop_all}
use shell_sentry.Text.{Text, has_prefix, index}
use shell_sentry.Text.Index.{prefix_shorter}
use shell_sentry.Shell.Marker.{decimal, max_int}
use shell_sentry.Shell.Run.{
  Terminal, Outcome, Stream, drain, exit_text, absorb, skip_echo, stream, close, fresh, finish_run,
  with_exit, tail_of,
}
use shell_sentry.Shell.ExitCode.{with_exit-decimal}
use shell_sentry.Shell.Flow.{IsCalm, IsFirst, IsOpen, not_yet, absorb-IsOpen}

-- the command ended with the code, and the user was shown the text
abbrev pub ended : ℕ → Text → Text → Outcome
ended n shown left = record {
  code = some (pos n);
  failure = none;
  shown = shown;
  left = drain 2 left;
}

module _ (t : Terminal) (calm : IsCalm t) (marker inject line : Text) where
  pub stream_on :
      (b : ℕ) (pty : Text) (s s' : Stream)
      → index (s.acc ++ b ∷ []) marker ≡ none
      → absorb t marker inject line (s.acc ++ b ∷ []) s ≡ some s'
      → stream t marker inject line (b ∷ pty) s ≡ stream t marker inject line pty s'
  unfolding stream
  stream_on b pty s s' i a = rw (calm.1 (length s.acc), stream, i, a) refl

  stream-close :
      (b : ℕ) (pty : Text) (s : Stream) (i : ℕ)
      → index (s.acc ++ b ∷ []) marker ≡ some i
      → stream t marker inject line (b ∷ pty) s
        ≡ close t marker inject line i (s.acc ++ b ∷ []) pty s
  unfolding stream
  stream-close b pty s i e = rw (calm.1 (length s.acc), stream, e) refl

  finish_lem :
      (n : ℕ) (tail left : Text) (s : Stream)
      → finish_run t marker inject line (pos n) tail left s ≡ ended n (s.shown ++ tail) left
  finish_lem n [] left s = ap (λ x. ended n x left) (sym (append-nil s.shown))
  finish_lem n (c ∷ tail) left s = rw (calm.2 s.shown (c ∷ tail)) refl

  -- while what came may be the echo, nothing else happens
  pub hold_run :
      (a p pty : Text)
      → ((q b : Text) → p ++ a ≡ q ++ b → index q marker ≡ none)
      → has_prefix inject (p ++ a) ≡ true
      → stream t marker inject line (a ++ pty) (record fresh { acc = p })
        ≡ stream t marker inject line pty (record fresh { acc = p ++ a })
  hold_run [] p pty away h =
      ap (λ x. stream t marker inject line pty (record fresh { acc = x })) (sym (append-nil p))
  hold_run (b ∷ a) p pty away h =
      let regroup : (p ++ b ∷ []) ++ a ≡ p ++ b ∷ a = append_assoc p (b ∷ []) a in
      let whole : has_prefix inject ((p ++ b ∷ []) ++ a) ≡ true =
        ap (has_prefix inject) regroup ∙ h in
      let held = prefix_shorter inject (p ++ b ∷ []) a whole in
      stream_on b (a ++ pty) (record fresh { acc = p }) (record fresh { acc = p ++ b ∷ [] })
        (away (p ++ b ∷ []) a (sym regroup)) (unfold absorb in rw held refl)
      ∙ hold_run a (p ++ b ∷ []) pty (λ q r e. away q r (sym regroup ∙ e)) whole
      ∙ ap (λ x. stream t marker inject line pty (record fresh { acc = x })) regroup

module _ (t : Terminal) (calm : IsCalm t) (marker inject line out left : Text) (n : ℕ)
    (small : n ≤ max_int) (first : IsFirst marker out) (some_marker : 0 < length marker) where
  -- what the pty gives behind the marker
  abbrev behind : Text
  behind = decimal n ++ 0x1e ∷ left

  close_lem :
      (goal full : Text) (s : Stream)
      → IsOpen t calm marker inject line out goal full s
      → close t marker inject line (length out) (out ++ marker) behind s ≡ ended n goal left
  unfolding close
  close_lem goal full s o =
      let size : length out + length marker ≡ length (out ++ marker) =
        omega (arith, length-append out marker) in
      let none_left : drop (length out + length marker) (out ++ marker) ≡ [] =
        ap (λ k. drop k (out ++ marker)) size ∙ drop_all (out ++ marker) in
      let tail : tail_of t marker inject line (take (length out) (out ++ marker)) s
          ≡ drop s.flushed out =
        ap (λ x. tail_of t marker inject line x s) (take-append out marker) ∙ rw o.handled refl in
      ap
        (λ x.
          with_exit t marker inject line
            (tail_of t marker inject line (take (length out) (out ++ marker)) s) s
            (exit_text x behind))
        none_left
      ∙ with_exit-decimal t marker inject line _ left n s small
      ∙ ap (λ x. finish_run t marker inject line (pos n) x left s) tail
      ∙ finish_lem t calm marker inject line n (drop s.flushed out) left s
      ∙ ap (λ x. ended n x left) o.kept

  pub open_run :
      (goal : Text) (b : ℕ) (rest full : Text) (s : Stream)
      → IsOpen t calm marker inject line out goal full s
      → full ++ b ∷ rest ≡ out ++ marker
      → stream t marker inject line ((b ∷ rest) ++ behind) s ≡ ended n goal left
  open_run goal b [] full s o e =
      let now : s.acc ++ b ∷ [] ≡ out ++ marker = ap (λ x. x ++ b ∷ []) o.read ∙ e in
      stream-close t calm marker inject line b behind s (length out)
        (ap (λ x. index x marker) now ∙ first)
      ∙ ap (λ x. close t marker inject line (length out) x behind s) now
      ∙ close_lem goal full s o
  open_run goal b (c ∷ rest) full s o e =
      let more : 0 < length (c ∷ rest) = omega arith in
      let whole : (s.acc ++ b ∷ []) ++ c ∷ rest ≡ out ++ marker =
        append_assoc s.acc (b ∷ []) (c ∷ rest) ∙ ap (λ x. x ++ b ∷ c ∷ rest) o.read ∙ e in
      let flushed : skip_echo t marker inject line (s.acc ++ b ∷ []) s ≡ s.flushed =
        rw o.handled refl in
      let (s', run, o') =
        absorb-IsOpen t calm marker inject line out (s.acc ++ b ∷ []) (c ∷ rest) goal s whole more
          (rw o.handled refl) (rw flushed o.within)
          (ap (λ k. s.shown ++ drop k out) flushed ∙ o.kept) in
      stream_on t calm marker inject line b ((c ∷ rest) ++ behind) s s'
        (not_yet marker out (s.acc ++ b ∷ []) (c ∷ rest) whole more first some_marker) run
      ∙ open_run goal c rest (s.acc ++ b ∷ []) s' o' whole
