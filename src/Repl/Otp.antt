-- ===== src/Repl/Otp.antt =====
-- The challenge: how often it asks, and what makes it pass.
use shell_sentry.Base.{
  ℕ, zero, suc, ◌+◌, ◌≤◌, Bool, true, false, ◌&&◌, List, ◌∷◌, Option, none, some, ◌≡◌, refl, arith,
  Bool-cases, length, inl, inr, is_empty, if◌then◌else◌,
}
use shell_sentry.Base.Int.{pos_part}
use shell_sentry.Text.{Text, codes, trim_space, text_eq}
use shell_sentry.Decide.{sev_hard}
use shell_sentry.Ports.{Alert}
use shell_sentry.Repl.State.{Deps, State, Event, validated, alerted, alert, read, is_end}
use shell_sentry.Repl.Challenge.{
  Try, pass, give_up, retry, judge_answer, follow, try_once, challenge_loop, challenge,
}
use shell_sentry.Repl.Trace.{calls, done, clean, passes, codes_sent}

-- what the challenge leaves alone, and what it uses up
pub record Asked {W F : Type 0} (tries : ℕ) (s : State W F) (passed : Bool) (t : State W F)
    : Type 0 where
  pub session_kept : t.session ≡ s.session
  pub authorized_kept : t.authorized ≡ s.authorized
  pub calls_kept : calls t.trace ≡ calls s.trace
  pub done_kept : done t.trace ≡ done s.trace
  pub clean_kept : clean t.trace ≡ clean s.trace
  pub pass_counted : passes t.trace ≡ (if passed then suc (passes s.trace) else passes s.trace)
  pub sent_bounded : codes_sent t.trace ≤ codes_sent s.trace + tries
  pub input_used : length t.input ≤ length s.input
  pub input_bounded : length s.input ≤ length t.input + tries

abbrev TryAsked : {W F : Type 0} → State W F → Try (State W F) → Type 0
TryAsked s (pass t) = Asked 1 s true t
TryAsked s (give_up t) = Asked 1 s false t
TryAsked s (retry t) = Asked 1 s false t

pub Asked-trans :
    {W F : Type 0} (m n k : ℕ) (s t u : State W F) (b : Bool)
    → m + n ≤ k
    → Asked m s false t
    → Asked n t b u
    → Asked k s b u
Asked-trans m n k s t u b l g h = ground arith

follow-Asked :
    {W F : Type 0} (n : ℕ) (s : State W F) (rest : State W F → Bool × State W F)
    → ((t : State W F) → Asked n t (rest t).0 (rest t).1)
    → (x : Try (State W F)) → TryAsked s x
    → Asked (suc n) s (follow rest x).0 (follow rest x).1
follow-Asked n s rest h (pass t) a = ground arith
follow-Asked n s rest h (give_up t) a = ground arith
follow-Asked n s rest h (retry t) a = Asked-trans 1 n (suc n) s t _ _ (omega arith) a (h t)

module _ {W F : Type 0} (d : Deps W F) (user session_id : Text) where
  try_once-Asked : (s : State W F) → TryAsked s (try_once d user session_id sev_hard s)
  unfolding try_once alert read text_eq
  try_once-Asked s = ground arith

  pub challenge_loop-Asked :
      (tries : ℕ) (s : State W F)
      → Asked tries s
          (challenge_loop d user session_id sev_hard tries s).0
          (challenge_loop d user session_id sev_hard tries s).1
  unfolding challenge_loop
  challenge_loop-Asked zero s = ground arith
  challenge_loop-Asked (suc tries) s =
      follow-Asked tries s (challenge_loop d user session_id sev_hard tries)
        (challenge_loop-Asked tries) (try_once d user session_id sev_hard s) (try_once-Asked s)

  -- the last two events: the verifier accepted a code, and the pass was alerted
  abbrev pub Accepted : State W F → Type 0
  Accepted t =
      (code : Text) × (w : W) × (a : Alert) × (older : List Event) × ((d.ports.validate user code
          w).0
        ≡ some true)
      × (a.severity ≡ codes "hard-otp")
      × (t.trace ≡ alerted a ∷ validated code ∷ older)

  abbrev TryAccepted : Try (State W F) → Type 0
  TryAccepted (pass t) = Accepted t
  TryAccepted (give_up t) = Unit
  TryAccepted (retry t) = Unit

  judge_answer-Accepted :
      (answer : Option Bool) (t u : State W F)
      → (answer ≡ some true → Accepted t)
      → TryAccepted (judge_answer answer t u)
  judge_answer-Accepted none t u h = tt
  judge_answer-Accepted (some true) t u h = h refl
  judge_answer-Accepted (some false) t u h = tt

  try_once-Accepted : (s : State W F) → TryAccepted (try_once d user session_id sev_hard s)
  unfolding try_once alert
  try_once-Accepted s =
      let r = read (codes "OTP: ") s in
      let code = trim_space r.0.line in
      elim (Bool-cases (is_empty code && is_end r.0.err)) [
        | inl e ↦ rw e tt
        | inr e ↦ rw e (
            judge_answer-Accepted (d.ports.validate user code r.1.world).0 _ _
              (λ ok. (code, r.1.world, _, r.1.trace, ok, refl, refl)))
      ]

  follow-Accepted :
      (rest : State W F → Bool × State W F)
      → ((t : State W F) → (rest t).0 ≡ true → Accepted (rest t).1)
      → (x : Try (State W F)) → TryAccepted x
      → (follow rest x).0 ≡ true
      → Accepted (follow rest x).1
  follow-Accepted rest h (pass t) a e = a
  follow-Accepted rest h (give_up t) a e = cc
  follow-Accepted rest h (retry t) a e = h t e

  challenge_loop-Accepted :
      (tries : ℕ) (s : State W F)
      → (challenge_loop d user session_id sev_hard tries s).0 ≡ true
      → Accepted (challenge_loop d user session_id sev_hard tries s).1
  unfolding challenge_loop
  challenge_loop-Accepted zero s e = cc
  challenge_loop-Accepted (suc tries) s e =
      follow-Accepted (challenge_loop d user session_id sev_hard tries)
        (challenge_loop-Accepted tries) (try_once d user session_id sev_hard s)
        (try_once-Accepted s) e

  -- If a hard challenge is passed, the last two events are a code that the verifier accepted and
  -- the `hard-otp` alert.
  pub challenge_sound :
      (s : State W F)
      → (challenge d user session_id sev_hard s).0 ≡ true
      → Accepted (challenge d user session_id sev_hard s).1
  unfolding challenge
  challenge_sound s = challenge_loop-Accepted (pos_part d.otp_retries) s

  -- A hard challenge, passed or not, sends at most `OTPRetries` codes and reads at most as many lines,
  -- runs nothing, and leaves the session and the authorized lines alone.
  pub challenge_bounded :
      (s : State W F)
      → (codes_sent (challenge d user session_id sev_hard s).1.trace
          ≤ codes_sent s.trace + pos_part d.otp_retries)
        × (length s.input
            ≤ length (challenge d user session_id sev_hard s).1.input + pos_part d.otp_retries)
        × (calls (challenge d user session_id sev_hard s).1.trace ≡ calls s.trace)
        × ((challenge d user session_id sev_hard s).1.session ≡ s.session)
        × ((challenge d user session_id sev_hard s).1.authorized ≡ s.authorized)
  unfolding challenge
  challenge_bounded s =
      let a = challenge_loop-Asked (pos_part d.otp_retries) s in
      (a.sent_bounded, a.input_bounded, a.calls_kept, a.session_kept, a.authorized_kept)
