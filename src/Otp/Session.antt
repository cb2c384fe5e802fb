-- ===== src/Otp/Session.antt =====
-- The client in the session and the daemon, together.
use shell_sentry.Base.{
  Bool, true, false, [], ◌∷◌, Option, none, some, ◌≡◌, ◌≢◌, ◌↔◌, ◌⊎◌, inl, inr, refl, sym, ap, ◌∙◌,
  arith, Bool-cases,
}
use shell_sentry.Text.{Text, codes, text_eq}
use shell_sentry.Text.Laws.{text_eq_refl}
use shell_sentry.Username.{valid_username}
use shell_sentry.Result.{Result, ok, err}
use shell_sentry.Otp.Vault.{System, Vault, secret_path, is_enrolled, confirm, discard, validate}
use shell_sentry.Otp.Server.{
  Request, Response, empty, dispatch, serve, check_response, done_response,
}
use shell_sentry.Otp.Client.{
  confirmed, read_line, call, request, ask_confirmation, ensure_provisioned, client_validate,
  error_of, code_answer, judge_response, after_status,
}
use shell_sentry.Otp.Laws.{SystemLaws, is_ok}
use shell_sentry.Otp.Enrollment.{confirm-enrolled, discard_lem}

module _ {D : Type 0} (y : System D) (v : Vault) (user : Text) where
  -- the daemon at the other end of a connection that the user opened
  abbrev pub daemon : Request → D → Result Response × D
  daemon req d = let (resp, d') = serve y v user req d in (ok resp, d')

  serve-dispatch :
      (op code : Text) (d : D)
      → valid_username user ≡ none
      → serve y v user (record { op = op; user = user; code = code }) d
        ≡ dispatch y v (record { op = op; user = user; code = code }) d
  unfolding serve
  serve-dispatch op code d h = ground (arith, text_eq_refl user)

  accepted_iff :
      (r : Result Bool × D) (d' : D)
      → (code_answer daemon (ok (check_response r.0), r.1) ≡ (ok true, d')) ↔ (r ≡ (ok true, d'))
  accepted_iff (ok b, d) d' = (λ h. ground arith, λ h. ground arith)
  accepted_iff (err m, d) d' = (λ h. ground arith, λ h. ground arith)

  client_validate-code_answer :
      (code : Text) (d : D)
      → valid_username user ≡ none
      → client_validate daemon user code d
        ≡ code_answer daemon
            (ok (check_response (validate y v user code d).0), (validate y v user code d).1)
  unfolding client_validate call dispatch text_eq
  client_validate-code_answer code d h = ground (arith, serve-dispatch (codes "validate") code d h)

  -- For an accepted user name, a code that the session's client sends to the user's daemon is
  -- accepted if and only if the vault accepts it, with the same disk behind.
  pub client_validate_iff :
      (code : Text) (d d' : D)
      → valid_username user ≡ none
      → (client_validate daemon user code d ≡ (ok true, d'))
        ↔ (validate y v user code d ≡ (ok true, d'))
  client_validate_iff code d d' h =
      let e = client_validate-code_answer code d h in
      let (f, g) = accepted_iff (validate y v user code d) d' in (λ k. f (sym e ∙ k), λ k. e ∙ g k)

module _ {D : Type 0} (y : System D) (v : Vault) (laws : SystemLaws y v) (user : Text) where
  -- the end of an enrollment: it is confirmed, or there is no secret to read
  abbrev pub IsSettled : D → Type 0
  IsSettled d =
      (is_enrolled y v user d ≡ true) ⊎ (is_ok (y.read_file (secret_path y v user) d) ≡ false)

  confirm-IsSettled :
      (d d' : D) → valid_username user ≡ none → confirm y v user d ≡ (none, d') → IsSettled d'
  confirm-IsSettled d d' named h = inl (ground (arith, confirm-enrolled y v laws user d named))

  discard-IsSettled :
      (d d' : D) → valid_username user ≡ none → discard y v user d ≡ (none, d') → IsSettled d'
  discard-IsSettled d d' named h = elim (Bool-cases (is_enrolled y v user d)) [
    | inl e ↦ inl (ground (arith, (discard_lem y v laws user d named).0 e))
    | inr e ↦ inr (ground (arith, (discard_lem y v laws user d named).1 e))
  ]

  confirm_error : (d : D) → (confirm y v user d).0 ≢ some []
  unfolding confirm
  confirm_error d e = ground arith

  discard_error : (d : D) → (discard y v user d).0 ≢ some []
  unfolding discard
  discard_error d e = ground arith

  -- an answer that is no error to the client is none to the vault
  done_none :
      (op : Text) (r : Option Text × D) (d' : D)
      → text_eq op (codes "validate") ≡ false
      → r.0 ≢ some []
      → error_of (daemon y v user) (
          judge_response
            (daemon y v user)
            (request (daemon y v user) op user)
            (ok (done_response r.0), r.1))
        ≡ (none, d')
      → r ≡ (none, d')
  done_none op (none, d) d' h n k = ground arith
  done_none op (some [], d) d' h n k = absurd (n refl)
  done_none op (some (c ∷ m), d) d' h n k = ground arith

  call-confirm :
      (d : D)
      → valid_username user ≡ none
      → call (daemon y v user) (request (daemon y v user) (codes "confirm") user) d
        ≡ judge_response
            (daemon y v user)
            (request (daemon y v user) (codes "confirm") user)
            (ok (done_response (confirm y v user d).0), (confirm y v user d).1)
  unfolding call dispatch text_eq
  call-confirm d h = ground (arith, serve-dispatch y v user (codes "confirm") [] d h)

  call-discard :
      (d : D)
      → valid_username user ≡ none
      → call (daemon y v user) (request (daemon y v user) (codes "discard") user) d
        ≡ judge_response
            (daemon y v user)
            (request (daemon y v user) (codes "discard") user)
            (ok (done_response (discard y v user d).0), (discard y v user d).1)
  unfolding call dispatch text_eq
  call-discard d h = ground (arith, serve-dispatch y v user (codes "discard") [] d h)

  ask_confirmation-IsSettled :
      (input : Text) (x : Result Response × D) (d' : D)
      → valid_username user ≡ none
      → ask_confirmation (daemon y v user) user input x ≡ (none, d')
      → IsSettled d'
  unfolding ask_confirmation
  ask_confirmation-IsSettled input (err m, d) d' h k = ground arith
  ask_confirmation-IsSettled input (ok pr, d) d' h k =
      elim (Bool-cases (confirmed (read_line input).0)) [
        | inl e ↦ confirm-IsSettled d d' h (
            done_none (codes "confirm") (confirm y v user d) d' (unfold text_eq in refl)
              (confirm_error d)
              (ap (error_of (daemon y v user)) (sym (call-confirm d h)) ∙ rw e at k))
        | inr e ↦ discard-IsSettled d d' h (
            done_none (codes "discard") (discard y v user d) d' (unfold text_eq in refl)
              (discard_error d)
              (ap (error_of (daemon y v user)) (sym (call-discard d h)) ∙ rw e at k))
      ]

  call-status :
      (d : D)
      → valid_username user ≡ none
      → call (daemon y v user) (request (daemon y v user) (codes "status") user) d
        ≡ (ok (record empty { enrolled = is_enrolled y v user d }), d)
  unfolding call dispatch text_eq
  call-status d h = ground (arith, serve-dispatch y v user (codes "status") [] d h)

  after_status-IsSettled :
      (input : Text) (enrolled : Bool) (d d' : D)
      → valid_username user ≡ none
      → is_enrolled y v user d ≡ enrolled
      → after_status (daemon y v user) user input (ok (record empty { enrolled = enrolled }), d)
        ≡ (none, d')
      → IsSettled d'
  after_status-IsSettled input true d d' h e k = inl (ground arith)
  after_status-IsSettled input false d d' h e k = ask_confirmation-IsSettled input _ d' h k

  -- For an accepted user name, an `EnsureProvisioned` that returns no error leaves the user enrolled,
  -- or leaves no secret of the user that can be read, whatever the user types.
  pub ensure_provisioned-IsSettled :
      (input : Text) (d d' : D)
      → valid_username user ≡ none
      → ensure_provisioned (daemon y v user) user input d ≡ (none, d')
      → IsSettled d'
  unfolding ensure_provisioned
  ensure_provisioned-IsSettled input d d' h k =
      after_status-IsSettled input (is_enrolled y v user d) d d' h refl
        (ap (after_status (daemon y v user) user input) (sym (call-status d h)) ∙ k)
