-- ===== src/Otp/Isolation.antt =====
-- Whom a request can touch, and what it can learn.
use shell_sentry.Base.{
  true, [], Option, none, some, ◌≡◌, ◌≢◌, refl, ap, ◌∙◌, arith, Bool-cases, inl, inr,
}
use shell_sentry.Text.{Text, codes, text_eq}
use shell_sentry.Text.Laws.{text_eq_iff, text_eq_sound}
use shell_sentry.Username.{valid_username}
use shell_sentry.Result.{Result, ok, err}
use shell_sentry.Otp.Vault.{
  System, Vault, secret_path, enrolled_path, write_secret, after_generate, provision, confirm,
  discard, validate, after_confirm,
}
use shell_sentry.Otp.Server.{Request, failure, dispatch, serve, is_error}
use shell_sentry.Otp.Laws.{SystemLaws, VaultFile, secret_file, mark_file, path_of}

module _ {D : Type 0} (y : System D) (v : Vault) where
  -- A request for another user is refused with an error, and changes nothing.
  pub serve-denied :
      (peer : Text) (req : Request) (d : D)
      → req.user ≢ peer
      → (m : Text) × (m ≢ []) × (serve y v peer req d ≡ (failure m, d))
  unfolding serve
  serve-denied peer req d h = elim (Bool-cases (is_error (valid_username req.user))) [
    | inl e ↦ (codes "invalid user", λ x. cc, rw e)
    | inr e ↦ (codes "permission denied", λ x. cc, ground (arith, text_eq_iff req.user peer))
  ]

  -- A peer whose name is not accepted changes nothing.
  pub serve-unnamed :
      (peer : Text) (req : Request) (d : D)
      → is_error (valid_username peer) ≡ true
      → (serve y v peer req d).1 ≡ d
  unfolding serve
  serve-unnamed peer req d h = elim (Bool-cases (text_eq req.user peer)) [
    | inl same ↦
        let eq = text_eq_sound req.user peer same in
        let refused : is_error (valid_username req.user) ≡ true =
          ap (λ u. is_error (valid_username u)) eq ∙ h in
        ground arith
    | inr differ ↦ ground arith
  ]

module _ {D : Type 0} (y : System D) (v : Vault) (laws : SystemLaws y v) where
  open laws use {write_other, mkdir_kept, remove_other, generate_kept}

  -- a file of `other`, apart from the two of `user`
  module _ (user other : Text) (f : VaultFile) (hu : valid_username user ≡ none)
      (ho : valid_username other ≡ none)
      (apart : (g : VaultFile) → path_of y v other f ≢ path_of y v user g) where
    write_secret-other :
        (secret : Text) (d : D)
        → y.read_file (path_of y v other f) (write_secret y v user secret d).1
          ≡ y.read_file (path_of y v other f) d
    unfolding write_secret
    write_secret-other secret d =
        let d₁ = (y.mkdir_all (y.dir (secret_path y v user)) d).1 in
        ground (
          arith,
          mkdir_kept user other secret_file f d hu ho,
          write_other user other secret_file f secret d₁ hu ho (apart secret_file),
        )

    after_generate-other :
        (r : Result Text × D)
        → y.read_file (path_of y v other f) (after_generate y v user r).1
          ≡ y.read_file (path_of y v other f) r.1
    after_generate-other (ok secret, d) = write_secret-other secret d
    after_generate-other (err m, d) = refl

    provision-other :
        (d : D)
        → y.read_file (path_of y v other f) (provision y v user d).1
          ≡ y.read_file (path_of y v other f) d
    unfolding provision
    provision-other d = ground (
      arith,
      after_generate-other (y.generate v.issuer user d),
      generate_kept v.issuer user other f d ho,
    )

    confirm-other :
        (d : D)
        → y.read_file (path_of y v other f) (confirm y v user d).1
          ≡ y.read_file (path_of y v other f) d
    unfolding confirm
    confirm-other d =
        let d₁ = (y.mkdir_all (y.dir (enrolled_path y v user)) d).1 in
        ground (
          arith,
          mkdir_kept user other mark_file f d hu ho,
          write_other user other mark_file f (codes "1") d₁ hu ho (apart mark_file),
        )

    discard-other :
        (d : D)
        → y.read_file (path_of y v other f) (discard y v user d).1
          ≡ y.read_file (path_of y v other f) d
    unfolding discard
    discard-other d =
        ground (arith, remove_other user other secret_file f d hu ho (apart secret_file))

    after_confirm-disk : (r : Option Text × D) → (after_confirm y v r).1 ≡ r.1
    after_confirm-disk (none, d) = refl
    after_confirm-disk (some m, d) = refl

    validate-other :
        (code : Text) (d : D)
        → y.read_file (path_of y v other f) (validate y v user code d).1
          ≡ y.read_file (path_of y v other f) d
    unfolding validate
    validate-other code d = ground (arith, after_confirm-disk (confirm y v user d), confirm-other d)

  dispatch-other :
      (req : Request) (other : Text) (f : VaultFile) (d : D)
      → valid_username req.user ≡ none
      → valid_username other ≡ none
      → ((g : VaultFile) → path_of y v other f ≢ path_of y v req.user g)
      → y.read_file (path_of y v other f) (dispatch y v req d).1
        ≡ y.read_file (path_of y v other f) d
  unfolding dispatch
  dispatch-other req other f d hu ho apart = ground (
    arith,
    provision-other req.user other f hu ho apart d,
    confirm-other req.user other f hu ho apart d,
    discard-other req.user other f hu ho apart d,
    validate-other req.user other f hu ho apart req.code d,
  )

  serve-other :
      (peer other : Text) (req : Request) (f : VaultFile) (d : D)
      → valid_username peer ≡ none
      → valid_username other ≡ none
      → ((g : VaultFile) → path_of y v other f ≢ path_of y v peer g)
      → y.read_file (path_of y v other f) (serve y v peer req d).1
        ≡ y.read_file (path_of y v other f) d
  unfolding serve
  serve-other peer other req f d hp ho apart = elim (Bool-cases (text_eq req.user peer)) [
    | inl same ↦
        let eq = text_eq_sound req.user peer same in
        ground (
          arith,
          dispatch-other req other f d (ap valid_username eq ∙ hp) ho
              (λ g x. apart g (x ∙ ap (λ u. path_of y v u g) eq)),
        )
    | inr differ ↦ ground arith
  ]

  -- Whatever a peer with an accepted name requests, the secret and the mark of every other user
  -- with an accepted name keep their contents.
  pub serve-isolated :
      (peer other : Text) (req : Request) (d : D)
      → valid_username peer ≡ none
      → valid_username other ≡ none
      → other ≢ peer
      → (y.read_file (secret_path y v other) (serve y v peer req d).1
          ≡ y.read_file (secret_path y v other) d)
        × (y.read_file (enrolled_path y v other) (serve y v peer req d).1
            ≡ y.read_file (enrolled_path y v other) d)
  serve-isolated peer other req d hp ho n =
      let apart = λ (f g : VaultFile) (x : path_of y v other f ≡ path_of y v peer g).
        n (laws.join_apart other peer f g ho hp x) in
      (
        serve-other peer other req secret_file d hp ho (apart secret_file),
        serve-other peer other req mark_file d hp ho (apart mark_file),
      )
