-- ===== src/Otp/Enrollment.antt =====
-- The life of a secret: shown again until it is confirmed, kept once it is.
use shell_sentry.Base.{true, false, none, ◌≡◌, refl, arith}
use shell_sentry.Text.{Text, codes}
use shell_sentry.Result.{Result, ok, err}
use shell_sentry.Otp.Vault.{
  provisioning_uri, System, Vault, secret_path, enrolled_path, is_enrolled, write_secret,
  after_generate, provision, confirm, discard, validate,
}
use shell_sentry.Username.{valid_username}
use shell_sentry.Otp.Laws.{SystemLaws, is_ok, secret_file, mark_file}

module _ {D : Type 0} (y : System D) (v : Vault) (laws : SystemLaws y v) where
  open laws use {write_stat, write_read, remove_read}

  -- a successful confirmation leaves the mark
  pub confirm-enrolled :
      (user : Text) (d : D)
      → valid_username user ≡ none
      → (confirm y v user d).0 ≡ none
      → is_enrolled y v user (confirm y v user d).1 ≡ true
  unfolding confirm
  confirm-enrolled user d named h =
      let d₁ = (y.mkdir_all (y.dir (enrolled_path y v user)) d).1 in
      ground (arith, write_stat user mark_file (codes "1") d₁ named)

  -- For an accepted user name, a code is accepted only if the user's secret can be read and the code is valid for it, and the
  -- enrollment is then confirmed.
  pub validate_sound :
      (user code : Text) (d d' : D)
      → valid_username user ≡ none
      → validate y v user code d ≡ (ok true, d')
      → (secret : Text) × (y.read_file (secret_path y v user) d ≡ ok secret)
        × (y.code_valid code secret d ≡ true)
        × (is_enrolled y v user d' ≡ true)
  unfolding validate
  validate_sound user code d d' named h = go (y.read_file (secret_path y v user) d) refl
    where
      go :
          (r : Result Text)
          → y.read_file (secret_path y v user) d ≡ r
          → (secret : Text) × (y.read_file (secret_path y v user) d ≡ ok secret)
            × (y.code_valid code secret d ≡ true)
            × (is_enrolled y v user d' ≡ true)
      go (err m) e = ground arith
      go (ok raw) e = (raw, e, ground arith, ground (arith, confirm-enrolled user d named))

  write_secret-stored :
      (user secret uri : Text) (d d' : D)
      → valid_username user ≡ none
      → write_secret y v user secret d ≡ (ok uri, d')
      → (y.read_file (secret_path y v user) d' ≡ ok secret)
        × (uri ≡ provisioning_uri y v.issuer user secret)
  unfolding write_secret
  write_secret-stored user secret uri d d' named h =
      let d₁ = (y.mkdir_all (y.dir (secret_path y v user)) d).1 in
      (ground (arith, write_read user secret_file secret d₁ named), ground arith)

  pub after_generate-stored :
      (user uri : Text) (r : Result Text × D) (d' : D)
      → valid_username user ≡ none
      → after_generate y v user r ≡ (ok uri, d')
      → (secret : Text) × (y.read_file (secret_path y v user) d' ≡ ok secret)
        × (uri ≡ provisioning_uri y v.issuer user secret)
  after_generate-stored user uri (ok secret, d) d' named h =
      let (x, z) = write_secret-stored user secret uri d d' named h in (secret, x, z)
  after_generate-stored user uri (err m, d) d' named h = ground arith

  provision-stored :
      (user uri : Text) (d d' : D)
      → valid_username user ≡ none
      → provision y v user d ≡ (ok uri, d')
      → (secret : Text) × (y.read_file (secret_path y v user) d' ≡ ok secret)
        × (uri ≡ provisioning_uri y v.issuer user secret)
  unfolding provision
  provision-stored user uri d d' named h = go (y.read_file (secret_path y v user) d) refl
    where
      go :
          (r : Result Text)
          → y.read_file (secret_path y v user) d ≡ r
          → (secret : Text) × (y.read_file (secret_path y v user) d' ≡ ok secret)
            × (uri ≡ provisioning_uri y v.issuer user secret)
      go (ok raw) e = (raw, ground arith, ground arith)
      go (err m) e =
          after_generate-stored user uri (y.generate v.issuer user d) d' named (ground arith)

  -- If `Provision` of an accepted user name returned a URI, the next `Provision` of that user returns
  -- the same and changes nothing.
  pub provision_idem :
      (user uri : Text) (d d' : D)
      → valid_username user ≡ none
      → provision y v user d ≡ (ok uri, d')
      → provision y v user d' ≡ (ok uri, d')
  unfolding provision
  provision_idem user uri d d' named h =
      let (secret, e, u) = provision-stored user uri d d' named h in ground (arith, e, u)

  -- `Discard` leaves a confirmed secret alone; of an unconfirmed user with an
  -- accepted name it leaves no secret to read,
  -- if it returns no error.
  pub discard_lem :
      (user : Text) (d : D)
      → valid_username user ≡ none
      → ((is_enrolled y v user d ≡ true) → discard y v user d ≡ (none, d))
        × (is_enrolled y v user d ≡ false
            → (discard y v user d).0 ≡ none
            → is_ok (y.read_file (secret_path y v user) (discard y v user d).1) ≡ false)
  unfolding discard
  discard_lem user d named =
      (λ h. ground arith, λ h k. ground (arith, remove_read user secret_file d named))
