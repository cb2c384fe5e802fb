-- ===== src/Otp/Vault.antt =====
-- go/adapters/totpauth/totp.go: the secrets, a file for each user, and the marks of a confirmed
-- enrollment.
use shell_sentry.Base.{
  Bool, true, false, not, List, [], ◌∷◌, ◌++◌, Option, none, some, if◌then◌else◌,
}
use shell_sentry.Result.{Result, ok, err}
use shell_sentry.Text.{Text, codes}

-- What the vault calls: the operating system, the TOTP library and the printer of URLs. `D` is the
-- disk, with whatever else those calls read.
pub record System (D : Type 0) : Type 0 where
  -- filepath.Join(root, user, name), and filepath.Dir
  pub join : Text → Text → Text → Text
  pub dir : Text → Text
  -- os.ReadFile, and whether os.Stat returns no error
  pub read_file : Text → D → Result Text
  pub stat : Text → D → Bool
  -- os.MkdirAll, os.WriteFile and os.Remove (its "not exist" being no error here): `none`, or the
  -- text of the error
  pub mkdir_all : Text → D → Option Text × D
  pub write_file : Text → Text → D → Option Text × D
  pub remove : Text → D → Option Text × D
  -- totp.Generate(issuer, account): the secret; totp.Validate(code, secret)
  pub generate : Text → Text → D → Result Text × D
  pub code_valid : Text → Text → D → Bool
  -- url.Values.Encode of the pairs that were set, and url.URL.String of a scheme, a host, a path and
  -- a raw query
  pub encode_query : List (Text × Text) → Text
  pub print_url : Text → Text → Text → Text → Text

pub record Vault : Type 0 where
  pub root : Text
  pub issuer : Text

-- provisioningURI
abbrev pub provisioning_uri : {D : Type 0} → System D → Text → Text → Text → Text
provisioning_uri y issuer account secret =
    y.print_url (codes "otpauth") (codes "totp") (b'/' ∷ issuer ++ b':' ∷ account)
      (y.encode_query ((codes "secret", secret) ∷ (codes "issuer", issuer) ∷ []))

module _ {D : Type 0} (y : System D) (v : Vault) where
  abbrev pub secret_path : Text → Text
  secret_path user = y.join v.root user (codes "totp.secret")

  abbrev pub enrolled_path : Text → Text
  enrolled_path user = y.join v.root user (codes "totp.enrolled")

  abbrev pub is_enrolled : Text → D → Bool
  is_enrolled user d = y.stat (enrolled_path user) d

  -- what follows os.WriteFile and os.MkdirAll of the secret
  unfoldable pub write_secret : Text → Text → D → Result Text × D
  write_secret user secret d =
      let p = secret_path user in
      let (e, d₁) = y.mkdir_all (y.dir p) d in
      let (e', d₂) = y.write_file p secret d₁ in
      elim e [
        | some m ↦ (err (codes "mkdir user dir: " ++ m), d₁)
        | none ↦ elim e' [
          | some m ↦ (err (codes "write secret: " ++ m), d₂)
          | none ↦ (ok (provisioning_uri y v.issuer user secret), d₂)
        ]
      ]

  abbrev pub after_generate : Text → Result Text × D → Result Text × D
  after_generate user (ok secret, d) = write_secret user secret d
  after_generate user (err m, d) = (err (codes "generate totp: " ++ m), d)

  unfoldable pub provision : Text → D → Result Text × D
  provision user d = elim (y.read_file (secret_path user) d) [
    | ok raw ↦ (ok (provisioning_uri y v.issuer user raw), d)
    | err m ↦ after_generate user (y.generate v.issuer user d)
  ]

  -- `none` is the nil error
  unfoldable pub confirm : Text → D → Option Text × D
  confirm user d =
      let p = enrolled_path user in
      let (e, d₁) = y.mkdir_all (y.dir p) d in
      let (e', d₂) = y.write_file p (codes "1") d₁ in
      elim e [
        | some m ↦ (some (codes "mkdir user dir: " ++ m), d₁)
        | none ↦ elim e' [ some m ↦ (some (codes "mark enrolled: " ++ m), d₂) | none ↦ (none, d₂) ]
      ]

  unfoldable pub discard : Text → D → Option Text × D
  discard user d =
      let (e, d') = y.remove (secret_path user) d in
      if is_enrolled user d
      then (none, d)
      else elim e [ some m ↦ (some (codes "discard secret: " ++ m), d') | none ↦ (none, d') ]

  abbrev pub after_confirm : Option Text × D → Result Bool × D
  after_confirm (some m, d) = (err m, d)
  after_confirm (none, d) = (ok true, d)

  unfoldable pub validate : Text → Text → D → Result Bool × D
  validate user code d = elim (y.read_file (secret_path user) d) [
    | err m ↦ (err (codes "read secret: " ++ m), d)
    | ok raw ↦
        if not (y.code_valid code raw d)
        then (ok false, d)
        else if not (is_enrolled user d)
        then after_confirm (confirm user d)
        else (ok true, d)
  ]
