-- ===== src/Otp/Race.antt =====
-- Two `provision` requests of one user that are served at once: `runOTPD` of go/cmd/ssentry/otpd.go
-- starts a goroutine for every connection, and `Provision` of go/adapters/totpauth/totp.go reads the
-- secret in one step and makes it in a later one.
use shell_sentry.Base.{Bool, true, false, none, List, [], ◌∷◌, ◌≡◌, ◌≢◌, sym, ◌∙◌, arith}
use shell_sentry.Text.{Text}
use shell_sentry.Result.{Result, ok, err}
use shell_sentry.Username.{valid_username}
use shell_sentry.Otp.Vault.{System, Vault, provisioning_uri, secret_path, after_generate, provision}
use shell_sentry.Otp.Laws.{SystemLaws, is_ok}
use shell_sentry.Otp.Enrollment.{after_generate-stored}

-- where a request stands: before it looks for a secret, behind a look that found none, and at its end
pub data Phase : Type 0 where
  looking : Phase
  making : Phase
  answered : Result Text → Phase

-- two requests on one disk
pub record Pair (D : Type 0) : Type 0 where
  pub left : Phase
  pub right : Phase
  pub disk : D

abbrev pub both_look : {D : Type 0} → D → Pair D
both_look d = record { left = Phase.looking; right = Phase.looking; disk = d }

module _ {D : Type 0} (y : System D) (v : Vault) (user : Text) where
  abbrev pub looked : Result Text → Phase
  looked (ok raw) = Phase.answered (ok (provisioning_uri y v.issuer user raw))
  looked (err m) = Phase.making

  abbrev pub made : Result Text × D → Phase × D
  made (r, d) = (Phase.answered r, d)

  unfoldable pub step : Phase → D → Phase × D
  step Phase.looking d = (looked (y.read_file (secret_path y v user) d), d)
  step Phase.making d = made (after_generate y v user (y.generate v.issuer user d))
  step (Phase.answered r) d = (Phase.answered r, d)

  -- the requests in the order in which they move: the left one for `true`
  abbrev pub move : Bool → Pair D → Pair D
  move true p = let (a, d) = step p.left p.disk in record p { left = a; disk = d }
  move false p = let (b, d) = step p.right p.disk in record p { right = b; disk = d }

  unfoldable pub interleave : List Bool → Pair D → Pair D
  interleave [] p = p
  interleave (b ∷ schedule) p = interleave schedule (move b p)

  -- two steps of one request are `Provision`
  alone : (d : D) → (let (a, d₁) = step Phase.looking d in step a d₁) ≡ made (provision y v user d)
  unfolding step provision
  alone d = ground arith

module _ {D : Type 0} (y : System D) (v : Vault) (laws : SystemLaws y v) (user : Text) where
  -- Two requests of a user with an accepted name and without a secret that can be read: served one behind the other, both show
  -- the URI of the secret that is then stored. Where both look before either makes a secret, and the
  -- two secrets have different URIs, each shows its own; the stored secret is that of the second, and
  -- its URI is not the one that the first showed.
  pub provision_race :
      (d d₁ d₂ : D) (uri uri' : Text)
      → valid_username user ≡ none
      → is_ok (y.read_file (secret_path y v user) d) ≡ false
      → after_generate y v user (y.generate v.issuer user d) ≡ (ok uri, d₁)
      → after_generate y v user (y.generate v.issuer user d₁) ≡ (ok uri', d₂)
      → uri ≢ uri'
      → (interleave y v user (true ∷ true ∷ false ∷ false ∷ []) (both_look d)
          ≡ record { left = Phase.answered (ok uri); right = Phase.answered (ok uri); disk = d₁ })
        × (interleave y v user (true ∷ false ∷ true ∷ false ∷ []) (both_look d) ≡ record {
          left = Phase.answered (ok uri);
          right = Phase.answered (ok uri');
          disk = d₂;
        })
        × (secret : Text) × (y.read_file (secret_path y v user) d₂ ≡ ok secret)
        × (uri ≢ provisioning_uri y v.issuer user secret)
  unfolding interleave step
  provision_race d d₁ d₂ uri uri' named absent first second differ =
      let (a, ra, ua) =
        after_generate-stored y v laws user uri (y.generate v.issuer user d) d₁ named first in
      let (b, rb, ub) =
        after_generate-stored y v laws user uri' (y.generate v.issuer user d₁) d₂ named second in
      (
        ground (arith, absent, first, ra, ua),
        ground (arith, absent, first, second),
        b,
        rb,
        λ e. differ (e ∙ sym ub),
      )
