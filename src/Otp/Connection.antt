-- ===== src/Otp/Connection.antt =====
-- `handleOTPConn` of go/cmd/ssentry/otpd.go: the identity of the peer, its name and the request are what
-- the kernel, the user database and the JSON decoder say, `none` for an error.
use shell_sentry.Base.{ℕ, Option, none, some, ◌≡◌, ◌≢◌, refl, sym, ap, ◌∙◌}
use shell_sentry.Text.{Text, codes}
use shell_sentry.Username.{UsernameError, valid_username}
use shell_sentry.Otp.Vault.{System, Vault, secret_path, enrolled_path}
use shell_sentry.Otp.Server.{Request, Response, failure, serve, is_error}
use shell_sentry.Otp.Laws.{SystemLaws}
use shell_sentry.Otp.Isolation.{serve-unnamed, serve-isolated}

module _ {D : Type 0} (y : System D) (v : Vault) where
  abbrev pub serve_decoded : Text → Option Request → D → Response × D
  serve_decoded peer none d = (failure (codes "bad request"), d)
  serve_decoded peer (some req) d = serve y v peer req d

  abbrev pub serve_named : Option Text → Option Request → D → Response × D
  serve_named none req d = (failure (codes "unknown peer uid"), d)
  serve_named (some peer) req d = serve_decoded peer req d

  unfoldable pub handle_conn : Option ℕ → (ℕ → Option Text) → Option Request → D → Response × D
  handle_conn none look_up req d = (failure (codes "peer identity unavailable"), d)
  handle_conn (some uid) look_up req d = serve_named (look_up uid) req d

module _ {D : Type 0} (y : System D) (v : Vault) (laws : SystemLaws y v) where
  -- the secret and the mark of a user have the contents that they had
  abbrev pub Untouched : Text → D → D → Type 0
  Untouched other d d' =
      (y.read_file (secret_path y v other) d' ≡ y.read_file (secret_path y v other) d)
      × (y.read_file (enrolled_path y v other) d' ≡ y.read_file (enrolled_path y v other) d)

  peer-Untouched :
      (peer other : Text) (req : Request) (d : D) (o : Option UsernameError)
      → valid_username other ≡ none
      → valid_username peer ≡ o
      → other ≢ peer
      → Untouched other d (serve y v peer req d).1
  peer-Untouched peer other req d none ho hp n = serve-isolated y v laws peer other req d hp ho n
  peer-Untouched peer other req d (some e) ho hp n =
      let kept = serve-unnamed y v peer req d (ap is_error hp) in
      (
        ap (y.read_file (secret_path y v other)) kept,
        ap (y.read_file (enrolled_path y v other)) kept,
      )

  named-Untouched :
      (named : Option Text) (other : Text) (req : Option Request) (d : D)
      → valid_username other ≡ none
      → ((peer : Text) → named ≡ some peer → other ≢ peer)
      → Untouched other d (serve_named y v named req d).1
  named-Untouched none other req d ho h = (refl, refl)
  named-Untouched (some peer) other none d ho h = (refl, refl)
  named-Untouched (some peer) other (some req) d ho h =
      peer-Untouched peer other req d (valid_username peer) ho refl (h peer refl)

  -- Whatever comes over a connection, the secret and the mark of a user with an accepted name keep
  -- their contents, unless the user database names that user as the owner of the peer's process.
  pub handle_conn-isolated :
      (uid : Option ℕ) (look_up : ℕ → Option Text) (other : Text) (req : Option Request) (d : D)
      → valid_username other ≡ none
      → ((n : ℕ) → uid ≡ some n → look_up n ≢ some other)
      → Untouched other d (handle_conn y v uid look_up req d).1
  unfolding handle_conn
  handle_conn-isolated none look_up other req d ho n = (refl, refl)
  handle_conn-isolated (some uid) look_up other req d ho n =
      named-Untouched (look_up uid) other req d ho
        (λ peer e same. n uid refl (e ∙ ap some (sym same)))
