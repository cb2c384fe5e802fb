-- ===== src/Otp/Daemon.antt =====
-- `runOTPD` of go/cmd/ssentry/otpd.go: the start of the daemon, and its loop over the connections. The
-- listener is a parameter; a connection is what `handleOTPConn` learns of it. The connections are
-- served one behind the other here, and `Otp.Race` is about two at once.
use shell_sentry.Base.{
  ℕ, ◌||◌, List, [], ◌∷◌, ◌++◌, Option, none, some, if◌then◌else◌, is_empty, All, ◌≡◌, ◌≢◌, refl,
  ◌∙◌,
}
use shell_sentry.Text.{Text, codes}
use shell_sentry.Result.{Result, ok, err, Act, ◌>>◌}
use shell_sentry.Username.{valid_username}
use shell_sentry.Setup.Config.{Config}
use shell_sentry.Otp.Vault.{System, Vault}
use shell_sentry.Otp.Server.{Request, Response}
use shell_sentry.Otp.Laws.{SystemLaws}
use shell_sentry.Otp.Connection.{handle_conn, Untouched, handle_conn-isolated}

-- the peer's uid and the request, `none` where they cannot be had
pub record Conn : Type 0 where
  pub uid : Option ℕ
  pub request : Option Request

-- what the daemon asks of the network: `none`, or the text of the error
pub record Listener (D : Type 0) : Type 0 where
  pub listen : Text → D → Option Text × D
  pub chmod : Text → D → Option Text × D
  pub look_up : ℕ → Option Text
  -- the connections that are accepted, and the error that ends the loop
  pub accepted : List Conn
  pub accept_error : Text

module _ {D : Type 0} (y : System D) (l : Listener D) where
  -- the loop
  unfoldable pub serve_all : Vault → List Conn → D → List Response × D
  serve_all v [] d = ([], d)
  serve_all v (c ∷ conns) d =
      let (r, d₁) = handle_conn y v c.uid l.look_up c.request d in
      let (rs, d₂) = serve_all v conns d₁ in (r ∷ rs, d₂)

  abbrev vault_of : Config → Vault
  vault_of cfg = record { root = cfg.otp_root; issuer = codes "shellsentry" }

  abbrev attempt : Text → Option Text × D → Result (Unit {0}) × D
  attempt m (none, d) = (ok tt, d)
  attempt m (some e, d) = (err (m ++ e), d)

  -- up to the loop
  unfoldable pub start_up : Config → Act D (Unit {0})
  start_up cfg = do
    (λ d. attempt (codes "mkdir otp_root: ") (y.mkdir_all cfg.otp_root d))
    (λ d. (ok tt, (y.remove cfg.otp_socket d).1))
    (λ d. attempt (codes "listen otp socket: ") (l.listen cfg.otp_socket d))
    (λ d. attempt (codes "chmod otp socket: ") (l.chmod cfg.otp_socket d))

  abbrev served : Config → Result (Unit {0}) × D → Text × List Response × D
  served cfg (err e, d) = (e, [], d)
  served cfg (ok u, d) =
      let (rs, d') = serve_all (vault_of cfg) l.accepted d in
      (codes "accept: " ++ l.accept_error, rs, d')

  -- the error that it ends with, and the answers that were given
  unfoldable pub run_otpd : Config → D → Text × List Response × D
  unfolding serve_all start_up
  run_otpd cfg d =
      if is_empty cfg.otp_socket || is_empty cfg.otp_root
      then (codes "otpd requires otp_socket and otp_root in config", [], d)
      else served cfg (start_up cfg d)

module _ {D : Type 0} (y : System D) (v : Vault) (laws : SystemLaws y v) (l : Listener D) where
  -- the user database does not name `other` as the owner of the peer's process
  abbrev pub IsForeign : Text → Conn → Type 0
  IsForeign other c = (n : ℕ) → c.uid ≡ some n → l.look_up n ≢ some other

  -- Whatever comes over however many connections, the secret and the mark of a user with an accepted
  -- name keep their contents, if the user database names that user as the owner of none of the peers.
  pub serve_all-isolated :
      (other : Text) (conns : List Conn) (d : D)
      → valid_username other ≡ none
      → All (IsForeign other) conns
      → Untouched y v laws other d (serve_all y l v conns d).1
  unfolding serve_all
  serve_all-isolated other [] d ho h = (refl, refl)
  serve_all-isolated other (c ∷ conns) d ho h =
      let (a, b) = handle_conn-isolated y v laws c.uid l.look_up other c.request d ho h.0 in
      let (a', b') =
        serve_all-isolated other conns (handle_conn y v c.uid l.look_up c.request d).1 ho h.1 in
      (a' ∙ a, b' ∙ b)
