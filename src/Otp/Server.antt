-- ===== src/Otp/Server.antt =====
-- `serveOTPRequest` of go/cmd/ssentry/otpd.go, with the messages of
-- go/adapters/otpsockclient/client.go.
use shell_sentry.Base.{Bool, true, false, not, [], Option, none, some, if◌then◌else◌}
use shell_sentry.Text.{Text, codes, text_eq}
use shell_sentry.Username.{valid_username}
use shell_sentry.Result.{Result}
use shell_sentry.Otp.Vault.{System, Vault, is_enrolled, provision, confirm, discard, validate}

pub record Request : Type 0 where
  pub op : Text
  pub user : Text
  pub code : Text

pub record Response : Type 0 where
  pub enrolled : Bool
  pub uri : Text
  pub ok : Bool
  pub error : Text

abbrev pub empty : Response
empty = record { enrolled = false; uri = []; ok = false; error = [] }

abbrev pub failure : Text → Response
failure m = record empty { error = m }

-- the answers to the five operations
abbrev pub uri_response : Result Text → Response
uri_response (Result.ok u) = record empty { uri = u }
uri_response (Result.err m) = failure m

abbrev pub done_response : Option Text → Response
done_response none = record empty { ok = true }
done_response (some m) = failure m

abbrev pub check_response : Result Bool → Response
check_response (Result.ok b) = record empty { ok = b }
check_response (Result.err m) = failure m

abbrev pub is_error : {A : Type 0} → Option A → Bool
is_error none = false
is_error (some e) = true

module _ {D : Type 0} (y : System D) (v : Vault) where
  -- the `switch` on the operation
  unfoldable pub dispatch : Request → D → Response × D
  dispatch req d =
      if text_eq req.op (codes "status")
      then (record empty { enrolled = is_enrolled y v req.user d }, d)
      else if text_eq req.op (codes "provision")
      then (let (r, d') = provision y v req.user d in (uri_response r, d'))
      else if text_eq req.op (codes "confirm")
      then (let (r, d') = confirm y v req.user d in (done_response r, d'))
      else if text_eq req.op (codes "discard")
      then (let (r, d') = discard y v req.user d in (done_response r, d'))
      else if text_eq req.op (codes "validate")
      then (let (r, d') = validate y v req.user req.code d in (check_response r, d'))
      else (failure (codes "unknown op"), d)

  unfoldable pub serve : Text → Request → D → Response × D
  serve peer req d =
      if is_error (valid_username req.user)
      then (failure (codes "invalid user"), d)
      else if not (text_eq req.user peer)
      then (failure (codes "permission denied"), d)
      else dispatch req d
