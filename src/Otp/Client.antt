-- ===== src/Otp/Client.antt =====
-- go/adapters/otpsockclient/client.go: what the session asks of the daemon.
use shell_sentry.Base.{
  Bool, ◌&&◌, ◌||◌, not, [], ◌∷◌, ◌++◌, ◌+◌, Option, none, some, leb, ◌==◌, if◌then◌else◌, is_empty,
  map,
}
use shell_sentry.Text.{Text, codes, text_eq}
use shell_sentry.Text.Bytes.{trim_bytes}
use shell_sentry.Result.{Result, ok, err}
use shell_sentry.Otp.Server.{Request, Response}

-- strings.ToLower, on the letters that the answers are compared with
abbrev to_lower : Text → Text
to_lower s = map (λ c. if leb b'A' c && leb c b'Z' then c + 32 else c) s

unfoldable pub confirmed : Text → Bool
confirmed answer =
    let a = to_lower (trim_bytes answer) in text_eq a (codes "y") || text_eq a (codes "yes")

-- `readLine` on the bytes of the user's terminal: the line, and what is left
unfoldable pub read_line : Text → Text × Text
read_line [] = ([], [])
read_line (b ∷ input) =
    let (line, rest) = read_line input in if b == b'\n' then ([], input) else (b ∷ line, rest)

module _ {D : Type 0} (exchange : Request → D → Result Response × D) where
  -- `call`: `exchange` dials, encodes and decodes; the daemon's error is the caller's, but for
  -- `validate`
  abbrev pub judge_response : Request → Result Response × D → Result Response × D
  judge_response req (err m, d) = (err m, d)
  judge_response req (ok resp, d) =
      if not (is_empty resp.error) && not (text_eq req.op (codes "validate"))
      then (err (codes "otpd: " ++ resp.error), d)
      else (ok resp, d)

  unfoldable pub call : Request → D → Result Response × D
  call req d = judge_response req (exchange req d)

  abbrev pub request : Text → Text → Request
  request op user = record { op = op; user = user; code = [] }

  abbrev pub error_of : Result Response × D → Option Text × D
  error_of (err m, d) = (some m, d)
  error_of (ok r, d) = (none, d)

  -- the question to the user, once the QR code is shown
  unfoldable pub ask_confirmation : Text → Text → Result Response × D → Option Text × D
  ask_confirmation user input (err m, d) = (some m, d)
  ask_confirmation user input (ok pr, d) =
      if confirmed (read_line input).0
      then error_of (call (request (codes "confirm") user) d)
      else error_of (call (request (codes "discard") user) d)

  abbrev pub after_status : Text → Text → Result Response × D → Option Text × D
  after_status user input (err m, d) = (some m, d)
  after_status user input (ok st, d) =
      if st.enrolled
      then (none, d)
      else ask_confirmation user input (call (request (codes "provision") user) d)

  -- The error, and the state of the other side; `input` is what the user types.
  unfoldable pub ensure_provisioned : Text → Text → D → Option Text × D
  ensure_provisioned user input d = after_status user input (call (request (codes "status") user) d)

  abbrev pub code_answer : Result Response × D → Result Bool × D
  code_answer (err m, d) = (err m, d)
  code_answer (ok resp, d) =
      if not (is_empty resp.error) then (err (codes "otpd: " ++ resp.error), d) else (ok resp.ok, d)

  unfoldable pub client_validate : Text → Text → D → Result Bool × D
  client_validate user code d =
      code_answer (call (record { op = codes "validate"; user = user; code = code }) d)
