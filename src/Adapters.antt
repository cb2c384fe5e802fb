-- ===== src/Adapters.antt =====
-- The adapters of the scorer, the alert socket and the GeoIP database: go/adapters/scorerclient/client.go,
-- go/adapters/alertsock/alerter.go and go/adapters/geomaxmind/geo.go. Dialling, sending, JSON and the
-- MaxMind library are parameters.
use shell_sentry.Base.{
  ℕ, suc, ◌≤◌, false, [], ◌∷◌, ◌++◌, Option, none, some, any, take, length, length-append,
  append_assoc, zero, leb, ◌==◌, ◌≡◌, refl, sym, ap, ◌∙◌, arith, Bool-cases, inl, inr,
  if◌then◌else◌,
}
use shell_sentry.Base.Int.{ℤ}
use shell_sentry.Text.{Text, codes}
use shell_sentry.Result.{Result, ok, err}
use shell_sentry.Feature.{Feature}
use shell_sentry.Ports.{Alert}

-- the request and the score of a response, in which a missing field is zero
pub record Request (F : Type 0) : Type 0 where
  pub user : Text
  pub session_id : Text
  pub features : Feature F
  pub gen : ℤ

-- what a connection does: `none`, or the text of the error
pub record Socket (F : Type 0) : Type 0 where
  pub dial : Option Text
  pub send : Request F → Option Text
  -- what comes before the deadline or until the other side closes, and the error then
  pub received : Text
  pub end_error : Text
  pub decode : Text → Result F

abbrev pub max_response_bytes : ℕ
max_response_bytes = 1048576

-- bufio.Reader.ReadString('\n'), on what is left of the stream
abbrev pub with_byte : ℕ → Option Text → Option Text
with_byte c none = none
with_byte c (some line) = some (c ∷ line)

unfoldable pub read_string : Text → Option Text
read_string [] = none
read_string (c ∷ s) =
    let rest = with_byte c (read_string s) in if c == b'\n' then some (c ∷ []) else rest

module _ {F : Type 0} (socket : Socket F) where
  abbrev pub decoded : Result F → Result F
  decoded (ok x) = ok x
  decoded (err e) = err (codes "decode response: " ++ e)

  -- at the limit, the error is io.EOF
  abbrev pub read_error : Text
  read_error =
      if leb max_response_bytes (length socket.received) then codes "EOF" else socket.end_error

  abbrev pub of_line : Option Text → Result F
  of_line none = err (codes "read response: " ++ read_error)
  of_line (some line) = decoded (socket.decode line)

  abbrev pub of_sent : Option Text → Result F
  of_sent (some e) = err (codes "send request: " ++ e)
  of_sent none = of_line (read_string (take max_response_bytes socket.received))

  unfoldable pub score : Text → Text → Feature F → ℤ → Result F
  unfolding read_string
  score user session_id f gen = elim socket.dial [
    | some e ↦ err (codes "dial scorer: " ++ e)
    | none ↦
        of_sent
          (socket.send (record { user = user; session_id = session_id; features = f; gen = gen }))
  ]

-- `Alerter.Alert`, with the outcomes of the dial and of the encoder
unfoldable pub send_alert : Option Text → (Alert → Option Text) → Alert → Option Text
send_alert (some e) send alert = some (codes "dial alert socket: " ++ e)
send_alert none send alert = elim (send alert) [
  | none ↦ none
  | some e ↦ some (codes "write alert: " ++ e)
]

-- net.ParseIP and the look-up in an open database
unfoldable pub country :
    {I : Type 0} → (Text → Option I) → Option (I → Result Text) → Text → Result Text
country parse_ip reader ip = elim (parse_ip ip) [
  | none ↦ ok []
  | some address ↦ elim reader [
    | none ↦ ok []
    | some look_up ↦ elim (look_up address) [
      | ok code ↦ ok code
      | err e ↦ err (codes "geo lookup: " ++ e)
    ]
  ]
]

-- a line: bytes that are no newline, and a newline
abbrev pub IsLine : Text → Type 0
IsLine line = (body : Text) × (line ≡ body ++ b'\n' ∷ []) × (any (λ c. c == b'\n') body ≡ false)

read_string_lem :
    (s line : Text) → read_string s ≡ some line → IsLine line × ((rest : Text) × (s ≡ line ++ rest))
unfolding read_string
read_string_lem [] line h = cc
read_string_lem (c ∷ s) line h = elim (Bool-cases (c == b'\n')) [
  | inl e ↦
      let newline : c ≡ b'\n' = ground arith in
      let whole : line ≡ c ∷ [] = cc (rw e at h) in
      (([], cc (whole, newline), refl), (s, cc (whole)))
  | inr e ↦ longer (read_string s) (read_string_lem s) (rw e at h) e
]
  where
    longer :
        (o : Option Text)
        → ((l : Text) → o ≡ some l → IsLine l × ((rest : Text) × (s ≡ l ++ rest)))
        → with_byte c o ≡ some line
        → (c == b'\n') ≡ false
        → IsLine line × ((rest : Text) × ((c ∷ s) ≡ line ++ rest))
    longer none rec k e = cc
    longer (some l) rec k e =
        let ((body, q, clean), (rest, r)) = rec l refl in
        let whole : c ∷ l ≡ line = cc in
        (
          (c ∷ body, sym whole ∙ ap (◌∷◌ c) q, ground (arith, e, clean)),
          (rest, ap (◌∷◌ c) r ∙ ap (λ t. t ++ rest) whole),
        )

take_begins : (n : ℕ) (s : Text) → (rest : Text) × (s ≡ take n s ++ rest) × (length (take n s) ≤ n)
take_begins zero s = (s, refl, omega arith)
take_begins (suc n) [] = ([], refl, omega arith)
take_begins (suc n) (c ∷ s) =
    let (rest, e, b) = take_begins n s in (rest, ap (◌∷◌ c) e, omega (arith, b))

module _ {F : Type 0} (socket : Socket F) where
  decoded-eq-ok : (r : Result F) {x : F} → decoded socket r ≡ ok x → r ≡ ok x
  decoded-eq-ok (ok y) h = h
  decoded-eq-ok (err e) h = cc

  of_line-eq-ok :
      (o : Option Text) {x : F}
      → of_line socket o ≡ ok x
      → (line : Text) × (o ≡ some line) × (socket.decode line ≡ ok x)
  of_line-eq-ok none h = cc
  of_line-eq-ok (some line) h = (line, refl, decoded-eq-ok (socket.decode line) h)

  of_sent-eq-ok :
      (o : Option Text) {x : F}
      → of_sent socket o ≡ ok x
      → of_line socket (read_string (take max_response_bytes socket.received)) ≡ ok x
  of_sent-eq-ok (some e) h = cc
  of_sent-eq-ok none h = h

  -- A score is that of the first line that the scorer sent, and that line with its newline is no
  -- longer than 1 MiB.
  pub score_lem :
      (user session_id : Text) (f : Feature F) (gen : ℤ) (x : F)
      → score socket user session_id f gen ≡ ok x
      → (line : Text) × (rest : Text) × (socket.received ≡ line ++ rest)
        × IsLine line
        × (length line ≤ max_response_bytes)
        × (socket.decode line ≡ ok x)
  unfolding score
  score_lem user session_id f gen x h = of_dial socket.dial h
    where
      of_dial :
          (o : Option Text)
          → (elim o [
            | some e ↦ err (codes "dial scorer: " ++ e)
            | none ↦ of_sent socket (
                socket.send
                  (record { user = user; session_id = session_id; features = f; gen = gen }))
          ])
            ≡ ok x
          → (line : Text) × (rest : Text) × (socket.received ≡ line ++ rest)
            × IsLine line
            × (length line ≤ max_response_bytes)
            × (socket.decode line ≡ ok x)
      of_dial (some e) k = cc
      of_dial none k =
          let (line, found, value) =
            of_line-eq-ok (read_string (take max_response_bytes socket.received))
              (of_sent-eq-ok (socket.send _) k) in
          let (is_line, (tail, whole)) =
            read_string_lem (take max_response_bytes socket.received) line found in
          let (rest, all_of_it, bound) = take_begins max_response_bytes socket.received in
          let sizes = ap length whole ∙ length-append line tail in
          (
            line,
            tail ++ rest,
            all_of_it ∙ ap (λ t. t ++ rest) whole ∙ append_assoc line tail rest,
            is_line,
            omega (arith, sizes, bound),
            value,
          )
