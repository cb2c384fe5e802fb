-- ===== src/Shell/Proxy.antt =====
-- `readByte` and `proxyInput`: the two loops that poll, one the pty and one the user's terminal.
use shell_sentry.Base.{
  ℕ, Bool, true, false, List, [], ◌∷◌, ◌++◌, Option, none, some, is_empty, append_assoc, append-nil,
  All, ◌≡◌, refl, sym, ap, ◌∙◌, Bool-cases, inl, inr,
}
use shell_sentry.Text.{Text}

-- what a read of the pty returns before its deadline; `nothing` is no byte and no error
pub data PtyRead : Type 0 where
  byte : ℕ → PtyRead
  deadline_exceeded nothing failed : PtyRead

-- a byte, or `none` for an error, and the reads that are left; a pty that gives no more reads blocks
unfoldable pub read_byte : List PtyRead → Option (Option ℕ × List PtyRead)
read_byte [] = none
read_byte (PtyRead.byte b ∷ reads) = some (some b, reads)
read_byte (PtyRead.deadline_exceeded ∷ reads) = read_byte reads
read_byte (PtyRead.nothing ∷ reads) = read_byte reads
read_byte (PtyRead.failed ∷ reads) = some (none, reads)

-- a round of the loop of `proxyInput`: whether `done` is closed when it begins, and the keys that its
-- read of the terminal gives. The read's error is ignored, so an idle read is one of no keys. A read that
-- begins before `done` is closed may give keys that are typed behind that.
pub record Round : Type 0 where
  pub done : Bool
  pub keys : Text

-- What was sent to the pty, and the rounds that are left when the loop ends; the first argument says
-- whether the pty takes a text behind what it took before.
unfoldable pub proxy_input : (Text → Text → Bool) → Text → List Round → Text × List Round
proxy_input takes sent [] = (sent, [])
proxy_input takes sent (r ∷ rounds) = elim r.done [
  | true ↦ (sent, r ∷ rounds)
  | false ↦ elim (is_empty r.keys) [
    | true ↦ proxy_input takes sent rounds
    | false ↦ elim (takes sent r.keys) [
      | true ↦ proxy_input takes (sent ++ r.keys) rounds
      | false ↦ (sent, rounds)
    ]
  ]
]

abbrev pub keys_of : List Round → Text
keys_of [] = []
keys_of (r ∷ rounds) = r.keys ++ keys_of rounds

empty_keys : (s : Text) → is_empty s ≡ true → s ≡ []
empty_keys [] h = refl
empty_keys (c ∷ s) h = cc

-- If the pty takes every text, all keys of the reads that begin before `done` is closed are sent, in
-- order and however many reads in between are idle, and no read begins later.
pub proxy_input_lem :
    (takes : Text → Text → Bool) (sent keys : Text) (busy later : List Round)
    → ((s t : Text) → takes s t ≡ true)
    → All (λ (r : Round). r.done ≡ false) busy
    → proxy_input takes sent (busy ++ record { done = true; keys = keys } ∷ later)
      ≡ (sent ++ keys_of busy, record { done = true; keys = keys } ∷ later)
unfolding proxy_input
proxy_input_lem takes sent keys [] later all h =
    ap (λ s. (s, record { done = true; keys = keys } ∷ later)) (sym (append-nil sent))
proxy_input_lem takes sent keys (r ∷ busy) later all h =
    let none_done = h.0 in
    let rest : List Round = record { done = true; keys = keys } ∷ later in
    elim (Bool-cases (is_empty r.keys)) [
      | inl idle ↦
          let nil = empty_keys r.keys idle in
          rw (none_done, proxy_input, idle)
            (proxy_input_lem takes sent keys busy later all h.1
              ∙ ap (λ k. (sent ++ (k ++ keys_of busy), rest)) (sym nil))
      | inr typed ↦
          rw (none_done, proxy_input, typed, all sent r.keys)
            (proxy_input_lem takes (sent ++ r.keys) keys busy later all h.1
              ∙ ap (λ s. (s, rest)) (append_assoc sent r.keys (keys_of busy)))
    ]
