-- ===== src/LineReader/Delivery.antt =====
-- What the line editor's reader delivers of the bytes below it.
use shell_sentry.Base.{
  ℕ, zero, suc, ◌≤◌, Bool, not, List, [], ◌∷◌, ◌++◌, if◌then◌else◌, Option, none, some, keep,
  length, ◌==◌, ◌≡◌, refl, sym, ap, ◌∙◌, arith, Bool-cases, inl, inr,
}
use shell_sentry.Ports.{ReadError}
use shell_sentry.LineReader.Bytes.{
  ByteRead, failed, interrupt, one_byte_loop, one_byte_read, append_byte, bytes, failures,
}

-- the results of the calls of `Read` with a buffer of one byte, until it blocks
abbrev pub delivered : ℕ → List ByteRead → List ByteRead
delivered zero reads = []
delivered (suc k) reads = elim (one_byte_read 1 reads) [
  | none ↦ []
  | some r ↦ r.0 ∷ delivered k r.1
]

abbrev pub is_kept : ℕ → Bool
is_kept b = not (b == interrupt)

-- what one call leaves to deliver
abbrev Leaves : List ByteRead → Option (ByteRead × List ByteRead) → Type 0
Leaves reads none = (keep is_kept (bytes reads) ≡ []) × (failures reads ≡ [])
Leaves reads (some (r, rest)) =
    (keep is_kept (bytes reads) ≡ append_byte [] r.0 ++ keep is_kept (bytes rest))
    × (failures reads ≡ failures (r ∷ []) ++ failures rest)
    × (suc (length rest) ≤ length reads)

-- an interrupt without an error in front makes no difference
Leaves-swallowed :
    (reads : List ByteRead) (o : Option (ByteRead × List ByteRead)) (b : ℕ)
    → b ≡ interrupt
    → Leaves reads o
    → Leaves ((some b, ReadError.no_error) ∷ reads) o
Leaves-swallowed reads none b e (h, k) = (rw e h, k)
Leaves-swallowed reads (some (r, rest)) b e (h, k, l) = (rw e h, k, omega (arith, l))

one_failure :
    (b : Option ℕ) (e : ReadError) (reads : List ByteRead)
    → failures ((b, e) ∷ reads) ≡ failures ((b, e) ∷ []) ++ failures reads
one_failure b ReadError.no_error reads = refl
one_failure b ReadError.end_of_input reads = refl
one_failure b ReadError.other_error reads = refl

one_byte_loop_lem : (reads : List ByteRead) → Leaves reads (one_byte_loop reads)
unfolding one_byte_loop
one_byte_loop_lem [] = (refl, refl)
one_byte_loop_lem ((none, e) ∷ reads) = (refl, one_failure none e reads, omega arith)
one_byte_loop_lem ((some b, e) ∷ reads) = elim (Bool-cases (b == interrupt)) [
  | inl s ↦
      let same : b ≡ interrupt = ground arith in rw s (swallowed e same (one_byte_loop_lem reads))
  | inr s ↦ rw s (ground arith, one_failure (some b) e reads, omega arith)
]
  where
    swallowed :
        (e : ReadError)
        → b ≡ interrupt
        → Leaves reads (one_byte_loop reads)
        → Leaves
            ((some b, e) ∷ reads)
            (if failed e then some ((none, e), reads) else one_byte_loop reads)
    swallowed ReadError.no_error q rest = Leaves-swallowed reads (one_byte_loop reads) b q rest
    swallowed ReadError.end_of_input q rest = (rw q refl, refl, omega arith)
    swallowed ReadError.other_error q rest = (rw q refl, refl, omega arith)

-- The conclusion of the theorem below.
abbrev pub Delivers : List ByteRead → List ByteRead → Type 0
Delivers out reads = (bytes out ≡ keep is_kept (bytes reads)) × (failures out ≡ failures reads)

delivered_step :
    (k : ℕ) (reads : List ByteRead) (o : Option (ByteRead × List ByteRead))
    → length reads ≤ suc k
    → ((rest : List ByteRead) → length rest ≤ k → Delivers (delivered k rest) rest)
    → Leaves reads o
    → Delivers (elim o [ none ↦ [] | some r ↦ r.0 ∷ delivered k r.1 ]) reads
delivered_step k reads none h rec (b, f) = (sym b, sym f)
delivered_step k reads (some (r, rest)) h rec (b, f, l) =
    let (i, j) = rec rest (omega (arith, h, l)) in
    (
      ap (λ s. append_byte [] r.0 ++ s) i ∙ sym b,
      one_failure r.0 r.1 (delivered k rest) ∙ ap (λ s. failures (r ∷ []) ++ s) j ∙ sym f,
    )

-- Reading from the line editor's reader until it blocks delivers the bytes of the underlying reader in
-- their order, less every Ctrl-C, and the errors in their order; as many calls as the underlying
-- reader has results are enough.
pub one_byte_reader_lem :
    (k : ℕ) (reads : List ByteRead) → length reads ≤ k → Delivers (delivered k reads) reads
unfolding one_byte_read
one_byte_reader_lem zero [] h = (refl, refl)
one_byte_reader_lem zero (r ∷ reads) h = absurd (omega (arith, h))
one_byte_reader_lem (suc k) reads h =
    delivered_step k reads (one_byte_loop reads) h (one_byte_reader_lem k) (one_byte_loop_lem reads)
