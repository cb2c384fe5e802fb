-- ===== src/LineReader/Lines.antt =====
-- What `readLine` takes and returns.
use shell_sentry.Base.{
  ℕ, Bool, true, false, ◌||◌, List, [], ◌∷◌, ◌++◌, Option, none, some, any, any-append, ◌==◌, ◌≡◌,
  ◌≢◌, refl, sym, ap, ◌∙◌, arith, Bool-cases, inl, inr, ◌⊎◌, append_assoc, append-nil,
}
use shell_sentry.Text.{Text}
use shell_sentry.Ports.{Reading, ReadError}
use shell_sentry.LineReader.Bytes.{
  ByteRead, failed, is_byte, append_byte, line_loop, read_line, bytes, failures,
}

abbrev is_newline : ℕ → Bool
is_newline c = c == b'\n'

abbrev ends_line : ByteRead → Bool
ends_line (b, e) = is_byte b'\n' b || failed e

-- what a call of `readLine` takes from the input and what it returns for it
abbrev pub Takes : Text → List ByteRead → Reading → List ByteRead → Type 0
Takes line reads r rest =
    (taken : List ByteRead) × (reads ≡ taken ++ rest)
    × (any is_newline r.line ≡ any is_newline line)
    × (((line ++ bytes taken ≡ r.line ++ b'\n' ∷ []) × (r.err ≡ ReadError.no_error))
        ⊎ ((line ++ bytes taken ≡ r.line)
            × (r.err ≢ ReadError.no_error)
            × (failures taken ≡ r.err ∷ [])))

append_byte_lem : (line : Text) (b : Option ℕ) → append_byte line b ≡ line ++ append_byte [] b
append_byte_lem line none = sym (append-nil line)
append_byte_lem line (some b) = refl

newline_byte : (b : Option ℕ) → is_byte b'\n' b ≡ true → append_byte [] b ≡ b'\n' ∷ []
newline_byte none h = cc
newline_byte (some b) h = let same : b ≡ b'\n' = ground arith in ap (λ c. c ∷ []) same

newline_none :
    (line : Text) (b : Option ℕ)
    → is_byte b'\n' b ≡ false
    → any is_newline (append_byte line b) ≡ any is_newline line
newline_none line none h = refl
newline_none line (some b) h = any-append is_newline line (b ∷ []) ∙ ground arith

failed_error : (e : ReadError) → failed e ≡ true → e ≢ ReadError.no_error
failed_error ReadError.no_error h = cc
failed_error ReadError.end_of_input h = λ q. cc
failed_error ReadError.other_error h = λ q. cc

line_loop_lem :
    (line : Text) (reads : List ByteRead)
    → any ends_line reads ≡ true
    → (r : Reading) × (rest : List ByteRead) × (line_loop line reads ≡ some (r, rest))
      × Takes line reads r rest
unfolding line_loop
line_loop_lem line [] h = cc
line_loop_lem line ((b, e) ∷ reads) h = elim (Bool-cases (is_byte b'\n' b)) [
  | inl n ↦ (
    record { line = line; err = ReadError.no_error },
    reads,
    rw n refl,
    (
      (b, e) ∷ [],
      refl,
      refl,
      inl (ap (λ s. line ++ s) (append-nil (append_byte [] b) ∙ newline_byte b n), refl),
    ),
  )
  | inr n ↦ elim (Bool-cases (failed e)) [
    | inl f ↦ (
      record { line = append_byte line b; err = e },
      reads,
      rw (n, f) refl,
      (
        (b, e) ∷ [],
        refl,
        newline_none line b n,
        inr (
          ap (λ s. line ++ s) (append-nil (append_byte [] b)) ∙ sym (append_byte_lem line b),
          failed_error e f,
          rw (f, failures) refl,
        ),
      ),
    )
    | inr f ↦
        let (r, rest, run, (taken, whole, clean, ends)) =
          line_loop_lem (append_byte line b) reads (ground (arith, h)) in
        let behind : (append_byte line b) ++ bytes taken
            ≡ line ++ (append_byte [] b ++ bytes taken) =
          ap (λ s. s ++ bytes taken) (append_byte_lem line b)
          ∙ append_assoc line (append_byte [] b) (bytes taken) in
        (
          r,
          rest,
          rw (n, f) run,
          (
            (b, e) ∷ taken,
            ap (λ s. (b, e) ∷ s) whole,
            clean ∙ newline_none line b n,
            elim ends [
              | inl p ↦ inl (sym behind ∙ p.0, p.1)
              | inr p ↦ inr (sym behind ∙ p.0, p.1, rw (f, failures) p.2)
            ],
          ),
        )
  ]
]

-- If a newline or an error comes, `readLine` returns: the bytes up to the first newline, which it
-- takes from the input, without an error; or, if an error comes before any newline, the bytes up to
-- it, and that very error, the only one of the reads that it took. What stands behind is left in the
-- input.
pub read_line_lem :
    (reads : List ByteRead)
    → any ends_line reads ≡ true
    → (r : Reading) × (rest : List ByteRead) × (read_line reads ≡ some (r, rest))
      × Takes [] reads r rest
unfolding read_line
read_line_lem reads h = line_loop_lem [] reads h
