-- ===== src/LineReader/Bytes.antt =====
-- The readers of single bytes: `oneByteReader`, and `readLine` of go/cmd/ssentry/repl.go, which is what
-- the reader without a terminal calls. The calls of the underlying reader are a list: what each of
-- them returns. Behind its end the reader blocks.
use shell_sentry.Base.{
  ℕ, zero, suc, Bool, true, false, List, [], ◌∷◌, ◌++◌, if◌then◌else◌, Option, none, some, ◌==◌,
}
use shell_sentry.Text.{Text}
use shell_sentry.Ports.{Reading, ReadError}

-- what a `Read` into one byte returns
abbrev pub ByteRead : Type 0
ByteRead = Option ℕ × ReadError

abbrev pub failed : ReadError → Bool
failed ReadError.no_error = false
failed ReadError.end_of_input = true
failed ReadError.other_error = true

abbrev pub is_byte : ℕ → Option ℕ → Bool
is_byte c none = false
is_byte c (some b) = b == c

-- Ctrl-C
abbrev pub interrupt : ℕ
interrupt = 0x03

unfoldable pub one_byte_loop : List ByteRead → Option (ByteRead × List ByteRead)
one_byte_loop [] = none
one_byte_loop (r ∷ reads) =
    let next = one_byte_loop reads in
    if is_byte interrupt r.0
    then (if failed r.1 then some ((none, r.1), reads) else next)
    else some (r, reads)

-- `Read`, with the length of the buffer
unfoldable pub one_byte_read : ℕ → List ByteRead → Option (ByteRead × List ByteRead)
unfolding one_byte_loop
one_byte_read zero reads = some ((none, ReadError.no_error), reads)
one_byte_read (suc n) reads = one_byte_loop reads

abbrev pub append_byte : Text → Option ℕ → Text
append_byte line none = line
append_byte line (some b) = line ++ b ∷ []

-- the loop of `readLine`, with the line so far
unfoldable pub line_loop : Text → List ByteRead → Option (Reading × List ByteRead)
line_loop line [] = none
line_loop line (r ∷ reads) =
    let next = line_loop (append_byte line r.0) reads in
    if is_byte b'\n' r.0
    then some (record { line = line; err = ReadError.no_error }, reads)
    else if failed r.1
    then some (record { line = append_byte line r.0; err = r.1 }, reads)
    else next

unfoldable pub read_line : List ByteRead → Option (Reading × List ByteRead)
unfolding line_loop
read_line reads = line_loop [] reads

abbrev pub bytes : List ByteRead → Text
bytes [] = []
bytes (r ∷ reads) = append_byte [] r.0 ++ bytes reads

abbrev pub failures : List ByteRead → List ReadError
failures [] = []
failures (r ∷ reads) = elim (failed r.1) [ true ↦ r.1 ∷ failures reads | false ↦ failures reads ]
