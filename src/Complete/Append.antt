-- ===== src/Complete/Append.antt =====
-- A complete line leaves the scanner where it began.
use shell_sentry.Base.{true, [], ◌∷◌, ◌++◌, ◌≡◌, ◌≢◌, refl, arith, All}
use shell_sentry.Text.{Text}
use shell_sentry.Complete.{Scan, start, scan, scan_rune, conclude, line_complete}

scan-append : (s : Scan) (a b : Text) → scan s (a ++ b) ≡ scan (scan s a) b
unfolding scan
scan-append s [] b = refl
scan-append s (r ∷ a) b = scan-append (scan_rune s r) a b

conclude-true : (s : Scan) → (conclude s).0 ≡ true → s ≡ start
unfolding conclude
conclude-true s h = ground arith

scan_complete : (line : Text) → (line_complete line).0 ≡ true → scan start line ≡ start
scan_complete line h = conclude-true (scan start line) (unfold line_complete in h)

-- What follows a complete line is judged as if it stood alone, verdict and reason.
pub line_complete-append :
    (a b : Text) → (line_complete a).0 ≡ true → line_complete (a ++ b) ≡ line_complete b
unfolding line_complete
line_complete-append a b h = rw (scan-append start a b, scan_complete a h)

abbrev quoted : Scan
quoted = record start { in_single = true }

-- Text without a single quote stays inside the quote that stands before it.
scan-quoted : (q : Text) → All (λ c. c ≢ b'\'') q → scan quoted q ≡ quoted
unfolding scan scan_rune
scan-quoted [] h = refl
scan-quoted (c ∷ q) h = ground (arith, scan-quoted q h.1)

-- Any text without a single quote is complete between single quotes, whatever it holds, and the
-- rest of the line is judged as if it stood alone.
pub line_complete-quoted :
    (q rest : Text)
    → All (λ c. c ≢ b'\'') q
    → line_complete (b'\'' ∷ q ++ b'\'' ∷ rest) ≡ line_complete rest
unfolding line_complete
line_complete-quoted q rest h = rw (scan-append quoted q (b'\'' ∷ rest), scan-quoted q h)
