-- ===== src/Complete.antt =====
-- go/core/complete.go: is a line a complete shell command?
pub mod Append
use shell_sentry.Base.{
  ℕ, zero, suc, ◌-◌, Bool, true, false, ◌&&◌, not, List, [], ◌∷◌, ltb, ◌==◌, if◌then◌else◌, ◌≡◌,
  refl,
}
use shell_sentry.Text.{Text, codes}

-- the variables of the loop; `parenDepth` is never negative
pub record Scan : Type 0 where
  pub in_single : Bool
  in_double : Bool
  escaped : Bool
  paren_depth : ℕ

abbrev pub start : Scan
start = record { in_single = false; in_double = false; escaped = false; paren_depth = 0 }

-- the `switch` in the loop
pub scan_rune : Scan → ℕ → Scan
scan_rune s r =
    if s.escaped
    then record s { escaped = false }
    else if r == b'\\' && not s.in_single
    then record s { escaped = true }
    else if s.in_single
    then (if r == b'\'' then record s { in_single = false } else s)
    else if s.in_double
    then (if r == b'"' then record s { in_double = false } else s)
    else if r == b'\''
    then record s { in_single = true }
    else if r == b'"'
    then record s { in_double = true }
    else if r == b'('
    then record s { paren_depth = suc s.paren_depth }
    else if r == b')'
    then (if ltb 0 s.paren_depth then record s { paren_depth = s.paren_depth - 1 } else s)
    else s

pub scan : Scan → Text → Scan
scan s [] = s
scan s (r ∷ line) = scan (scan_rune s r) line

-- the `switch` behind the loop: the verdict and the reason
pub conclude : Scan → Bool × Text
conclude s =
    if s.in_single
    then (false, codes "unterminated single quote")
    else if s.in_double
    then (false, codes "unterminated double quote")
    else if s.escaped
    then (false, codes "trailing backslash (line continuation)")
    else if ltb 0 s.paren_depth
    then (false, codes "unbalanced parenthesis")
    else (true, [])

unfoldable pub line_complete : Text → Bool × Text
unfolding scan scan_rune conclude
line_complete line = conclude (scan start line)
