-- ===== src/Decide.antt =====
-- go/core/decide.go, and the floating-point operations that the program takes from Go.
use shell_sentry.Base.{Bool, true, List, [], ◌∷◌, if◌then◌else◌, ◌≡◌, arith, ℕ, ◌≤◌}
use shell_sentry.Base.Int.{ℤ}
use shell_sentry.Text.{Text, fields}

-- float64 with the operations of the language and of Go's `math`
pub record Floats (F : Type 0) : Type 0 where
  pub le : F → F → Bool
  pub of_int : ℤ → F
  pub mul : F → F → F
  pub div : F → F → F
  pub two_pi : F
  pub cos : F → F
  pub sin : F → F
  pub inf : F

pub data Severity : Type 0 where
  sev_none sev_soft sev_hard : Severity

-- the value of the constant, by `iota`
abbrev pub rank : Severity → ℕ
rank Severity.sev_none = 0
rank Severity.sev_soft = 1
rank Severity.sev_hard = 2

unfoldable pub decide : {F : Type 0} → Floats F → F → F → F → Severity
decide fl score soft_thr hard_thr =
    if fl.le score hard_thr
    then Severity.sev_hard
    else if fl.le score soft_thr
    then Severity.sev_soft
    else Severity.sev_none

-- A lower score is never judged less severe, if the order of the floats is transitive on the four
-- values.
pub decide_antitone :
    {F : Type 0} (fl : Floats F) (a b soft hard : F)
    → ((c : F) → fl.le a b ≡ true → fl.le b c ≡ true → fl.le a c ≡ true)
    → fl.le a b ≡ true
    → rank (decide fl b soft hard) ≤ rank (decide fl a soft hard)
unfolding decide
decide_antitone fl a b soft hard trans h = ground (arith, trans soft, trans hard)

abbrev command_of : List Text → Text × List Text
command_of [] = ([], [])
command_of (f ∷ fs) = (f, f ∷ fs)

-- the command word and the words of the line, the command word first
unfoldable pub split_command : Text → Text × List Text
split_command line = command_of (fields line)
