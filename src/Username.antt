-- ===== src/Username.antt =====
-- go/core/username.go: the guard against path traversal, and the paths that it guards
-- (`userFile` of go/cmd/ssentry/main.go).
pub mod Traversal
use shell_sentry.Base.{
  ℕ, Bool, true, false, ◌||◌, ◌==◌, Option, none, some, ◌∷◌, [], ◌++◌, any, if◌then◌else◌,
}
use shell_sentry.Text.{Text, codes, text_eq}

pub data UsernameError : Type 0 where
  invalid : Text → UsernameError
  has_separator : Text → UsernameError

-- the cutset "/\\\x00"
abbrev pub is_forbidden : ℕ → Bool
is_forbidden c = c == b'/' || c == b'\\' || c == 0

-- `none` is the nil error
unfoldable pub valid_username : Text → Option UsernameError
valid_username user =
    if text_eq user [] || text_eq user (codes ".") || text_eq user (codes "..")
    then some (UsernameError.invalid user)
    else if any is_forbidden user
    then some (UsernameError.has_separator user)
    else none

unfoldable pub user_file : Text → Text → Text → Text
user_file root user name = root ++ b'/' ∷ user ++ b'/' ∷ name
