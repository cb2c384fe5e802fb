-- ===== src/Path.antt =====
-- go/core/path.go: the first path-like argument.
pub mod First
use shell_sentry.Base.{Bool, true, false, ◌||◌, List, [], ◌∷◌, if◌then◌else◌, is_empty}
use shell_sentry.Base.Int.{ℤ, pos}
use shell_sentry.Text.{Text, codes, has_prefix, contains_text}

abbrev pub no_path_index : ℤ
no_path_index = pos 9999999

unfoldable pub is_path_like : Text → Bool
unfolding has_prefix contains_text
is_path_like a =
    if is_empty a
    then false
    else if has_prefix a (codes "/")
        || has_prefix a (codes "~")
        || has_prefix a (codes "./")
        || has_prefix a (codes "../")
    then true
    else contains_text a (codes "/")

unfoldable pub detect_path : List Text → Text × Bool
detect_path [] = ([], false)
detect_path (a ∷ args) = if is_path_like a then (a, true) else detect_path args
