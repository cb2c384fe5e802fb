-- ===== src/Username/Traversal.antt =====
-- A path below a user's directory names that directory and nothing above it.
use shell_sentry.Base.{
  Bool, true, false, ◌==◌, none, List, [], ◌∷◌, ◌++◌, append_assoc, append-nil, ◌≡◌, ◌≢◌, refl,
  arith, any,
}
use shell_sentry.Text.{Text, codes}
use shell_sentry.Text.Laws.{text_eq_iff}
use shell_sentry.Username.{is_forbidden, valid_username, user_file}

-- The components of a path, as the kernel reads it: the texts between the slashes. The first
-- argument is the component read so far.
components_from : Text → Text → List Text
components_from cur [] = cur ∷ []
components_from cur (c ∷ s) = elim (c == b'/') [
  | true ↦ cur ∷ components_from [] s
  | false ↦ components_from (cur ++ c ∷ []) s
]

pub components : Text → List Text
components s = components_from [] s

components-append :
    (a cur b : Text)
    → components_from cur (a ++ b'/' ∷ b) ≡ components_from cur a ++ components_from [] b
unfolding components_from
components-append [] cur b = refl
components-append (c ∷ a) cur b =
    ground (arith, components-append a [] b, components-append a (cur ++ c ∷ []) b)

abbrev pub has_slash : Text → Bool
has_slash s = any (λ c. c == b'/') s

components_single : (s cur : Text) → has_slash s ≡ false → components_from cur s ≡ (cur ++ s) ∷ []
unfolding components_from
components_single [] cur h = rw append-nil
components_single (c ∷ s) cur h =
    ground (arith, components_single s (cur ++ c ∷ []), append_assoc cur (c ∷ []) s)

forbidden_slash : (s : Text) → any is_forbidden s ≡ false → has_slash s ≡ false
forbidden_slash [] h = refl
forbidden_slash (c ∷ s) h = ground (arith, forbidden_slash s)

-- For an accepted user name and a file name without a slash, the path has the components of the
-- root, then the user, then the file, and the user is none of "", "." and "..".
pub user_file-components :
    (root user name : Text)
    → valid_username user ≡ none
    → has_slash name ≡ false
    → (components (user_file root user name) ≡ components root ++ user ∷ name ∷ [])
      × (user ≢ [])
      × (user ≢ codes ".")
      × (user ≢ codes "..")
unfolding valid_username user_file components
user_file-components root user name h k = (
  rw (
    components-append (root ++ b'/' ∷ user) [] name,
    components-append root [] user,
    components_single user [] (forbidden_slash user (ground arith)),
    components_single name [] k,
    append_assoc,
  ),
  ground (arith, text_eq_iff user []),
  ground (arith, text_eq_iff user (codes ".")),
  ground (arith, text_eq_iff user (codes "..")),
)
