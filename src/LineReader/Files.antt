-- ===== src/LineReader/Files.antt =====
-- The completion of a path, and the callback that the terminal calls for a key. Reading a directory
-- and joining paths are parameters.
use shell_sentry.Base.{
  ℕ, suc, Bool, ◌&&◌, ◌||◌, not, List, [], ◌∷◌, ◌++◌, if◌then◌else◌, Option, none, some, take, drop,
  length, is_empty, leb, ltb, ◌==◌,
}
use shell_sentry.Text.{Text, codes, has_prefix}
use shell_sentry.Feature.{Dicts}
use shell_sentry.LineReader.Prefix.{longest_common_prefix}
use shell_sentry.LineReader.Words.{candidates, has_space, complete_first_word}

-- os.DirEntry
pub record Entry : Type 0 where
  pub name : Text
  pub is_dir : Bool

pub record FileSystem : Type 0 where
  -- os.ReadDir, `none` for an error
  pub read_dir : Text → Option (List Entry)
  -- filepath.Join
  pub join : Text → Text → Text

-- strings.LastIndexByte(s, c) + 1
abbrev pub last_end : ℕ → Text → ℕ
last_end c [] = 0
last_end c (d ∷ s) = let n = last_end c s in if ltb 0 n then suc n else if d == c then 1 else 0

-- strings.HasSuffix(s, "/")
abbrev pub ends_in_slash : Text → Bool
ends_in_slash s = not (is_empty s) && last_end b'/' s == length s

unfoldable pub expand_dir : FileSystem → Text → Text → Text → Text
unfolding has_prefix
expand_dir fs display_dir cwd home =
    if has_prefix display_dir (codes "~/")
    then (if is_empty home then [] else fs.join home (drop 2 display_dir))
    else if has_prefix display_dir (codes "/")
    then display_dir
    else if is_empty cwd
    then []
    else fs.join cwd display_dir

-- whether the loop over the entries skips this one
abbrev pub is_skipped : Text → Text → Bool
is_skipped base name =
    (not (has_prefix base (codes ".")) && has_prefix name (codes ".")) || not (has_prefix name base)

unfoldable pub path_matches : Text → List Entry → List Text
unfolding has_prefix
path_matches base [] = []
path_matches base (e ∷ entries) =
    let rest = path_matches base entries in
    if is_skipped base e.name
    then rest
    else (if e.is_dir then e.name ++ b'/' ∷ [] else e.name) ∷ rest

-- `completed`, from the matches
unfoldable pub complete_base : Text → List Text → Option Text
unfolding longest_common_prefix
complete_base base [] = none
complete_base base (m ∷ []) = some (if ends_in_slash m then m else m ++ b' ' ∷ [])
complete_base base (m ∷ n ∷ ms) =
    let lcp = longest_common_prefix (m ∷ n ∷ ms) in
    if leb (length lcp) (length base) then none else some lcp

-- the matches for a base in a directory; `none` where there are none to be had
unfoldable pub matches_in : FileSystem → Text → Text → List Text
unfolding path_matches
matches_in fs base dir =
    if is_empty dir
    then []
    else elim (fs.read_dir dir) [ none ↦ [] | some entries ↦ path_matches base entries ]

-- the directory in which a token is completed
unfoldable pub directory_of : FileSystem → Text → Text → Text → Text
unfolding expand_dir
directory_of fs token cwd home =
    let cut = last_end b'/' token in
    if ltb 0 cut then expand_dir fs (take cut token) cwd home else cwd

unfoldable pub complete_path : FileSystem → Text → ℕ → Text → Text → Option (Text × ℕ)
unfolding directory_of matches_in complete_base
complete_path fs line pos cwd home =
    let token_start = last_end b' ' (take pos line) in
    let token = drop token_start (take pos line) in
    let cut = last_end b'/' token in
    let base = drop cut token in
    elim (complete_base base (matches_in fs base (directory_of fs token cwd home))) [
      | none ↦ none
      | some completed ↦
          let new_line = take token_start line ++ take cut token ++ completed in
          some (new_line ++ drop pos line, length new_line)
    ]

-- where the shell is, for the callback
pub data Cwd : Type 0 where
  no_cwd_fn cwd_error : Cwd
  at_dir : Text → Cwd

abbrev tab : ℕ
tab = b'\t'

-- the AutoCompleteCallback of `newTermLineReader`
unfoldable pub auto_complete :
    FileSystem → Dicts → List Text → Cwd → Text → Text → ℕ → ℕ → Option (Text × ℕ)
unfolding complete_first_word candidates complete_path
auto_complete fs d seen cwd home line pos key =
    if not (key == tab)
    then none
    else if ltb 0 pos && not (has_space (take pos line))
    then complete_first_word line pos (candidates d seen)
    else elim cwd [
      | no_cwd_fn ↦ none
      | cwd_error ↦ none
      | at_dir dir ↦ complete_path fs line pos dir home
    ]
