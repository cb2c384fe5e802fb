-- ===== src/Repl/Prompt.antt =====
-- `buildPrompt`.
use shell_sentry.Base.{◌++◌, if◌then◌else◌, is_empty, length, drop}
use shell_sentry.Text.{Text, codes, text_eq, has_prefix}

-- the variable `dir`: the shell's directory with the home compressed
unfoldable pub prompt_dir : Text → Text → Text
prompt_dir home cwd =
    if is_empty home
    then cwd
    else if text_eq cwd home
    then codes "~"
    else if has_prefix cwd (home ++ codes "/")
    then codes "~" ++ drop (length home) cwd
    else cwd

unfoldable pub build_prompt : Text → Text → Text → Text → Text
unfolding prompt_dir
build_prompt user host home cwd =
    if is_empty cwd
    then codes "[ssentry] " ++ user ++ codes "@" ++ host ++ codes "$ "
    else codes "[ssentry] "
      ++ user
      ++ codes "@"
      ++ host
      ++ codes ":"
      ++ prompt_dir home cwd
      ++ codes "$ "
