-- ===== src/Tests/Runs.antt =====
-- Runs of the parts of the code that have a fixed answer.
use shell_sentry.Base.{true, false, [], ◌∷◌, none, ◌≡◌, refl}
use shell_sentry.Base.Int.{pos}
use shell_sentry.Text.{codes, fields, has_prefix, index, text_eq, trim_space}
use shell_sentry.Text.Bytes.{trim_bytes}
use shell_sentry.Rules.{split_segments}
use shell_sentry.Complete.{line_complete}
use shell_sentry.Path.{detect_path, is_path_like}
use shell_sentry.Decide.{split_command}
use shell_sentry.Feature.{get, build_feature, time_cycle, increment}
use shell_sentry.Training.{build_dicts, build_matrix, add_row}
use shell_sentry.Repl.Prompt.{build_prompt, prompt_dir}
use shell_sentry.Shell.Marker.{strip_echo}
use shell_sentry.Result.{Result, ok, err}
use shell_sentry.Otp.Vault.{provision, confirm, discard, validate, write_secret}
use shell_sentry.Otp.Server.{Request, Response, serve, dispatch}
use shell_sentry.Otp.Client.{
  confirmed, read_line, call, ask_confirmation, ensure_provisioned, client_validate,
}
use shell_sentry.Username.{valid_username, user_file}
use shell_sentry.Tests.Surroundings.{floats, rows}
use shell_sentry.Tests.Disk.{Disk, system, vault}

-- the command word is one of the arguments
split_command_run : split_command (codes "  cat  x") ≡ (codes "cat", codes "cat" ∷ codes "x" ∷ [])
unfolding split_command fields
split_command_run = refl

-- a line of the training set: its path was seen once, its country three times
matrix_run :
    build_matrix floats rows (build_dicts rows)
    ≡ (1 ∷ 0 ∷ 3 ∷ 2 ∷ 1 ∷ 5 ∷ [])
      ∷ (1 ∷ 0 ∷ 3 ∷ 1 ∷ 9999999 ∷ 5 ∷ [])
      ∷ (1 ∷ 0 ∷ 3 ∷ 2 ∷ 9999999 ∷ 5 ∷ [])
      ∷ []
unfolding build_matrix build_dicts add_row increment get split_command fields text_eq detect_path
    is_path_like
matrix_run = refl

feature_run :
    build_feature floats
      (build_dicts rows)
      (pos 86400)
      (codes "US")
      (codes "ls")
      (codes "/tmp" ∷ [])
      (pos 5)
    ≡ record {
      time_cos = 6;
      time_sin = 6;
      geo = pos 3;
      cmd = pos 2;
      path = pos 1;
      secs_since_last = pos 5;
    }
unfolding build_feature time_cycle build_dicts add_row increment get split_command fields text_eq
    detect_path is_path_like
feature_run = refl

prompt_run :
    build_prompt (codes "alice") (codes "box") (codes "/home/alice") (codes "/home/alice/src")
    ≡ codes "[ssentry] alice@box:~/src$ "
unfolding build_prompt prompt_dir text_eq has_prefix
prompt_run = refl

strip_echo_run : strip_echo (codes "ls; printf\nx\n") (codes "ls") ≡ codes "x\n"
unfolding strip_echo index has_prefix
strip_echo_run = refl

-- the daemon at the other end, for a peer that is alice
abbrev exchange : Request → Disk → Result Response × Disk
exchange req d = let (resp, d') = serve system vault (codes "alice") req d in (ok resp, d')

-- enrollment that the user confirms, and a code
enrollment_run : ensure_provisioned exchange (codes "alice") (codes " Yes \n") [] ≡ (
  none,
  (codes "/root/otp/alice/totp.enrolled", codes "1")
      ∷ (codes "/root/otp/alice/totp.secret", codes "SECRET")
      ∷ [],
)
unfolding ensure_provisioned ask_confirmation call confirmed read_line serve dispatch provision
    write_secret confirm valid_username user_file text_eq trim_bytes
enrollment_run = refl

-- the user declines
declined_run : ensure_provisioned exchange (codes "alice") (codes "no\n") [] ≡ (none, [])
unfolding ensure_provisioned ask_confirmation call confirmed read_line serve dispatch provision
    write_secret discard valid_username user_file text_eq trim_bytes
declined_run = refl

-- without a secret a code is an error
no_secret_run :
    client_validate exchange (codes "alice") (codes "123456") []
    ≡ (err (codes "otpd: read secret: no such file"), [])
unfolding client_validate call serve dispatch validate valid_username user_file text_eq
no_secret_run = refl

split_segments_run :
    split_segments (codes "echo hi && mkfs /dev/sda; ls |wc &")
    ≡ codes "echo hi" ∷ codes "mkfs /dev/sda" ∷ codes "ls" ∷ codes "wc" ∷ []
unfolding split_segments trim_space
split_segments_run = refl

line_complete_run :
    (line_complete (codes "echo 'a b' \"c\\\"d\" $(x)") ≡ (true, []))
    × (line_complete (codes "echo 'oops") ≡ (false, codes "unterminated single quote"))
    × (line_complete (codes "ls \\") ≡ (false, codes "trailing backslash (line continuation)"))
unfolding line_complete
line_complete_run = (refl, refl, refl)
