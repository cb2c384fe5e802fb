-- ===== src/Setup/Retries.antt =====
-- No configuration locks a user out who has the right code.
use shell_sentry.Base.{ℕ, zero, suc, true, List, ◌∷◌, some, ◌≡◌, refl, ap, ◌∙◌, arith}
use shell_sentry.Base.Int.{ℤ, pos, negsuc, ltb_ℤ, pos_part}
use shell_sentry.Text.{Text, trim_space}
use shell_sentry.Result.{Result, ok}
use shell_sentry.Decide.{Severity}
use shell_sentry.Ports.{Reading, ReadError}
use shell_sentry.Repl.State.{Deps, State, read}
use shell_sentry.Repl.Challenge.{try_once, challenge_loop, challenge}
use shell_sentry.Setup.Config.{Config, load_config, load_config_positive}

some_tries : (z : ℤ) → ltb_ℤ (pos 0) z ≡ true → (n : ℕ) × (pos_part z ≡ suc n)
some_tries (pos zero) h = cc
some_tries (pos (suc n)) h = (n, refl)
some_tries (negsuc n) h = absurd (ground arith)

-- Under a configuration that was loaded, a challenge is passed by the first answer, if the answer is
-- read without an error and the verifier accepts it.
pub challenge_first :
    {W F : Type 0} (read_file : Text → Result Text) (parse_yaml : Text → Result Config)
    (path : Text) (c : Config) (d : Deps W F) (user session_id : Text) (sev : Severity)
    (s : State W F) (line : Text) (rest : List Reading)
    → load_config read_file parse_yaml path ≡ ok c
    → d.otp_retries ≡ c.otp_retries
    → (d.ports.validate user (trim_space line) s.world).0 ≡ some true
    → (challenge d user session_id sev
        (record s { input = record { line = line; err = ReadError.no_error } ∷ rest })).0
      ≡ true
unfolding challenge challenge_loop try_once read
challenge_first read_file parse_yaml path c d user session_id sev s line rest l r v =
    let (n, tries) =
      some_tries c.otp_retries (load_config_positive read_file parse_yaml path c l) in
    let allowed : pos_part d.otp_retries ≡ suc n = ap pos_part r ∙ tries in
    rw allowed (ground (arith, v))
