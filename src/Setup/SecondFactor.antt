-- ===== src/Setup/SecondFactor.antt =====
-- The command loop with the verifier that `runSession` gives it: the client of the OTP daemon, over a
-- connection that the user opens to it. The disk of the daemon is a part of the world.
use shell_sentry.Base.{Bool, Option, none, some}
use shell_sentry.Text.{Text}
use shell_sentry.Result.{Result, ok, err}
use shell_sentry.Repl.State.{State}
use shell_sentry.Otp.Vault.{System, Vault}
use shell_sentry.Otp.Client.{client_validate}
use shell_sentry.Otp.Session.{daemon}

-- the answer of the verifier, with the rest of the world as it was
abbrev pub verdict : {D V : Type 0} → V → Result Bool × D → Option Bool × (D × V)
verdict v (ok b, d) = (some b, (d, v))
verdict v (err m, d) = (none, (d, v))

abbrev pub verifier :
    {D V : Type 0} → System D → Vault → Text → Text → D × V → Option Bool × (D × V)
verifier y v user code (d, rest) = verdict rest (client_validate (daemon y v user) user code d)
