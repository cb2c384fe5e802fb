-- ===== src/Repl/Trace.antt =====
-- What a trace of the command loop tells, and the invariant between the trace and the variables.
use shell_sentry.Base.{
  ℕ, suc, Bool, true, ◌&&◌, not, List, [], ◌∷◌, ◌++◌, map, length, if◌then◌else◌, ◌≡◌,
}
use shell_sentry.Text.{Text, codes, text_eq}
use shell_sentry.Ports.{CommandRecord}
use shell_sentry.Repl.State.{Event, State}

-- every line that was handed to the shell, the latest first
abbrev pub calls : List Event → List Text
calls [] = []
calls (Event.ran line ok ∷ t) = line ∷ calls t
calls (_ ∷ t) = calls t

-- the lines that the shell ran without an error, the earliest first
abbrev pub done : List Event → List Text
done [] = []
done (Event.ran line true ∷ t) = done t ++ line ∷ []
done (_ ∷ t) = done t

-- no challenge failed and the shell never did
abbrev pub clean : List Event → Bool
clean [] = true
clean (Event.alerted a ∷ t) = not (text_eq a.severity (codes "bad-otp")) && clean t
clean (Event.ran line ok ∷ t) = ok && clean t
clean (_ ∷ t) = clean t

-- how many hard challenges were passed
abbrev pub passes : List Event → ℕ
passes [] = 0
passes (Event.alerted a ∷ t) =
    if text_eq a.severity (codes "hard-otp") then suc (passes t) else passes t
passes (_ ∷ t) = passes t

-- how many codes were sent to the verifier
abbrev pub codes_sent : List Event → ℕ
codes_sent [] = 0
codes_sent (Event.validated code ∷ t) = suc (codes_sent t)
codes_sent (_ ∷ t) = codes_sent t

pub record IsConsistent {W F : Type 0} (s : State W F) : Type 0 where
  pub recorded : map (λ (c : CommandRecord F). c.raw_cmd) s.session.commands ≡ done s.trace
  pub flagged : s.session.valid ≡ clean s.trace
  pub counted : length s.authorized ≡ passes s.trace
