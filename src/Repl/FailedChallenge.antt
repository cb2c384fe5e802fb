-- ===== src/Repl/FailedChallenge.antt =====
-- What happens to a line whose challenge failed.
use shell_sentry.Base.{
  Bool, true, false, ◌∷◌, Option, none, some, ◌≡◌, refl, sym, ap, ◌∙◌, if◌then◌else◌,
}
use shell_sentry.Base.Int.{ℤ, pos, ltb_ℤ, rem}
use shell_sentry.Text.{Text}
use shell_sentry.Rules.{contains}
use shell_sentry.Decide.{Floats, Severity, sev_hard, split_command}
use shell_sentry.Feature.{Feature, build_feature}
use shell_sentry.Repl.State.{Deps, State, alert}
use shell_sentry.Repl.Judge.{judge}
use shell_sentry.Repl.Challenge.{challenge, settle, police}
use shell_sentry.Repl.Loop.{Next, again, after_command, run_line, handle_line}
use shell_sentry.Repl.Trace.{calls}
use shell_sentry.Repl.Rounds.{state_of, handle_line-Stepped}

module _ {W F : Type 0} (fl : Floats F) (d : Deps W F) (user ip session_id country : Text) where
  -- A round on a complete line hands it to the shell, exactly once and behind what was handed to it
  -- before, however severe it is judged and whatever a challenge answers.
  pub handle_line-calls :
      (line : Text) (ended : Bool) (s : State W F)
      → calls (state_of (handle_line fl d user ip session_id country line ended s)).trace
        ≡ line ∷ calls s.trace
  handle_line-calls line ended s =
      (handle_line-Stepped fl d user ip session_id country line ended s).1

  settle_failed :
      (line : Text) (p : Bool × State W F)
      → p.0 ≡ false
      → (settle d user session_id line p).session.valid ≡ false
  unfolding settle alert
  settle_failed line (true, t) e = cc
  settle_failed line (false, t) e = refl

  police_failed :
      (line : Text) (s : State W F)
      → contains s.authorized line ≡ false
      → (challenge d user session_id sev_hard s).0 ≡ false
      → (police d user session_id sev_hard line s).session.valid ≡ false
  unfolding police
  police_failed line s h k = rw h (settle_failed line (challenge d user session_id sev_hard s) k)

  after_command_again :
      (line : Text) (now : ℤ) (feat : Feature F) (u : State W F) (answer : Option Text × W)
      → answer.0 ≡ none
      → (after_command fl d user ip session_id country line now feat false u answer
          ≡ again (
              state_of
                (after_command fl d user ip session_id country line now feat false u answer)))
        × ((state_of (
              after_command fl d user ip session_id country line now feat false u
                answer)).session.valid
            ≡ u.session.valid)
  unfolding after_command
  after_command_again line now feat u (some e, w) h = cc
  after_command_again line now feat u (none, w) h = (refl, refl)

  -- the judgement that a round passes on a complete line, and the state behind it
  abbrev pub judged : Text → State W F → Severity × State W F
  judged line s =
      let (now, w) = d.ports.now s.world in
      let (elapsed, w') = d.ports.seconds_since s.last_cmd_time w in
      let secs = if ltb_ℤ elapsed (pos 0) then pos 0 else elapsed in
      let (cmd, args) = split_command line in
      let feat = build_feature fl d.dicts (rem now 86400) country cmd args secs in
      judge fl d user session_id line country secs cmd args feat (record s { world = w' })

  run_line_again :
      (line : Text) (now : ℤ) (feat : Feature F) (u : State W F)
      → (d.ports.run_command line u.world).0 ≡ none
      → (t : State W F) × (run_line fl d user ip session_id country line now feat false u ≡ again t)
        × (t.session.valid ≡ u.session.valid)
  run_line_again line now feat u m =
      let v = after_command_again line now feat u (d.ports.run_command line u.world) m in
      (
        state_of (run_line fl d user ip session_id country line now feat false u),
        unfold run_line in v.0,
        unfold run_line in v.1,
      )

  handle_line_again :
      (line : Text) (s : State W F)
      → (d.ports.run_command line
          (police d user session_id (judged line s).0 line (judged line s).1).world).0
        ≡ none
      → (t : State W F) × (handle_line fl d user ip session_id country line false s ≡ again t)
        × (t.session.valid
            ≡ (police d user session_id (judged line s).0 line (judged line s).1).session.valid)
  unfolding handle_line
  handle_line_again line s m =
      run_line_again line _ _ (police d user session_id (judged line s).0 line (judged line s).1) m

  -- In a round on a complete line, let the line be judged hard and not be authorized before, let its
  -- challenge fail, and let the shell run what it is handed without an error while the input has not
  -- ended. Then the round hands the line to the shell all the same, exactly once, and the loop goes on,
  -- with a session that is invalid.
  pub failed_challenge_runs :
      (line : Text) (s : State W F)
      → (judged line s).0 ≡ sev_hard
      → contains (judged line s).1.authorized line ≡ false
      → (challenge d user session_id sev_hard (judged line s).1).0 ≡ false
      → (d.ports.run_command line
          (police d user session_id sev_hard line (judged line s).1).world).0
        ≡ none
      → (t : State W F) × (handle_line fl d user ip session_id country line false s ≡ again t)
        × (calls t.trace ≡ line ∷ calls s.trace)
        × (t.session.valid ≡ false)
  failed_challenge_runs line s hard fresh failed runs =
      let u : Severity → State W F = λ sev. police d user session_id sev line (judged line s).1 in
      let (t, next, valid) =
        handle_line_again line s
          (ap (λ sev. (d.ports.run_command line (u sev).world).0) hard ∙ runs) in
      (
        t,
        next,
        sym (ap (λ (n : Next (State W F)). calls (state_of n).trace) next)
            ∙ handle_line-calls line false s,
        valid
            ∙ ap (λ sev. (u sev).session.valid) hard
            ∙ police_failed line (judged line s).1 fresh failed,
      )
