-- ===== src/Repl/Rounds.antt =====
-- A round, and the whole loop.
use shell_sentry.Base.{
  ℕ, zero, suc, ◌≤◌, ◌<◌, Bool, true, false, ◌&&◌, ◌||◌, List, [], ◌∷◌, Option, none, some, ◌≡◌,
  refl, arith, length, is_empty, if◌then◌else◌,
}
use mathlib.Core.List.{map-append}
use shell_sentry.Base.Int.{ℤ}
use shell_sentry.Text.{Text, codes, text_eq, trim_space, trim_line_end}
use shell_sentry.Complete.{line_complete}
use shell_sentry.Decide.{Floats, Severity}
use shell_sentry.Feature.{Feature}
use shell_sentry.Ports.{CommandRecord, Reading, ReadError}
use shell_sentry.Repl.State.{Deps, State, alert, read, is_end}
use shell_sentry.Repl.Challenge.{police}
use shell_sentry.Repl.Loop.{
  Next, carry_on, stop, again, stop_if, after_command, run_line, handle_line, take_line, round,
  loop, begin, finish, run_repl,
}
use shell_sentry.Repl.Trace.{calls, IsConsistent}
use shell_sentry.Repl.Otp.{Asked, Asked-trans}
use shell_sentry.Repl.Kept.{Policed, judge-Asked, police-Policed, Asked-IsConsistent}

pub record Stepped {W F : Type 0} (s t : State W F) : Type 0 where
  pub consistent : IsConsistent s → IsConsistent t
  pub input_used : length t.input ≤ length s.input

-- the state at the end of a round
abbrev pub state_of : {S : Type 0} → Next S → S
state_of (stop t) = t
state_of (again t) = t

Stepped-trans : {W F : Type 0} (s t u : State W F) → Stepped s t → Stepped t u → Stepped s u
Stepped-trans s t u g h = record {
  consistent = λ c. h.consistent (g.consistent c);
  input_used = omega (arith, g.input_used, h.input_used);
}

Policed-Stepped : {W F : Type 0} (s t : State W F) → Policed s t → Stepped s t
Policed-Stepped s t p = record { consistent = p.consistent; input_used = p.input_used }

state_of-stop_if : {S : Type 0} (b : Bool) (s : S) → state_of (stop_if b s) ≡ s
state_of-stop_if true s = refl
state_of-stop_if false s = refl

abbrev Advances : {W F : Type 0} → State W F → Next (State W F) → Type 0
Advances s (stop t) = Stepped s t
Advances s (again t) = Stepped s t × (length t.input < length s.input)

carry_on-Stepped :
    {W F : Type 0} (s : State W F) (rest : State W F → Option (State W F))
    → ((t : State W F)
        → length t.input < length s.input
        → (u : State W F) × (rest t ≡ some u) × Stepped t u)
    → (x : Next (State W F)) → Advances s x
    → (u : State W F) × (carry_on rest x ≡ some u) × Stepped s u
carry_on-Stepped s rest ih (stop t) h = (t, refl, h)
carry_on-Stepped s rest ih (again t) h =
    let (u, e, k) = ih t h.1 in (u, e, Stepped-trans s t u h.0 k)

Stepped-refl : {W F : Type 0} (s : State W F) → Stepped s s
Stepped-refl s = record { consistent = λ c. c; input_used = omega arith }

Stepped-if :
    {W F : Type 0} (s : State W F) (b : Bool) (x y : Next (State W F))
    → Stepped s (state_of x)
    → Stepped s (state_of y)
    → Stepped s (state_of (if b then x else y))
Stepped-if s true x y h k = h
Stepped-if s false x y h k = k

advance :
    {W F : Type 0} (s t : State W F) (x : Next (State W F))
    → Stepped s t
    → length t.input < length s.input
    → Stepped t (state_of x)
    → Advances s x
advance s t (stop u) g l h = Stepped-trans s t u g h
advance s t (again u) g l h = (Stepped-trans s t u g h, omega (arith, h.input_used))

world-Asked : {W F : Type 0} (s : State W F) (w : W) → Asked 0 s false (record s { world = w })
world-Asked s w = ground arith

module _ {W F : Type 0} (fl : Floats F) (d : Deps W F) (user ip session_id country : Text) where
  after_command-Stepped :
      (line : Text) (now : ℤ) (feat : Feature F) (ended : Bool) (s : State W F)
      (answer : Option Text × W)
      → Stepped s
          (state_of (after_command fl d user ip session_id country line now feat ended s answer))
  unfolding after_command alert text_eq
  after_command-Stepped line now feat ended s (some e, w) = ground arith
  after_command-Stepped line now feat ended s (none, w) = rw state_of-stop_if (
      ground (
        arith,
        map-append (λ (c : CommandRecord F). c.raw_cmd) s.session.commands
            (record { ts = now; feat = feat; raw_cmd = line; ip = ip } ∷ []),
      ))

  after_command-calls :
      (line : Text) (now : ℤ) (feat : Feature F) (ended : Bool) (s : State W F)
      (answer : Option Text × W)
      → calls
          (state_of
            (after_command fl d user ip session_id country line now feat ended s answer)).trace
        ≡ line ∷ calls s.trace
  unfolding after_command alert
  after_command-calls line now feat ended s (some e, w) = refl
  after_command-calls line now feat ended s (none, w) = rw state_of-stop_if

  pub run_line-calls :
      (line : Text) (now : ℤ) (feat : Feature F) (ended : Bool) (s : State W F)
      → calls (state_of (run_line fl d user ip session_id country line now feat ended s)).trace
        ≡ line ∷ calls s.trace
  unfolding run_line
  run_line-calls line now feat ended s =
      after_command-calls line now feat ended s (d.ports.run_command line s.world)

  -- the policy and the shell, behind a judgement
  pipeline :
      (line : Text) (now : ℤ) (feat : Feature F) (ended : Bool) (sev : Severity) (s t : State W F)
      → Asked 0 s false t
      → Stepped s (
          state_of (
            run_line fl d user ip session_id country line now feat ended
              (police d user session_id sev line t)))
        × (calls
              (state_of (
                run_line fl d user ip session_id country line now feat ended
                  (police d user session_id sev line t))).trace
            ≡ line ∷ calls s.trace)
  unfolding run_line
  pipeline line now feat ended sev s t a =
      let u = police d user session_id sev line t in
      let p = police-Policed d user session_id sev line t in
      let answer = d.ports.run_command line u.world in
      (
        Stepped-trans s u _
            (Stepped-trans s t u
              (record { consistent = Asked-IsConsistent 0 s t a; input_used = a.input_used })
              (Policed-Stepped t u p))
            (after_command-Stepped line now feat ended u answer),
        cc (after_command-calls line now feat ended u answer, p.calls_kept, a.calls_kept),
      )

  pub handle_line-Stepped :
      (line : Text) (ended : Bool) (s : State W F)
      → Stepped s (state_of (handle_line fl d user ip session_id country line ended s))
        × (calls (state_of (handle_line fl d user ip session_id country line ended s)).trace
            ≡ line ∷ calls s.trace)
  unfolding handle_line
  handle_line-Stepped line ended s = pipeline line _ _ ended _ s _ (
      Asked-trans 0 0 0 s _ _ false (omega arith) (world-Asked s _)
        (judge-Asked fl d user session_id line country _ _ _ _ _))

  take_line-Stepped :
      (line : Text) (err : ReadError) (s : State W F)
      → Stepped s (state_of (take_line fl d user ip session_id country line err s))
  unfolding take_line
  take_line-Stepped line err s =
      Stepped-if s (text_eq line (codes "exit") || is_end err && is_empty line) _ _ (Stepped-refl s)
        (Stepped-if s (is_empty (trim_space line)) _ _ (rw state_of-stop_if (Stepped-refl s)) (
          Stepped-if s (line_complete line).0 _ _ (handle_line-Stepped line (is_end err) s).0
            (rw state_of-stop_if (ground arith))))

  -- where the loop goes on, a line was taken from the input
  round_on-Advances :
      (input : List Reading) (s : State W F)
      → Advances
          (record s { input = input })
          (round fl d user ip session_id country (record s { input = input }))
  unfolding round read
  round_on-Advances [] s = unfold take_line text_eq trim_line_end in ground arith
  round_on-Advances (r ∷ rs) s =
      advance (record s { input = r ∷ rs }) _ _ (ground arith) (omega arith)
        (take_line-Stepped (trim_line_end r.line) r.err _)

  -- From fuel for one more round than there are lines, the loop ends.
  loop-Stepped :
      (fuel : ℕ) (s : State W F)
      → length s.input < fuel
      → (t : State W F) × (loop fl d user ip session_id country fuel s ≡ some t) × Stepped s t
  unfolding loop
  loop-Stepped zero s l = absurd (omega arith)
  loop-Stepped (suc fuel) s l =
      carry_on-Stepped s (loop fl d user ip session_id country fuel)
        (λ t h. loop-Stepped fuel t (omega arith)) (round fl d user ip session_id country s)
        (round_on-Advances s.input s)

module _ {W F : Type 0} (fl : Floats F) (d : Deps W F) (user ip session_id : Text) where
  -- `RunREPL` returns on every list of readings. In the session that it returns the commands are
  -- the lines that the shell ran without an error, in order; the session is valid if and only if
  -- there was no `bad-otp` alert and the shell returned no error; and there are as many authorized
  -- lines as `hard-otp` alerts.
  pub run_repl_total :
      (w : W) (input : List Reading)
      → (t : State W F) × (run_repl fl d user ip session_id w input ≡ some t) × IsConsistent t
  unfolding run_repl
  run_repl_total w input =
      let (country, s) = begin fl d user ip session_id w input in
      let (t, e, h) =
        loop-Stepped fl d user ip session_id country (suc (length input)) s (omega arith) in
      let c = h.consistent (ground arith) in
      (
        finish fl d user ip session_id t,
        rw e,
        record { recorded = c.recorded; flagged = c.flagged; counted = c.counted },
      )
