-- ===== src/Setup/Saved.antt =====
-- What a session must have come through to be saved.
use shell_sentry.Base.{
  All, true, false, ◌&&◌, not, List, [], ◌++◌, map, Option, none, some, is_empty, ◌≡◌, refl, sym,
  ap, ◌∙◌, arith, Bool-cases, inl, inr,
}
use mathlib.Core.Option
use shell_sentry.Text.{Text, codes}
use shell_sentry.Result.{Result, ok, err, and_then-eq-ok, pure-eq-ok}
use shell_sentry.Username.{UsernameError, valid_username}
use shell_sentry.Decide.{Floats}
use shell_sentry.Ports.{CommandRecord, Session, Reading}
use shell_sentry.Repl.State.{Deps, State}
use shell_sentry.Repl.Loop.{run_repl}
use shell_sentry.Repl.Trace.{IsConsistent, clean, done}
use shell_sentry.Repl.Rounds.{run_repl_total}
use shell_sentry.Setup.Config.{load_config, command_timeout_dur}
use shell_sentry.Setup.Artifacts.{client_ip}
use shell_sentry.Setup.Main.{
  Host, Ended, try, lift, check_user, check_socket, draw_nonce, raw_mode, username_message, prepare,
  persist, run_prepared, run_session,
}

module _ {W F : Type 0} (fl : Floats F) (h : Host W F) where
  -- what `runSession` saves was recorded in a run of the loop for an accepted user name, in which
  -- no challenge failed and the shell never did
  pub record IsClean (user : Text) (s : Session F) (t : State W F) : Type 0 where
    pub accepted : valid_username user ≡ none
    pub session : s ≡ t.session
    pub commands : map (λ (c : CommandRecord F). c.raw_cmd) s.commands ≡ done t.trace
    pub nonempty : is_empty s.commands ≡ false
    pub passed : clean t.trace ≡ true

  check_user_ok :
      (o : Option UsernameError) (w : W) {u : Unit {0}} {w' : W}
      → (elim o as (λ x. Result (Unit {0}) × W) [
        | none ↦ (ok tt, w)
        | some e ↦ (err (codes "refusing session: " ++ username_message h.quote e), w)
      ])
        ≡ (ok u, w')
      → o ≡ none
  check_user_ok none w k = refl
  check_user_ok (some e) w k = cc

  -- a prepared session is one of an accepted user
  prepare-accepted :
      (path : Text) (w : W) {user : Text} {d : Deps W F} {w' : W}
      → prepare fl h path w ≡ (ok (user, d), w')
      → valid_username user ≡ none
  unfolding prepare
  prepare-accepted path w k =
      let (cfg, w₁, e₁, k₁) =
        and_then-eq-ok _ (lift fl h [] (load_config h.read_config h.parse_yaml path) w) k in
      let (name, w₂, e₂, k₂) =
        and_then-eq-ok _ (lift fl h (codes "current user: ") h.current_user w₁) k₁ in
      let (u₃, w₃, e₃, k₃) = and_then-eq-ok _ (check_user fl h name w₂) k₂ in
      let (u₄, w₄, e₄, k₄) = and_then-eq-ok _ (check_socket fl h cfg w₃) k₃ in
      let (u₅, w₅, e₅, k₅) =
        and_then-eq-ok _ (try [] (h.ensure_provisioned cfg.otp_socket name w₄)) k₄ in
      let (nonce, w₆, e₆, k₆) = and_then-eq-ok _ (draw_nonce fl h w₅) k₅ in
      let (u₇, w₇, e₇, k₇) =
        and_then-eq-ok _ (try [] (h.start_shell nonce (command_timeout_dur cfg) w₆)) k₆ in
      let (u₈, w₈, e₈, k₈) = and_then-eq-ok _ (raw_mode fl h w₇) k₇ in
      let same = ap (λ (p : Text × Deps W F). p.0) (pure-eq-ok k₈).0 in
      ap valid_username (sym same) ∙ check_user_ok (valid_username name) w₂ e₃

  -- a saved session, with the run that recorded it
  abbrev pub Saved : Text → List Reading → Text × Session F → Type 0
  Saved session_id input (user, s) =
      (d : Deps W F) × (w : W) × (t : State W F) × (run_repl fl d user (client_ip h.ssh_connection)
          session_id w input
        ≡ some t)
      × IsClean user s t

  persist-Saved :
      (session_id : Text) (input : List Reading) (user : Text) (d : Deps W F) (w : W)
      (t : State W F)
      → valid_username user ≡ none
      → run_repl fl d user (client_ip h.ssh_connection) session_id w input ≡ some t
      → IsConsistent t
      → All (Saved session_id input) (persist fl h user t).1.saved
  unfolding persist
  persist-Saved session_id input user d w t a r c =
      elim (Bool-cases (t.session.valid && not (is_empty t.session.commands))) [
        | inl e ↦ rw e (
          (
            d,
            w,
            t,
            r,
            record {
              accepted = a;
              session = refl;
              commands = c.recorded;
              nonempty = ground (arith, e);
              passed = sym c.flagged ∙ ground (arith, e);
            },
          ),
          tt,
        )
        | inr e ↦ rw e tt
      ]

  run_prepared-Saved :
      (session_id : Text) (input : List Reading) (r : Result (Text × Deps W F) × W)
      → ((user : Text) (d : Deps W F) (w : W) → r ≡ (ok (user, d), w) → valid_username user ≡ none)
      → (e : Result (Unit {0}) × Ended W F) × (run_prepared fl h session_id input r ≡ some e)
        × All (Saved session_id input) e.1.saved
  run_prepared-Saved session_id input (err m, w) a = (_, refl, tt)
  run_prepared-Saved session_id input (ok (user, d), w) a =
      let (t, run, c) = run_repl_total fl d user (client_ip h.ssh_connection) session_id w input in
      (
        persist fl h user t,
        ap (Option.map (persist fl h user)) run,
        persist-Saved session_id input user d w t (a user d w refl) run c,
      )

  -- `runSession` returns on every input. What it gives to the store, if anything, is the session of a
  -- run of the command loop for a user whose name is accepted: its commands are the lines that the
  -- shell ran without an error, in order, there is at least one, no challenge failed in it, and the
  -- shell never did.
  pub run_session-Saved :
      (path session_id : Text) (input : List Reading) (w : W)
      → (e : Result (Unit {0}) × Ended W F) × (run_session fl h path session_id input w ≡ some e)
        × All (Saved session_id input) e.1.saved
  unfolding run_session
  run_session-Saved path session_id input w =
      run_prepared-Saved session_id input (prepare fl h path w)
        (λ user d w'. prepare-accepted path w)
