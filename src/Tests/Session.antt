-- ===== src/Tests/Session.antt =====
-- The command loop on constant surroundings.
use Prim.Native.Nat.{◌≤◌}
use shell_sentry.Base.{ℕ, ◌+◌, true, false, ◌≢◌, ◌↔◌, ◌⊎◌, List, [], ◌∷◌, some, ◌≡◌, refl, length}
use shell_sentry.Base.Int.{pos}
use shell_sentry.Text.{Text, codes, text_eq, trim_space, contains_text, fields}
use shell_sentry.Rules.{
  rule_allow, rule_challenge_hard, rule_none, check, split_segments, token_prefix_match,
  has_shell_expansion, contains,
}
use shell_sentry.Path.{detect_path, is_path_like}
use shell_sentry.Decide.{sev_none, sev_hard, split_command}
use shell_sentry.Feature.{Feature, build_feature}
use shell_sentry.Ports.{Reading, new_session}
use shell_sentry.Repl.State.{State, alert, read}
use shell_sentry.Repl.Novelty.{novelty_severity, never_seen}
use shell_sentry.Repl.Judge.{rule_severity, deny_alert, novelty_gate, judge}
use shell_sentry.Repl.Challenge.{challenge, try_once}
use shell_sentry.Repl.Loop.{again, handle_line, run_repl}
use shell_sentry.Repl.Trace.{IsConsistent, calls, codes_sent}
use shell_sentry.Repl.Otp.{challenge_bounded}
use shell_sentry.Repl.Rounds.{run_repl_total}
use shell_sentry.Repl.FailedChallenge.{failed_challenge_runs}
use shell_sentry.Repl.Severity.{judge-deny, is_below, is_novel, judge_lem}
use shell_sentry.Repl.Trained.{novelty_severity-trained}
use shell_sentry.Tests.Surroundings.{floats, row, deps, trained, typed}

abbrev alice : Text
alice = codes "alice"

abbrev sid : Text
sid = codes "s1"

abbrev here : Text
here = codes "US"

abbrev input : List Reading
input = typed (codes "ls\n") ∷ typed (codes "rm x\n") ∷ typed (codes "123456\n") ∷ []

-- the state in which the user will answer with these lines
abbrev before_answers : List Reading → State ℕ ℕ
before_answers answers = record {
  world = 0;
  input = answers;
  trace = [];
  session = new_session (pos 0);
  last_cmd_time = 0;
  authorized = [];
}

abbrev wrong : State ℕ ℕ
wrong = before_answers (typed (codes "1\n") ∷ typed (codes "2\n") ∷ [])

abbrev pub right : State ℕ ℕ
right = before_answers (typed (codes "1\n") ∷ typed (codes " 123456\n") ∷ [])

abbrev pub feat : Feature ℕ
feat = build_feature floats deps.dicts (pos 0) here (codes "ls") [] (pos 5)

run_repl_total_example :
    (t : State ℕ ℕ) × (run_repl floats deps alice here sid 0 input ≡ some t) × IsConsistent t
run_repl_total_example = run_repl_total floats deps alice here sid 0 input

failed_challenge_runs_example :
    (t : State ℕ ℕ) × (handle_line floats deps alice here sid here (codes "rm x") false wrong
      ≡ again t)
    × (calls t.trace ≡ codes "rm x" ∷ [])
    × (t.session.valid ≡ false)
unfolding judge rule_severity deny_alert novelty_gate check split_segments token_prefix_match fields
    has_shell_expansion contains_text challenge try_once read alert text_eq trim_space contains
    novelty_severity never_seen split_command detect_path is_path_like
failed_challenge_runs_example =
    failed_challenge_runs floats deps alice here sid here (codes "rm x") wrong refl refl refl refl

challenge_bounded_example :
    (codes_sent (challenge deps alice sid sev_hard right).1.trace ≤ 0 + 2)
    × (2 ≤ length (challenge deps alice sid sev_hard right).1.input + 2)
    × (calls (challenge deps alice sid sev_hard right).1.trace ≡ [])
    × ((challenge deps alice sid sev_hard right).1.session ≡ new_session (pos 0))
    × ((challenge deps alice sid sev_hard right).1.authorized ≡ [])
challenge_bounded_example = challenge_bounded deps alice sid right

judge-deny_example :
    judge floats deps alice sid (codes "rm x") here (pos 9) (codes "rm") [] feat wrong ≡ (
      sev_hard,
      alert deps alice sid (codes "rule-deny") (codes "deny rule matched") (codes "rm x") wrong,
    )
unfolding check split_segments token_prefix_match text_eq fields has_shell_expansion trim_space
    contains_text
judge-deny_example =
    judge-deny floats deps alice sid (codes "rm x") here (pos 9) (codes "rm") [] feat wrong refl

judge_lem_example :
    (let outcome = check deps.rules (codes "cat x") here (pos 9) in
      let sev =
        (judge floats deps alice sid (codes "cat x") here (pos 9) (codes "cat") [] feat wrong).0 in
      ((sev ≡ sev_hard) ↔ (
        (outcome ≡ rule_challenge_hard)
        ⊎ ((outcome ≡ rule_none) × (is_below floats deps alice sid 10 feat wrong ≡ true))
        ⊎ ((outcome ≢ rule_allow)
            × (sev_hard ≡ sev_hard)
            × (is_novel floats deps alice sid (codes "cat") here [] ≡ true))))
      × ((sev ≡ sev_none) ↔ (
          (outcome ≡ rule_allow)
          ⊎ ((outcome ≡ rule_none)
              × (is_below floats deps alice sid 10 feat wrong ≡ false)
              × (is_below floats deps alice sid 20 feat wrong ≡ false)
              × ((sev_hard ≡ sev_none)
                  ⊎ (is_novel floats deps alice sid (codes "cat") here [] ≡ false))))))
judge_lem_example =
    judge_lem floats deps alice sid (codes "cat x") here (pos 9) (codes "cat") [] feat wrong

novelty_severity-trained_example :
    novelty_severity trained
      (split_command (codes "ls /tmp")).0
      here
      (detect_path (split_command (codes "ls /tmp")).1).0
      (detect_path (split_command (codes "ls /tmp")).1).1
    ≡ (sev_none, [])
novelty_severity-trained_example =
    novelty_severity-trained trained [] (row (codes "ls /tmp"))
      (row (codes "cat x") ∷ row (codes "ls") ∷ []) refl
