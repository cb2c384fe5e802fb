-- ===== src/Tests/Core.antt =====
-- The rules, the encoders and the other pure parts of go/core.
use shell_sentry.Base.{true, [], ◌∷◌, ◌++◌, ◌≡◌, ◌≢◌, ◌↔◌, ◌⊎◌, refl, keep}
use shell_sentry.Base.Int.{pos, ltb_ℤ}
use shell_sentry.Text.{codes, fields, text_eq, trim_space, contains_text}
use shell_sentry.Rules.{
  rule_allow, rule_challenge_soft, rule_challenge_hard, check, split_segments, token_prefix_match,
  has_shell_expansion,
}
use shell_sentry.Rules.Segments.{is_visible, flat, keep-visible-flat}
use shell_sentry.Rules.Precedence.{IsDenied, IsAllowed, check_lem, check-chain}
use shell_sentry.Complete.{line_complete}
use shell_sentry.Complete.Append.{line_complete-append}
use shell_sentry.Username.{valid_username, user_file}
use shell_sentry.Username.Traversal.{components, user_file-components}
use shell_sentry.Feature.{get}
use shell_sentry.Training.{build_dicts, build_matrix}
use shell_sentry.Training.Matrix.{Observed, row_of, feature_of, vector, build_matrix-build_feature}
use shell_sentry.Training.Counts.{count, has_command, has_country, has_path, build_dicts_counts}
use shell_sentry.Tests.Surroundings.{floats, rules, rows}

check_lem_example :
    ((check rules (codes "ls && rm -rf /") (codes "IT") (pos 9) ≡ rule_challenge_hard)
      ↔ IsDenied rules (codes "ls && rm -rf /") (codes "IT"))
    × ((check rules (codes "ls && rm -rf /") (codes "IT") (pos 9) ≡ rule_allow) ↔ (
        (¬ IsDenied rules (codes "ls && rm -rf /") (codes "IT"))
        × IsAllowed rules (codes "ls && rm -rf /") (codes "IT")))
    × ((check rules (codes "ls && rm -rf /") (codes "IT") (pos 9) ≡ rule_challenge_soft) ↔ (
        (¬ IsDenied rules (codes "ls && rm -rf /") (codes "IT"))
        × (¬ IsAllowed rules (codes "ls && rm -rf /") (codes "IT"))
        × (ltb_ℤ (pos 0) rules.min_seconds_between ≡ true)
        × (ltb_ℤ (pos 9) rules.min_seconds_between ≡ true)))
check_lem_example = check_lem rules (codes "ls && rm -rf /") (codes "IT") (pos 9)

check-chain_example :
    (check rules (codes "ls " ++ b';' ∷ codes " rm x") (codes "US") (pos 9) ≡ rule_challenge_hard)
    ↔ ((check rules (codes "ls ") (codes "US") (pos 9) ≡ rule_challenge_hard)
        ⊎ (check rules (codes " rm x") (codes "US") (pos 9) ≡ rule_challenge_hard))
check-chain_example = check-chain rules (codes "ls ") (codes " rm x") (codes "US") b';' (pos 9) refl

-- The verdicts of go/core/rules_test.go on lines like these.
verdicts :
    (check rules (codes "ls && rm -rf /") (codes "IT") (pos 100) ≡ rule_challenge_hard)
    × (check rules (codes "ls -l") (codes "US") (pos 100) ≡ rule_allow)
    × (check rules (codes "cat x") (codes "US") (pos 1) ≡ rule_challenge_soft)
unfolding check split_segments token_prefix_match text_eq fields has_shell_expansion trim_space
    contains_text
verdicts = (refl, refl, refl)

keep-visible-flat_example :
    keep is_visible (flat (split_segments (codes "a | b;"))) ≡ keep is_visible (codes "a | b;")
keep-visible-flat_example = keep-visible-flat (codes "a | b;")

line_complete-append_example :
    line_complete (codes "echo 'x' " ++ codes "\"y") ≡ line_complete (codes "\"y")
unfolding line_complete
line_complete-append_example = line_complete-append (codes "echo 'x' ") (codes "\"y") refl

user_file-components_example :
    (components (user_file (codes "/srv") (codes "alice") (codes "dicts.json"))
      ≡ components (codes "/srv") ++ codes "alice" ∷ codes "dicts.json" ∷ [])
    × (codes "alice" ≢ [])
    × (codes "alice" ≢ codes ".")
    × (codes "alice" ≢ codes "..")
unfolding valid_username text_eq
user_file-components_example =
    user_file-components (codes "/srv") (codes "alice") (codes "dicts.json") refl refl

build_dicts_counts_example :
    (get (build_dicts rows).command (codes "ls") ≡ pos (count (has_command (codes "ls")) rows))
    × (get (build_dicts rows).country (codes "ls") ≡ pos (count (has_country (codes "ls")) rows))
    × (get (build_dicts rows).path (codes "ls") ≡ pos (count (has_path (codes "ls")) rows))
build_dicts_counts_example = build_dicts_counts rows (codes "ls")

build_matrix-build_feature_example :
    let seen : Observed = record {
      line = codes "ls /tmp";
      country = codes "US";
      seconds_into_day = pos 60;
      secs_since_last = pos 5;
    } in
    build_matrix floats (row_of floats seen ∷ []) (build_dicts rows)
    ≡ vector floats (feature_of floats (build_dicts rows) seen) ∷ []
build_matrix-build_feature_example = build_matrix-build_feature floats (build_dicts rows) (
    record {
      line = codes "ls /tmp";
      country = codes "US";
      seconds_into_day = pos 60;
      secs_since_last = pos 5;
    }
    ∷ [])
