-- ===== src/Repl/Novelty.antt =====
-- `noveltySeverity`: the gate on what a trained user was never seen to use.
use shell_sentry.Base.{Bool, true, false, ◌&&◌, not, List, [], ◌∷◌, ◌++◌, if◌then◌else◌, is_empty}
use shell_sentry.Base.Int.{is_zero}
use shell_sentry.Text.{Text, codes}
use shell_sentry.Decide.{Severity}
use shell_sentry.Feature.{Dicts, geo_id, cmd_index, path_index}
use shell_sentry.Repl.State.{Deps}

-- the `what` of `noveltySeverity`: what is never seen
unfoldable pub never_seen : Dicts → Text → Text → Text → Bool → List Text
never_seen d cmd country path has_path =
    (if not (is_empty cmd) && not (is_empty d.command) && is_zero (cmd_index d cmd)
      then codes "command" ∷ []
      else [])
    ++ (if not (is_empty country) && not (is_empty d.country) && is_zero (geo_id d country)
        then codes "country" ∷ []
        else [])
    ++ (if has_path && not (is_empty d.path) && is_zero (path_index d path true)
        then codes "path" ∷ []
        else [])

-- strings.Join(what, "+")
abbrev join_plus : List Text → Text
join_plus [] = []
join_plus (w ∷ []) = w
join_plus (w ∷ v ∷ ws) = w ++ codes "+" ++ join_plus (v ∷ ws)

abbrev pub is_off : Severity → Bool
is_off Severity.sev_none = true
is_off _ = false

module _ {W F : Type 0} (d : Deps W F) where
  unfoldable pub novelty_severity : Text → Text → Text → Bool → Severity × Text
  novelty_severity cmd country path has_path =
      if is_off d.novelty_severity
      then (Severity.sev_none, [])
      else (let what = never_seen d.dicts cmd country path has_path in
          if is_empty what
          then (Severity.sev_none, [])
          else (d.novelty_severity, codes "never-seen " ++ join_plus what))
