-- ===== src/LineReader/Words.antt =====
-- The words typed so far, and the completion of a first word from them and the trained vocabulary.
use shell_sentry.Base.{
  ℕ, Bool, true, false, ◌&&◌, ◌||◌, List, [], ◌∷◌, ◌++◌, map, if◌then◌else◌, Option, none, some,
  any, keep, take, drop, length, ltb, leb, ◌==◌,
}
use shell_sentry.Base.Order.{order_by}
use shell_sentry.Text.{Text, text_eq, has_prefix}
use shell_sentry.Text.Bytes.{byte_fields}
use shell_sentry.Feature.{Counts, Dicts}
use shell_sentry.Ports.{Reading, ReadError}
use shell_sentry.LineReader.Prefix.{longest_common_prefix}

-- `ReadLine`: what becomes of `seen` with what the terminal read
unfoldable pub note_line : List Text → Reading → List Text
note_line seen r = elim r.err [
  | ReadError.no_error ↦ seen ++ take 1 (byte_fields r.line)
  | _ ↦ seen
]

-- `set[k] = struct{}{}`, the set as a list without repetitions
unfoldable pub add_key : Text → List Text → List Text
add_key k set = if any (text_eq k) set then set else set ++ k ∷ []

unfoldable pub add_keys : List Text → List Text → List Text
unfolding add_key
add_keys [] set = set
add_keys (k ∷ ks) set = add_keys ks (add_key k set)

-- the order of strings that `sort.Strings` uses
unfoldable pub text_le : Text → Text → Bool
text_le [] t = true
text_le (c ∷ s) [] = false
text_le (c ∷ s) (d ∷ t) = ltb c d || (c == d && text_le s t)

abbrev pub keys : Counts → List Text
keys m = map (λ (e : Text × _). e.0) m

unfoldable pub candidates : Dicts → List Text → List Text
unfolding add_keys text_le
candidates d seen = order_by text_le (add_keys seen (add_keys (keys d.command) []))

-- strings.IndexByte(line[:pos], ' ') != -1
abbrev pub has_space : Text → Bool
has_space s = any (λ c. c == b' ') s

-- what `completeFirstWord` does with the matches; `none` for `false`
unfoldable pub with_matches : Text → Text → List Text → Option (Text × ℕ)
unfolding longest_common_prefix
with_matches prefix rest [] = none
with_matches prefix rest (m ∷ []) =
    let completed = longest_common_prefix (m ∷ []) ++ b' ' ∷ [] in
    some (completed ++ rest, length completed)
with_matches prefix rest (m ∷ n ∷ ms) =
    let lcp = longest_common_prefix (m ∷ n ∷ ms) in
    if leb (length lcp) (length prefix) then none else some (lcp ++ rest, length lcp)

unfoldable pub complete_first_word : Text → ℕ → List Text → Option (Text × ℕ)
unfolding with_matches has_prefix
complete_first_word line pos candidates =
    let prefix = take pos line in
    if pos == 0 || has_space prefix
    then none
    else with_matches prefix (drop pos line) (keep (λ c. has_prefix c prefix) candidates)
