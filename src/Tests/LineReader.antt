-- ===== src/Tests/LineReader.antt =====
-- The theorems of the line reader at concrete lines.
use shell_sentry.Base.{
  true, false, ◌||◌, List, [], ◌∷◌, ◌++◌, none, some, All, any, keep, ◌≡◌, refl, arith,
  if◌then◌else◌,
}
use shell_sentry.Base.Int.{pos}
use shell_sentry.Base.Order.{Ascends, Distinct}
use shell_sentry.Text.{codes, text_eq, has_prefix}
use shell_sentry.Text.Bytes.{byte_fields}
use shell_sentry.Feature.{Dicts}
use shell_sentry.Ports.{Reading, ReadError}
use shell_sentry.LineReader.Prefix.{longest_common_prefix}
use shell_sentry.LineReader.Words.{
  note_line, add_key, add_keys, text_le, keys, candidates, with_matches, complete_first_word,
}
use shell_sentry.LineReader.Files.{
  Entry, FileSystem, Cwd, expand_dir, directory_of, path_matches, matches_in, complete_base,
  complete_path, auto_complete,
}
use shell_sentry.LineReader.Cursor.{Inserts, auto_complete-Inserts}
use shell_sentry.LineReader.Vocabulary.{noted, begins_with, candidates_lem}
use shell_sentry.LineReader.Kept.{Begins, complete_first_word_kept}
use shell_sentry.LineReader.Bytes.{ByteRead, read_line}
use shell_sentry.LineReader.Delivery.{one_byte_reader_lem, delivered, Delivers}
use shell_sentry.LineReader.Lines.{read_line_lem, Takes}

abbrev root_dir : List Entry
root_dir =
    record { name = codes "etc"; is_dir = true }
    ∷ record { name = codes ".env"; is_dir = false }
    ∷ record { name = codes "bin"; is_dir = true }
    ∷ []

abbrev disk : FileSystem
disk = record {
  read_dir = λ dir. if text_eq dir (codes "/") then some root_dir else none;
  join = λ a b. a ++ codes "/" ++ b;
}

abbrev trained : Dicts
trained = record {
  country = [];
  command = (codes "git", pos 3) ∷ (codes "gitk", pos 1) ∷ [];
  path = [];
}

abbrev readings : List Reading
readings =
    record { line = codes " make all"; err = ReadError.no_error }
    ∷ record { line = codes "123456"; err = ReadError.no_error }
    ∷ record { line = codes "ls"; err = ReadError.end_of_input }
    ∷ []

auto_complete-Inserts_example : Inserts (codes "cat /e x") 6 (codes "cat /etc/ x", 9)
unfolding auto_complete complete_path directory_of expand_dir matches_in path_matches complete_base
    has_prefix text_eq longest_common_prefix
auto_complete-Inserts_example =
    auto_complete-Inserts disk trained [] (Cwd.at_dir (codes "/home")) (codes "/home/alice")
      (codes "cat /e x") 6 b'\t' (codes "cat /etc/ x", 9) (omega arith) refl

-- the one-time code is a candidate, too
candidates_lem_example :
    (any (text_eq (codes "123456")) (candidates trained (noted [] readings)) ≡ (
      any (begins_with (codes "123456")) readings
      || any (text_eq (codes "123456")) (keys trained.command)))
    × Ascends text_le (candidates trained (noted [] readings))
    × Distinct (λ s. s) (candidates trained (noted [] readings))
candidates_lem_example = candidates_lem trained readings (codes "123456")

candidates_run :
    candidates trained (noted [] readings)
    ≡ codes "123456" ∷ codes "git" ∷ codes "gitk" ∷ codes "make" ∷ []
unfolding candidates note_line add_keys add_key text_le text_eq byte_fields
candidates_run = refl

complete_first_word_kept_example :
    All
      (Begins (codes "git"))
      (keep (λ c. has_prefix c (codes "gi")) (codes "git" ∷ codes "ls" ∷ codes "gitk" ∷ []))
unfolding complete_first_word with_matches has_prefix longest_common_prefix
complete_first_word_kept_example =
    complete_first_word_kept (codes "gi x") 2 (codes "git" ∷ codes "ls" ∷ codes "gitk" ∷ [])
      (codes "git x", 3) refl

abbrev reads : List ByteRead
reads =
    (some b'l', ReadError.no_error)
    ∷ (some 3, ReadError.no_error)
    ∷ (some b's', ReadError.no_error)
    ∷ (some b'\n', ReadError.no_error)
    ∷ (none, ReadError.end_of_input)
    ∷ []

one_byte_reader_lem_example : Delivers (delivered 5 reads) reads
one_byte_reader_lem_example = one_byte_reader_lem 5 reads (omega arith)

read_line_lem_example :
    (r : Reading) × (rest : List ByteRead) × (read_line reads ≡ some (r, rest))
    × Takes [] reads r rest
read_line_lem_example = read_line_lem reads refl
