-- ===== src/Text.antt =====
-- Go strings, as lists of code points (or of bytes, in the modules that walk bytes), with the
-- functions of Go's `strings` and `unicode` packages that the program calls.
pub mod Laws
pub mod Index
pub mod Bytes
use Prim.Native.Char.{code}
use Prim.Native.String.{String}
use shell_sentry.Base.{
  ℕ, suc, ◌≡◌, refl, Bool, true, false, ◌&&◌, ◌||◌, not, Option, none, some, List, [], ◌∷◌, ◌++◌,
  ltb, leb, ◌==◌, if◌then◌else◌, is_empty, any, length,
}

abbrev pub Text : Type 0
Text = List ℕ

-- a string literal
abbrev pub codes : String → Text
codes String.[] = []
codes (String.◌∷◌ c s) = code c ∷ codes s

-- `a == b` on strings
unfoldable pub text_eq : Text → Text → Bool
text_eq [] [] = true
text_eq [] (d ∷ t) = false
text_eq (c ∷ s) [] = false
text_eq (c ∷ s) (d ∷ t) = c == d && text_eq s t

-- unicode.IsSpace
unfoldable pub is_space : ℕ → Bool
is_space c =
    (leb 0x09 c && leb c 0x0d)
    || c == 0x20
    || c == 0x85
    || c == 0xa0
    || c == 0x1680
    || (leb 0x2000 c && leb c 0x200a)
    || c == 0x2028
    || c == 0x2029
    || c == 0x202f
    || c == 0x205f
    || c == 0x3000

-- strings.HasPrefix(s, p)
unfoldable pub has_prefix : Text → Text → Bool
has_prefix s [] = true
has_prefix [] (d ∷ p) = false
has_prefix (c ∷ s) (d ∷ p) = c == d && has_prefix s p

-- strings.Contains(s, sub)
unfoldable pub contains_text : Text → Text → Bool
unfolding has_prefix
contains_text [] sub = is_empty sub
contains_text (c ∷ s) sub = has_prefix (c ∷ s) sub || contains_text s sub

-- strings.Index(s, sub): the first position, `none` for -1
unfoldable pub index : Text → Text → Option ℕ
unfolding has_prefix
index [] sub = if is_empty sub then some 0 else none
index (c ∷ s) sub = elim (has_prefix (c ∷ s) sub) [
  | true ↦ some 0
  | false ↦ elim (index s sub) [ none ↦ none | some i ↦ some (suc i) ]
]

unfoldable pub drop_while : (ℕ → Bool) → Text → Text
drop_while p [] = []
drop_while p (c ∷ s) = elim (p c) [ true ↦ drop_while p s | false ↦ c ∷ s ]

unfoldable pub drop_while_end : (ℕ → Bool) → Text → Text
drop_while_end p [] = []
drop_while_end p (c ∷ s) =
    let rest = drop_while_end p s in if is_empty rest && p c then [] else c ∷ rest

-- strings.TrimSpace
unfoldable pub trim_space : Text → Text
unfolding drop_while drop_while_end is_space
trim_space s = drop_while_end is_space (drop_while is_space s)

abbrev is_line_end : ℕ → Bool
is_line_end c = c == b'\r' || c == b'\n'

-- strings.TrimRight(s, "\r\n")
unfoldable pub trim_line_end : Text → Text
unfolding drop_while_end
trim_line_end s = drop_while_end is_line_end s

abbrev pub word : Text → List Text
word [] = []
word (c ∷ s) = (c ∷ s) ∷ []

-- the first argument is the word read so far
fields_from : Text → Text → List Text
unfolding is_space
fields_from cur [] = word cur
fields_from cur (c ∷ s) = elim (is_space c) [
  | true ↦ word cur ++ fields_from [] s
  | false ↦ fields_from (cur ++ c ∷ []) s
]

-- strings.Fields
unfoldable pub fields : Text → List Text
unfolding fields_from
fields s = fields_from [] s

fields_example : fields (codes " rm  -rf /\t") ≡ codes "rm" ∷ codes "-rf" ∷ codes "/" ∷ []
unfolding fields
fields_example = refl

trim_example :
    (trim_space (codes " a b \n") ≡ codes "a b") × (trim_line_end (codes "ls \r\n") ≡ codes "ls ")
unfolding trim_space trim_line_end
trim_example = (refl, refl)

index_example :
    (index (codes "ab\ncd") (codes "\n") ≡ some 2) × (index (codes "ab") (codes "x") ≡ none)
unfolding index
index_example = (refl, refl)
