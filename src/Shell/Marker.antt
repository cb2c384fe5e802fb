-- ===== src/Shell/Marker.antt =====
-- The texts of the protocol: the marker, the injected line, the window that may begin a marker, the
-- echo and the exit code.
use Prim.Native.Nat.{min}
use shell_sentry.Base.{
  ℕ, zero, suc, ◌+◌, ◌-◌, ◌*◌, ◌/◌, ◌%◌, true, false, ◌&&◌, [], ◌∷◌, ◌++◌, Option, none, some, leb,
  ◌==◌, if◌then◌else◌, length, take, drop,
}
use shell_sentry.Base.Int.{ℤ, pos, negsuc}
use shell_sentry.Text.{Text, codes, has_prefix, index}

-- the verb %d on a count; the first argument bounds the digits
unfoldable pub decimal_from : ℕ → ℕ → Text → Text
decimal_from zero n out = out
decimal_from (suc fuel) n out =
    let out' = (b'0' + n % 10) ∷ out in
    elim (n / 10 == 0) [ true ↦ out' | false ↦ decimal_from fuel (n / 10) out' ]

unfoldable pub decimal : ℕ → Text
unfolding decimal_from
decimal n = decimal_from (suc n) n []

-- "\x1e%s%d\x1e"
unfoldable pub marker_of : Text → ℕ → Text
marker_of nonce id = 0x1e ∷ nonce ++ decimal id ++ 0x1e ∷ []

-- "%s; printf '\036%s%d\036%%d\\036\\n' $?\n"
unfoldable pub inject_of : Text → Text → ℕ → Text
inject_of line nonce id =
    line
    ++ codes "; printf '"
    ++ codes "\\036"
    ++ nonce
    ++ decimal id
    ++ codes "\\036"
    ++ codes "%d\\036\\n' $?\n"

-- the loop of `markerPrefixHold`, downwards from its first argument
unfoldable pub hold_from : ℕ → Text → Text → ℕ
hold_from zero s marker = 0
hold_from (suc n) s marker = elim (has_prefix marker (drop (length s - suc n) s)) [
  | true ↦ suc n
  | false ↦ hold_from n s marker
]

unfoldable pub marker_prefix_hold : Text → Text → ℕ
unfolding hold_from
marker_prefix_hold s marker = hold_from (min (length marker - 1) (length s)) s marker

-- the position behind the newline of a first line that begins with `line`
unfoldable pub echo_end : Text → Text → Option ℕ
echo_end s line = elim (index s (codes "\n")) [
  | none ↦ none
  | some i ↦ if has_prefix (take i s) line then some (i + 1) else none
]

unfoldable pub strip_echo : Text → Text → Text
unfolding echo_end
strip_echo output line = elim (echo_end output line) [ none ↦ output | some i ↦ drop i output ]

-- the digits behind `n`, in base ten
abbrev pub digits_value : ℕ → Text → Option ℕ
digits_value n [] = some n
digits_value n (c ∷ s) =
    let rest = digits_value (n * 10 + (c - b'0')) s in
    if leb b'0' c && leb c b'9' then rest else none

abbrev pub parse_digits : Text → Option ℕ
parse_digits [] = none
parse_digits (c ∷ s) = digits_value 0 (c ∷ s)

-- the greatest int64 and its successor
abbrev pub max_int : ℕ
max_int = 9223372036854775807

abbrev pub positive : Option ℕ → Option ℤ
positive none = none
positive (some n) = if leb n max_int then some (pos n) else none

abbrev negative : Option ℕ → Option ℤ
negative none = none
negative (some zero) = some (pos 0)
negative (some (suc n)) = if leb n max_int then some (negsuc n) else none

-- strconv.Atoi
unfoldable pub atoi : Text → Option ℤ
atoi [] = none
atoi (c ∷ s) =
    if c == b'-'
    then negative (parse_digits s)
    else if c == b'+'
    then positive (parse_digits s)
    else positive (parse_digits (c ∷ s))
