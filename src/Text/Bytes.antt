-- ===== src/Text/Bytes.antt =====
-- Go strings as lists of bytes in UTF-8: the functions of `strings` that look for white space. A white
-- space rune of more than one byte begins with 0xc2, 0xe1, 0xe2 or 0xe3, which stand at no other place
-- of a rune, so its bytes are that rune wherever they stand, also beside bytes that are no UTF-8.
use shell_sentry.Base.{
  ℕ, zero, suc, Bool, true, false, ◌&&◌, ◌||◌, List, [], ◌∷◌, ◌++◌, leb, ◌==◌, if◌then◌else◌, ◌≡◌,
  refl,
}
use shell_sentry.Text.{Text, codes, word}

-- the white space runes of two and of three bytes, by the bytes behind the first
abbrev is_space_after_c2 : ℕ → Bool
is_space_after_c2 c = c == 0x85 || c == 0xa0

abbrev is_wide_space : ℕ → ℕ → ℕ → Bool
is_wide_space b c d =
    (b == 0xe1 && c == 0x9a && d == 0x80)
    || (b == 0xe2
        && c == 0x80
        && ((leb 0x80 d && leb d 0x8a) || d == 0xa8 || d == 0xa9 || d == 0xaf))
    || (b == 0xe2 && c == 0x81 && d == 0x9f)
    || (b == 0xe3 && c == 0x80 && d == 0x80)

abbrev pub is_ascii_space : ℕ → Bool
is_ascii_space b = (leb 0x09 b && leb b 0x0d) || b == 0x20

abbrev wide_width : ℕ → Text → ℕ
wide_width b (c ∷ d ∷ s) =
    if b == 0xc2 && is_space_after_c2 c then 2 else if is_wide_space b c d then 3 else 0
wide_width b (c ∷ []) = if b == 0xc2 && is_space_after_c2 c then 2 else 0
wide_width b [] = 0

-- how many bytes the white space rune has with which a text begins, 0 where it begins with none
unfoldable pub space_width : Text → ℕ
space_width [] = 0
space_width (b ∷ s) = if is_ascii_space b then 1 else wide_width b s

-- the arguments are the bytes still to skip and the word read so far
unfoldable pub byte_fields_from : ℕ → Text → Text → List Text
unfolding space_width
byte_fields_from skip cur [] = word cur
byte_fields_from (suc skip) cur (b ∷ s) = byte_fields_from skip cur s
byte_fields_from zero cur (b ∷ s) = elim (space_width (b ∷ s)) [
  | zero ↦ byte_fields_from 0 (cur ++ b ∷ []) s
  | suc skip ↦ word cur ++ byte_fields_from skip [] s
]

-- strings.Fields
unfoldable pub byte_fields : Text → List Text
unfolding byte_fields_from
byte_fields s = byte_fields_from 0 [] s

-- whether a text is white space, behind the bytes to skip
unfoldable pub is_blank : ℕ → Text → Bool
unfolding space_width
is_blank skip [] = true
is_blank (suc skip) (b ∷ s) = is_blank skip s
is_blank zero (b ∷ s) = elim (space_width (b ∷ s)) [ zero ↦ false | suc skip ↦ is_blank skip s ]

unfoldable pub trim_left : ℕ → Text → Text
unfolding space_width
trim_left skip [] = []
trim_left (suc skip) (b ∷ s) = trim_left skip s
trim_left zero (b ∷ s) = elim (space_width (b ∷ s)) [ zero ↦ b ∷ s | suc skip ↦ trim_left skip s ]

unfoldable pub trim_right : Text → Text
unfolding is_blank
trim_right [] = []
trim_right (b ∷ s) = let rest = trim_right s in if is_blank 0 (b ∷ s) then [] else b ∷ rest

-- strings.TrimSpace
unfoldable pub trim_bytes : Text → Text
unfolding trim_left trim_right
trim_bytes s = trim_right (trim_left 0 s)

-- "voilà x" behind a no-break space, and the last byte of that letter alone
fields_test :
    byte_fields (0xc2 ∷ 0xa0 ∷ codes "voil" ++ 0xc3 ∷ 0xa0 ∷ codes " x")
    ≡ (codes "voil" ++ 0xc3 ∷ 0xa0 ∷ []) ∷ codes "x" ∷ []
unfolding byte_fields
fields_test = refl

trim_test :
    (trim_bytes (codes " /srv/voil" ++ 0xc3 ∷ 0xa0 ∷ codes "\n")
      ≡ codes "/srv/voil" ++ 0xc3 ∷ 0xa0 ∷ [])
    × (trim_bytes (codes "a" ++ 0xe3 ∷ 0x80 ∷ 0x80 ∷ []) ≡ codes "a")
unfolding trim_bytes
trim_test = (refl, refl)
