-- ===== src/Strings.antt =====
-- The functions of packages strings, strconv, encoding/hex and fmt that the code reads its texts with.
use innoextract_go.Base.{
  ℕ, zero, suc, ◌+◌, ◌-◌, ◌*◌, ◌/◌, ◌%◌, Bool, true, false, ◌||◌, ◌&&◌, Option, none, some, List,
  [], ◌∷◌, length, take, drop, ltb, leb, ◌==◌, if◌then◌else◌, Bytes, max_uint64, max_int64,
}
use mathlib.Core.List.{reverse}

-- `strings.ToLower` on the ASCII letters. The texts that are searched for have no k and no i, the only
-- letters that other runes have as their lower case.
unfoldable pub lower : Bytes → Bytes
lower [] = []
lower (c ∷ s) = (if leb b'A' c && leb c b'Z' then c + 32 else c) ∷ lower s

-- `strings.HasPrefix`
unfoldable pub has_prefix : Bytes → Bytes → Bool
has_prefix s [] = true
has_prefix [] (p ∷ prefix) = false
has_prefix (c ∷ s) (p ∷ prefix) = c == p && has_prefix s prefix

-- `strings.Contains`
unfoldable pub contains_text : Bytes → Bytes → Bool
unfolding has_prefix
contains_text [] text = has_prefix [] text
contains_text (c ∷ s) text = has_prefix (c ∷ s) text || contains_text s text

-- The width of a rune of white space at the front of a text, or 0: of the ASCII ones; U+0085 and
-- U+00A0; U+1680, U+2000 to U+200A, U+2028, U+2029, U+202F, U+205F and U+3000.
unfoldable pub space_width : Bytes → ℕ
space_width [] = 0
space_width (a ∷ []) = if a == 32 || (leb 9 a && leb a 13) then 1 else 0
space_width (a ∷ b ∷ []) =
    if a == 32 || (leb 9 a && leb a 13)
    then 1
    else if a == 194 && (b == 133 || b == 160)
    then 2
    else 0
space_width (a ∷ b ∷ c ∷ s) =
    if a == 32 || (leb 9 a && leb a 13)
    then 1
    else if a == 194 && (b == 133 || b == 160)
    then 2
    else if (a == 225 && b == 154 && c == 128)
        || (a == 226 && b == 128 && ((leb 128 c && leb c 138) || c == 168 || c == 169 || c == 175))
        || (a == 226 && b == 129 && c == 159)
        || (a == 227 && b == 128 && c == 128)
    then 3
    else 0

-- `space_width` of the last rune, by the text read backwards.
unfoldable pub last_space_width : Bytes → ℕ
unfolding space_width
last_space_width [] = 0
last_space_width (a ∷ []) = space_width (a ∷ [])
last_space_width (b ∷ a ∷ []) =
    if space_width (b ∷ []) == 1 then 1 else if space_width (a ∷ b ∷ []) == 2 then 2 else 0
last_space_width (c ∷ b ∷ a ∷ s) =
    if space_width (c ∷ []) == 1
    then 1
    else if space_width (b ∷ c ∷ []) == 2
    then 2
    else if space_width (a ∷ b ∷ c ∷ []) == 3
    then 3
    else 0

unfoldable pub trim_by : (Bytes → ℕ) → ℕ → Bytes → Bytes
trim_by width zero s = s
trim_by width (suc fuel) s =
    let rest = trim_by width fuel (drop (width s) s) in if width s == 0 then s else rest

-- `strings.TrimSpace` of a text in UTF-8.
unfoldable pub trim_space : Bytes → Bytes
unfolding trim_by space_width last_space_width
trim_space s =
    let left = trim_by space_width (length s) s in
    reverse (trim_by last_space_width (length left) (reverse left))

-- `strings.Split` at one byte.
abbrev onto_first : ℕ → List Bytes → List Bytes
onto_first c [] = (c ∷ []) ∷ []
onto_first c (part ∷ parts) = (c ∷ part) ∷ parts

unfoldable pub split_at : ℕ → Bytes → List Bytes
split_at sep [] = [] ∷ []
split_at sep (c ∷ s) =
    let rest = split_at sep s in if c == sep then [] ∷ rest else onto_first c rest

unfoldable pub is_digit : ℕ → Bool
is_digit c = leb b'0' c && leb c b'9'

unfoldable pub digits_value : ℕ → Bytes → Option ℕ
unfolding is_digit
digits_value n [] = some n
digits_value n (c ∷ s) =
    let rest = digits_value (n * 10 + (c - b'0')) s in if is_digit c then rest else none

-- `strconv.ParseUint(s, 10, 64)`; an error is `none`.
unfoldable pub parse_uint : Bytes → Option ℕ
unfolding digits_value
parse_uint [] = none
parse_uint (c ∷ s) = elim (digits_value 0 (c ∷ s)) [
  | none ↦ none
  | some n ↦ if ltb max_uint64 n then none else some n
]

unfoldable pub hex_digit : ℕ → Option ℕ
hex_digit c =
    if leb b'0' c && leb c b'9'
    then some (c - b'0')
    else if leb b'a' c && leb c b'f'
    then some (c - b'a' + 10)
    else if leb b'A' c && leb c b'F'
    then some (c - b'A' + 10)
    else none

abbrev pair_byte : Option ℕ → Option ℕ → Option Bytes → Option Bytes
pair_byte (some h) (some l) (some rest) = some ((h * 16 + l) ∷ rest)
pair_byte _ _ _ = none

-- `hex.DecodeString`; an error is `none`.
unfoldable pub decode_hex : Bytes → Option Bytes
unfolding hex_digit
decode_hex [] = some []
decode_hex (h ∷ []) = none
decode_hex (h ∷ l ∷ s) = pair_byte (hex_digit h) (hex_digit l) (decode_hex s)

-- `strings.TrimSuffix`
unfoldable pub trim_suffix : Bytes → Bytes → Bytes
unfolding has_prefix
trim_suffix s suffix =
    if has_prefix (reverse s) (reverse suffix) then take (length s - length suffix) s else s

-- The spaces in front of a number that `fmt.Sscanf` reads; a newline is an error.
unfoldable pub skip_scan_space : ℕ → Bytes → Option Bytes
unfolding space_width
skip_scan_space zero s = some s
skip_scan_space (suc fuel) s =
    let rest = skip_scan_space fuel (drop (space_width s) s) in
    if has_prefix s (10 ∷ []) then none else if space_width s == 0 then some s else rest

-- The value of the digits at the front of a text, behind digits of value `n`.
unfoldable pub leading_value : ℕ → Bytes → ℕ
unfolding is_digit
leading_value n [] = n
leading_value n (c ∷ s) =
    let rest = leading_value (n * 10 + (c - b'0')) s in if is_digit c then rest else n

unfoldable pub leading_number : Bytes → Option ℕ
unfolding leading_value
leading_number [] = none
leading_number (c ∷ s) = if is_digit c then some (leading_value 0 (c ∷ s)) else none

-- A number that a minus leads is not negative if it is 0.
unfoldable pub only_zero : Option ℕ → Option ℕ
only_zero none = none
only_zero (some n) = if n == 0 then some 0 else none

abbrev at_most : ℕ → Option ℕ → Option ℕ
at_most bound none = none
at_most bound (some n) = if ltb bound n then none else some n

unfoldable pub signed_natural : Bytes → Option ℕ
unfolding leading_number only_zero
signed_natural [] = none
signed_natural (c ∷ s) =
    if c == b'+'
    then at_most max_int64 (leading_number s)
    else if c == b'-'
    then only_zero (leading_number s)
    else at_most max_int64 (leading_number (c ∷ s))

-- `fmt.Sscanf(s, "%d", &n)` where it gives a number from 0 to the largest int64: behind spaces and a
-- sign. What follows the digits is not read. Any other number, and an error, is `none`.
unfoldable pub scan_natural : Bytes → Option ℕ
unfolding skip_scan_space signed_natural
scan_natural s = elim (skip_scan_space (length s) s) [
  | none ↦ none
  | some here ↦ signed_natural here
]

unfoldable pub hex_char : ℕ → ℕ
hex_char n = if ltb n 10 then b'0' + n else b'a' + (n - 10)

-- `hex.EncodeToString`
unfoldable pub encode_hex : Bytes → Bytes
unfolding hex_char
encode_hex [] = []
encode_hex (c ∷ s) = hex_char (c / 16) ∷ hex_char (c % 16) ∷ encode_hex s
