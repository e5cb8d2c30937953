-- ===== src/Setup/Text.antt =====
-- `stringUTF16` of internal/setup/setup.go, with `utf16.Decode` and the conversion of runes to a
-- string of the standard library.
use innoextract_go.Base.{
  ℕ, ◌+◌, ◌-◌, ◌*◌, ◌/◌, ◌%◌, Bool, ◌&&◌, List, [], ◌∷◌, ◌++◌, length, set, ltb, leb, ◌==◌,
  if◌then◌else◌, Bytes,
}
use innoextract_go.Fault.{ok}
use innoextract_go.Setup.Cursor.{Parser, ◌>>=◌, ◌>>◌, return, string_raw}

-- The 16-bit units; the last byte of an odd number of them is the low half of one.
unfoldable pub units : Bytes → List ℕ
units [] = []
units (x ∷ []) = x ∷ []
units (x ∷ y ∷ bs) = (x + 256 * y) ∷ units bs

abbrev is_high : ℕ → Bool
is_high u = leb 55296 u && ltb u 56320

abbrev is_low : ℕ → Bool
is_low u = leb 56320 u && ltb u 57344

-- `utf8.RuneError`, for half of a surrogate pair.
abbrev rune_of : ℕ → ℕ
rune_of u = if is_high u then 65533 else if is_low u then 65533 else u

-- `utf16.Decode`
unfoldable pub decode_utf16 : List ℕ → List ℕ
decode_utf16 [] = []
decode_utf16 (u ∷ []) = rune_of u ∷ []
decode_utf16 (u ∷ v ∷ us) =
    let pair = decode_utf16 us in
    let single = decode_utf16 (v ∷ us) in
    if is_high u && is_low v
    then ((u - 55296) * 1024 + (v - 56320) + 65536) ∷ pair
    else rune_of u ∷ single

-- The UTF-8 bytes of a rune that `utf16.Decode` gives.
unfoldable pub encode_utf8 : ℕ → Bytes
encode_utf8 r =
    if ltb r 128
    then r ∷ []
    else if ltb r 2048
    then (192 + r / 64) ∷ (128 + r % 64) ∷ []
    else if ltb r 65536
    then (224 + r / 4096) ∷ (128 + (r / 64) % 64) ∷ (128 + r % 64) ∷ []
    else (240 + r / 262144) ∷ (128 + (r / 4096) % 64) ∷ (128 + (r / 64) % 64) ∷ (128 + r % 64) ∷ []

unfoldable pub string_of : List ℕ → Bytes
unfolding encode_utf8
string_of [] = []
string_of (r ∷ rs) = encode_utf8 r ++ string_of rs

-- `append(b, 0)` of an odd number of bytes, which are a slice of the block: the zero is written behind
-- them into the block itself, over the byte that is read next. Behind the last byte of the block
-- nothing is ever read.
unfoldable pub append_zero : Bytes → Parser (Unit {0})
append_zero bs c = ok (tt, if length bs % 2 == 0 then c else record c { b = set c.b c.pos 0 })

-- `stringUTF16`
unfoldable pub string_utf16 : ℕ → Parser Bytes
unfolding ◌>>=◌ ◌>>◌ return string_raw append_zero units decode_utf16 string_of
string_utf16 limit =
    string_raw limit >>= λ bs. append_zero bs >> return (string_of (decode_utf16 (units bs)))
