-- ===== src/Setup/TextTrip.antt =====
-- Texts of UTF-16 in the setup data, as a compiler writes them, against `stringUTF16` of
-- internal/setup/setup.go.
use innoextract_go.Base.{
  length-drop, length-append, drop-append_left, append-nil, Bool-cases, ℕ, ◌+◌, ◌-◌, ◌*◌, ◌/◌, ◌%◌,
  ◌^◌, ◌<◌, ◌≤◌, ◌≡◌, refl, sym, ap, ◌∙◌, subst, arith, false, List, [], ◌∷◌, ◌++◌, length, ltb,
  if◌then◌else◌, ◌⊎◌, inl, inr, Bytes, le_bytes,
}
use innoextract_go.Fault.{ok}
use innoextract_go.PathUtil.Split.{All}
use innoextract_go.Setup.Cursor.Reads.{
  Reads, Reads->>=, Reads->>, Reads-read, Reads-return, Reads-uint,
}
use innoextract_go.Setup.Cursor.{◌>>◌, return, read, read_string, string_raw, uint}
use innoextract_go.Setup.Text.{units, decode_utf16, string_of, append_zero, string_utf16}

-- A Unicode scalar value: a code point that is no half of a surrogate pair.
abbrev pub IsScalar : ℕ → Type 0
IsScalar r = (r < 55296) ⊎ ((57343 < r) × (r < 1114112))

-- Its units of 16 bits, the high surrogate first.
abbrev rune_units : ℕ → List ℕ
rune_units r =
    if ltb r 65536 then r ∷ [] else (55296 + (r - 65536) / 1024) ∷ (56320 + (r - 65536) % 1024) ∷ []

unfoldable pub text_units : List ℕ → List ℕ
text_units [] = []
text_units (r ∷ rs) = rune_units r ++ text_units rs

unfoldable pub unit_bytes : List ℕ → Bytes
unit_bytes [] = []
unit_bytes (u ∷ us) = (u % 256) ∷ (u / 256) ∷ unit_bytes us

-- The field of a text: the number of its bytes, and the bytes.
unfoldable pub encode_text : List ℕ → Bytes
encode_text rs = le_bytes 4 (length (unit_bytes (text_units rs))) ++ unit_bytes (text_units rs)

units-unit_bytes : (us : List ℕ) → units (unit_bytes us) ≡ us
unfolding units unit_bytes
units-unit_bytes [] = refl
units-unit_bytes (u ∷ us) =
    let unit : u % 256 + 256 * (u / 256) ≡ u = omega arith in rw (unit, units-unit_bytes us)

decode_single :
    (r : ℕ) (us : List ℕ) → IsScalar r → r < 65536 → decode_utf16 (r ∷ us) ≡ (r ∷ decode_utf16 us)
unfolding decode_utf16
decode_single r [] scalar small = ground arith
decode_single r (v ∷ us) scalar small = ground arith

decode_pair :
    (h l : ℕ) (us : List ℕ)
    → h < 1024
    → l < 1024
    → decode_utf16 ((55296 + h) ∷ (56320 + l) ∷ us) ≡ ((h * 1024 + l + 65536) ∷ decode_utf16 us)
unfolding decode_utf16
decode_pair h l us high low = ground arith

decode_utf16-text_units : (rs : List ℕ) → All IsScalar rs → decode_utf16 (text_units rs) ≡ rs
unfolding text_units decode_utf16
decode_utf16-text_units [] p = refl
decode_utf16-text_units (r ∷ rs) p = elim (Bool-cases (ltb r 65536)) [
  | inl small ↦
      let bound : r < 65536 = ground arith in
      rw (small, decode_single r (text_units rs) p.0 bound, decode_utf16-text_units rs p.1) refl
  | inr large ↦
      let h = (r - 65536) / 1024 in
      let l = (r - 65536) % 1024 in
      let bound : (65536 ≤ r) × (r < 1114112) = ground arith in
      let high : h < 1024 = omega arith in
      let low : l < 1024 = omega arith in
      let rune : h * 1024 + l + 65536 ≡ r = omega arith in
      rw (large, decode_pair h l (text_units rs) high low, rune, decode_utf16-text_units rs p.1)
        refl
]

even : (us : List ℕ) → length (unit_bytes us) % 2 ≡ 0
unfolding unit_bytes
even [] = refl
even (u ∷ us) = omega (arith, even us)

Reads-append_zero : (bs : Bytes) → length bs % 2 ≡ 0 → Reads (append_zero bs) [] tt
unfolding append_zero
Reads-append_zero bs even = record {
  reads = λ b pos rest e inside. let stays : pos + 0 ≡ pos = omega arith in rw (even, stays) refl;
}

-- The bytes of a text, of which there are no more than the limit.
Reads-read_string :
    (limit : ℕ) (bs : Bytes) → length bs ≤ limit → Reads (read_string limit (length bs)) bs bs
unfolding read_string
Reads-read_string limit bs fits = record {
  reads = λ b pos rest e inside.
      let size : length b - pos ≡ length bs + length rest =
        sym (length-drop pos b) ∙ ap length e ∙ length-append bs rest in
      let enough : ltb (length b - pos) (length bs) ≡ false = ground arith in
      let allowed : ltb limit (length bs) ≡ false = ground arith in
      let h = (Reads-read (length bs) bs refl).reads b pos rest e inside in
      rw (enough, allowed) (rw (read, enough) at h);
}

Reads-string_raw :
    (limit : ℕ) (bs : Bytes)
    → length bs ≤ limit
    → length bs < 2 ^ 32
    → Reads (string_raw limit) (le_bytes 4 (length bs) ++ bs) bs
unfolding string_raw
Reads-string_raw limit bs fits small =
    Reads->>= (uint 4) (read_string limit) (le_bytes 4 (length bs)) bs (length bs) bs
      (Reads-uint 4 (length bs) small) (Reads-read_string limit bs fits)

Reads-string_utf16 :
    (limit : ℕ) (rs : List ℕ)
    → All IsScalar rs
    → length (unit_bytes (text_units rs)) ≤ limit
    → length (unit_bytes (text_units rs)) < 2 ^ 32
    → Reads (string_utf16 limit) (encode_text rs) (string_of rs)
unfolding string_utf16 encode_text
Reads-string_utf16 limit rs scalars fits small =
    let bs = unit_bytes (text_units rs) in
    let text : decode_utf16 (units bs) ≡ rs =
      ap decode_utf16 (units-unit_bytes (text_units rs)) ∙ decode_utf16-text_units rs scalars in
    let padded : Reads (append_zero bs >> return (string_of (decode_utf16 (units bs)))) []
        (string_of rs) =
      rw (text) (
        Reads->> (append_zero bs) (return (string_of rs)) [] [] tt (string_of rs)
          (Reads-append_zero bs (even (text_units rs))) (Reads-return (string_of rs))) in
    subst (λ xs. Reads (string_utf16 limit) xs (string_of rs)) (append-nil (encode_text rs))
      (Reads->>= (string_raw limit) _ (encode_text rs) [] bs (string_of rs)
        (Reads-string_raw limit bs fits small) padded)

-- A text of Unicode scalar values that is written as the number of its bytes and as UTF-16, anywhere
-- in a block and no longer than the limit and than 32 bits can say, is read as the UTF-8 bytes of the
-- same values; the cursor stands behind it and the block is unchanged.
pub string_utf16-encode_text :
    (limit : ℕ) (rs : List ℕ) (front rest : Bytes)
    → All IsScalar rs
    → length (unit_bytes (text_units rs)) ≤ limit
    → length (unit_bytes (text_units rs)) < 2 ^ 32
    → string_utf16 limit (record { b = front ++ (encode_text rs ++ rest); pos = length front })
      ≡ ok (
        string_of rs,
        record {
          b = front ++ (encode_text rs ++ rest);
          pos = length front + length (encode_text rs);
        },
      )
string_utf16-encode_text limit rs front rest scalars fits small =
    (Reads-string_utf16 limit rs scalars fits small).reads (front ++ (encode_text rs ++ rest))
      (length front) rest (drop-append_left (length front) front (encode_text rs ++ rest) refl)
      (omega (arith, length-append front (encode_text rs ++ rest)))
