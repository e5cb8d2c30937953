-- ===== src/Stream/Filter/Calls5200.antt =====
-- What `decodeInstruction5200` keeps: the length, the range of the bytes, and all information.
use innoextract_go.Base.{
  ℕ, suc, ◌+◌, ◌-◌, ◌*◌, ◌/◌, ◌%◌, ◌^◌, ◌<◌, ◌≡◌, refl, ap, sym, ◌∙◌, Bool, true, false, not, ◌&&◌,
  [], ◌∷◌, ◌++◌, length, arith, u32, ◌==◌, if◌then◌else◌, Bytes, IsBytes, le_value, Bool-cases, inl,
  inr, le_bytes-le_value, IsBytes-append,
}
use innoextract_go.Stream.Filter.{
  is_plain, relative24, operand5200, loop5200, decode_instruction5200,
}

-- The operand that `operand5200` was given, from the four bytes that it wrote.
undo_operand : Bool → ℕ → ℕ → ℕ → ℕ → ℕ → Bytes
undo_operand flip offset w x y z =
    if not (z == 0) && not (z == 0xff)
    then w ∷ x ∷ y ∷ z ∷ []
    else (let rel = w + 256 * (x + 256 * y) in
        let addr = (rel + offset) % 2 ^ 24 in
        (addr % 256)
        ∷ (addr / 2 ^ 8 % 256)
        ∷ (addr / 2 ^ 16)
        ∷ (if flip && rel / 2 ^ 23 % 2 == 1 then 255 - z else z)
        ∷ [])

undo : Bool → ℕ → Bytes → Bytes
undo flip offset [] = []
undo flip offset (b ∷ w ∷ x ∷ y ∷ z ∷ src) =
    let o = u32 (offset + 1) in
    elim (is_plain o b) [
      | true ↦ b ∷ undo flip o (w ∷ x ∷ y ∷ z ∷ src)
      | false ↦ let o' = u32 (o + 4) in b ∷ (undo_operand flip o' w x y z ++ undo flip o' src)
    ]
undo flip offset (b ∷ src) =
    let o = u32 (offset + 1) in elim (is_plain o b) [ true ↦ b ∷ undo flip o src | false ↦ b ∷ src ]

-- The arithmetic of the low 24 bits.
module _ (offset m : ℕ) (small : m < 2 ^ 24) where
  abbrev rel : ℕ
  rel = u32 (m + 2 ^ 32 - offset % 2 ^ 24)

  rel_digits : rel % 256 + 256 * (rel / 2 ^ 8 % 256 + 256 * (rel / 2 ^ 16 % 256)) ≡ rel % 2 ^ 24
  rel_digits = omega arith

  rel_bit : rel % 2 ^ 24 / 2 ^ 23 % 2 ≡ rel / 2 ^ 23 % 2
  rel_bit = omega arith

  rel-add : (rel % 2 ^ 24 + offset) % 2 ^ 24 ≡ m
  rel-add = omega arith

module _ (w x y z : ℕ) (h : IsBytes (w ∷ x ∷ y ∷ z ∷ [])) where
  low24 : (w + 256 * (x + 256 * (y + 256 * (z + 256 * 0)))) % 2 ^ 24 ≡ w + 256 * (x + 256 * y)
  low24 = omega arith

  high8 : (w + 256 * (x + 256 * (y + 256 * (z + 256 * 0)))) / 2 ^ 24 % 2 ^ 8 ≡ z
  high8 = omega arith

  digits24 :
      let m = w + 256 * (x + 256 * y) in
      (m % 256 ≡ w) × (m / 2 ^ 8 % 256 ≡ x) × (m / 2 ^ 16 ≡ y) × (m < 2 ^ 24)
  digits24 = omega arith

abbrev flipped : Bool → ℕ → ℕ
flipped on z = if on then 255 - z else z

flipped_twice : (on : Bool) (z : ℕ) → z < 256 → flipped on (flipped on z) ≡ z
flipped_twice true z h = omega arith
flipped_twice false z h = refl

flipped_edge :
    (on : Bool) (z : ℕ)
    → z < 256
    → (not (flipped on z == 0) && not (flipped on z == 0xff)) ≡ (not (z == 0) && not (z == 0xff))
flipped_edge on z h = ground arith

module _ (flip : Bool) (offset w x y z : ℕ) (h : IsBytes (w ∷ x ∷ y ∷ z ∷ [])) where
  -- The operand is written as four bytes, from which it can be read back.
  operand5200_undone :
      (w' x' y' z' : ℕ) × (operand5200 flip offset (le_value (w ∷ x ∷ y ∷ z ∷ []))
        ≡ w' ∷ x' ∷ y' ∷ z' ∷ [])
      × IsBytes (w' ∷ x' ∷ y' ∷ z' ∷ [])
      × (undo_operand flip offset w' x' y' z' ≡ w ∷ x ∷ y ∷ z ∷ [])
  unfolding operand5200 undo_operand le_value relative24
  operand5200_undone = elim (Bool-cases (not (z == 0) && not (z == 0xff))) [
    | inl kept ↦ (w, x, y, z, rw (high8 w x y z h, kept) (le_bytes-le_value _ h), h, rw kept)
    | inr edge ↦
        let m = w + 256 * (x + 256 * y) in
        let (d0, d1, d2, small) = digits24 w x y z h in
        let r = rel offset m small in
        let on = flip && r / 2 ^ 23 % 2 == 1 in
        (
          r % 256,
          r / 2 ^ 8 % 256,
          r / 2 ^ 16 % 256,
          flipped on z,
          rw (high8 w x y z h, edge, low24 w x y z h),
          ground arith,
          rw (
            flipped_edge on z h.1.1.1.0,
            edge,
            rel_digits offset m small,
            rel_bit offset m small,
            rel-add offset m small,
            flipped_twice on z h.1.1.1.0,
            d0,
            d1,
            d2,
          ),
        )
  ]

undo_plain :
    (flip : Bool) (offset b : ℕ) (rest : Bytes)
    → is_plain (u32 (offset + 1)) b ≡ true
    → undo flip offset (b ∷ rest) ≡ b ∷ undo flip (u32 (offset + 1)) rest
unfolding undo
undo_plain flip offset b (w ∷ x ∷ y ∷ z ∷ rest) h = rw (h, undo)
undo_plain flip offset b rest h = rw (h, undo)

-- A run of the loop can be undone, and writes as many bytes as it reads.
record Undone (flip : Bool) (offset : ℕ) (src out : Bytes) : Type 0 where
  back : undo flip offset out ≡ src
  size : length out ≡ length src
  bytes : IsBytes out

module _ (flip : Bool) (offset b : ℕ) where
  Undone-plain :
      (src out : Bytes)
      → b < 256
      → is_plain (u32 (offset + 1)) b ≡ true
      → Undone flip (u32 (offset + 1)) src out
      → Undone flip offset (b ∷ src) (b ∷ out)
  Undone-plain src out h plain u = record {
    back = undo_plain flip offset b out plain ∙ ap (◌∷◌ b) u.back;
    size = ap suc u.size;
    bytes = (h, u.bytes);
  }

  Undone-call :
      (w x y z : ℕ) (src out : Bytes)
      → IsBytes (b ∷ w ∷ x ∷ y ∷ z ∷ [])
      → is_plain (u32 (offset + 1)) b ≡ false
      → Undone flip (u32 (u32 (offset + 1) + 4)) src out
      → Undone flip offset (b ∷ w ∷ x ∷ y ∷ z ∷ src) (
          b
          ∷ (operand5200 flip (u32 (u32 (offset + 1) + 4)) (le_value (w ∷ x ∷ y ∷ z ∷ [])) ++ out))
  unfolding undo
  Undone-call w x y z src out h call u =
      let (w', x', y', z', e, bytes, back) =
        operand5200_undone flip (u32 (u32 (offset + 1) + 4)) w x y z h.1 in
      rw e (record {
        back = rw (call, undo) (ap (◌∷◌ b) (rw (back, u.back)));
        size = omega (arith, u.size);
        bytes = (h.0, IsBytes-append (w' ∷ x' ∷ y' ∷ z' ∷ []) out bytes u.bytes);
      })

loop5200-Undone :
    (flip : Bool) (offset : ℕ) (src : Bytes)
    → IsBytes src
    → Undone flip offset src (loop5200 flip offset src)
unfolding loop5200 undo
loop5200-Undone flip offset [] h = record { back = refl; size = refl; bytes = tt }
loop5200-Undone flip offset (b ∷ w ∷ x ∷ y ∷ z ∷ src) h =
    elim (Bool-cases (is_plain (u32 (offset + 1)) b)) [
      | inl plain ↦
          rw (plain, loop5200)
            (Undone-plain flip offset b (w ∷ x ∷ y ∷ z ∷ src) _ h.0 plain
              (loop5200-Undone flip (u32 (offset + 1)) (w ∷ x ∷ y ∷ z ∷ src) h.1))
      | inr call ↦
          rw (call, loop5200)
            (Undone-call flip offset b w x y z src _ (omega arith) call
              (loop5200-Undone flip (u32 (u32 (offset + 1) + 4)) src h.1.1.1.1.1))
    ]
loop5200-Undone flip offset (b ∷ src) h = elim (Bool-cases (is_plain (u32 (offset + 1)) b)) [
  | inl plain ↦
      rw (plain, loop5200)
        (Undone-plain flip offset b src _ h.0 plain
          (loop5200-Undone flip (u32 (offset + 1)) src h.1))
  | inr call ↦ rw (call, loop5200) (record { back = rw (call, undo); size = refl; bytes = h })
]

-- On bytes, `decodeInstruction5200` writes as many bytes as it reads, for both settings of the
-- flag.
pub length-decode_instruction5200 :
    (flip : Bool) (src : Bytes)
    → IsBytes src
    → (length (decode_instruction5200 flip src) ≡ length src)
      × IsBytes (decode_instruction5200 flip src)
unfolding decode_instruction5200
length-decode_instruction5200 flip src h = let u = loop5200-Undone flip 0 src h in (u.size, u.bytes)

-- No two strings of bytes are decoded to one: the filter loses nothing, for both settings of the flag.
pub decode_instruction5200_injective :
    (flip : Bool) (xs ys : Bytes)
    → IsBytes xs
    → IsBytes ys
    → decode_instruction5200 flip xs ≡ decode_instruction5200 flip ys
    → xs ≡ ys
unfolding decode_instruction5200
decode_instruction5200_injective flip xs ys hx hy e =
    sym (loop5200-Undone flip 0 xs hx).back
    ∙ ap (undo flip 0) e
    ∙ (loop5200-Undone flip 0 ys hy).back
