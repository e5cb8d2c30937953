-- ===== src/Stream/Filter.antt =====
-- `decodeInstruction4108` and `decodeInstruction5200` of internal/stream/stream.go: the filters that
-- turn the targets of x86 calls and jumps back into relative addresses.
pub mod Calls4108
pub mod Calls5200
use innoextract_go.Base.{
  ℕ, zero, suc, ◌+◌, ◌-◌, ◌*◌, ◌/◌, ◌%◌, ◌^◌, Bool, true, false, not, ◌&&◌, ◌||◌, List, [], ◌∷◌,
  ◌++◌, u8, u32, max_uint32, ltb, ◌==◌, if◌then◌else◌, Bytes, le_value, le_bytes,
}

-- The opcodes 0xe8 and 0xe9.
unfoldable pub is_call : ℕ → Bool
is_call b = b == 0xe8 || b == 0xe9

-- The loop of `decodeInstruction4108`, one byte a round; `addr` and `offset` are uint32.
unfoldable pub loop4108 : ℕ → ℕ → ℕ → Bytes → Bytes
loop4108 addr left offset [] = []
loop4108 addr zero offset (b ∷ src) =
    let starts = is_call b in
    b
    ∷ loop4108 (if starts then u32 (max_uint32 - offset + 1) else addr) (if starts then 4 else 0)
        (u32 (offset + 1)) src
loop4108 addr (suc left) offset (b ∷ src) =
    let sum = u32 (addr + b) in u8 sum ∷ loop4108 (sum / 2 ^ 8) left (u32 (offset + 1)) src

unfoldable pub decode_instruction4108 : Bytes → Bytes
decode_instruction4108 src = loop4108 0 0 5 src

-- Whether the loop of `decodeInstruction5200` goes on right after the byte `b`: it is no call, or
-- the operand would cross the end of a block of 64 KiB. `offset` counts `b` already.
unfoldable pub is_plain : ℕ → ℕ → Bool
is_plain offset b =
    not (b == 0xe8) && not (b == 0xe9) || ltb (2 ^ 16 - u32 (offset + 2 ^ 32 - 1) % 2 ^ 16) 5

-- `rel`: the low 24 bits of the operand less those of the offset behind it, as a uint32.
unfoldable pub relative24 : ℕ → ℕ → ℕ
relative24 offset addr = u32 (addr % 2 ^ 24 + 2 ^ 32 - offset % 2 ^ 24)

-- The four bytes written for an operand; `offset` is that of the byte behind it. The test of bit
-- 23 is `rel & 0x00800000 != 0`, and `^byte` is taken from 255.
unfoldable pub operand5200 : Bool → ℕ → ℕ → Bytes
operand5200 flip offset addr =
    let high = u8 (addr / 2 ^ 24) in
    if not (high == 0) && not (high == 0xff)
    then le_bytes 4 addr
    else (let rel = relative24 offset addr in
        (rel % 256)
        ∷ (rel / 2 ^ 8 % 256)
        ∷ (rel / 2 ^ 16 % 256)
        ∷ (if flip && rel / 2 ^ 23 % 2 == 1 then 255 - high else high)
        ∷ [])

-- The loop of `decodeInstruction5200`; the test `len(src) - i < 4` is made by the patterns.
unfoldable pub loop5200 : Bool → ℕ → Bytes → Bytes
loop5200 flip offset [] = []
loop5200 flip offset (b ∷ w ∷ x ∷ y ∷ z ∷ src) =
    let o = u32 (offset + 1) in
    elim (is_plain o b) [
      | true ↦ b ∷ loop5200 flip o (w ∷ x ∷ y ∷ z ∷ src)
      | false ↦
          let o' = u32 (o + 4) in
          b ∷ (operand5200 flip o' (le_value (w ∷ x ∷ y ∷ z ∷ [])) ++ loop5200 flip o' src)
    ]
loop5200 flip offset (b ∷ src) =
    let o = u32 (offset + 1) in
    elim (is_plain o b) [ true ↦ b ∷ loop5200 flip o src | false ↦ b ∷ src ]

unfoldable pub decode_instruction5200 : Bool → Bytes → Bytes
decode_instruction5200 flip src = loop5200 flip 0 src
