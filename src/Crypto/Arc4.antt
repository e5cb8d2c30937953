-- ===== src/Crypto/Arc4.antt =====
-- The cipher `ARC4` of internal/crypto/crypto.go. A `byte` is a number below 256, and its sums wrap.
pub mod State
pub mod Stream
use innoextract_go.Base.{
  ℕ, zero, suc, ◌+◌, ◌%◌, Option, none, some, List, [], ◌∷◌, ◌++◌, length, get_or, set, drop, u8,
  ltb, if◌then◌else◌, Bytes, bit_xor,
}
use innoextract_go.Fault.{Result, ok, err, invalid_key}

pub record Arc4 : Type 0 where
  pub s : Bytes
  pub a : ℕ
  pub b : ℕ

-- `r.s[i]`; the index is a byte, and the array has 256 slots.
abbrev pub at : Bytes → ℕ → ℕ
at s i = get_or s i 0

-- `r.s[i], r.s[j] = r.s[j], r.s[i]`
unfoldable pub swap : Bytes → ℕ → ℕ → Bytes
swap s i j = set (set s i (at s j)) j (at s i)

-- `for i := range r.s { r.s[i] = byte(i) }`, the slots from `i` on.
unfoldable pub identity_from : ℕ → ℕ → Bytes
identity_from zero i = []
identity_from (suc n) i = i ∷ identity_from n (i + 1)

-- The key schedule: `n` rounds from slot `i` on.
unfoldable pub schedule : ℕ → ℕ → ℕ → Bytes → Bytes → Bytes
unfolding swap
schedule zero i j key s = s
schedule (suc n) i j key s =
    let j' = u8 (j + (at s i + at key (i % length key))) in schedule n (i + 1) j' key (swap s i j')

unfoldable pub new_arc4 : Bytes → Result Arc4
new_arc4 [] = err invalid_key
new_arc4 (k ∷ ks) =
    ok (record { s = schedule 256 0 0 (k ∷ ks) (identity_from 256 0); a = 0; b = 0 })

-- `next`: the state moves first, and the byte is read from the moved state.
unfoldable pub advance : Arc4 → Arc4
unfolding swap
advance r =
    let a' = u8 (r.a + 1) in
    let b' = u8 (r.b + at r.s a') in record { s = swap r.s a' b'; a = a'; b = b' }

unfoldable pub output : Arc4 → ℕ
output r = at r.s (u8 (at r.s r.a + at r.s r.b))

abbrev pub next : Arc4 → ℕ × Arc4
next r = (output (advance r), advance r)

-- `Discard`
unfoldable pub discard : ℕ → Arc4 → Arc4
discard zero r = r
discard (suc n) r = discard n (advance r)

-- The loop of `XORKeyStream`: the bytes written, and the state after them.
unfoldable pub xor_bytes : Arc4 → Bytes → Bytes × Arc4
xor_bytes r [] = ([], r)
xor_bytes r (b ∷ src) =
    let (k, r') = next r in let (rest, r'') = xor_bytes r' src in (bit_xor b k ∷ rest, r'')

-- `XORKeyStream`: `none` is the panic of a destination that is too short.
unfoldable pub xor_key_stream : Arc4 → Bytes → Bytes → Option (Bytes × Arc4)
xor_key_stream r dst src =
    if ltb (length dst) (length src)
    then none
    else (let (out, r') = xor_bytes r src in some (out ++ drop (length src) dst, r'))
