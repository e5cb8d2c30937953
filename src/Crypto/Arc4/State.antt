-- ===== src/Crypto/Arc4/State.antt =====
-- The state of the cipher stays a permutation of the bytes.
use innoextract_go.Base.{
  ℕ, zero, suc, ◌+◌, ◌%◌, ◌<◌, ◌≡◌, refl, [], ◌∷◌, length, set, u8, arith, ◌==◌, if◌then◌else◌,
  Bytes, IsBytes, length-set, get_or-set, subst, bit_xor-lt,
}
use innoextract_go.Fault.{ok}
use innoextract_go.Crypto.Arc4.{
  Arc4, at, swap, identity_from, schedule, new_arc4, advance, output, discard, xor_bytes,
}

-- 256 slots that hold bytes, no byte twice.
pub record IsPermutation (s : Bytes) : Type 0 where
  pub size : length s ≡ 256
  pub bytes : (i : ℕ) → i < 256 → at s i < 256
  pub distinct : (i j : ℕ) → i < 256 → j < 256 → at s i ≡ at s j → i ≡ j

pub record IsState (r : Arc4) : Type 0 where
  pub permutation : IsPermutation r.s
  pub a_byte : r.a < 256
  pub b_byte : r.b < 256

at-swap :
    (s : Bytes) (i j k : ℕ)
    → i < length s
    → j < length s
    → at (swap s i j) k ≡ (if j == k then at s i else if i == k then at s j else at s k)
unfolding swap
at-swap s i j k p q = ground (
  arith,
  get_or-set (set s i (at s j)) j k (at s i) 0,
  length-set s i (at s j),
  get_or-set s i k (at s j) 0,
)

length-swap : (s : Bytes) (i j : ℕ) → length (swap s i j) ≡ length s
unfolding swap
length-swap s i j = omega (arith, length-set (set s i (at s j)) j (at s i), length-set s i (at s j))

module _ {s : Bytes} (v : IsPermutation s) (i j : ℕ) (p : i < 256) (q : j < 256) where
  swap_bytes : (k : ℕ) → k < 256 → at (swap s i j) k < 256
  swap_bytes k h = ground (arith, v.size, at-swap s i j k, v.bytes i p, v.bytes j q, v.bytes k h)

  swap_distinct : (k l : ℕ) → k < 256 → l < 256 → at (swap s i j) k ≡ at (swap s i j) l → k ≡ l
  swap_distinct k l hk hl e = ground (
    arith,
    v.size,
    at-swap s i j k,
    at-swap s i j l,
    v.distinct k l hk hl,
    v.distinct i l p hl,
    v.distinct j l q hl,
    v.distinct k i hk p,
    v.distinct k j hk q,
    v.distinct i j p q,
    v.distinct j i q p,
  )

  swap-IsPermutation : IsPermutation (swap s i j)
  swap-IsPermutation = record {
    size = omega (arith, length-swap s i j, v.size);
    bytes = swap_bytes;
    distinct = swap_distinct;
  }

length-identity_from : (n i : ℕ) → length (identity_from n i) ≡ n
unfolding identity_from
length-identity_from zero i = refl
length-identity_from (suc n) i = omega (arith, length-identity_from n (i + 1))

at-identity_from : (n i k : ℕ) → k < n → at (identity_from n i) k ≡ i + k
unfolding identity_from
at-identity_from zero i k h = absurd (omega arith)
at-identity_from (suc n) i zero h = omega arith
at-identity_from (suc n) i (suc k) h = omega (arith, at-identity_from n (i + 1) k (omega arith))

identity-IsPermutation : IsPermutation (identity_from 256 0)
identity-IsPermutation = record {
  size = length-identity_from 256 0;
  bytes = λ i h. omega (arith, at-identity_from 256 0 i h);
  distinct = λ i j p q e. omega (arith, at-identity_from 256 0 i p, at-identity_from 256 0 j q);
}

schedule-IsPermutation :
    (n i j : ℕ) (key s : Bytes)
    → i + n ≡ 256
    → IsPermutation s
    → IsPermutation (schedule n i j key s)
unfolding schedule
schedule-IsPermutation zero i j key s e v = v
schedule-IsPermutation (suc n) i j key s e v =
    let j' = u8 (j + (at s i + at key (i % length key))) in
    schedule-IsPermutation n (i + 1) j' key (swap s i j') (omega arith)
      (swap-IsPermutation v i j' (omega arith) (omega arith))

new_arc4-IsState : (key : Bytes) {r : Arc4} → new_arc4 key ≡ ok r → IsState r
unfolding new_arc4
new_arc4-IsState [] h = cc
new_arc4-IsState (k ∷ ks) {r} h =
    let s = schedule 256 0 0 (k ∷ ks) (identity_from 256 0) in
    let e : record { s = s; a = 0; b = 0 } ≡ r = cc in
    subst IsState e (record {
      permutation =
          schedule-IsPermutation 256 0 0 (k ∷ ks) (identity_from 256 0) refl identity-IsPermutation;
      a_byte = omega arith;
      b_byte = omega arith;
    })

pub advance-IsState : (r : Arc4) → IsState r → IsState (advance r)
unfolding advance
advance-IsState r v =
    let a' = u8 (r.a + 1) in
    let b' = u8 (r.b + at r.s a') in
    record {
      permutation = swap-IsPermutation v.permutation a' b' (omega arith) (omega arith);
      a_byte = omega arith;
      b_byte = omega arith;
    }

discard-IsState : (n : ℕ) (r : Arc4) → IsState r → IsState (discard n r)
unfolding discard
discard-IsState zero r v = v
discard-IsState (suc n) r v = discard-IsState n (advance r) (advance-IsState r v)

-- The byte that `next` returns is one of the 256 slots of the state it leaves.
pub output-lt : (r : Arc4) → IsState r → output r < 256
unfolding output
output-lt r v = v.permutation.bytes (u8 (at r.s r.a + at r.s r.b)) (omega arith)

xor_bytes-IsState : (src : Bytes) (r : Arc4) → IsState r → IsState (xor_bytes r src).1
unfolding xor_bytes
xor_bytes-IsState [] r v = v
xor_bytes-IsState (b ∷ src) r v = xor_bytes-IsState src (advance r) (advance-IsState r v)

xor_bytes-IsBytes : (src : Bytes) (r : Arc4) → IsState r → IsBytes src → IsBytes (xor_bytes r src).0
unfolding xor_bytes
xor_bytes-IsBytes [] r v h = tt
xor_bytes-IsBytes (b ∷ src) r v h = (
  bit_xor-lt 8 b (output (advance r)) h.0 (output-lt (advance r) (advance-IsState r v)),
  xor_bytes-IsBytes src (advance r) (advance-IsState r v) h.1,
)

-- A cipher that `NewARC4` made, after any number of discarded bytes, decodes bytes to bytes; before
-- and after that its 256 slots are a permutation of the byte values and its two indices are bytes.
pub new_arc4-discard-xor_bytes :
    (key : Bytes) (n : ℕ) (src : Bytes) {r : Arc4}
    → new_arc4 key ≡ ok r
    → IsBytes src
    → IsState (discard n r)
      × IsState (xor_bytes (discard n r) src).1
      × IsBytes (xor_bytes (discard n r) src).0
new_arc4-discard-xor_bytes key n src {r} made bytes =
    let v = discard-IsState n r (new_arc4-IsState key made) in
    (v, xor_bytes-IsState src (discard n r) v, xor_bytes-IsBytes src (discard n r) v bytes)
