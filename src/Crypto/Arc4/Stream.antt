-- ===== src/Crypto/Arc4/Stream.antt =====
-- The cipher as a key stream: what it decodes does not depend on how the reads cut the data.
use innoextract_go.Base.{
  ℕ, zero, suc, ◌≡◌, refl, ap, some, [], ◌∷◌, ◌++◌, length, drop_all, arith, Bytes, bit_xor,
  bit_xor_cancel, le→ltb, append-nil,
}
use innoextract_go.Crypto.Arc4.{Arc4, advance, output, discard, xor_bytes, xor_key_stream}

-- The first `n` bytes that `next` returns.
pub key_stream : ℕ → Arc4 → Bytes
key_stream zero r = []
key_stream (suc n) r = output (advance r) ∷ key_stream n (advance r)

-- The exclusive or of two byte strings, as long as the first.
pub xor_with : Bytes → Bytes → Bytes
xor_with [] ks = []
xor_with (b ∷ bs) [] = b ∷ bs
xor_with (b ∷ bs) (k ∷ ks) = bit_xor b k ∷ xor_with bs ks

xor_bytes-eq-key_stream :
    (src : Bytes) (r : Arc4)
    → xor_bytes r src ≡ (xor_with src (key_stream (length src) r), discard (length src) r)
unfolding xor_bytes key_stream xor_with discard
xor_bytes-eq-key_stream [] r = refl
xor_bytes-eq-key_stream (b ∷ src) r = rw (xor_bytes-eq-key_stream src (advance r))

-- In place, as `xorReader` calls it, `XORKeyStream` writes the exclusive or of the source with the
-- key stream from the current state, and discards as many bytes of the stream as it has read.
pub xor_key_stream-in_place :
    (r : Arc4) (src : Bytes)
    → xor_key_stream r src src
      ≡ some (xor_with src (key_stream (length src) r), discard (length src) r)
unfolding xor_key_stream
xor_key_stream-in_place r src = rw (le→ltb (length src) (length src) (omega arith)) (
    ap some
      (rw (drop_all (length src) src (omega arith), append-nil) (xor_bytes-eq-key_stream src r)))

-- Two reads in a row decode what one read of both pieces decodes, and leave the same state.
pub xor_bytes-append :
    (xs ys : Bytes) (r : Arc4)
    → xor_bytes r (xs ++ ys) ≡ (
      (xor_bytes r xs).0 ++ (xor_bytes (xor_bytes r xs).1 ys).0,
      (xor_bytes (xor_bytes r xs).1 ys).1,
    )
unfolding xor_bytes
xor_bytes-append [] ys r = refl
xor_bytes-append (x ∷ xs) ys r = rw (xor_bytes-append xs ys (advance r))

-- Decoding and encoding are one operation: from one state, the second run gives the data back
-- and both runs end in the same state.
pub xor_bytes-xor_bytes :
    (src : Bytes) (r : Arc4) → xor_bytes r (xor_bytes r src).0 ≡ (src, (xor_bytes r src).1)
unfolding xor_bytes
xor_bytes-xor_bytes [] r = refl
xor_bytes-xor_bytes (b ∷ src) r =
    rw (xor_bytes-xor_bytes src (advance r), bit_xor_cancel b (output (advance r)))
