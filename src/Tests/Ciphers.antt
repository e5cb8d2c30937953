-- ===== src/Tests/Ciphers.antt =====
-- Checksums and ciphers.
use innoextract_go.Base.{
  ℕ, zero, suc, ◌≡◌, ◌↔◌, refl, arith, true, some, [], ◌∷◌, ◌++◌, replicate, length, drop, Bytes,
  IsBytes, le_value, le_bytes,
}
use innoextract_go.Fault.{ok}
use innoextract_go.Format.{checksum_crc32}
use innoextract_go.Crypto.Arc4.{
  Arc4, identity_from, schedule, new_arc4, discard, xor_bytes, xor_key_stream,
}
use innoextract_go.Crypto.Arc4.State.{IsState, new_arc4-discard-xor_bytes}
use innoextract_go.Crypto.Arc4.Stream.{
  key_stream, xor_with, xor_key_stream-in_place, xor_bytes-append, xor_bytes-xor_bytes,
}
use innoextract_go.Crypto.Checksums.{Accepts, equal_checksum, equal_checksum_iff}
use innoextract_go.Crypto.Nonce.{
  Cipher, derive_xchacha_key, chunk_nonce, new_xchacha, chunk_nonce_injective,
  new_xchacha-derive_xchacha_key,
}
use innoextract_go.Crypto.Primitives.{Documented}
use innoextract_go.Tests.Sample.{primitives}

equal_checksum_iff_example :
    (equal_checksum checksum_crc32 (1 ∷ 2 ∷ 3 ∷ 4 ∷ []) (4 ∷ 3 ∷ 2 ∷ 1 ∷ []) ≡ true)
    ↔ Accepts checksum_crc32 (1 ∷ 2 ∷ 3 ∷ 4 ∷ []) (4 ∷ 3 ∷ 2 ∷ 1 ∷ [])
equal_checksum_iff_example =
    equal_checksum_iff checksum_crc32 (1 ∷ 2 ∷ 3 ∷ 4 ∷ []) (4 ∷ 3 ∷ 2 ∷ 1 ∷ [])

abbrev cipher : Arc4
cipher = record { s = schedule 256 0 0 (1 ∷ 2 ∷ []) (identity_from 256 0); a = 0; b = 0 }

makes : new_arc4 (1 ∷ 2 ∷ []) ≡ ok cipher
unfolding new_arc4
makes = refl

new_arc4-discard-xor_bytes_example :
    IsState (discard 2 cipher)
    × IsState (xor_bytes (discard 2 cipher) (5 ∷ [])).1
    × IsBytes (xor_bytes (discard 2 cipher) (5 ∷ [])).0
new_arc4-discard-xor_bytes_example =
    new_arc4-discard-xor_bytes (1 ∷ 2 ∷ []) 2 (5 ∷ []) makes (omega arith, tt)

xor_key_stream-in_place_example :
    xor_key_stream cipher (5 ∷ 6 ∷ []) (5 ∷ 6 ∷ [])
    ≡ some (xor_with (5 ∷ 6 ∷ []) (key_stream 2 cipher), discard 2 cipher)
xor_key_stream-in_place_example = xor_key_stream-in_place cipher (5 ∷ 6 ∷ [])

xor_bytes-append_example : xor_bytes cipher (5 ∷ 6 ∷ []) ≡ (
  (xor_bytes cipher (5 ∷ [])).0 ++ (xor_bytes (xor_bytes cipher (5 ∷ [])).1 (6 ∷ [])).0,
  (xor_bytes (xor_bytes cipher (5 ∷ [])).1 (6 ∷ [])).1,
)
xor_bytes-append_example = xor_bytes-append (5 ∷ []) (6 ∷ []) cipher

xor_bytes-xor_bytes_example :
    xor_bytes cipher (xor_bytes cipher (5 ∷ 6 ∷ [])).0
    ≡ (5 ∷ 6 ∷ [], (xor_bytes cipher (5 ∷ 6 ∷ [])).1)
xor_bytes-xor_bytes_example = xor_bytes-xor_bytes (5 ∷ 6 ∷ []) cipher

-- A salt of 44 bytes with one iteration; the key is that of the sample functions.
abbrev salt : Bytes
salt = replicate 16 3 ++ (1 ∷ 0 ∷ 0 ∷ 0 ∷ replicate 24 4)

abbrev key : Bytes
key = (9 ∷ replicate 16 3) ++ (replicate 15 0 ++ replicate 24 4)

derives : derive_xchacha_key primitives (9 ∷ []) salt ≡ ok key
unfolding derive_xchacha_key le_value
derives = refl

primitives-Documented : Documented primitives
primitives-Documented = record { cipher_accepts = λ key nonce m n. refl }

new_xchacha-derive_xchacha_key_example :
    (c : Cipher) × (new_xchacha primitives key 5 6 ≡ ok c)
    × (length c.nonce ≡ 24)
    × (drop 12 c.nonce ≡ drop 32 salt)
new_xchacha-derive_xchacha_key_example =
    new_xchacha-derive_xchacha_key primitives (9 ∷ []) salt 5 6 primitives-Documented derives

zeros-IsBytes : (n : ℕ) → IsBytes (replicate n 0)
zeros-IsBytes zero = tt
zeros-IsBytes (suc n) = (omega arith, zeros-IsBytes n)

abbrev nonce : Bytes
nonce = replicate 24 0

makes_nonce : chunk_nonce (replicate 56 0) 0 0 ≡ ok nonce
unfolding chunk_nonce le_value le_bytes
makes_nonce = refl

chunk_nonce_injective_example : ◌≡◌ {A = ℕ} 0 0 × ◌≡◌ {A = ℕ} 0 0
chunk_nonce_injective_example =
    chunk_nonce_injective (replicate 56 0) 0 0 0 0 (zeros-IsBytes 56)
      (omega arith, omega arith, omega arith, omega arith) makes_nonce makes_nonce
