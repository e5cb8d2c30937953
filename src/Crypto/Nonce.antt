-- ===== src/Crypto/Nonce.antt =====
-- `DeriveXChaChaKey`, `VerifyXChaChaPassword`, `ChunkNonce` and `NewXChaCha` of
-- internal/crypto/crypto.go. `KeySize` is 32 and `NonceSizeX` is 24.
use innoextract_go.Base.{
  ℕ, ◌+◌, ◌-◌, ◌<◌, ◌≡◌, ◌^◌, sym, ap, ◌∙◌, Bool, false, ◌||◌, not, [], ◌∷◌, ◌++◌, length, take,
  drop, map, equal, arith, ltb, ◌==◌, if◌then◌else◌, Bytes, IsBytes, bit_xor, le_value, le_bytes,
  length-le_bytes, le_value-le_bytes, le_value-lt, bit_xor-lt, bit_xor_injective, length-take,
  length-drop, IsBytes-take, IsBytes-drop, replicate, length-append, drop-drop, inl, inr,
  take-append_left, drop-append_left, subst, ◌≤◌,
}
use innoextract_go.Fault.{
  Result, ok, err, ◌>>=◌, ◌>>◌, fail_if, invalid_key, invalid_salt, Result-cases,
}
use innoextract_go.Crypto.Primitives.{Primitives, Documented}

abbrev key_size : ℕ
key_size = 32

abbrev nonce_size : ℕ
nonce_size = 24

-- `s[i:j]`
abbrev pub slice : ℕ → ℕ → Bytes → Bytes
slice i j s = take (j - i) (drop i s)

-- The salt is 16 bytes for PBKDF2, the number of iterations in four, and the base nonce.
unfoldable pub derive_xchacha_key : Primitives → Bytes → Bytes → Result Bytes
derive_xchacha_key p password salt = do
  fail_if (not (length salt == 16 + 4 + nonce_size)) invalid_salt
  let iterations = le_value (slice 16 20 salt)
  fail_if (iterations == 0) invalid_salt
  key ← p.pbkdf2 password (take 16 salt) iterations key_size
  -- `copy` into the first 32 of 56 zero bytes, and the base nonce behind them.
  ok (take key_size (key ++ replicate key_size 0) ++ drop 20 salt)

-- `^b` of a byte.
abbrev complement : ℕ → ℕ
complement b = 255 - b

-- The password test runs the cipher at the base nonce with the bytes 8 to 11 inverted.
abbrev pub test_nonce : Bytes → Bytes
test_nonce nonce = take 8 nonce ++ (map complement (slice 8 12 nonce) ++ drop 12 nonce)

unfoldable pub verify_xchacha_password : Primitives → Bytes → Bytes → Bool
verify_xchacha_password p key_nonce expected =
    if not (length key_nonce == key_size + nonce_size) || ltb (length expected) 4
    then false
    else (let key = take key_size key_nonce in
        let nonce = test_nonce (drop key_size key_nonce) in
        let stream = p.cipher_byte key nonce in
        elim (p.new_cipher key nonce) [
          | err e ↦ false
          | ok _ ↦ equal (stream 0 ∷ stream 1 ∷ stream 2 ∷ stream 3 ∷ []) (take 4 expected)
        ])

unfoldable pub chunk_nonce : Bytes → ℕ → ℕ → Result Bytes
chunk_nonce key_nonce offset first_slice = do
  fail_if (not (length key_nonce == key_size + nonce_size)) invalid_key
  let nonce = drop key_size key_nonce
  ok (
      le_bytes 8 (bit_xor (le_value (take 8 nonce)) offset)
      ++ (le_bytes 4 (bit_xor (le_value (slice 8 12 nonce)) first_slice) ++ drop 12 nonce))

-- A `chacha20.Cipher`: its key, its nonce and how much of its stream is used.
pub record Cipher : Type 0 where
  pub key : Bytes
  pub nonce : Bytes
  pub position : ℕ

unfoldable pub new_xchacha : Primitives → Bytes → ℕ → ℕ → Result Cipher
unfolding chunk_nonce
new_xchacha p key_nonce offset first_slice = do
  fail_if (not (length key_nonce == key_size + nonce_size)) invalid_key
  nonce ← chunk_nonce key_nonce offset first_slice
  let key = take key_size key_nonce
  p.new_cipher key nonce
  ok (record { key = key; nonce = nonce; position = 0 })

-- Values read back from `PutUint64` and `PutUint32`.
le_bytes_injective : (w m n : ℕ) → m < 256 ^ w → n < 256 ^ w → le_bytes w m ≡ le_bytes w n → m ≡ n
le_bytes_injective w m n hm hn e =
    sym (le_value-le_bytes w m hm) ∙ ap le_value e ∙ le_value-le_bytes w n hn

module _ (w : ℕ) (x y : ℕ) (r s : Bytes) (hx : x < 256 ^ w) (hy : y < 256 ^ w) where
  field_injective : le_bytes w x ++ r ≡ le_bytes w y ++ s → (x ≡ y) × (r ≡ s)
  field_injective e = (
    le_bytes_injective w x y hx hy (
        sym (take-append_left w (le_bytes w x) r (length-le_bytes w x))
        ∙ ap (take w) e
        ∙ take-append_left w (le_bytes w y) s (length-le_bytes w y)),
    sym (drop-append_left w (le_bytes w x) r (length-le_bytes w x))
        ∙ ap (drop w) e
        ∙ drop-append_left w (le_bytes w y) s (length-le_bytes w y),
  )

le_value-take-lt :
    (w i : ℕ) (bs : Bytes)
    → i + w ≤ length bs
    → IsBytes bs
    → le_value (take w (drop i bs)) < 256 ^ w
le_value-take-lt w i bs h b =
    let n : length (take w (drop i bs)) ≡ w =
      omega (arith, length-take w (drop i bs), length-drop i bs) in
    subst (λ k. le_value (take w (drop i bs)) < 256 ^ k) n
      (le_value-lt (take w (drop i bs)) (IsBytes-take w (drop i bs) (IsBytes-drop i bs b)))

abbrev nonce_fields : Bytes → ℕ → ℕ → Bytes
nonce_fields nonce offset first_slice =
    le_bytes 8 (bit_xor (le_value (take 8 nonce)) offset)
    ++ (le_bytes 4 (bit_xor (le_value (take 4 (drop 8 nonce))) first_slice) ++ drop 12 nonce)

chunk_nonce-eq-ok :
    (key_nonce : Bytes) (o f : ℕ) {n : Bytes}
    → chunk_nonce key_nonce o f ≡ ok n
    → (length key_nonce ≡ 56) × (nonce_fields (drop 32 key_nonce) o f ≡ n)
unfolding chunk_nonce
chunk_nonce-eq-ok key_nonce o f {n} h = ground arith

module _ (nonce : Bytes) (o o' f f' : ℕ) where
  nonce_fields_injective :
      IsBytes nonce
      → length nonce ≡ 24
      → (o < 2 ^ 64) × (o' < 2 ^ 64) × (f < 2 ^ 32) × (f' < 2 ^ 32)
      → nonce_fields nonce o f ≡ nonce_fields nonce o' f'
      → (o ≡ o') × (f ≡ f')
  nonce_fields_injective bytes size bounds e =
      let u = le_value (take 8 nonce) in
      let v = le_value (take 4 (drop 8 nonce)) in
      let hu : u < 2 ^ 64 = le_value-take-lt 8 0 nonce (omega arith) bytes in
      let hv : v < 2 ^ 32 = le_value-take-lt 4 8 nonce (omega arith) bytes in
      let (low, rest) =
        field_injective 8 (bit_xor u o) (bit_xor u o') _ _ (bit_xor-lt 64 u o hu bounds.0)
          (bit_xor-lt 64 u o' hu bounds.1) e in
      let (high, _) =
        field_injective 4 (bit_xor v f) (bit_xor v f') _ _ (bit_xor-lt 32 v f hv bounds.2)
          (bit_xor-lt 32 v f' hv bounds.3) rest in
      (bit_xor_injective u o o' low, bit_xor_injective v f f' high)

-- Under one key of bytes, and for offsets of 64 bits and first slices of 32, the nonces of two chunks
-- are the same only if the chunks have the same offset and the same first slice.
pub chunk_nonce_injective :
    (key_nonce : Bytes) (o o' f f' : ℕ) {n : Bytes}
    → IsBytes key_nonce
    → (o < 2 ^ 64) × (o' < 2 ^ 64) × (f < 2 ^ 32) × (f' < 2 ^ 32)
    → chunk_nonce key_nonce o f ≡ ok n
    → chunk_nonce key_nonce o' f' ≡ ok n
    → (o ≡ o') × (f ≡ f')
chunk_nonce_injective key_nonce o o' f f' {n} bytes bounds e e' =
    let (size, a) = chunk_nonce-eq-ok key_nonce o f e in
    let (_, b) = chunk_nonce-eq-ok key_nonce o' f' e' in
    nonce_fields_injective (drop 32 key_nonce) o o' f f' (IsBytes-drop 32 key_nonce bytes)
      (omega (arith, length-drop 32 key_nonce)) bounds (a ∙ sym b)

module _ (nonce : Bytes) (o f : ℕ) where
  length-nonce_fields : length nonce ≡ 24 → length (nonce_fields nonce o f) ≡ 24
  length-nonce_fields h =
      let a = le_bytes 8 (bit_xor (le_value (take 8 nonce)) o) in
      let b = le_bytes 4 (bit_xor (le_value (take 4 (drop 8 nonce))) f) in
      omega (
        arith,
        length-append a (b ++ drop 12 nonce),
        length-append b (drop 12 nonce),
        length-le_bytes 8 (bit_xor (le_value (take 8 nonce)) o),
        length-le_bytes 4 (bit_xor (le_value (take 4 (drop 8 nonce))) f),
        length-drop 12 nonce,
      )

  drop-nonce_fields : drop 12 (nonce_fields nonce o f) ≡ drop 12 nonce
  drop-nonce_fields =
      let a = le_bytes 8 (bit_xor (le_value (take 8 nonce)) o) in
      let b = le_bytes 4 (bit_xor (le_value (take 4 (drop 8 nonce))) f) in
      sym (drop-drop 8 4 (nonce_fields nonce o f))
      ∙ ap (drop 4) (drop-append_left 8 a (b ++ drop 12 nonce) (length-le_bytes 8 _))
      ∙ drop-append_left 4 b (drop 12 nonce) (length-le_bytes 4 _)

derive_xchacha_key-eq-ok :
    (p : Primitives) (password salt : Bytes) {key : Bytes}
    → derive_xchacha_key p password salt ≡ ok key
    → (length salt ≡ 44)
      × ((derived : Bytes) × (take 32 (derived ++ replicate 32 0) ++ drop 20 salt ≡ key))
unfolding derive_xchacha_key
derive_xchacha_key-eq-ok p password salt {key} h =
    elim (Result-cases (p.pbkdf2 password (take 16 salt) (le_value (take 4 (drop 16 salt))) 32)) [
      | inl (derived, e) ↦ (ground arith, (derived, ground arith))
      | inr (e, failed) ↦ absurd (ground arith)
    ]

derive_xchacha_key_parts :
    (p : Primitives) (password salt : Bytes) {key : Bytes}
    → derive_xchacha_key p password salt ≡ ok key
    → (length key ≡ 56) × (drop 32 key ≡ drop 20 salt)
derive_xchacha_key_parts p password salt {key} h =
    let (size, found) = derive_xchacha_key-eq-ok p password salt h in
    let (derived, e) = found in
    let k = take 32 (derived ++ replicate 32 0) in
    let n : length k ≡ 32 =
      omega (
        arith,
        length-take 32 (derived ++ replicate 32 0),
        length-append derived (replicate 32 0),
      ) in
    (
      omega (arith, ap length e, length-append k (drop 20 salt), length-drop 20 salt),
      ap (drop 32) (sym e) ∙ drop-append_left 32 k (drop 20 salt) n,
    )

-- A key and nonce that `DeriveXChaChaKey` returned serve every chunk: where the cipher accepts every
-- key of 32 bytes with a nonce of 24, `NewXChaCha` succeeds, with a nonce of 24 bytes that ends as
-- the salt does.
pub new_xchacha-derive_xchacha_key :
    (p : Primitives) (password salt : Bytes) (offset first_slice : ℕ) {key : Bytes}
    → Documented p
    → derive_xchacha_key p password salt ≡ ok key
    → (c : Cipher) × (new_xchacha p key offset first_slice ≡ ok c)
      × (length c.nonce ≡ 24)
      × (drop 12 c.nonce ≡ drop 32 salt)
unfolding new_xchacha
new_xchacha-derive_xchacha_key p password salt offset first_slice {key} d h =
    let (size, tail) = derive_xchacha_key_parts p password salt h in
    let nonce = nonce_fields (drop 32 key) offset first_slice in
    let n : length nonce ≡ 24 =
      length-nonce_fields (drop 32 key) offset first_slice (omega (arith, length-drop 32 key)) in
    let accepted = d.cipher_accepts (take 32 key) nonce (omega (arith, length-take 32 key)) n in
    (
      record { key = take 32 key; nonce = nonce; position = 0 },
      ground arith,
      n,
      drop-nonce_fields (drop 32 key) offset first_slice ∙ ap (drop 12) tail ∙ drop-drop 20 12 salt,
    )
