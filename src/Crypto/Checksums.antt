-- ===== src/Crypto/Checksums.antt =====
-- `NewHasher`, `Sum`, `EqualChecksum`, `PasswordChecksum` and `VerifyPassword` of
-- internal/crypto/crypto.go.
use mathlib.Core.List.{reverse, reverse-reverse}
use innoextract_go.Base.{
  ◌≡◌, ◌⊎◌, inl, inr, refl, sym, ap, Bool, true, false, ◌&&◌, Option, none, some, [], ◌++◌, length,
  equal, equal_refl, equal→eq, arith, ◌==◌, if◌then◌else◌, Bytes, ◌↔◌, ◌∙◌, Bool-cases, ==_iff,
}
use innoextract_go.Fault.{Result, ok, err, ◌>>=◌, unsupported_checksum}
use innoextract_go.Format.{
  ChecksumType, checksum_none, checksum_adler32, checksum_crc32, checksum_md5, checksum_sha1,
  checksum_sha256, checksum_pbkdf2_sha256_xchacha20, checksum_unlisted,
}
use innoextract_go.Crypto.Primitives.{Primitives}

-- A hasher, or `nil`.
abbrev pub Hasher : Type 0
Hasher = Option (Bytes → Bytes)

unfoldable pub new_hasher : Primitives → ChecksumType → Result Hasher
new_hasher p checksum_none = ok none
new_hasher p checksum_pbkdf2_sha256_xchacha20 = ok none
new_hasher p checksum_adler32 = ok (some p.adler32)
new_hasher p checksum_crc32 = ok (some p.crc32)
new_hasher p checksum_md5 = ok (some p.md5)
new_hasher p checksum_sha1 = ok (some p.sha1)
new_hasher p checksum_sha256 = ok (some p.sha256)
new_hasher p (checksum_unlisted n) = err unsupported_checksum

-- A nil slice is the empty one.
unfoldable pub sum : Primitives → ChecksumType → Bytes → Result Bytes
unfolding new_hasher
sum p t input = do h ← new_hasher p t; elim h [ none ↦ ok [] | some hash ↦ ok (hash input) ]

is_numeric : ChecksumType → Bool
is_numeric checksum_adler32 = true
is_numeric checksum_crc32 = true
is_numeric _ = false

-- The loop that fills `reversed` writes the four bytes of `want` backwards.
unfoldable pub equal_checksum : ChecksumType → Bytes → Bytes → Bool
unfolding is_numeric
equal_checksum checksum_none got want = true
equal_checksum checksum_pbkdf2_sha256_xchacha20 got want = equal got want
equal_checksum t got want =
    if equal got want
    then true
    else if is_numeric t && length want == 4
    then equal got (reverse want)
    else false

unfoldable pub password_checksum : Primitives → ChecksumType → Bytes → Bytes → Result Bytes
unfolding new_hasher
password_checksum p t salt password = do
  h ← new_hasher p t
  elim h [ none ↦ err unsupported_checksum | some hash ↦ ok (hash (salt ++ password)) ]

-- What a stored checksum may be for a digest to pass: anything without a checksum, the digest
-- itself, and for the two numeric checksums also its four bytes in the other order.
pub data Accepts : ChecksumType → Bytes → Bytes → Type 0 where
  unchecked : {got want : Bytes} → Accepts checksum_none got want
  same : {t : ChecksumType} {got want : Bytes} → got ≡ want → Accepts t got want
  swapped :
      {t : ChecksumType} {got want : Bytes}
      → (t ≡ checksum_adler32) ⊎ (t ≡ checksum_crc32)
      → length want ≡ 4
      → reverse got ≡ want
      → Accepts t got want

numeric→Accepts :
    (t : ChecksumType) (got want : Bytes)
    → (t ≡ checksum_adler32) ⊎ (t ≡ checksum_crc32)
    → (length want == 4) ≡ true
    → equal got (reverse want) ≡ true
    → Accepts t got want
numeric→Accepts t got want n four e =
    let e' : got ≡ reverse want = equal→eq got (reverse want) e in
    swapped n ((==_iff (length want) 4).0 four) (ap reverse e' ∙ reverse-reverse want)

equal_checksum→Accepts :
    (t : ChecksumType) (got want : Bytes) → equal_checksum t got want ≡ true → Accepts t got want
unfolding equal_checksum
equal_checksum→Accepts checksum_none got want h = unchecked
equal_checksum→Accepts checksum_adler32 got want h = elim (Bool-cases (equal got want)) [
  | inl e ↦ same (equal→eq got want e)
  | inr ne ↦ numeric→Accepts checksum_adler32 got want (inl refl) (ground arith) (ground arith)
]
equal_checksum→Accepts checksum_crc32 got want h = elim (Bool-cases (equal got want)) [
  | inl e ↦ same (equal→eq got want e)
  | inr ne ↦ numeric→Accepts checksum_crc32 got want (inr refl) (ground arith) (ground arith)
]
equal_checksum→Accepts _ got want h = same (equal→eq got want (ground arith))

Accepts→equal_checksum :
    (t : ChecksumType) (got want : Bytes) → Accepts t got want → equal_checksum t got want ≡ true
unfolding equal_checksum
Accepts→equal_checksum _ got want unchecked = refl
Accepts→equal_checksum checksum_none got want (same e) = refl
Accepts→equal_checksum t got want (same e) = ground (arith, equal_refl got)
Accepts→equal_checksum t got want (swapped n four e) =
    let e' : got ≡ reverse want = sym (reverse-reverse got) ∙ ap reverse e in
    ground (arith, equal_refl got)

-- `EqualChecksum` accepts exactly: anything where there is no checksum, a stored checksum equal to
-- the digest, and for Adler-32 and CRC-32 one of four bytes that is the digest reversed.
pub equal_checksum_iff :
    (t : ChecksumType) (got want : Bytes) → (equal_checksum t got want ≡ true) ↔ Accepts t got want
equal_checksum_iff t got want =
    (equal_checksum→Accepts t got want, Accepts→equal_checksum t got want)
