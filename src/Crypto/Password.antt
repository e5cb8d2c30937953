-- ===== src/Crypto/Password.antt =====
-- `VerifyPassword` of internal/crypto/crypto.go and `archiveKey` of internal/stream/stream.go.
use innoextract_go.Base.{Bool, true, false, not, ◌&&◌, [], length, ◌==◌, if◌then◌else◌, Bytes}
use innoextract_go.Fault.{
  Result, ok, err, ◌>>=◌, wrap, unsupported_encryption, password_required, incorrect_password,
}
use innoextract_go.Format.{ChecksumType, checksum_pbkdf2_sha256_xchacha20, Header}
use innoextract_go.Crypto.Checksums.{password_checksum, equal_checksum}
use innoextract_go.Crypto.Nonce.{derive_xchacha_key, verify_xchacha_password}
use innoextract_go.Crypto.Primitives.{Primitives}

unfoldable pub is_pbkdf2 : ChecksumType → Bool
is_pbkdf2 checksum_pbkdf2_sha256_xchacha20 = true
is_pbkdf2 _ = false

unfoldable pub verify_password : Primitives → ChecksumType → Bytes → Bytes → Bytes → Result Bool
unfolding is_pbkdf2
verify_password p t salt password expected =
    if is_pbkdf2 t
    then (do
      key_nonce ← derive_xchacha_key p password salt
      ok (verify_xchacha_password p key_nonce expected))
    else (do got ← password_checksum p t salt password; ok (equal_checksum t got expected))

-- The key where the password is derived into one, and where it is the key itself.
unfoldable pub derived_key : Primitives → Header → Bytes → Result Bytes
derived_key p h password = do
  key ← wrap unsupported_encryption (derive_xchacha_key p password h.password_salt)
  if verify_xchacha_password p key h.password.digest then ok key else err incorrect_password

unfoldable pub plain_key : Primitives → Header → Bytes → Result Bytes
unfolding verify_password
plain_key p h password = do
  valid ←
      wrap unsupported_encryption
        (verify_password p h.password.type h.password_salt password h.password.digest)
  if valid then ok password else err incorrect_password

-- `archiveKey`; the archive enters by its header alone, and a nil key is the empty one.
unfoldable pub archive_key : Primitives → Header → Bytes → Result Bytes
unfolding derived_key plain_key is_pbkdf2
archive_key p h password =
    if not h.encrypted && not h.unsupported_encryption
    then ok []
    else if h.unsupported_encryption
    then err unsupported_encryption
    else if length password == 0
    then err password_required
    else if is_pbkdf2 h.password.type
    then derived_key p h password
    else plain_key p h password
