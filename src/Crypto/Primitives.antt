-- ===== src/Crypto/Primitives.antt =====
-- What internal/crypto/crypto.go calls from other packages: the hash functions, `pbkdf2.Key` and
-- chacha20. They are parameters, with the documented behaviour that the code relies on.
use innoextract_go.Base.{ℕ, ◌≡◌, length, Bytes}
use innoextract_go.Fault.{Result, ok}

-- A hasher is fed in pieces and gives the digest of all that was written to it, so it is the
-- function from the bytes written to the digest: `Write` appends, `Sum(nil)` applies it.
pub record Primitives : Type 0 where
  pub adler32 : Bytes → Bytes
  pub crc32 : Bytes → Bytes
  pub md5 : Bytes → Bytes
  pub sha1 : Bytes → Bytes
  pub sha256 : Bytes → Bytes
  -- `pbkdf2.Key(sha256.New, password, salt, iterations, keyLength)`
  pub pbkdf2 : Bytes → Bytes → ℕ → ℕ → Result Bytes
  -- `chacha20.NewUnauthenticatedCipher(key, nonce)` succeeds, or the fault that it returns.
  pub new_cipher : Bytes → Bytes → Result (Unit {0})
  -- The i-th byte of the key stream of a key and a nonce.
  pub cipher_byte : Bytes → Bytes → ℕ → ℕ

-- Documented behaviour: the cipher accepts every key of 32 bytes with a nonce of 24.
pub record Documented (p : Primitives) : Type 0 where
  pub cipher_accepts :
      (key nonce : Bytes) → length key ≡ 32 → length nonce ≡ 24 → p.new_cipher key nonce ≡ ok tt
