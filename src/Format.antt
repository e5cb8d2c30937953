-- ===== src/Format.antt =====
-- internal/format/types.go: the data that the parser hands to the other parts. A Go string or byte
-- slice is its list of bytes; a uint8, uint32 or uint64 is a number, and the operations that can
-- leave the range write their wrap-around.
use innoextract_go.Base.{ℕ, ◌+◌, Bool, true, ◌&&◌, List, ◌≡◌, arith, ◌==◌, Bytes}

-- The enumerations are `uint8` in Go, so a value beyond the named constants can be written there:
-- `unlisted n` is the n-th of those.
pub data ChecksumType : Type 0 where
  checksum_none checksum_adler32 checksum_crc32 checksum_md5 checksum_sha1 : ChecksumType
  checksum_sha256 checksum_pbkdf2_sha256_xchacha20 : ChecksumType
  checksum_unlisted : ℕ → ChecksumType

pub record Checksum : Type 0 where
  pub type : ChecksumType
  pub digest : Bytes

pub data Compression : Type 0 where
  stored zlib bzip2 lzma1 lzma2 unknown_compression : Compression
  compression_unlisted : ℕ → Compression

pub data Encryption : Type 0 where
  plaintext arc4_md5 arc4_sha1 xchacha20 : Encryption
  encryption_unlisted : ℕ → Encryption

pub data FileFilter : Type 0 where
  no_filter instruction4108 instruction5200 instruction5309 zlib_filter : FileFilter
  filter_unlisted : ℕ → FileFilter

pub record Offsets : Type 0 where
  pub found_magic : Bool
  pub revision : ℕ
  pub exe_offset : ℕ
  pub exe_compressed_size : ℕ
  pub exe_uncompressed_size : ℕ
  pub exe_checksum : Checksum
  pub header_offset : ℕ
  pub data_offset : ℕ

pub record Version : Type 0 where
  pub major : ℕ
  pub minor : ℕ
  pub patch : ℕ
  pub revision : ℕ
  pub unicode : Bool
  pub known : Bool

pub record Chunk : Type 0 where
  pub first_slice : ℕ
  pub last_slice : ℕ
  pub sort_offset : ℕ
  pub offset : ℕ
  pub size : ℕ
  pub compression : Compression
  pub encryption : Encryption

pub record StoredFile : Type 0 where
  pub offset : ℕ
  pub size : ℕ
  pub checksum : Checksum
  pub filter : FileFilter

pub record DataEntry : Type 0 where
  pub chunk : Chunk
  pub file : StoredFile
  pub uncompressed_size : ℕ

pub record FileEntry : Type 0 where
  pub source : Bytes
  pub destination : Bytes
  pub languages : Bytes
  pub components : Bytes
  pub tasks : Bytes
  pub check : Bytes
  pub before_install : Bytes
  pub after_install : Bytes
  pub location : ℕ
  pub additional_locations : List ℕ
  pub size : ℕ
  pub checksum : Checksum
  pub temporary : Bool
  pub bits32 : Bool
  pub bits64 : Bool
  pub dont_copy : Bool

pub record Language : Type 0 where
  pub name : Bytes
  pub display_name : Bytes
  pub id : ℕ
  pub codepage : ℕ

pub record RegistryEntry : Type 0 where
  pub key : Bytes
  pub name : Bytes
  pub value : Bytes

pub record Header : Type 0 where
  pub app_name : Bytes
  pub app_version : Bytes
  pub app_id : Bytes
  pub publisher : Bytes
  pub base_filename : Bytes
  pub slices_per_disk : ℕ
  pub compression : Compression
  pub encrypted : Bool
  pub unsupported_encryption : Bool
  pub password : Checksum
  pub password_salt : Bytes

pub record Archive : Type 0 where
  pub offsets : Offsets
  pub version : Version
  pub header : Header
  pub languages : List Language
  pub files : List FileEntry
  pub data_entries : List DataEntry
  pub registry : List RegistryEntry

-- The `uint8` behind a constant.
compression_code : Compression → ℕ
compression_code stored = 0
compression_code zlib = 1
compression_code bzip2 = 2
compression_code lzma1 = 3
compression_code lzma2 = 4
compression_code unknown_compression = 5
compression_code (compression_unlisted n) = 6 + n

encryption_code : Encryption → ℕ
encryption_code plaintext = 0
encryption_code arc4_md5 = 1
encryption_code arc4_sha1 = 2
encryption_code xchacha20 = 3
encryption_code (encryption_unlisted n) = 4 + n

-- `==` of two chunks, as the keys of a Go map are compared.
unfoldable pub chunk_equal : Chunk → Chunk → Bool
unfolding compression_code encryption_code
chunk_equal c d =
    c.first_slice == d.first_slice
    && c.last_slice == d.last_slice
    && c.sort_offset == d.sort_offset
    && c.offset == d.offset
    && c.size == d.size
    && compression_code c.compression == compression_code d.compression
    && encryption_code c.encryption == encryption_code d.encryption

compression_code_injective : (c d : Compression) → compression_code c ≡ compression_code d → c ≡ d
unfolding compression_code
compression_code_injective c d e = ground arith

encryption_code_injective : (c d : Encryption) → encryption_code c ≡ encryption_code d → c ≡ d
unfolding encryption_code
encryption_code_injective c d e = ground arith

pub chunk_equal→eq : (c d : Chunk) → chunk_equal c d ≡ true → c ≡ d
unfolding chunk_equal
chunk_equal→eq c d h = ground (
  arith,
  compression_code_injective c.compression d.compression,
  encryption_code_injective c.encryption d.encryption,
)

pub chunk_equal_refl : (c : Chunk) → chunk_equal c c ≡ true
unfolding chunk_equal
chunk_equal_refl c = ground arith
