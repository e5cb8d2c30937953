-- ===== src/Tests/Sample.antt =====
-- A small archive: two files in one stored chunk, and a third that has no data.
use innoextract_go.Base.{ℕ, true, false, none, [], ◌∷◌, ◌++◌, take, Bytes, pos}
use innoextract_go.Fault.{ok}
use innoextract_go.Format.{
  Archive, Checksum, checksum_none, checksum_sha256, Chunk, stored, plaintext, no_filter, DataEntry,
  FileEntry, Header, Offsets, Version,
}
use innoextract_go.Crypto.Primitives.{Primitives}
use innoextract_go.Stream.Chunk.{Decoders}
use innoextract_go.Stream.Extract.{Options}
use innoextract_go.Stream.Reader.{ReaderAt, file_reader}

-- Digests that can be told by sight.
abbrev pub digest : Bytes → Bytes
digest bs = take 4 (bs ++ 0 ∷ 0 ∷ 0 ∷ 0 ∷ [])

abbrev pub primitives : Primitives
primitives = record {
  adler32 = digest;
  crc32 = digest;
  md5 = digest;
  sha1 = digest;
  sha256 = digest;
  pbkdf2 = λ password salt iterations n. ok (take n (password ++ salt));
  new_cipher = λ key nonce. ok tt;
  cipher_byte = λ key nonce i. 7;
}

abbrev pub decoders : Decoders
decoders = record {
  new_zlib = λ r. ok r;
  new_bzip2 = λ r. r;
  new_lzma1 = λ n r. ok r;
  new_lzma2 = λ n r. ok r;
}

abbrev pub version : Version
version = record { major = 6; minor = 4; patch = 3; revision = 0; unicode = true; known = true }

abbrev pub no_checksum : Checksum
no_checksum = record { type = checksum_none; digest = [] }

abbrev pub chunk : Chunk
chunk = record {
  first_slice = 0;
  last_slice = 0;
  sort_offset = 0;
  offset = 0;
  size = 5;
  compression = stored;
  encryption = plaintext;
}

abbrev pub entry : ℕ → ℕ → Bytes → DataEntry
entry offset size content = record {
  chunk = chunk;
  file = record {
    offset = offset;
    size = size;
    checksum = record { type = checksum_sha256; digest = digest content };
    filter = no_filter;
  };
  uncompressed_size = size;
}

abbrev pub file : ℕ → Checksum → FileEntry
file location checksum = record {
  source = [];
  destination = [];
  languages = [];
  components = [];
  tasks = [];
  check = [];
  before_install = [];
  after_install = [];
  location = location;
  additional_locations = [];
  size = 0;
  checksum = checksum;
  temporary = false;
  bits32 = false;
  bits64 = false;
  dont_copy = false;
}

abbrev pub offsets : Offsets
offsets = record {
  found_magic = true;
  revision = 1;
  exe_offset = 0;
  exe_compressed_size = 0;
  exe_uncompressed_size = 0;
  exe_checksum = no_checksum;
  header_offset = 0;
  data_offset = 2;
}

abbrev pub header : Header
header = record {
  app_name = [];
  app_version = [];
  app_id = [];
  publisher = [];
  base_filename = [];
  slices_per_disk = 1;
  compression = stored;
  encrypted = false;
  unsupported_encryption = false;
  password = no_checksum;
  password_salt = [];
}

abbrev pub archive : Archive
archive = record {
  offsets = offsets;
  version = version;
  header = header;
  languages = [];
  files =
      file 1 (record { type = checksum_sha256; digest = digest (4 ∷ 5 ∷ []) })
      ∷ file 0 no_checksum
      ∷ file 9 no_checksum
      ∷ [];
  data_entries = entry 0 3 (1 ∷ 2 ∷ 3 ∷ []) ∷ entry 3 2 (4 ∷ 5 ∷ []) ∷ [];
  registry = [];
}

-- Two bytes in front of the data, and the chunk behind its magic.
abbrev pub setup : ReaderAt
setup = file_reader (77 ∷ 90 ∷ 122 ∷ 108 ∷ 98 ∷ 26 ∷ 1 ∷ 2 ∷ 3 ∷ 4 ∷ 5 ∷ [])

abbrev pub options : Options
options = record { password = []; memory_limit = pos 100; slices = none }
