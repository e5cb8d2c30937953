-- ===== src/Loader/Table.antt =====
-- `readAt`, `fixedOffsetTable`, `loadOffsetTable` and `loaderMagicVersion` of
-- internal/loader/loader.go.
use innoextract_go.Base.{
  ℕ, ◌+◌, ◌-◌, true, not, ◌||◌, Option, none, some, [], ◌∷◌, length, take, drop, ltb, ◌==◌,
  if◌then◌else◌, Bytes, le_value, equal, max_int64, max_uint32,
}
use innoextract_go.Fault.{Result, ok, err, ◌>>=◌, ◌>>◌, fail_if, corrupt, invalid_format}
use innoextract_go.Format.{Offsets, Checksum, checksum_adler32, checksum_crc32}
use innoextract_go.Stream.Reader.{ReaderAt}

-- `readAt`; no offset here is negative.
unfoldable pub read_exact : ReaderAt → ℕ → ℕ → Result Bytes
read_exact r off n = do
  fail_if (ltb (max_int64 - off) n) corrupt
  let b = (r.read_at n off).0
  fail_if (not (length b == n)) corrupt
  ok b

-- `u16`, `u32` and `binary.LittleEndian.Uint64`, of a slice that reaches far enough.
abbrev pub u16_at : Bytes → ℕ → ℕ
u16_at b off = le_value (take 2 (drop off b))

abbrev pub u32_at : Bytes → ℕ → ℕ
u32_at b off = le_value (take 4 (drop off b))

abbrev pub u64_at : Bytes → ℕ → ℕ
u64_at b off = le_value (take 8 (drop off b))

-- The magics: "rDlPtS" or "nS5W7d", and six bytes more.
abbrev rdlpts : Bytes → Bytes
rdlpts rest = b'r' ∷ b'D' ∷ b'l' ∷ b'P' ∷ b't' ∷ b'S' ∷ rest

abbrev numbered : ℕ → Bytes
numbered n = rdlpts (b'0' ∷ n ∷ 135 ∷ b'e' ∷ b'V' ∷ b'x' ∷ [])

abbrev pub magic_5_1_5 : Bytes
magic_5_1_5 = rdlpts (205 ∷ 230 ∷ 215 ∷ 123 ∷ 11 ∷ 42 ∷ [])

abbrev pub other_magic_5_1_5 : Bytes
other_magic_5_1_5 = b'n' ∷ b'S' ∷ b'5' ∷ b'W' ∷ b'7' ∷ b'd' ∷ b'T' ∷ 131 ∷ 170 ∷ 27 ∷ 15 ∷ 106 ∷ []

-- `loaderMagicVersion`; a magic that is not in the map has the version 0.
unfoldable pub loader_magic_version : Bytes → ℕ
loader_magic_version m =
    if equal m (numbered b'2')
    then 0x01020a00
    else if equal m (numbered b'4')
    then 0x04000000
    else if equal m (numbered b'5')
    then 0x04000300
    else if equal m (numbered b'6')
    then 0x04000a00
    else if equal m (numbered b'7')
    then 0x04010600
    else if equal m magic_5_1_5
    then 0x05010500
    else if equal m other_magic_5_1_5
    then 0x05010500
    else 0

abbrev pub crc32_of : Bytes → Checksum
crc32_of digest = record { type = checksum_crc32; digest = digest }

-- The table of revision 2, from its 48 bytes. An offset is an int64, so one of 2 ^ 63 or more is
-- negative.
unfoldable pub table_of_revision2 : Bytes → Result Offsets
table_of_revision2 fields = do
  let off_exe = u64_at fields 8
  let off_header = u64_at fields 24
  let off_data = u64_at fields 32
  fail_if (ltb max_int64 off_exe || ltb max_int64 off_header || ltb max_int64 off_data) corrupt
  ok (record {
    found_magic = true;
    revision = 2;
    exe_offset = off_exe;
    exe_compressed_size = 0;
    exe_uncompressed_size = u32_at fields 16;
    exe_checksum = crc32_of (take 4 (drop 20 fields));
    header_offset = off_header;
    data_offset = off_data;
  })

-- The checksum behind the fields is read, and compared without effect.
unfoldable pub load_revision2 : ReaderAt → ℕ → Result Offsets
unfolding table_of_revision2 read_exact
load_revision2 r pos = do
  fields ← read_exact r (pos + 16) 48
  offsets ← table_of_revision2 fields
  record_bytes ← read_exact r pos 60
  crc_bytes ← read_exact r (pos + 60) 4
  ok offsets

-- The table of revision 1, from its 28 bytes: what `idx` is at each field follows from the version.
unfoldable pub table_of_revision1 : ℕ → Bytes → Offsets
table_of_revision1 version fields =
    let compressed = ltb version 0x04010600 in
    let size_at = if compressed then 12 else 8 in
    let header_at = if ltb version 0x04000000 then size_at + 12 else size_at + 8 in
    let type = if ltb version 0x04000300 then checksum_adler32 else checksum_crc32 in
    record {
      found_magic = true;
      revision = 1;
      exe_offset = u32_at fields 4;
      exe_compressed_size = if compressed then u32_at fields 8 else 0;
      exe_uncompressed_size = u32_at fields size_at;
      exe_checksum = record { type = type; digest = take 4 (drop (size_at + 4) fields) };
      header_offset = u32_at fields header_at;
      data_offset = u32_at fields (header_at + 4);
    }

-- `loadOffsetTable`, which reports every failure as an error.
unfoldable pub load_offset_table : ReaderAt → ℕ → Result Offsets
unfolding read_exact loader_magic_version load_revision2 table_of_revision1
load_offset_table r pos = do
  fail_if (ltb max_int64 pos) corrupt
  magic ← read_exact r pos 12
  fail_if (loader_magic_version magic == 0) invalid_format
  revision ← read_exact r (pos + 12) 4
  if u32_at revision 0 == 2 then load_revision2 r pos else (do
    fields ← read_exact r (pos + 16) 28
    ok (table_of_revision1 (loader_magic_version magic) fields))

abbrev pub found : Result Offsets → Result (Option Offsets)
found (ok o) = ok (some o)
found (err e) = err e

-- "Inno"
abbrev pub inno : Bytes
inno = b'I' ∷ b'n' ∷ b'n' ∷ b'o' ∷ []

-- `fixedOffsetTable` by the bytes at 0x30.
unfoldable pub fixed_table_at : ReaderAt → Result Bytes → Result (Option Offsets)
unfolding load_offset_table
fixed_table_at r (err e) = ok none
fixed_table_at r (ok b) =
    if not (equal (take 4 b) inno) || not (max_uint32 - u32_at b 4 == u32_at b 8)
    then ok none
    else found (load_offset_table r (u32_at b 4))

-- `fixedOffsetTable`: an offset table, none, or an error.
unfoldable pub fixed_offset_table : ReaderAt → Result (Option Offsets)
unfolding fixed_table_at read_exact
fixed_offset_table r = fixed_table_at r (read_exact r 48 12)
