-- ===== src/Setup/Parse.antt =====
-- `Parse` of internal/setup/setup.go.
use innoextract_go.Base.{
  ℕ, ◌+◌, Bool, false, not, ◌||◌, ltb, if◌then◌else◌, ◌==◌, Bytes, Option, none, some, ℤ, pos,
  negsuc, max_int64,
}
use innoextract_go.Fault.{
  Result, ok, err, ◌>>=◌, ◌>>◌, fail_if, corrupt, unsupported_version, invalid_format,
}
use innoextract_go.Format.{Archive, Version, Offsets}
use innoextract_go.Setup.Block.{read_block, read_encryption_header}
use innoextract_go.Setup.Cursor.{Cursor, start, remaining}
use innoextract_go.Loader.Locate.{locate}
use innoextract_go.Setup.ReadVersion.{read_version}
use innoextract_go.Setup.Version.{version_at_least}
use innoextract_go.Setup.PrimaryStream.{parse_primary, parse_secondary}
use innoextract_go.Stream.Chunk.{Decoders}
use innoextract_go.Stream.Reader.{ReaderAt}

-- `defaultHeaderLimit`, for a limit that is not positive.
unfoldable pub header_limit : ℤ → ℕ
header_limit (negsuc n) = 67108864
header_limit (pos n) = if n == 0 then 67108864 else n

-- `if c.remaining() != 0`
unfoldable pub at_end {ℓ} : {A : Type ℓ} → A × Cursor → Result A
at_end (a, c) = if not (remaining c == 0) then err corrupt else ok a

module _ (crc32 : Bytes → ℕ) (d : Decoders) where
  -- Whether the outer header says that the archive is encrypted, and where the blocks begin.
  unfoldable pub outer_header : ReaderAt → Version → ℕ → Result (Bool × ℕ)
  outer_header r v position =
      if version_at_least v 6 5 0
      then read_encryption_header crc32 r (position + 64)
      else ok (false, position + 64)

  -- What follows the version.
  unfoldable pub parse_streams : ReaderAt → Offsets → Version → ℕ → Result Archive
  unfolding outer_header at_end
  parse_streams r offsets v limit = do
    (outer_encrypted, position) ← outer_header r v offsets.header_offset
    (primary, next) ← read_block crc32 d r position v limit
    parsed ← parse_primary v outer_encrypted limit (start primary)
    p ← at_end parsed
    (secondary, _) ← read_block crc32 d r next v limit
    read ← parse_secondary v p.header.compression p.counts.data_entries (start secondary)
    data_entries ← at_end read
    ok (record {
      offsets = offsets;
      version = v;
      header = p.header;
      languages = p.languages;
      files = p.files;
      data_entries = data_entries;
      registry = p.registry;
    })

  -- `Parse`; a nil reader is `none`.
  unfoldable pub parse : Option ReaderAt → ℤ → Result Archive
  unfolding parse_streams header_limit
  parse none header_limit_option = err invalid_format
  parse (some r) header_limit_option = do
    offsets ← locate (some r)
    fail_if (ltb max_int64 offsets.header_offset) corrupt
    v ← read_version r offsets.header_offset
    fail_if (not (v.major == 6) || ltb 7 v.minor) unsupported_version
    parse_streams r offsets v (header_limit header_limit_option)
