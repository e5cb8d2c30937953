-- ===== src/Tests/Opens.antt =====
-- A whole setup file without any entries, opened.
use innoextract_go.Base.{
  ℕ, ◌≡◌, ◌⊎◌, refl, arith, some, none, [], ◌∷◌, ◌++◌, replicate, Bytes, pos, le_bytes, le_value,
  equal,
}
use innoextract_go.Api.Archive.{OpenArchive, open_archive}
use innoextract_go.Api.Opened.{Opened, password, memory_limit, open_archive-Opened}
use innoextract_go.Api.Settings.{with_memory_limit, with_password, apply_settings, default_settings}
use innoextract_go.Fault.{ok}
use innoextract_go.Format.{Archive}
use innoextract_go.Loader.Locate.{no_offsets, locate}
use innoextract_go.Setup.Cursor.{
  ◌>>=◌, ◌>>◌, return, uint, read, skip, collect, times, when, drop_value, string_raw, skip_string,
  must_read, read_bits, has_bit,
}
use innoextract_go.Base.{Bool, true, false, List, map}
use innoextract_go.Format.{Version, lzma2}
use innoextract_go.Setup.Cursor.{start}
use innoextract_go.Setup.DataEntries.{
  Written, IsWritten, encode_entries, entry_of_written, end_of, parse_secondary-encode_entries,
}
use innoextract_go.Setup.Parse.{at_end}
use innoextract_go.Setup.Entries.{skip_wizard_and_dlls, is_bzip2, is_zlib}
use innoextract_go.Setup.Flags.{read_header_flags, is_encrypted, header_flag_names, encryption_bit}
use innoextract_go.Setup.Header.{parse_header, map_compression}
use innoextract_go.Setup.PrimaryStream.{parse_primary, parse_secondary}
use innoextract_go.Setup.Parse.{header_limit, parse}
use innoextract_go.Setup.Streams.{Streams, parse-Streams}
use innoextract_go.Setup.Supported.{Supported, parse-Supported}
use innoextract_go.Setup.Text.{string_utf16}
use innoextract_go.Setup.Version.{version_at_least, version_before}
use innoextract_go.Setup.Block.Accepted.{unwrap_block_chunks-accepts}
use innoextract_go.Setup.Block.Chunks.{Wrapped}
use innoextract_go.Setup.Block.{unwrap_block_chunks, read_block}
use innoextract_go.Setup.ReadVersion.{version_prefix, read_version}
use innoextract_go.Stream.Assembly.{new_assembly}
use innoextract_go.Stream.Groups.Complete.{build_groups-IsPartition}
use innoextract_go.Stream.Groups.Partition.{IsPartition, segments}
use innoextract_go.Stream.Groups.{build_groups}
use innoextract_go.Stream.Reader.{file_reader}
use innoextract_go.Tests.Parses.{zero_primary, length32}
use innoextract_go.Tests.Sample.{archive, primitives, decoders, version}

-- "Inno Setup Setup Data (6.4.3)" in 64 bytes; the two blocks, the first of one piece.
abbrev installer : Bytes
unfolding le_bytes
installer =
    (version_prefix ++ b'6' ∷ b'.' ∷ b'4' ∷ b'.' ∷ b'3' ∷ b')' ∷ [])
    ++ (replicate 35 0 ++ (le_bytes 4 0 ++ (le_bytes 4 337 ++ (replicate 338 0 ++ replicate 9 0))))

no_sum : Bytes → ℕ
no_sum bs = 0

abbrev opened_archive : Archive
opened_archive = record {
  offsets = no_offsets;
  version = version;
  header = zero_primary.header;
  languages = [];
  files = [];
  data_entries = [];
  registry = [];
}

abbrev opened : OpenArchive
opened = record {
  reader = some (file_reader installer);
  settings = record {
    password = 7 ∷ [];
    codepage = 0;
    slices = none;
    memory_limit = pos 9;
    header_limit = pos 67108864;
  };
  parsed = some opened_archive;
}

opens :
    open_archive primitives decoders no_sum
      (some (file_reader installer))
      (some (with_password (7 ∷ [])) ∷ some (with_memory_limit (pos 9)) ∷ [])
    ≡ ok opened
unfolding open_archive no_sum file_reader equal apply_settings default_settings with_password
    with_memory_limit locate installer read_version version_at_least read_block le_value le_bytes
    parse_primary parse_secondary parse_header ◌>>=◌ ◌>>◌ return uint read skip collect times when
    drop_value string_utf16 string_raw skip_string version_before must_read read_bits has_bit
    read_header_flags is_encrypted header_flag_names encryption_bit skip_wizard_and_dlls is_bzip2
    map_compression is_zlib
opens = refl

open_archive-Opened_example : Opened opened
open_archive-Opened_example =
    open_archive-Opened primitives decoders no_sum (some (file_reader installer))
      (some (with_password (7 ∷ [])) ∷ some (with_memory_limit (pos 9)) ∷ [])
      (password (7 ∷ []), (memory_limit (pos 9), tt)) opens

parses : parse no_sum decoders (some (file_reader installer)) (pos 67108864) ≡ ok opened_archive
unfolding parse no_sum file_reader equal locate installer read_version version_at_least read_block
    le_value le_bytes parse_primary parse_secondary parse_header ◌>>=◌ ◌>>◌ return uint read skip
    collect times when drop_value string_utf16 string_raw skip_string version_before must_read
    read_bits has_bit read_header_flags is_encrypted header_flag_names encryption_bit
    skip_wizard_and_dlls is_bzip2 map_compression is_zlib
parses = refl

parse-Supported_example : Supported opened_archive
parse-Supported_example =
    parse-Supported no_sum decoders (some (file_reader installer)) (pos 67108864) parses

parse-Streams_example :
    (locate (some (file_reader installer)) ≡ ok opened_archive.offsets)
    × (read_version (file_reader installer) opened_archive.offsets.header_offset
        ≡ ok opened_archive.version)
    × Streams no_sum decoders (file_reader installer) (header_limit (pos 67108864)) opened_archive
parse-Streams_example = parse-Streams no_sum decoders (file_reader installer) (pos 67108864) parses

-- Two data entries of version 6.6.1.
abbrev recent : Version
recent = record { major = 6; minor = 6; patch = 1; revision = 0; unicode = true; known = true }

abbrev written : Bool → Written
written compressed = record {
  first_slice = 1;
  last_slice = 2;
  chunk_offset = 70000;
  file_offset = 3;
  file_size = 4;
  chunk_size = 5;
  digest = replicate 32 6;
  stamp = replicate 8 7;
  file_version = replicate 8 8;
  call_filter = true;
  encrypted = false;
  compressed = compressed;
}

written-IsWritten : (compressed : Bool) → IsWritten (written compressed)
written-IsWritten compressed = record {
  first_slice = omega arith;
  last_slice = omega arith;
  chunk_offset = omega arith;
  file_offset = omega arith;
  file_size = omega arith;
  chunk_size = omega arith;
  digest = refl;
  stamp = refl;
  file_version = refl;
}

at_6_5_2 : version_at_least recent 6 5 2 ≡ true
unfolding version_at_least
at_6_5_2 = refl

abbrev two : List Written
two = written true ∷ written false ∷ []

parse_secondary-encode_entries_example :
    (parse_secondary recent lzma2 2 (start (encode_entries two))
      ≡ ok (map (entry_of_written lzma2) two, end_of recent lzma2 at_6_5_2 two))
    × (at_end (map (entry_of_written lzma2) two, end_of recent lzma2 at_6_5_2 two)
        ≡ ok (map (entry_of_written lzma2) two))
parse_secondary-encode_entries_example =
    parse_secondary-encode_entries recent lzma2 at_6_5_2 two
      (written-IsWritten true, (written-IsWritten false, tt))

abbrev block : Bytes
unfolding le_bytes
block = le_bytes 4 2 ++ (5 ∷ 6 ∷ [])

unwraps : unwrap_block_chunks length32 block ≡ ok (5 ∷ 6 ∷ [])
unfolding unwrap_block_chunks le_value le_bytes block
unwraps = refl

unwrap_block_chunks-accepts_example :
    ((block ≡ []) × (◌≡◌ {A = Bytes} (5 ∷ 6 ∷ []) [])) ⊎ Wrapped length32 (5 ∷ 6 ∷ []) block
unfolding block le_bytes
unwrap_block_chunks-accepts_example =
    unwrap_block_chunks-accepts length32 block (5 ∷ 6 ∷ []) (omega arith) unwraps

build_groups-IsPartition_example :
    IsPartition
      (segments archive.data_entries 0 archive.files)
      (build_groups archive (replicate 3 new_assembly)).groups
build_groups-IsPartition_example = build_groups-IsPartition archive (replicate 3 new_assembly)
