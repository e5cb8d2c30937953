-- ===== src/Loader/Locate.antt =====
-- `Locate` of internal/loader/loader.go.
use innoextract_go.Base.{false, Option, none, some, []}
use innoextract_go.Fault.{Result, ok, err, ◌>>=◌, invalid_format}
use innoextract_go.Format.{Offsets, checksum_none}
use innoextract_go.Loader.Resource.{resource_offset_table}
use innoextract_go.Loader.Table.{fixed_offset_table}
use innoextract_go.Stream.Reader.{ReaderAt}

-- `format.Offsets{}`: an external header, at the beginning of the file.
abbrev pub no_offsets : Offsets
no_offsets = record {
  found_magic = false;
  revision = 0;
  exe_offset = 0;
  exe_compressed_size = 0;
  exe_uncompressed_size = 0;
  exe_checksum = record { type = checksum_none; digest = [] };
  header_offset = 0;
  data_offset = 0;
}

abbrev pub offsets_or : Result Offsets → Option Offsets → Result Offsets
offsets_or other none = other
offsets_or other (some o) = ok o

-- `Locate`; a nil reader is `none`.
unfoldable pub locate : Option ReaderAt → Result Offsets
unfolding fixed_offset_table resource_offset_table
locate none = err invalid_format
locate (some r) = do
  fixed ← fixed_offset_table r
  offsets_or (do resource ← resource_offset_table r; offsets_or (ok no_offsets) resource) fixed
