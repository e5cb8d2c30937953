-- ===== src/Tests/Installers.antt =====
-- The offset table of an executable, the version of its setup data, and the metadata of GOG.
use innoextract_go.Base.{
  ℕ, ◌≡◌, refl, arith, some, List, [], ◌∷◌, ◌++◌, map, replicate, Bytes, le_bytes, equal, update_at,
}
use innoextract_go.Fault.{ok}
use innoextract_go.Format.{Archive, FileEntry}
use innoextract_go.Gog.Apply.{apply}
use innoextract_go.Gog.Call.{parse_function_call, ends_name, ends_value, is_space}
use innoextract_go.Gog.Kept.{apply-Kept}
use innoextract_go.Gog.Print.{print_call, parse_function_call-print_call}
use innoextract_go.Gog.Slots.{Kept, Distinct, locations, chunks}
use innoextract_go.Loader.Encode.{Table, encode_table, offsets_of, marker, locate-encode_table}
use innoextract_go.Loader.Locate.{locate}
use innoextract_go.Setup.ReadVersion.{parse_version, before_zero, version_prefix, version_text}
use innoextract_go.Setup.VersionTrip.{parse_version-version_text}
use innoextract_go.Stream.Reader.{file_reader}
use innoextract_go.Tests.Sample.{archive, file, no_checksum, version}

abbrev table : Table
table = record {
  total_size = 64;
  exe_offset = 7;
  exe_uncompressed_size = 9;
  exe_crc = 5;
  header_offset = 124;
  data_offset = 300;
  reserved = 0;
  table_crc = 1;
}

abbrev front : Bytes
front = replicate 48 0 ++ marker 60

locate-encode_table_example :
    locate (some (file_reader (front ++ (encode_table table ++ [])))) ≡ ok (offsets_of table)
unfolding le_bytes
locate-encode_table_example =
    locate-encode_table front [] table (omega arith)
      (record {
        exe = omega arith;
        uncompressed = omega arith;
        header = omega arith;
        data_stream = omega arith;
      })
      refl

parse_version-version_text_example :
    parse_version
      (before_zero ((version_prefix ++ version_text version ++ b')' ∷ []) ++ 0 ∷ 7 ∷ []))
    ≡ ok version
parse_version-version_text_example = parse_version-version_text version (7 ∷ []) (record {
  major = (omega arith, omega arith);
  minor = omega arith;
  patch = omega arith;
  revision = omega arith;
  unicode = refl;
  known = refl;
})

-- f('a''b', '')
parse_function_call-print_call_example :
    parse_function_call (print_call (b'f' ∷ []) ((b'a' ∷ 39 ∷ b'b' ∷ []) ∷ [] ∷ [])) (b'f' ∷ [])
    ≡ (b'a' ∷ 39 ∷ b'b' ∷ []) ∷ [] ∷ []
unfolding ends_name ends_value is_space
parse_function_call-print_call_example =
    parse_function_call-print_call (b'f' ∷ []) ((b'a' ∷ 39 ∷ b'b' ∷ []) ∷ [] ∷ []) (refl, tt)

-- A file in two parts, by the markers of GOG Galaxy.
abbrev after_install : Bytes
after_install =
    b'a' ∷ b'f' ∷ b't' ∷ b'e' ∷ b'r' ∷ b'_' ∷ b'i' ∷ b'n' ∷ b's' ∷ b't' ∷ b'a' ∷ b'l' ∷ b'l' ∷ []

abbrev before_install : Bytes
before_install =
    b'b' ∷ b'e' ∷ b'f' ∷ b'o' ∷ b'r' ∷ b'e' ∷ b'_' ∷ b'i' ∷ b'n' ∷ b's' ∷ b't' ∷ b'a' ∷ b'l' ∷ b'l'
    ∷ []

abbrev part : ℕ → FileEntry
unfolding print_call
part location = record (file location no_checksum) {
  destination = b'p' ∷ [];
  after_install = print_call after_install ([] ∷ (b'p' ∷ []) ∷ (b'4' ∷ []) ∷ []);
}

abbrev galaxy : Archive
unfolding print_call
galaxy = record archive {
  files =
      record (part 0) {
        before_install = print_call before_install ([] ∷ (b'g' ∷ []) ∷ (b'2' ∷ []) ∷ []);
      }
      ∷ part 1
      ∷ [];
}

apply-Kept_example :
    Kept
      (locations galaxy.files)
      (chunks galaxy.data_entries)
      (apply galaxy).files
      (apply galaxy).data_entries
unfolding Distinct galaxy
apply-Kept_example =
    apply-Kept galaxy
      (record { inside = tt; distinct = tt }, (record { inside = tt; distinct = tt }, tt))

-- The second part is added to the first file.
abbrev additional : List FileEntry → List (List ℕ)
additional = map (λ f. f.additional_locations)

joined : additional (apply galaxy).files ≡ (1 ∷ []) ∷ [] ∷ []
unfolding apply galaxy equal update_at
joined = refl
