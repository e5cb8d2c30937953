-- ===== src/Tests/Parses.antt =====
-- Streams of the setup data.
use innoextract_go.Base.{
  ℕ, ◌+◌, ◌≡◌, ◌≤◌, ◌⊎◌, ◌%◌, refl, arith, true, false, List, [], ◌∷◌, ◌++◌, replicate, length,
  Bytes, le_value, le_bytes, inl, inr, not, ◌^◌,
}
use innoextract_go.Fault.{ok}
use innoextract_go.Format.{
  stored, plaintext, no_filter, checksum_sha256, checksum_pbkdf2_sha256_xchacha20, DataEntry,
  Header,
}
use innoextract_go.Setup.Block.{unwrap_block_chunks}
use innoextract_go.Setup.Block.Chunks.{last, unwrap_block_chunks-Wrapped}
use innoextract_go.Setup.Cursor.{
  Cursor, start, ◌>>=◌, return, uint, read, skip, must_read, read_bits, has_bit, collect, ◌>>◌,
  when, times, string_raw, skip_string,
}
use innoextract_go.Setup.Entries.{parse_data_entry, skip_wizard_and_dlls, is_bzip2, is_zlib}
use innoextract_go.Setup.Header.{parse_header, map_compression}
use innoextract_go.Setup.Text.{
  string_utf16, append_zero, units, decode_utf16, string_of, encode_utf8,
}
use innoextract_go.Setup.Flags.{header_flag_names, encryption_bit, read_header_flags, is_encrypted}
use innoextract_go.Setup.Encrypted.{flag_before, parse_header-encrypted}
use innoextract_go.Setup.Flags.Encryption.{flag_width}
use innoextract_go.Setup.PrimaryStream.{Primary, parse_primary, parse_secondary}
use innoextract_go.Setup.TextTrip.{
  IsScalar, text_units, unit_bytes, encode_text, string_utf16-encode_text,
}
use innoextract_go.PathUtil.Split.{All}
use innoextract_go.Setup.Version.{
  version_at_least, version_before, version_at_least_mono, version_at_least-not-version_before,
}
use innoextract_go.Tests.Sample.{version}

-- A checksum of 32 bits: the length.
abbrev pub length32 : Bytes → ℕ
length32 bs = length bs % 2 ^ 32

unwrap_block_chunks-Wrapped_example :
    unwrap_block_chunks length32 (le_bytes 4 2 ++ (5 ∷ 6 ∷ [])) ≡ ok (5 ∷ 6 ∷ [])
unwrap_block_chunks-Wrapped_example =
    unwrap_block_chunks-Wrapped length32 (λ bs. omega arith) (5 ∷ 6 ∷ [])
      (le_bytes 4 2 ++ (5 ∷ 6 ∷ [])) (last (5 ∷ 6 ∷ []) (omega arith) (omega arith))

at_6_4_2 : version_at_least version 6 4 2 ≡ true
unfolding version_at_least
at_6_4_2 = refl

version_at_least_mono_example : version_at_least version 6 3 9 ≡ true
version_at_least_mono_example =
    version_at_least_mono version 6 4 2 6 3 9 at_6_4_2 (inr (refl, inl (omega arith)))

version_at_least-not-version_before_example :
    version_at_least version 6 4 2 ≡ not (version_before version 6 4 2 0)
version_at_least-not-version_before_example = version_at_least-not-version_before version 6 4 2

-- A data entry of version 6.4.3, all of it zero.
abbrev zero_entry : DataEntry
zero_entry = record {
  chunk = record {
    first_slice = 0;
    last_slice = 0;
    sort_offset = 0;
    offset = 0;
    size = 0;
    compression = stored;
    encryption = plaintext;
  };
  file = record {
    offset = 0;
    size = 0;
    checksum = record { type = checksum_sha256; digest = replicate 32 0 };
    filter = no_filter;
  };
  uncompressed_size = 0;
}

abbrev behind : ℕ → Cursor
behind n = record { b = replicate n 0; pos = n }

parses_secondary :
    parse_secondary version stored 1 (start (replicate 85 0)) ≡ ok (zero_entry ∷ [], behind 85)
unfolding parse_secondary parse_data_entry ◌>>=◌ uint read return collect version_at_least must_read
    ◌>>◌ skip read_bits when le_value has_bit
parses_secondary = refl

-- A header of version 6.4.3 with empty strings and no entries, all of it zero.
abbrev pub zero_primary : Primary
zero_primary = record {
  header = record {
    app_name = [];
    app_version = [];
    app_id = [];
    publisher = [];
    base_filename = [];
    slices_per_disk = 0;
    compression = stored;
    encrypted = false;
    unsupported_encryption = false;
    password = record { type = checksum_pbkdf2_sha256_xchacha20; digest = replicate 4 0 };
    password_salt = replicate 44 0;
  };
  counts = record {
    languages = 0;
    messages = 0;
    permissions = 0;
    types = 0;
    components = 0;
    tasks = 0;
    directories = 0;
    issig_keys = 0;
    files = 0;
    data_entries = 0;
    icons = 0;
    inis = 0;
    registries = 0;
    deletes = 0;
    uninstall_deletes = 0;
    runs = 0;
    uninstall_runs = 0;
    seven_zip = false;
  };
  languages = [];
  files = [];
  registry = [];
}

parses_primary :
    parse_primary version false 9 (start (replicate 333 0)) ≡ ok (zero_primary, behind 333)
unfolding parse_primary parse_header ◌>>=◌ ◌>>◌ return uint read skip collect times when
    string_utf16 string_raw skip_string version_at_least version_before must_read read_bits le_value
    has_bit read_header_flags is_encrypted header_flag_names encryption_bit skip_wizard_and_dlls
    is_bzip2 map_compression is_zlib
parses_primary = refl

-- The zero behind a string of an odd length is written over the byte that follows it.
odd_string :
    string_utf16 9 (start (1 ∷ 0 ∷ 0 ∷ 0 ∷ 65 ∷ 66 ∷ []))
    ≡ ok (65 ∷ [], record { b = 1 ∷ 0 ∷ 0 ∷ 0 ∷ 65 ∷ 0 ∷ []; pos = 5 })
unfolding string_utf16 ◌>>=◌ ◌>>◌ return string_raw uint read le_value append_zero units
    decode_utf16 string_of encode_utf8
odd_string = refl

-- The letter A, the sign of the euro and a face, the last of them two units.
abbrev signs : List ℕ
signs = 65 ∷ 8364 ∷ 128512 ∷ []

signs-IsScalar : All IsScalar signs
signs-IsScalar = (inl (omega arith), (inl (omega arith), (inr (omega arith, omega arith), tt)))

eight_bytes : length (unit_bytes (text_units signs)) ≡ 8
unfolding text_units unit_bytes
eight_bytes = refl

string_utf16-encode_text_example :
    string_utf16 9 (record { b = 7 ∷ (encode_text signs ++ (1 ∷ 2 ∷ [])); pos = 1 })
    ≡ ok (
      string_of signs,
      record { b = 7 ∷ (encode_text signs ++ (1 ∷ 2 ∷ [])); pos = 1 + length (encode_text signs) },
    )
string_utf16-encode_text_example =
    string_utf16-encode_text 9 signs (7 ∷ []) (1 ∷ 2 ∷ []) signs-IsScalar
      (omega (arith, eight_bytes)) (omega (arith, eight_bytes))

-- A block with the flag "EncryptionUsed" and nothing else, and where its header ends.
abbrev flagged : Bytes
flagged = replicate 322 0 ++ (128 ∷ replicate 10 0)

abbrev behind_header : Cursor
behind_header = record { b = flagged; pos = 325 }

abbrev encrypted_header : Header
encrypted_header = record zero_primary.header { encrypted = true; unsupported_encryption = true }

parses_header :
    parse_header version false 9 (start flagged)
    ≡ ok ((encrypted_header, zero_primary.counts), behind_header)
unfolding parse_header ◌>>=◌ ◌>>◌ return uint read skip collect times when string_utf16 string_raw
    skip_string version_at_least version_before must_read read_bits le_value has_bit
    read_header_flags is_encrypted header_flag_names encryption_bit map_compression
parses_header = refl

parse_header-encrypted_example :
    (encrypted_header.unsupported_encryption ≡ encrypted_header.encrypted)
    × (((version_at_least version 6 5 0 ≡ true) × (encrypted_header.encrypted ≡ false))
        ⊎ ((version_at_least version 6 5 0 ≡ false)
            × (flag_width version ≤ 325)
            × (325 ≤ length flagged)
            × (encrypted_header.encrypted ≡ flag_before version behind_header)))
parse_header-encrypted_example =
    parse_header-encrypted version false 9 (start flagged) behind_header refl parses_header
