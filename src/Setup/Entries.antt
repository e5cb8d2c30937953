-- ===== src/Setup/Entries.antt =====
-- The entries of the header of internal/setup/setup.go: those that are parsed, and those that are
-- passed over.
use innoextract_go.Base.{
  ℕ, ◌+◌, Bool, true, false, not, ◌&&◌, ◌||◌, [], ◌∷◌, length, ltb, if◌then◌else◌, ◌==◌, Bytes,
}
use innoextract_go.Fault.{corrupt}
use innoextract_go.Format.{
  Version, Checksum, checksum_none, checksum_sha1, checksum_sha256, Compression, stored, bzip2,
  zlib, plaintext, arc4_sha1, xchacha20, no_filter, instruction5309, DataEntry, FileEntry, Language,
  RegistryEntry,
}
use innoextract_go.Setup.Cursor.{
  Parser, ◌>>=◌, ◌>>◌, return, failure, when, times, uint, skip_string, skip, must_read, read_bits,
  has_bit,
}
use innoextract_go.Setup.Header.{skip_windows_range}
use innoextract_go.Setup.Text.{string_utf16}
use innoextract_go.Setup.Version.{version_at_least}

-- "default"
abbrev default_name : Bytes
default_name = 100 ∷ 101 ∷ 102 ∷ 97 ∷ 117 ∷ 108 ∷ 116 ∷ []

module _ (v : Version) (limit : ℕ) where
  -- `parseLanguage`
  unfoldable pub parse_language : Parser Language
  parse_language = do
    name ← if version_at_least v 4 0 0 then string_utf16 limit else return []
    display_name ← string_utf16 limit
    skip_string limit
    when (not (version_at_least v 6 6 0)) (skip_string limit)
    skip_string limit
    when (not (version_at_least v 6 6 0)) (skip_string limit)
    skip_string limit
    times 3 (skip_string limit)
    id ← uint (if version_at_least v 6 6 0 then 2 else 4)
    skip 4
    if version_at_least v 6 6 0 then skip 8 else skip 4
    skip 4
    when (not (version_at_least v 6 6 0)) (skip 4)
    when (version_at_least v 5 2 3) (skip 1)
    return (record {
      name = if length name == 0 then default_name else name;
      display_name = display_name;
      id = id;
      codepage = 1200;
    })

  -- `skipMessage`
  unfoldable pub skip_message : Parser (Unit {0})
  skip_message = skip_string limit >> skip_string limit >> skip 4

  -- `skipType`
  unfoldable pub skip_type : Parser (Unit {0})
  skip_type = times 2 (skip_string limit) >> skip_windows_range >> skip 1 >> skip 1 >> skip 8

  -- `skipComponent`
  unfoldable pub skip_component : Parser (Unit {0})
  skip_component =
      times 5 (skip_string limit)
      >> skip 8
      >> (if version_at_least v 6 7 0 then skip 1 else skip 4)
      >> skip 1
      >> skip_windows_range
      >> skip 1
      >> skip 8

  -- `skipTask`
  unfoldable pub skip_task : Parser (Unit {0})
  skip_task =
      times 6 (skip_string limit)
      >> (if version_at_least v 6 7 0 then skip 1 else skip 4)
      >> skip 1
      >> skip_windows_range
      >> skip 1

  -- `skipDirectory`
  unfoldable pub skip_directory : Parser (Unit {0})
  skip_directory =
      skip_string limit
      >> times 4 (skip_string limit)
      >> skip 4
      >> skip_windows_range
      >> skip 2
      >> skip 1

  -- `skipISSigKey`
  unfoldable pub skip_issig_key : Parser (Unit {0})
  skip_issig_key = times 3 (skip_string limit)

  -- The verification record of a file: a digest, which may be missing, and its kind.
  unfoldable pub parse_verification : Parser Checksum
  parse_verification =
      if not (version_at_least v 6 5 0)
      then return (record { type = checksum_none; digest = [] })
      else (times 5 (skip_string limit) >> skip_string limit >> must_read 32 >>= λ digest.
          uint 1 >>= λ verification.
          if ltb 2 verification
          then failure corrupt
          else if verification == 1
          then return (record { type = checksum_sha256; digest = digest })
          else return (record { type = checksum_none; digest = [] }))

  -- `parseFile`; its entries have one location.
  unfoldable pub parse_file : Parser FileEntry
  unfolding parse_verification
  parse_file = do
    source ← string_utf16 limit
    destination ← string_utf16 limit
    skip_string limit
    skip_string limit
    components ← string_utf16 limit
    tasks ← string_utf16 limit
    languages ← string_utf16 limit
    check ← string_utf16 limit
    after_install ← string_utf16 limit
    before_install ← string_utf16 limit
    checksum ← parse_verification
    skip_windows_range
    location ← uint 4
    skip 4
    size ← uint 8
    skip 2
    flags ← read_bits (if version_at_least v 6 7 0 then 8 else 5)
    skip 1
    return (record {
      source = source;
      destination = destination;
      languages = languages;
      components = components;
      tasks = tasks;
      check = check;
      before_install = before_install;
      after_install = after_install;
      location = location;
      additional_locations = [];
      size = size;
      checksum = checksum;
      temporary = has_bit flags 3;
      bits32 = has_bit flags 26;
      bits64 = has_bit flags 27;
      dont_copy = has_bit flags 19;
    })

  -- `parseRegistry`
  unfoldable pub parse_registry : Parser RegistryEntry
  parse_registry = do
    key ← string_utf16 limit
    name ← string_utf16 limit
    value ← string_utf16 limit
    times 4 (skip_string limit)
    skip_windows_range
    skip (4 + 2 + 1 + 2)
    return (record { key = key; name = name; value = value })

  -- `skipCondition`
  unfoldable pub skip_condition : Parser (Unit {0})
  skip_condition =
      times
        ((if version_at_least v 2 0 0 then 2 else 0)
          + (if version_at_least v 4 0 1 then 1 else 0)
          + (if version_at_least v 4 0 0 then 1 else 0)
          + (if version_at_least v 4 1 0 then 2 else 0))
        (skip_string limit)

  -- `skipIcon`
  unfoldable pub skip_icon : Parser (Unit {0})
  unfolding skip_condition
  skip_icon =
      times 6 (skip_string limit)
      >> skip_condition
      >> when (version_at_least v 5 3 5) (skip_string limit)
      >> when (version_at_least v 6 1 0) (skip 16)
      >> skip_windows_range
      >> skip (4 + 4 + 1 + 2)
      >> skip 1

  -- `skipINI`
  unfoldable pub skip_ini : Parser (Unit {0})
  unfolding skip_condition
  skip_ini = times 4 (skip_string limit) >> skip_condition >> skip_windows_range >> skip 1

  -- `skipDelete`
  unfoldable pub skip_delete : Parser (Unit {0})
  unfolding skip_condition
  skip_delete = skip_string limit >> skip_condition >> skip_windows_range >> skip 1

  -- `skipRun`
  unfoldable pub skip_run : Parser (Unit {0})
  unfolding skip_condition
  skip_run =
      times 7 (skip_string limit) >> skip_condition >> skip_windows_range >> skip (4 + 1) >> skip 2

  -- The `group` of `skipWizardAndDLLs`.
  unfoldable pub skip_images : Parser (Unit {0})
  skip_images =
      if version_at_least v 5 6 0
      then (uint 4 >>= λ n. times n (skip_string limit))
      else times 1 (skip_string limit)

unfoldable pub is_bzip2 : Compression → Bool
is_bzip2 bzip2 = true
is_bzip2 _ = false

unfoldable pub is_zlib : Compression → Bool
is_zlib zlib = true
is_zlib _ = false

-- `skipWizardAndDLLs`
unfoldable pub skip_wizard_and_dlls : Version → Compression → Bool → ℕ → Parser (Unit {0})
unfolding skip_images
skip_wizard_and_dlls v compression seven_zip limit =
    skip_images v limit
    >> skip_images v limit
    >> when (version_at_least v 6 7 0) (skip_images v limit)
    >> when (version_at_least v 6 6 0) (
        skip_images v limit
        >> skip_images v limit
        >> when (version_at_least v 6 7 0) (skip_images v limit))
    >> when (is_bzip2 compression || (is_zlib compression && version_at_least v 4 2 6))
        (skip_string limit)
    >> when (version_at_least v 6 5 0 && seven_zip) (skip_string limit)

-- The checksum of a data entry, which may be missing without an error.
unfoldable pub parse_data_checksum : Version → Parser Checksum
parse_data_checksum v =
    if version_at_least v 6 4 0
    then (must_read 32 >>= λ digest. return (record { type = checksum_sha256; digest = digest }))
    else (must_read 20 >>= λ digest. return (record { type = checksum_sha1; digest = digest }))

-- The versions that store a sign mode, which count it among the flags' bytes as well.
abbrev pub has_sign_mode : Version → Bool
has_sign_mode v = version_at_least v 6 3 0 && not (version_at_least v 6 4 3)

-- `readDataFlags`
unfoldable pub read_data_flags : Version → Parser ℕ
read_data_flags v = read_bits (if has_sign_mode v then 2 else 1)

-- `parseDataEntry`
unfoldable pub parse_data_entry : Version → Compression → Parser DataEntry
unfolding parse_data_checksum read_data_flags
parse_data_entry v compression = do
  first_slice ← uint 4
  last_slice ← uint 4
  chunk_offset ← uint (if version_at_least v 6 5 2 then 8 else 4)
  file_offset ← uint 8
  file_size ← uint 8
  chunk_size ← uint 8
  checksum ← parse_data_checksum v
  skip 8
  skip 8
  flags ← read_data_flags v
  when (has_sign_mode v) (skip 1)
  return (record {
    chunk = record {
      first_slice = first_slice;
      last_slice = last_slice;
      sort_offset = chunk_offset;
      offset = chunk_offset;
      size = chunk_size;
      compression = if has_bit flags 4 then compression else stored;
      encryption =
          if has_bit flags 3
          then (if version_at_least v 6 4 0 then xchacha20 else arc4_sha1)
          else plaintext;
    };
    file = record {
      offset = file_offset;
      size = file_size;
      checksum = checksum;
      filter = if has_bit flags 2 then instruction5309 else no_filter;
    };
    uncompressed_size = file_size;
  })
