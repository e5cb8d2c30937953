-- ===== src/Setup/Header.antt =====
-- `parseHeader` of internal/setup/setup.go.
use innoextract_go.Base.{ℕ, ◌+◌, Bool, false, not, [], length, if◌then◌else◌, ◌==◌, Bytes}
use innoextract_go.Format.{
  Version, Header, Checksum, checksum_none, checksum_sha1, checksum_pbkdf2_sha256_xchacha20,
  Compression, stored, zlib, bzip2, lzma1, lzma2, unknown_compression,
}
use innoextract_go.Setup.Cursor.{
  Parser, ◌>>=◌, ◌>>◌, return, when, times, read, uint, string_raw, skip_string, skip, must_read,
  read_count, drop_value,
}
use innoextract_go.Setup.Flags.{read_header_flags, is_encrypted}
use innoextract_go.Setup.Text.{string_utf16}
use innoextract_go.Setup.Version.{version_at_least, version_before}

-- `counts`
pub record Counts : Type 0 where
  pub languages : ℕ
  pub messages : ℕ
  pub permissions : ℕ
  pub types : ℕ
  pub components : ℕ
  pub tasks : ℕ
  pub directories : ℕ
  pub issig_keys : ℕ
  pub files : ℕ
  pub data_entries : ℕ
  pub icons : ℕ
  pub inis : ℕ
  pub registries : ℕ
  pub deletes : ℕ
  pub uninstall_deletes : ℕ
  pub runs : ℕ
  pub uninstall_runs : ℕ
  pub seven_zip : Bool

-- `mapCompression`
unfoldable pub map_compression : ℕ → Compression
map_compression v =
    if v == 0
    then stored
    else if v == 1
    then zlib
    else if v == 2
    then bzip2
    else if v == 3
    then lzma1
    else if v == 4
    then lzma2
    else unknown_compression

-- The strings that a header keeps.
pub record Texts : Type 0 where
  pub app_name : Bytes
  pub app_id : Bytes
  pub publisher : Bytes
  pub app_version : Bytes
  pub base_filename : Bytes
  pub seven_zip : Bool

-- `stringRaw` of the 7-Zip library, from 6.5.0.
unfoldable pub seven_zip_library : Version → ℕ → Parser Bool
seven_zip_library v limit =
    if version_at_least v 6 5 0
    then (string_raw limit >>= λ library. return (not (length library == 0)))
    else return false

-- The strings up to the compiled code.
unfoldable pub parse_texts : Version → ℕ → Parser Texts
unfolding seven_zip_library
parse_texts v limit = do
  app_name ← string_utf16 limit
  drop_value (string_utf16 limit)
  app_id ← string_utf16 limit
  drop_value (string_utf16 limit)
  publisher ← string_utf16 limit
  times 4 (skip_string limit)
  app_version ← string_utf16 limit
  times 2 (skip_string limit)
  base_filename ← string_utf16 limit
  times (4 + 2 + 1 + 4 + 4) (skip_string limit)
  when (version_at_least v 5 6 1) (times 2 (skip_string limit))
  when (version_at_least v 6 3 0) (times 2 (skip_string limit))
  when (version_at_least v 6 4 2) (skip_string limit)
  seven_zip ← seven_zip_library v limit
  when (version_at_least v 6 7 0) (times 5 (skip_string limit))
  times (3 + 1) (skip_string limit)
  return (record {
    app_name = app_name;
    app_id = app_id;
    publisher = publisher;
    app_version = app_version;
    base_filename = base_filename;
    seven_zip = seven_zip;
  })

unfoldable pub parse_counts : Version → Bool → Parser Counts
parse_counts v seven_zip = do
  languages ← read_count
  messages ← read_count
  permissions ← read_count
  types ← read_count
  components ← read_count
  tasks ← read_count
  directories ← read_count
  issig_keys ← if version_at_least v 6 5 0 then read_count else return 0
  files ← read_count
  data_entries ← read_count
  icons ← read_count
  inis ← read_count
  registries ← read_count
  deletes ← read_count
  uninstall_deletes ← read_count
  runs ← read_count
  uninstall_runs ← read_count
  return (record {
    languages = languages;
    messages = messages;
    permissions = permissions;
    types = types;
    components = components;
    tasks = tasks;
    directories = directories;
    issig_keys = issig_keys;
    files = files;
    data_entries = data_entries;
    icons = icons;
    inis = inis;
    registries = registries;
    deletes = deletes;
    uninstall_deletes = uninstall_deletes;
    runs = runs;
    uninstall_runs = uninstall_runs;
    seven_zip = seven_zip;
  })

-- `skipWindowsRange`
abbrev pub skip_windows_range : Parser (Unit {0})
skip_windows_range = skip 20

-- The colours, sizes and styles between the counts and the password.
unfoldable pub skip_appearance : Version → Parser (Unit {0})
skip_appearance v =
    when (version_before v 6 4 0 1) (skip 4 >> skip 4)
    >> (if version_at_least v 6 6 0
        then skip 4 >> skip 4 >> skip 1
        else when (version_at_least v 6 0 0) (skip 1 >> skip 4 >> skip 4))
    >> when (version_at_least v 5 5 7) (skip 1)
    >> when (version_at_least v 6 5 2) (skip 4 >> skip 4)
    >> when (version_at_least v 6 7 0) (skip 4)
    >> when (version_at_least v 6 6 0) (skip 4 >> skip 4)
    >> when (version_at_least v 6 7 0) (skip 4)
    >> when (version_at_least v 6 6 1) (skip 1)
    >> when (version_at_least v 6 7 0) (skip 1 >> skip 1)

-- The password's checksum, which may be missing without an error, and its salt.
unfoldable pub parse_password : Version → Parser (Checksum × Bytes)
parse_password v =
    if version_at_least v 6 5 0
    then return (record { type = checksum_none; digest = [] }, [])
    else if version_at_least v 6 4 0
    then (must_read 4 >>= λ digest. read 44 >>= λ salt.
        return (record { type = checksum_pbkdf2_sha256_xchacha20; digest = digest }, salt))
    else (must_read 20 >>= λ digest.
        read 8 >>= λ salt. return (record { type = checksum_sha1; digest = digest }, salt))

-- The end of the header: the slices per disk, the compression and the flags.
unfoldable pub parse_tail : Version → Parser (ℕ × (Compression × ℕ))
parse_tail v = do
  skip 8
  slices_per_disk ← uint 4
  skip 1
  skip 1
  skip 1
  when (version_at_least v 5 7 0) (skip 1)
  skip 2
  compression ← uint 1
  skip 2
  when (version_at_least v 5 5 0) (skip 8)
  flags ← read_header_flags v
  return (slices_per_disk, (map_compression compression, flags))

-- `parseHeader`
unfoldable pub parse_header : Version → Bool → ℕ → Parser (Header × Counts)
unfolding parse_texts parse_counts skip_appearance parse_password parse_tail
parse_header v outer_encrypted limit = do
  texts ← parse_texts v limit
  counts ← parse_counts v texts.seven_zip
  skip_windows_range
  skip_appearance v
  password ← parse_password v
  rest ← parse_tail v
  let encrypted = if version_at_least v 6 5 0 then outer_encrypted else is_encrypted v rest.1.1
  return (
    record {
      app_name = texts.app_name;
      app_version = texts.app_version;
      app_id = texts.app_id;
      publisher = texts.publisher;
      base_filename = texts.base_filename;
      slices_per_disk = rest.0;
      compression = rest.1.0;
      encrypted = encrypted;
      unsupported_encryption = encrypted;
      password = password.0;
      password_salt = password.1;
    },
    counts,
  )
