-- ===== src/Setup/PrimaryStream.antt =====
-- The two streams that `Parse` of internal/setup/setup.go reads: the header with the entries behind
-- it, and the data entries.
use innoextract_go.Base.{ℕ, ◌+◌, Bool, List}
use innoextract_go.Format.{
  Header, Version, Language, FileEntry, DataEntry, RegistryEntry, Compression,
}
use innoextract_go.Setup.Cursor.{Parser, ◌>>=◌, ◌>>◌, return, times, collect, skip_string}
use innoextract_go.Setup.Entries.{
  parse_language, skip_message, skip_type, skip_component, skip_task, skip_directory,
  skip_issig_key, parse_file, skip_icon, skip_ini, parse_registry, skip_delete, skip_run,
  skip_wizard_and_dlls, parse_data_entry,
}
use innoextract_go.Setup.Header.{Counts, parse_header}

-- What the primary stream gives.
pub record Primary : Type 0 where
  pub header : Header
  pub counts : Counts
  pub languages : List Language
  pub files : List FileEntry
  pub registry : List RegistryEntry

unfoldable pub parse_primary : Version → Bool → ℕ → Parser Primary
parse_primary v outer_encrypted limit = do
  parsed ← parse_header v outer_encrypted limit
  let counts = parsed.1
  languages ← collect counts.languages (parse_language v limit)
  times counts.messages (skip_message v limit)
  times counts.permissions (skip_string limit)
  times counts.types (skip_type v limit)
  times counts.components (skip_component v limit)
  times counts.tasks (skip_task v limit)
  times counts.directories (skip_directory v limit)
  times counts.issig_keys (skip_issig_key v limit)
  files ← collect counts.files (parse_file v limit)
  times counts.icons (skip_icon v limit)
  times counts.inis (skip_ini v limit)
  registry ← collect counts.registries (parse_registry v limit)
  times (counts.deletes + counts.uninstall_deletes) (skip_delete v limit)
  times (counts.runs + counts.uninstall_runs) (skip_run v limit)
  skip_wizard_and_dlls v parsed.0.compression counts.seven_zip limit
  return (record {
    header = parsed.0;
    counts = counts;
    languages = languages;
    files = files;
    registry = registry;
  })

unfoldable pub parse_secondary : Version → Compression → ℕ → Parser (List DataEntry)
parse_secondary v compression n = collect n (parse_data_entry v compression)
