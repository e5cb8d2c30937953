-- ===== src/Api/Archive.antt =====
-- archive.go, types.go and extractor.go: `Open`, and the methods of an `Archive`.
use innoextract_go.Base.{
  ℕ, ◌+◌, Bool, true, false, Option, none, some, List, [], ◌∷◌, map, get_elem?, ◌==◌, if◌then◌else◌,
  Bytes,
}
use innoextract_go.Api.Settings.{Settings, Setting, default_settings, apply_settings}
use innoextract_go.Crypto.Primitives.{Primitives}
use innoextract_go.Fault.{Fault, Result, ok, err, ◌>>=◌, invalid_format}
use innoextract_go.Format.{
  Archive, Checksum, ChecksumType, checksum_none, checksum_adler32, checksum_crc32, checksum_md5,
  checksum_sha1, checksum_sha256, DataEntry, Encryption, plaintext, FileEntry, Language,
}
use innoextract_go.Gog.Apply.{apply, game_id}
use innoextract_go.PathUtil.{clean}
use innoextract_go.Setup.Parse.{parse}
use innoextract_go.Setup.ReadVersion.{version_text}
use innoextract_go.Stream.Chunk.{Decoders}
use innoextract_go.Stream.Extract.{FileResult, Failure, Outcome}
use innoextract_go.Stream
use innoextract_go.Stream.Reader.{ReaderAt}
use innoextract_go.Strings.{encode_hex}

-- `Archive`: the reader and the parsed data are nil in one that `Open` did not return.
pub record OpenArchive : Type 0 where
  pub reader : Option ReaderAt
  pub settings : Settings
  pub parsed : Option Archive

pub record Info : Type 0 where
  pub data_version : Bytes
  pub app_name : Bytes
  pub app_version : Bytes
  pub app_id : Bytes
  pub publisher : Bytes
  pub languages : List Language
  pub gog_game_id : Bytes
  pub encrypted : Bool

-- The strings behind the constants of `ChecksumType`.
pub data PublicChecksum : Type 0 where
  public_none public_adler32 public_crc32 public_md5 public_sha1 public_sha256 : PublicChecksum

pub record Entry : Type 0 where
  pub index : ℕ
  pub path : Bytes
  pub size : ℕ
  pub compressed_size : ℕ
  pub checksum : Bytes
  pub checksum_type : PublicChecksum
  pub languages : Bytes
  pub components : Bytes
  pub tasks : Bytes
  pub check : Bytes
  pub temporary : Bool
  pub bits32 : Bool
  pub bits64 : Bool
  pub encrypted : Bool

pub record File : Type 0 where
  pub entry : Entry
  pub content : Bytes
  pub sha256 : Bytes

pub record EntryError : Type 0 where
  pub entry : Entry
  pub error : Option Fault

-- The error that `Extract` returns.
pub data ExtractFault : Type 0 where
  plain : Fault → ExtractFault
  -- `ExtractError`
  failed : List EntryError → ExtractFault

pub record Extracted : Type 0 where
  pub files : List File
  pub error : Option ExtractFault

-- `publicChecksumType`
unfoldable pub public_checksum_type : ChecksumType → PublicChecksum
public_checksum_type checksum_adler32 = public_adler32
public_checksum_type checksum_crc32 = public_crc32
public_checksum_type checksum_md5 = public_md5
public_checksum_type checksum_sha1 = public_sha1
public_checksum_type checksum_sha256 = public_sha256
public_checksum_type _ = public_none

-- `Encryption != Plaintext`
unfoldable pub is_encrypted_chunk : Encryption → Bool
is_encrypted_chunk plaintext = false
is_encrypted_chunk _ = true

abbrev entry_checksum : Checksum → DataEntry → Checksum
entry_checksum checksum stored = elim checksum.type [
  | checksum_none ↦ stored.file.checksum
  | _ ↦ checksum
]

unfoldable pub describe_data : FileEntry → Option DataEntry → Entry → Entry
unfolding public_checksum_type is_encrypted_chunk encode_hex
describe_data f none entry = entry
describe_data f (some stored) entry =
    let checksum = entry_checksum f.checksum stored in
    record entry {
      size = if entry.size == 0 then stored.uncompressed_size else entry.size;
      compressed_size = stored.chunk.size;
      encrypted = is_encrypted_chunk stored.chunk.encryption;
      checksum_type = public_checksum_type checksum.type;
      checksum = encode_hex checksum.digest;
    }

-- `entry`, of the file at the index.
unfoldable pub entry_of : Archive → ℕ → FileEntry → Entry
unfolding describe_data clean
entry_of a index f = describe_data f (get_elem? a.data_entries f.location) (record {
  index = index;
  path = clean f.destination;
  size = f.size;
  compressed_size = 0;
  checksum = [];
  checksum_type = public_none;
  languages = f.languages;
  components = f.components;
  tasks = f.tasks;
  check = f.check;
  temporary = f.temporary;
  bits32 = f.bits32;
  bits64 = f.bits64;
  encrypted = false;
})

-- `Info{}`
abbrev no_info : Info
no_info = record {
  data_version = [];
  app_name = [];
  app_version = [];
  app_id = [];
  publisher = [];
  languages = [];
  gog_game_id = [];
  encrypted = false;
}

-- `Info`; a nil archive is `none`.
unfoldable pub info : Option OpenArchive → Info
unfolding version_text
info none = no_info
info (some o) = elim o.parsed [
  | none ↦ no_info
  | some a ↦ record {
    data_version = version_text a.version;
    app_name = a.header.app_name;
    app_version = a.header.app_version;
    app_id = a.header.app_id;
    publisher = a.header.publisher;
    languages = a.languages;
    gog_game_id = game_id a.registry;
    encrypted = a.header.encrypted;
  }
]

unfoldable pub entries_from : Archive → ℕ → List FileEntry → List Entry
unfolding entry_of
entries_from a i [] = []
entries_from a i (f ∷ files) = entry_of a i f ∷ entries_from a (i + 1) files

-- `Files`
unfoldable pub list_files : Option OpenArchive → List Entry
unfolding entries_from
list_files none = []
list_files (some o) = elim o.parsed [ none ↦ [] | some a ↦ entries_from a 0 a.files ]

-- "<archive>"
abbrev archive_path : Bytes
archive_path = b'<' ∷ b'a' ∷ b'r' ∷ b'c' ∷ b'h' ∷ b'i' ∷ b'v' ∷ b'e' ∷ b'>' ∷ []

-- The entry of a failure whose index names no file.
abbrev archive_entry : ℕ → Entry
archive_entry index = record {
  index = index;
  path = archive_path;
  size = 0;
  compressed_size = 0;
  checksum = [];
  checksum_type = public_none;
  languages = [];
  components = [];
  tasks = [];
  check = [];
  temporary = false;
  bits32 = false;
  bits64 = false;
  encrypted = false;
}

unfoldable pub failed_entry : Archive → ℕ → Option FileEntry → Entry
unfolding entry_of
failed_entry a index none = archive_entry index
failed_entry a index (some f) = entry_of a index f

unfoldable pub entry_error : Archive → Failure → EntryError
unfolding failed_entry
entry_error a failure = record {
  entry = failed_entry a failure.file_index (get_elem? a.files failure.file_index);
  error = failure.error;
}

-- The error that the failures make up, if there are any.
unfoldable pub failures_error : Archive → List Failure → Option ExtractFault
unfolding entry_error
failures_error a [] = none
failures_error a (failure ∷ failures) = some (failed (map (entry_error a) (failure ∷ failures)))

module _ (p : Primitives) (d : Decoders) where
  -- `Open`; a nil reader is `none`. `crc32` is `crc32.ChecksumIEEE`.
  unfoldable pub open_archive :
      (Bytes → ℕ) → Option ReaderAt → List (Option Setting) → Result OpenArchive
  unfolding apply_settings default_settings parse apply
  open_archive crc32 none settings = err invalid_format
  open_archive crc32 (some r) settings = do
    s ← apply_settings settings default_settings
    a ← parse crc32 d (some r) s.header_limit
    ok (record { reader = some r; settings = s; parsed = some (apply a) })

  -- A round of the loop over the results.
  unfoldable pub publish_one : Archive → FileResult → Option FileEntry → List File → List File
  unfolding entry_of encode_hex
  publish_one a result none rest = rest
  publish_one a result (some f) rest =
      record {
        entry = entry_of a result.file_index f;
        content = result.content;
        sha256 = encode_hex (p.sha256 result.content);
      }
      ∷ rest

  unfoldable pub published : Archive → List FileResult → List File
  unfolding publish_one
  published a [] = []
  published a (result ∷ results) =
      publish_one a result (get_elem? a.files result.file_index) (published a results)

  unfoldable pub publish : Archive → Bool → Result Outcome → Extracted
  unfolding published failures_error
  publish a verify_only (err e) = record { files = []; error = some (plain e) }
  publish a verify_only (ok out) = record {
    files = if verify_only then [] else published a out.results;
    error = failures_error a out.failures;
  }

  unfoldable pub extract_parsed : Bool → Settings → Option ReaderAt → Option Archive → Extracted
  unfolding publish Stream.Extract.extract
  extract_parsed verify_only s (some r) (some a) = publish a verify_only (
      Stream.Extract.extract p d (some r) (some a)
        (record { password = s.password; memory_limit = s.memory_limit; slices = s.slices })
        verify_only)
  extract_parsed verify_only s _ _ = record { files = []; error = some (plain invalid_format) }

  -- `extract`, of an archive with its reader and its data; without one of them the error says so.
  unfoldable pub extract_archive : Bool → Option OpenArchive → Extracted
  unfolding extract_parsed
  extract_archive verify_only none = record { files = []; error = some (plain invalid_format) }
  extract_archive verify_only (some o) = extract_parsed verify_only o.settings o.reader o.parsed

  -- `Extract`
  abbrev pub extract_files : Option OpenArchive → Extracted
  extract_files o = extract_archive false o

  -- `Verify`
  unfoldable pub verify : Option OpenArchive → Option ExtractFault
  unfolding extract_archive
  verify o = (extract_archive true o).error

  abbrev extract_opened : Result OpenArchive → Extracted
  unfolding extract_archive
  extract_opened (err e) = record { files = []; error = some (plain e) }
  extract_opened (ok o) = extract_files (some o)

  -- The function `Extract`
  unfoldable pub extract_all : (Bytes → ℕ) → Option ReaderAt → List (Option Setting) → Extracted
  unfolding open_archive extract_archive
  extract_all crc32 r settings = extract_opened (open_archive crc32 r settings)
