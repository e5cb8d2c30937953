-- ===== src/Gog/Parts.antt =====
-- `applyGalaxyParts` of internal/gog/gog.go: the files that are cut into parts. The archive's slices
-- are changed in place, so the loop keeps both of them.
use innoextract_go.Base.{
  ℕ, zero, suc, ◌+◌, ◌-◌, Bool, false, not, ◌||◌, Option, none, some, List, [], ◌∷◌, ◌++◌, length,
  get_elem?, leb, ltb, ◌==◌, if◌then◌else◌, Bytes, u64, update_at,
}
use innoextract_go.Format.{FileEntry, DataEntry, Checksum, checksum_none, checksum_md5, zlib_filter}
use innoextract_go.Gog.Call.{first_function_call}
use innoextract_go.Gog.Constraint.{collect_languages}
use innoextract_go.Strings.{parse_uint, decode_hex}

-- "before_install", "after_install", and the same with "_dependency".
abbrev dependency : Bytes
dependency = b'_' ∷ b'd' ∷ b'e' ∷ b'p' ∷ b'e' ∷ b'n' ∷ b'd' ∷ b'e' ∷ b'n' ∷ b'c' ∷ b'y' ∷ []

abbrev install : Bytes
install = b'_' ∷ b'i' ∷ b'n' ∷ b's' ∷ b't' ∷ b'a' ∷ b'l' ∷ b'l' ∷ []

abbrev before_name : Bytes
before_name = b'b' ∷ b'e' ∷ b'f' ∷ b'o' ∷ b'r' ∷ b'e' ∷ install

abbrev after_name : Bytes
after_name = b'a' ∷ b'f' ∷ b't' ∷ b'e' ∷ b'r' ∷ install

-- The arguments of the two markers of a file.
unfoldable pub start_info : FileEntry → List Bytes
unfolding first_function_call
start_info file =
    first_function_call file.before_install (before_name ∷ (before_name ++ dependency) ∷ [])

unfoldable pub part_info : FileEntry → List Bytes
unfolding first_function_call
part_info file =
    first_function_call file.after_install (after_name ∷ (after_name ++ dependency) ∷ [])

-- `parseMD5`, with the empty checksum where it finds none.
unfoldable pub md5_checksum : Option Bytes → Checksum
md5_checksum none = record { type = checksum_none; digest = [] }
md5_checksum (some digest) =
    if length digest == 16
    then record { type = checksum_md5; digest = digest }
    else record { type = checksum_none; digest = [] }

unfoldable pub parse_md5 : Bytes → Checksum
unfolding md5_checksum decode_hex
parse_md5 value = md5_checksum (decode_hex value)

abbrev named_or : Bytes → List Bytes → Bytes
named_or old [] = old
named_or old (name ∷ args) = if length name == 0 then old else name

-- A file with a start marker, by the arguments of the marker, the first of them apart.
unfoldable pub begin_file : Bytes → List Bytes → FileEntry → FileEntry
unfolding parse_md5
begin_file md5 args file = record file {
  destination = named_or file.destination args;
  checksum = parse_md5 md5;
  size = 0;
}

abbrev count_or_one : Option ℕ → ℕ
count_or_one none = 0
count_or_one (some n) = if n == 0 then 1 else n

-- How many parts the marker declares: 0 where the number cannot be read.
unfoldable pub declared_parts : List Bytes → ℕ
unfolding parse_uint
declared_parts (destination ∷ count ∷ args) = count_or_one (parse_uint count)
declared_parts args = 1

-- The state of the loop. `active` is `activeStart`, where it is not negative.
pub record Scan : Type 0 where
  pub files : List FileEntry
  pub entries : List DataEntry
  pub active : Option ℕ
  pub remaining : ℕ
  pub languages : List Bytes
  pub constrained : Bool

abbrev pub abandon : Scan → Scan
abandon s = record s { active = none; remaining = 0 }

-- The first half of a round, at the i-th file.
unfoldable pub begin_group : ℕ → List Bytes → Scan → Scan
unfolding begin_file declared_parts
begin_group i [] s = s
begin_group i (md5 ∷ args) s =
    let parts = declared_parts args in
    let started = record s { files = update_at i (begin_file md5 args) s.files } in
    if parts == 0 then abandon started else record started { active = some i; remaining = parts }

-- `containsLocation`
unfoldable pub contains_location : List ℕ → ℕ → Bool
contains_location [] location = false
contains_location (x ∷ xs) location = x == location || contains_location xs location

unfoldable pub add_location : ℕ → FileEntry → FileEntry
unfolding contains_location
add_location location file =
    if contains_location file.additional_locations location
    then file
    else record file { additional_locations = file.additional_locations ++ location ∷ [] }

abbrev pub inflated : ℕ → DataEntry → DataEntry
inflated size entry = record entry {
  uncompressed_size = size;
  file = record entry.file { filter = zlib_filter };
}

abbrev pub grown : ℕ → FileEntry → FileEntry
grown size file = record file { size = u64 (file.size + size) }

abbrev pub hidden : FileEntry → FileEntry
hidden file = record file { destination = [] }

-- A part of the file at `start`, found at the i-th file.
unfoldable pub accept_part : ℕ → ℕ → ℕ → ℕ → Scan → Scan
unfolding add_location
accept_part i start location size s =
    let files = update_at start (grown size) s.files in
    record s {
      remaining = s.remaining - 1;
      entries = update_at location (inflated size) s.entries;
      files =
          if i == start
          then files
          else update_at start (add_location location) (update_at i hidden files);
    }

-- The size that a part marker gives as its third argument.
unfoldable pub part_size : List Bytes → Option ℕ
unfolding parse_uint
part_size (md5 ∷ name ∷ size ∷ args) = parse_uint size
part_size args = none

-- A part marker with arguments, at a file with this location.
unfoldable pub take_part : ℕ → ℕ → List Bytes → Option ℕ → Scan → Scan
unfolding accept_part part_size
take_part i location info none s = abandon s
take_part i location info (some start) s =
    if s.remaining == 0 || leb (length s.entries) location
    then abandon s
    else elim (part_size info) [
      | none ↦ abandon s
      | some size ↦ accept_part i start location size s
    ]

-- The second half of a round.
unfoldable pub continue_group : ℕ → ℕ → Bool → List Bytes → Scan → Scan
unfolding take_part
continue_group i location started [] s = if started || not (s.remaining == 0) then abandon s else s
continue_group i location started (arg ∷ args) s = take_part i location (arg ∷ args) s.active s

-- The languages that a round adds: of the file that it ends with.
unfoldable pub note_file : Scan → Option FileEntry → Scan
unfolding collect_languages
note_file s none = s
note_file s (some file) = record s {
  languages =
      if length file.destination == 0
      then s.languages
      else collect_languages file.check s.languages;
  constrained = s.constrained || not (length file.languages == 0);
}

abbrev pub note_languages : ℕ → Scan → Scan
unfolding note_file
note_languages i s = note_file s (get_elem? s.files i)

-- A round, with the i-th file as the loop finds it. The markers, the location and the languages of a
-- file are never changed.
unfoldable pub scan_file : ℕ → FileEntry → Scan → Scan
unfolding start_info part_info begin_group continue_group note_file
scan_file i file s =
    let begun = begin_group i (start_info file) s in
    note_languages i
      (continue_group i file.location (ltb 0 (length (start_info file))) (part_info file) begun)

-- The rounds for the files from the i-th on.
unfoldable pub scan_files : ℕ → ℕ → Scan → Scan
unfolding scan_file
scan_files zero i s = s
scan_files (suc n) i s = elim (get_elem? s.files i) [
  | none ↦ s
  | some file ↦ scan_files n (i + 1) (scan_file i file s)
]

-- `applyGalaxyParts`
unfoldable pub apply_galaxy_parts : List FileEntry → List DataEntry → Scan
unfolding scan_files
apply_galaxy_parts files entries = scan_files (length files) 0 (record {
  files = files;
  entries = entries;
  active = none;
  remaining = 0;
  languages = [];
  constrained = false;
})
