-- ===== src/Loader/Resource.antt =====
-- The resources of an executable in internal/loader/loader.go: `section`, `rvaToFile`,
-- `readResourceDir`, `resourceEntry`, `addRVA`, `findResource` and `resourceOffsetTable`.
use innoextract_go.Base.{
  ℕ, zero, suc, ◌+◌, ◌-◌, ◌*◌, ◌^◌, ◌%◌, Bool, not, ◌&&◌, ◌||◌, Option, none, some, List, [], ◌∷◌,
  length, take, drop, ltb, leb, ◌==◌, if◌then◌else◌, Bytes, equal, max_uint32,
}
use innoextract_go.Fault.{Result, ok, err, ◌>>=◌, ◌>>◌, fail_if, corrupt, invalid_format}
use innoextract_go.Format.{Offsets}
use innoextract_go.Loader.Table.{read_exact, u16_at, u32_at, load_offset_table, found}
use innoextract_go.Stream.Reader.{ReaderAt}

pub record Section : Type 0 where
  pub va : ℕ
  pub virtual_size : ℕ
  pub raw : ℕ
  pub raw_size : ℕ

-- `fileOffset`
unfoldable pub file_offset : Section → ℕ → Option ℕ
file_offset s rva =
    let span = if ltb s.virtual_size s.raw_size then s.raw_size else s.virtual_size in
    if ltb rva s.va || leb span (rva - s.va)
    then none
    else if ltb max_uint32 (s.raw + (rva - s.va))
    then none
    else some (s.raw + (rva - s.va))

-- `rvaToFile`
unfoldable pub rva_to_file : List Section → ℕ → Option ℕ
unfolding file_offset
rva_to_file [] rva = none
rva_to_file (s ∷ sections) rva = elim (file_offset s rva) [
  | none ↦ rva_to_file sections rva
  | some off ↦ some off
]

-- The number of entries that a resource directory declares.
abbrev pub entry_count : Bytes → ℕ
entry_count dir = u16_at dir 12 + u16_at dir 14

-- `readResourceDir`
unfoldable pub read_resource_dir : ReaderAt → ℕ → Result Bytes
unfolding read_exact
read_resource_dir r off = do
  h ← read_exact r off 16
  fail_if (ltb 4096 (entry_count h)) corrupt
  read_exact r off (16 + entry_count h * 8)

-- `x & 0x80000000 != 0`, and `x & 0x7fffffff`, of a uint32.
abbrev pub is_high : ℕ → Bool
is_high x = leb (2 ^ 31) x

abbrev pub low31 : ℕ → ℕ
low31 x = x % 2 ^ 31

-- The loop of `resourceEntry` over the entries that are left, the first at `p`.
unfoldable pub resource_entry_from : ℕ → ℕ → Bytes → ℕ → Option ℕ
resource_entry_from zero p dir id = none
resource_entry_from (suc n) p dir id =
    let rest = resource_entry_from n (p + 8) dir id in
    if not (is_high (u32_at dir p)) && u32_at dir p == id then some (u32_at dir (p + 4)) else rest

-- `resourceEntry`
unfoldable pub resource_entry : Bytes → ℕ → Option ℕ
unfolding resource_entry_from
resource_entry dir id = resource_entry_from (entry_count dir) 16 dir id

-- `addRVA`
unfoldable pub add_rva : ℕ → ℕ → Option ℕ
add_rva root rel = if ltb max_uint32 (root + rel) then none else some (root + rel)

-- The loop over the languages: the first entry, unless one has the language 0x409.
unfoldable pub language_from : ℕ → ℕ → Bytes → Option ℕ → Option ℕ
language_from zero p dir first = first
language_from (suc n) p dir first =
    let here = u32_at dir (p + 4) in
    let rest = language_from n (p + 8) dir (elim first [ none ↦ some here | some x ↦ some x ]) in
    if low31 (u32_at dir p) == 0x409 then some here else rest

unfoldable pub language_entry : Bytes → Option ℕ
unfolding language_from
language_entry dir = language_from (entry_count dir) 16 dir none

-- A directory below the root, by the reference that was found: none where there is none, or where it
-- refers to a leaf.
unfoldable pub sub_directory : ReaderAt → ℕ → Option ℕ → Result (Option Bytes)
unfolding add_rva read_resource_dir
sub_directory r root none = ok none
sub_directory r root (some ref) =
    if not (is_high ref) then ok none else elim (add_rva root (low31 ref)) [
      | none ↦ err corrupt
      | some off ↦ do dir ← read_resource_dir r off; ok (some dir)
    ]

-- The data of a leaf: its place in the file, where it can be read.
unfoldable pub leaf_data : ReaderAt → List Section → Bytes → Result ℕ
unfolding rva_to_file read_exact
leaf_data r sections leaf = elim (rva_to_file sections (u32_at leaf 0)) [
  | none ↦ err corrupt
  | some place ↦
      if ltb 0 (u32_at leaf 4)
      then (do content ← read_exact r place (u32_at leaf 4); ok place)
      else ok place
]

-- The leaf of a language, by its reference.
unfoldable pub find_leaf : ReaderAt → List Section → ℕ → Option ℕ → Result (Option ℕ)
unfolding leaf_data add_rva read_exact
find_leaf r sections root none = ok none
find_leaf r sections root (some ref) =
    if is_high ref then ok none else elim (add_rva root (low31 ref)) [
      | none ↦ err corrupt
      | some off ↦ do leaf ← read_exact r off 16; place ← leaf_data r sections leaf; ok (some place)
    ]

unfoldable pub find_language : ReaderAt → List Section → ℕ → Option Bytes → Result (Option ℕ)
unfolding find_leaf language_entry
find_language r sections root none = ok none
find_language r sections root (some dir) = find_leaf r sections root (language_entry dir)

unfoldable pub find_name : ReaderAt → List Section → ℕ → ℕ → Option Bytes → Result (Option ℕ)
unfolding sub_directory resource_entry find_language
find_name r sections root name none = ok none
find_name r sections root name (some dir) = do
  name_dir ← sub_directory r root (resource_entry dir name)
  find_language r sections root name_dir

-- `findResource`
unfoldable pub find_resource : ReaderAt → List Section → ℕ → ℕ → ℕ → Result (Option ℕ)
unfolding read_resource_dir sub_directory resource_entry find_name
find_resource r sections root type name = do
  root_dir ← read_resource_dir r root
  type_dir ← sub_directory r root (resource_entry root_dir type)
  find_name r sections root name type_dir

-- The section headers, of 40 bytes each.
unfoldable pub read_sections : ℕ → Bytes → List Section
read_sections zero b = []
read_sections (suc n) b =
    record {
      va = u32_at b 12;
      virtual_size = u32_at b 8;
      raw = u32_at b 20;
      raw_size = u32_at b 16;
    }
    ∷ read_sections n (drop 40 b)

-- What `resourceOffsetTable` does with the place of the loader's resource.
unfoldable pub table_at_resource : ReaderAt → Option ℕ → Result (Option Offsets)
unfolding load_offset_table
table_at_resource r none = err invalid_format
table_at_resource r (some leaf) = found (load_offset_table r leaf)

unfoldable pub table_in_root : ReaderAt → List Section → Option ℕ → Result (Option Offsets)
unfolding find_resource table_at_resource
table_in_root r sections none = err corrupt
-- `resourceTypeData` and `loaderResourceName`
table_in_root r sections (some root) = do
  leaf ← find_resource r sections root 10 11111
  table_at_resource r leaf

-- Where the data directories of an optional header are taken to begin, by its magic.
unfoldable pub directory_offset : ℕ → Result ℕ
directory_offset magic =
    if magic == 0x20b then ok 112 else if magic == 0x10b then ok 96 else err invalid_format

-- `resourceOffsetTable` from the 24 bytes of the PE header on.
unfoldable pub table_of_pe : ReaderAt → ℕ → Bytes → Result (Option Offsets)
unfolding directory_offset read_sections table_in_root rva_to_file read_exact
table_of_pe r pe_off pe = do
  let nsections = u16_at pe 6
  let optional_size = u16_at pe 20
  fail_if (nsections == 0 || ltb 96 nsections || ltb optional_size 96 || ltb 4096 optional_size)
      corrupt
  opt ← read_exact r (pe_off + 24) optional_size
  dir_off ← directory_offset (u16_at opt 0)
  fail_if (ltb (length opt) (dir_off + 24) || ltb (u32_at opt dir_off) 3) corrupt
  let resource_rva = u32_at opt (dir_off + 16)
  fail_if (resource_rva == 0) invalid_format
  section_bytes ← read_exact r (pe_off + 24 + optional_size) (nsections * 40)
  let sections = read_sections nsections section_bytes
  table_in_root r sections (rva_to_file sections resource_rva)

-- "PE", and two zero bytes.
abbrev pub pe_magic : Bytes
pe_magic = b'P' ∷ b'E' ∷ 0 ∷ 0 ∷ []

unfoldable pub table_at_pe : ReaderAt → ℕ → Result Bytes → Result (Option Offsets)
unfolding table_of_pe
table_at_pe r pe_off (err e) = ok none
table_at_pe r pe_off (ok pe) =
    if not (equal (take 4 pe) pe_magic) then ok none else table_of_pe r pe_off pe

-- `resourceOffsetTable` by the first 64 bytes.
unfoldable pub table_of_dos : ReaderAt → Result Bytes → Result (Option Offsets)
unfolding table_at_pe read_exact
table_of_dos r (err e) = ok none
table_of_dos r (ok dos) =
    if not (equal (take 2 dos) (b'M' ∷ b'Z' ∷ []))
    then ok none
    else table_at_pe r (u32_at dos 60) (read_exact r (u32_at dos 60) 24)

-- `resourceOffsetTable`; the test of `peOff`, a uint32, cannot fail.
unfoldable pub resource_offset_table : ReaderAt → Result (Option Offsets)
unfolding table_of_dos read_exact
resource_offset_table r = table_of_dos r (read_exact r 0 64)
