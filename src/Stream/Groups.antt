-- ===== src/Stream/Groups.antt =====
-- `buildGroups` of internal/stream/stream.go: the segments of all files, by the chunk that holds
-- them. The map `groupIndex` gives the place of a chunk in `groups`, and is found here by a search,
-- since each group is entered under its own chunk.
pub mod Partition
pub mod Complete
use innoextract_go.Base.{
  ℕ, ◌+◌, ◌-◌, Bool, true, false, not, none, some, List, [], ◌∷◌, ◌++◌, map, length, get_elem?, leb,
  ltb, ◌==◌, if◌then◌else◌, max_uint64,
}
use innoextract_go.Fault.{Result, ok, err, corrupt}
use innoextract_go.Format.{Archive, Chunk, DataEntry, FileEntry, chunk_equal}
use innoextract_go.Stream.Assembly.{FileAssembly, modify, mark_failure}

pub record SegmentRef : Type 0 where
  pub file_index : ℕ
  pub entry : DataEntry
  pub dest_offset : ℕ
  pub expected_size : ℕ

pub record ChunkGroup : Type 0 where
  pub chunk : Chunk
  pub refs : List SegmentRef

-- The first loop over the locations: every one is an entry, and their sizes have a sum.
unfoldable pub sum_sizes : List DataEntry → ℕ → List ℕ → Result ℕ
sum_sizes entries total [] = ok total
sum_sizes entries total (l ∷ ls) = elim (get_elem? entries l) [
  | none ↦ err corrupt
  | some entry ↦
      if ltb (max_uint64 - total) entry.uncompressed_size
      then err corrupt
      else sum_sizes entries (total + entry.uncompressed_size) ls
]

-- `groups[idx].refs = append(...)`, in a new group behind the others if there is none.
unfoldable pub add_ref : List ChunkGroup → SegmentRef → List ChunkGroup
add_ref [] ref = record { chunk = ref.entry.chunk; refs = ref ∷ [] } ∷ []
add_ref (g ∷ gs) ref =
    if chunk_equal g.chunk ref.entry.chunk
    then record g { refs = g.refs ++ ref ∷ [] } ∷ gs
    else g ∷ add_ref gs ref

-- The second loop. `none` is its own overflow, which marks the file and ends the loop; the groups
-- keep what was added.
pub record Placed : Type 0 where
  pub groups : List ChunkGroup
  pub overflow : Bool

-- An index beyond the entries would panic; the first loop has found every location.
unfoldable pub place_refs : List DataEntry → ℕ → ℕ → List ℕ → List ChunkGroup → Placed
unfolding add_ref
place_refs entries i dest [] groups = record { groups = groups; overflow = false }
place_refs entries i dest (l ∷ ls) groups = elim (get_elem? entries l) [
  | none ↦ record { groups = groups; overflow = false }
  | some entry ↦
      let ref : SegmentRef = record {
        file_index = i;
        entry = entry;
        dest_offset = dest;
        expected_size = entry.uncompressed_size;
      } in
      let groups' = add_ref groups ref in
      if ltb (max_uint64 - dest) entry.uncompressed_size
      then record { groups = groups'; overflow = true }
      else place_refs entries i (dest + entry.uncompressed_size) ls groups'
]

pub record Building : Type 0 where
  pub files : List FileAssembly
  pub groups : List ChunkGroup

-- The files that have locations go on here, with the sum of the first loop.
unfoldable pub build_located :
    List DataEntry → ℕ → FileEntry → List ℕ → Building → Result ℕ → Building
unfolding place_refs
build_located entries i file locations b (err e) = record b { files = mark_failure b.files i e }
build_located entries i file locations b (ok sum) =
    let total = if not (file.size == 0) then file.size else sum in
    let files = modify i (λ f. record f { total_size = total }) b.files in
    let placed = place_refs entries i 0 locations b.groups in
    record {
      files = if placed.overflow then mark_failure files i corrupt else files;
      groups = placed.groups;
    }

-- The body of the loop over `a.Files`. The list of locations is never empty, so the test of its
-- length does nothing.
unfoldable pub build_file : List DataEntry → ℕ → FileEntry → Building → Building
unfolding build_located sum_sizes
build_file entries i file b =
    if leb (length entries) file.location
    then record b { files = modify i (λ f. record f { skip = true }) b.files }
    else (let locations = file.location ∷ file.additional_locations in
        build_located entries i file locations b (sum_sizes entries 0 locations))

unfoldable pub build_files : List DataEntry → ℕ → List FileEntry → Building → Building
unfolding build_file
build_files entries i [] b = b
build_files entries i (file ∷ files) b =
    build_files entries (i + 1) files (build_file entries i file b)

-- `sort.SliceStable` by the offset in the chunk: the one order that is sorted and stable.
unfoldable pub insert_ref : SegmentRef → List SegmentRef → List SegmentRef
insert_ref r [] = r ∷ []
insert_ref r (x ∷ xs) =
    if leb r.entry.file.offset x.entry.file.offset then r ∷ x ∷ xs else x ∷ insert_ref r xs

unfoldable pub sort_refs : List SegmentRef → List SegmentRef
unfolding insert_ref
sort_refs [] = []
sort_refs (r ∷ rs) = insert_ref r (sort_refs rs)

abbrev pub sort_group : ChunkGroup → ChunkGroup
sort_group g = record g { refs = sort_refs g.refs }

unfoldable pub build_groups : Archive → List FileAssembly → Building
unfolding build_files
build_groups a files =
    let built = build_files a.data_entries 0 a.files (record { files = files; groups = [] }) in
    record built { groups = map sort_group built.groups }
