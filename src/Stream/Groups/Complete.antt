-- ===== src/Stream/Groups/Complete.antt =====
-- `buildGroups` of internal/stream/stream.go does what it is for.
use innoextract_go.Base.{
  ℕ, ◌+◌, ◌-◌, ◌≡◌, refl, arith, false, some, List, [], ◌∷◌, ◌++◌, length, get_elem?, leb, ltb,
  max_uint64, Bool-cases, Option-cases, inl, inr, append-nil, append_assoc,
}
use innoextract_go.Fault.{ok, Result-cases}
use innoextract_go.Format.{Archive, DataEntry, FileEntry}
use innoextract_go.Stream.Assembly.{FileAssembly}
use innoextract_go.Stream.Groups.Partition.{
  segments_at, segments_if, file_segments, segments, count, count_groups, count-append,
  count_groups-add_ref, add_ref-OfChunk, add_ref-Apart, Apart, IsPartition, map_sort-IsPartition,
}
use innoextract_go.Stream.Groups.{
  SegmentRef, ChunkGroup, add_ref, sum_sizes, place_refs, Building, build_located, build_file,
  build_files, build_groups,
}

add_ref-IsPartition :
    (refs : List SegmentRef) (gs : List ChunkGroup) (ref : SegmentRef)
    → IsPartition refs gs
    → IsPartition (refs ++ ref ∷ []) (add_ref gs ref)
add_ref-IsPartition refs gs ref h = record {
  of_chunk = add_ref-OfChunk ref gs h.of_chunk;
  apart = add_ref-Apart ref gs h.apart;
  complete = λ test.
      let before = h.complete test in
      omega (arith, count_groups-add_ref ref test gs, count-append test refs (ref ∷ []));
}

-- The sum of the sizes that are left, behind the first.
sum_sizes-rest :
    (entries : List DataEntry) (total l : ℕ) (ls : List ℕ) {entry : DataEntry} {sum : ℕ}
    → get_elem? entries l ≡ some entry
    → sum_sizes entries total (l ∷ ls) ≡ ok sum
    → (ltb (max_uint64 - total) entry.uncompressed_size ≡ false)
      × (sum_sizes entries (total + entry.uncompressed_size) ls ≡ ok sum)
unfolding sum_sizes
sum_sizes-rest entries total l ls {entry} found e =
    let tested = rw (found, sum_sizes) at e in
    elim (Bool-cases (ltb (max_uint64 - total) entry.uncompressed_size)) [
      | inl over ↦ absurd (cc (over, tested))
      | inr fits ↦ (fits, rw (fits) at tested)
    ]

place_refs-IsPartition :
    (entries : List DataEntry) (i dest : ℕ) (ls : List ℕ) (refs : List SegmentRef)
    (gs : List ChunkGroup) {sum : ℕ}
    → sum_sizes entries dest ls ≡ ok sum
    → IsPartition refs gs
    → IsPartition (refs ++ segments_at entries i dest ls) (place_refs entries i dest ls gs).groups
unfolding place_refs segments_at
place_refs-IsPartition entries i dest [] refs gs e h = rw (append-nil refs) h
place_refs-IsPartition entries i dest (l ∷ ls) refs gs e h =
    elim (Option-cases (get_elem? entries l)) [
      | inl missing ↦ rw (missing, place_refs, segments_at, append-nil refs) h
      | inr (entry, found) ↦
          let (fits, rest) = sum_sizes-rest entries dest l ls found e in
          let ref : SegmentRef = record {
            file_index = i;
            entry = entry;
            dest_offset = dest;
            expected_size = entry.uncompressed_size;
          } in
          let later = segments_at entries i (dest + entry.uncompressed_size) ls in
          let placed =
            place_refs-IsPartition entries i (dest + entry.uncompressed_size) ls (refs ++ ref ∷ [])
              (add_ref gs ref) rest (add_ref-IsPartition refs gs ref h) in
          rw (found, place_refs, segments_at, fits)
            (rw (append_assoc refs (ref ∷ []) later) at placed)
    ]

build_located-IsPartition :
    (entries : List DataEntry) (i : ℕ) (file : FileEntry) (ls : List ℕ) (b : Building)
    (refs : List SegmentRef)
    → IsPartition refs b.groups
    → IsPartition
        (refs ++ segments_if (sum_sizes entries 0 ls) (segments_at entries i 0 ls))
        (build_located entries i file ls b (sum_sizes entries 0 ls)).groups
unfolding build_located segments_if
build_located-IsPartition entries i file ls b refs h =
    elim (Result-cases (sum_sizes entries 0 ls)) [
      | inl (sum, e) ↦ rw e (place_refs-IsPartition entries i 0 ls refs b.groups e h)
      | inr (f, e) ↦ rw (e, append-nil refs) h
    ]

build_file-IsPartition :
    (entries : List DataEntry) (i : ℕ) (file : FileEntry) (b : Building) (refs : List SegmentRef)
    → IsPartition refs b.groups
    → IsPartition (refs ++ file_segments entries i file) (build_file entries i file b).groups
unfolding build_file file_segments
build_file-IsPartition entries i file b refs h =
    elim (Bool-cases (leb (length entries) file.location)) [
      | inl out ↦ rw (out, append-nil refs) h
      | inr here ↦ rw here (
          build_located-IsPartition entries i file (file.location ∷ file.additional_locations) b
            refs h)
    ]

build_files-IsPartition :
    (entries : List DataEntry) (i : ℕ) (fs : List FileEntry) (b : Building) (refs : List SegmentRef)
    → IsPartition refs b.groups
    → IsPartition (refs ++ segments entries i fs) (build_files entries i fs b).groups
unfolding build_files segments
build_files-IsPartition entries i [] b refs h = rw (append-nil refs) h
build_files-IsPartition entries i (f ∷ fs) b refs h =
    rw (← append_assoc refs (file_segments entries i f) (segments entries (i + 1) fs)) (
      build_files-IsPartition entries (i + 1) fs (build_file entries i f b)
        (refs ++ file_segments entries i f) (build_file-IsPartition entries i f b refs h))

-- The groups that `buildGroups` makes sort the segments of all files by chunk: the segments of a
-- group lie in its chunk, no two groups have the same chunk, and every segment of every file is in
-- them as often as it is among the segments, with its place in the file, and nothing else is.
pub build_groups-IsPartition :
    (a : Archive) (files : List FileAssembly)
    → IsPartition (segments a.data_entries 0 a.files) (build_groups a files).groups
unfolding build_groups count_groups count Apart
build_groups-IsPartition a files =
    let b : Building = record { files = files; groups = [] } in
    let nothing : IsPartition [] b.groups = record {
      of_chunk = tt;
      apart = tt;
      complete = λ test. refl;
    } in
    map_sort-IsPartition (segments a.data_entries 0 a.files)
      (build_files a.data_entries 0 a.files b).groups
      (build_files-IsPartition a.data_entries 0 a.files b [] nothing)
