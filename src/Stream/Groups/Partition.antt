-- ===== src/Stream/Groups/Partition.antt =====
-- What `buildGroups` of internal/stream/stream.go is for: a description of the segments of all files,
-- and of groups that sort them by chunk.
use innoextract_go.Base.{
  ℕ, ◌+◌, ◌≡◌, ◌≢◌, refl, sym, ap, ◌∙◌, arith, Bool, none, some, List, [], ◌∷◌, ◌++◌, map, length,
  get_elem?, leb, if◌then◌else◌, if-elim, Bool-cases, inl, inr,
}
use innoextract_go.Fault.{Result, ok, err}
use innoextract_go.Format.{
  Chunk, DataEntry, FileEntry, chunk_equal, chunk_equal→eq, chunk_equal_refl,
}
use innoextract_go.PathUtil.Split.{All, All-append}
use innoextract_go.Stream.Groups.{
  SegmentRef, ChunkGroup, sum_sizes, add_ref, insert_ref, sort_refs, sort_group,
}

-- The segments of the i-th file, one for each location, each behind those before it.
unfoldable pub segments_at : List DataEntry → ℕ → ℕ → List ℕ → List SegmentRef
segments_at entries i dest [] = []
segments_at entries i dest (l ∷ ls) = elim (get_elem? entries l) [
  | none ↦ []
  | some entry ↦
      record {
        file_index = i;
        entry = entry;
        dest_offset = dest;
        expected_size = entry.uncompressed_size;
      }
      ∷ segments_at entries i (dest + entry.uncompressed_size) ls
]

-- A file has segments if its first location is a data entry and its sizes have a sum.
unfoldable pub segments_if : Result ℕ → List SegmentRef → List SegmentRef
segments_if (err e) refs = []
segments_if (ok sum) refs = refs

unfoldable pub file_segments : List DataEntry → ℕ → FileEntry → List SegmentRef
unfolding segments_at segments_if sum_sizes
file_segments entries i file =
    let ls = file.location ∷ file.additional_locations in
    if leb (length entries) file.location
    then []
    else segments_if (sum_sizes entries 0 ls) (segments_at entries i 0 ls)

unfoldable pub segments : List DataEntry → ℕ → List FileEntry → List SegmentRef
unfolding file_segments
segments entries i [] = []
segments entries i (file ∷ files) = file_segments entries i file ++ segments entries (i + 1) files

-- How many segments pass a test.
unfoldable pub count : (SegmentRef → Bool) → List SegmentRef → ℕ
count test [] = 0
count test (r ∷ rs) = (if test r then 1 else 0) + count test rs

unfoldable pub count_groups : (SegmentRef → Bool) → List ChunkGroup → ℕ
unfolding count
count_groups test [] = 0
count_groups test (g ∷ gs) = count test g.refs + count_groups test gs

-- The segments of a group lie in its chunk.
abbrev pub OfChunk : ChunkGroup → Type 0
OfChunk g = All (λ r. r.entry.chunk ≡ g.chunk) g.refs

-- No two groups have the same chunk.
unfoldable pub Apart : List ChunkGroup → Type 0
Apart [] = Unit
Apart (g ∷ gs) = All (λ h. g.chunk ≢ h.chunk) gs × Apart gs

-- The groups sort the segments by chunk: none is lost, doubled or changed, since every test is
-- passed as often among the one as among the other.
pub record IsPartition (refs : List SegmentRef) (groups : List ChunkGroup) : Type 0 where
  pub of_chunk : All OfChunk groups
  pub apart : Apart groups
  pub complete : (test : SegmentRef → Bool) → count_groups test groups ≡ count test refs

pub count-append :
    (test : SegmentRef → Bool) (xs ys : List SegmentRef)
    → count test (xs ++ ys) ≡ count test xs + count test ys
unfolding count
count-append test [] ys = omega arith
count-append test (x ∷ xs) ys = omega (arith, count-append test xs ys)

-- One more segment.
module _ (ref : SegmentRef) where
  pub count_groups-add_ref :
      (test : SegmentRef → Bool) (gs : List ChunkGroup)
      → count_groups test (add_ref gs ref) ≡ count_groups test gs + count test (ref ∷ [])
  unfolding count_groups add_ref count
  count_groups-add_ref test [] = omega arith
  count_groups-add_ref test (g ∷ gs) = elim (Bool-cases (chunk_equal g.chunk ref.entry.chunk)) [
    | inl same ↦ rw same (omega (arith, count-append test g.refs (ref ∷ [])))
    | inr other ↦ rw other (omega (arith, count_groups-add_ref test gs))
  ]

  All-add_ref :
      (Q : Chunk → Type 0) (gs : List ChunkGroup)
      → All (λ g. Q g.chunk) gs
      → Q ref.entry.chunk
      → All (λ g. Q g.chunk) (add_ref gs ref)
  unfolding add_ref
  All-add_ref Q [] h q = (q, tt)
  All-add_ref Q (g ∷ gs) h q =
      if-elim (All (λ g. Q (ChunkGroup.chunk g))) (chunk_equal g.chunk ref.entry.chunk) _ _ (λ _. h)
        (λ _. (h.0, All-add_ref Q gs h.1 q))

  pub add_ref-OfChunk : (gs : List ChunkGroup) → All OfChunk gs → All OfChunk (add_ref gs ref)
  unfolding add_ref
  add_ref-OfChunk [] h = ((refl, tt), tt)
  add_ref-OfChunk (g ∷ gs) h = elim (Bool-cases (chunk_equal g.chunk ref.entry.chunk)) [
    | inl same ↦ rw same (
      All-append _ g.refs (ref ∷ []) h.0 (sym (chunk_equal→eq g.chunk ref.entry.chunk same), tt),
      h.1,
    )
    | inr other ↦ rw other (h.0, add_ref-OfChunk gs h.1)
  ]

  pub add_ref-Apart : (gs : List ChunkGroup) → Apart gs → Apart (add_ref gs ref)
  unfolding add_ref Apart
  add_ref-Apart [] h = (tt, tt)
  add_ref-Apart (g ∷ gs) h = elim (Bool-cases (chunk_equal g.chunk ref.entry.chunk)) [
    | inl same ↦ rw same h
    | inr other ↦
        let new : g.chunk ≢ ref.entry.chunk =
          λ e. absurd (cc (other, chunk_equal_refl g.chunk, ap (chunk_equal g.chunk) e)) in
        rw other (All-add_ref (λ c. g.chunk ≢ c) gs h.0 new, add_ref-Apart gs h.1)
  ]

-- A group whose segments are sorted.
count-insert_ref :
    (test : SegmentRef → Bool) (r : SegmentRef) (xs : List SegmentRef)
    → count test (insert_ref r xs) ≡ count test (r ∷ xs)
unfolding insert_ref count
count-insert_ref test r [] = refl
count-insert_ref test r (x ∷ xs) = ground (arith, count-insert_ref test r xs)

count-sort_refs :
    (test : SegmentRef → Bool) (xs : List SegmentRef) → count test (sort_refs xs) ≡ count test xs
unfolding sort_refs count
count-sort_refs test [] = refl
count-sort_refs test (x ∷ xs) =
    omega (arith, count-insert_ref test x (sort_refs xs), count-sort_refs test xs)

insert_ref-All :
    (P : SegmentRef → Type 0) (r : SegmentRef) (xs : List SegmentRef)
    → P r
    → All P xs
    → All P (insert_ref r xs)
unfolding insert_ref
insert_ref-All P r [] p h = (p, tt)
insert_ref-All P r (x ∷ xs) p h =
    if-elim (All P) (leb r.entry.file.offset x.entry.file.offset) _ _ (λ _. (p, h))
      (λ _. (h.0, insert_ref-All P r xs p h.1))

sort_refs-All : (P : SegmentRef → Type 0) (xs : List SegmentRef) → All P xs → All P (sort_refs xs)
unfolding sort_refs
sort_refs-All P [] h = tt
sort_refs-All P (x ∷ xs) h = insert_ref-All P x (sort_refs xs) h.0 (sort_refs-All P xs h.1)

All-map_chunk :
    (Q : Chunk → Type 0) (gs : List ChunkGroup)
    → All (λ g. Q g.chunk) gs
    → All (λ g. Q g.chunk) (map sort_group gs)
All-map_chunk Q [] h = tt
All-map_chunk Q (g ∷ gs) h = (h.0, All-map_chunk Q gs h.1)

map_sort-OfChunk : (gs : List ChunkGroup) → All OfChunk gs → All OfChunk (map sort_group gs)
map_sort-OfChunk [] h = tt
map_sort-OfChunk (g ∷ gs) h = (sort_refs-All _ g.refs h.0, map_sort-OfChunk gs h.1)

map_sort-Apart : (gs : List ChunkGroup) → Apart gs → Apart (map sort_group gs)
unfolding Apart
map_sort-Apart [] h = tt
map_sort-Apart (g ∷ gs) h = (All-map_chunk (λ c. g.chunk ≢ c) gs h.0, map_sort-Apart gs h.1)

count_groups-map_sort :
    (test : SegmentRef → Bool) (gs : List ChunkGroup)
    → count_groups test (map sort_group gs) ≡ count_groups test gs
unfolding count_groups
count_groups-map_sort test [] = refl
count_groups-map_sort test (g ∷ gs) =
    omega (arith, count-sort_refs test g.refs, count_groups-map_sort test gs)

pub map_sort-IsPartition :
    (refs : List SegmentRef) (gs : List ChunkGroup)
    → IsPartition refs gs
    → IsPartition refs (map sort_group gs)
map_sort-IsPartition refs gs h = record {
  of_chunk = map_sort-OfChunk gs h.of_chunk;
  apart = map_sort-Apart gs h.apart;
  complete = λ test. count_groups-map_sort test gs ∙ h.complete test;
}
