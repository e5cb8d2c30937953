-- ===== src/Stream/Extract/Budgets.antt =====
-- What the loop over the groups of `Extract`, internal/stream/stream.go, does with the memory budget.
use innoextract_go.Base.{
  ℕ, ◌≡◌, refl, ◌∙◌, arith, List, [], ◌∷◌, length, get_elem?, Option-cases, if-elim, not, pos,
  Bytes, inl, inr,
}
use innoextract_go.Fault.{Result, ok, Result-cases, >>=-eq-ok}
use innoextract_go.Format.{Chunk, FileFilter, no_filter}
use innoextract_go.Crypto.Primitives.{Primitives}
use innoextract_go.Stream.Budget.{
  MemoryBudget, available, reserve, release, Within, release-reserve,
}
use innoextract_go.Stream.Chunk.{Decoders}
use innoextract_go.Stream.Extract.{
  Extraction, transient_size, reserve_transient, load_segment, process_live, process_ref,
  process_refs, load_chunk, process_loaded, process_group, process_groups, refs_needed,
}
use innoextract_go.Stream.Assembly.{FileAssembly}
use innoextract_go.Stream.Groups.{SegmentRef, ChunkGroup}
use innoextract_go.Stream.Segment.{decode_file_segment}

release-zero : (b : MemoryBudget) → release b 0 ≡ b
unfolding release
release-zero b = ground arith

release-reserve_transient :
    (filter : FileFilter) (segment : Bytes) (b : MemoryBudget) {b' : MemoryBudget}
    → Within b
    → reserve_transient filter segment b ≡ ok b'
    → release b' (transient_size filter segment) ≡ b
unfolding reserve_transient transient_size
release-reserve_transient no_filter segment b within e = ground (arith, release-zero b)
release-reserve_transient _ segment b within e = (release-reserve b (length segment) within e).1

module _ (p : Primitives) (d : Decoders) where
  load_segment_released :
      (chunk : Bytes) (ref : SegmentRef) (b : MemoryBudget) {loaded : Bytes × MemoryBudget}
      → Within b
      → load_segment p d chunk ref b ≡ ok loaded
      → release loaded.1 (transient_size ref.entry.file.filter loaded.0) ≡ b
  unfolding load_segment
  load_segment_released chunk ref b {loaded} within e =
      let (segment, _, rest) =
        >>=-eq-ok (decode_file_segment p d.new_zlib chunk ref.entry.file (pos (available b))) _ e in
      let (b', held, last) = >>=-eq-ok (reserve_transient ref.entry.file.filter segment b) _ rest in
      let same : ok (segment, b') ≡ ok loaded = last in
      ground (arith, release-reserve_transient ref.entry.file.filter segment b within held, same)

  process_live-budget :
      (chunk : Bytes) (ref : SegmentRef) (f : FileAssembly) (x : Extraction)
      → Within x.budget
      → (process_live p d chunk ref f x).budget ≡ x.budget
  unfolding process_live
  process_live-budget chunk ref f x within =
      elim (Result-cases (load_segment p d chunk ref x.budget)) [
        | inl (loaded, e) ↦ rw (e, process_live) (load_segment_released chunk ref x.budget within e)
        | inr (f, e) ↦ rw (e, process_live)
      ]

  process_ref-budget :
      (chunk : Bytes) (ref : SegmentRef) (x : Extraction)
      → Within x.budget
      → (process_ref p d chunk ref x).budget ≡ x.budget
  unfolding process_ref
  process_ref-budget chunk ref x within = elim (Option-cases (get_elem? x.files ref.file_index)) [
    | inl e ↦ rw (e, process_ref)
    | inr (f, e) ↦
        rw (e, process_ref)
          (if-elim (λ y. Extraction.budget y ≡ x.budget) f.failed _ _ (λ _. refl)
            (λ _. process_live-budget chunk ref f x within))
  ]

  process_refs-budget :
      (chunk : Bytes) (refs : List SegmentRef) (x : Extraction)
      → Within x.budget
      → (process_refs p d chunk refs x).budget ≡ x.budget
  unfolding process_refs
  process_refs-budget chunk [] x within = refl
  process_refs-budget chunk (ref ∷ refs) x within =
      let same = process_ref-budget chunk ref x within in
      process_refs-budget chunk refs (process_ref p d chunk ref x) (rw (same) within) ∙ same

  module _ (decode : Chunk → ℕ → Result Bytes) where
    load_chunk-eq-ok :
        (chunk : Chunk) (b : MemoryBudget) {loaded : Bytes × MemoryBudget}
        → Within b
        → load_chunk p d decode chunk b ≡ ok loaded
        → Within loaded.1 × (release loaded.1 (length loaded.0) ≡ b)
    unfolding load_chunk
    load_chunk-eq-ok chunk b {loaded} within e =
        let (content, _, rest) = >>=-eq-ok (decode chunk (available b)) _ e in
        let (b', held, last) = >>=-eq-ok (reserve b (length content)) _ rest in
        let same : ok (content, b') ≡ ok loaded = last in
        ground (arith, release-reserve b (length content) within held, same)

    process_group-budget :
        (g : ChunkGroup) (x : Extraction)
        → Within x.budget
        → (process_group p d decode g x).budget ≡ x.budget
    unfolding process_group process_loaded
    process_group-budget g x within =
        if-elim (λ y. Extraction.budget y ≡ x.budget) (not (refs_needed g.refs x.files)) _ _
          (λ _. refl)
          (λ _. elim (Result-cases (load_chunk p d decode g.chunk x.budget)) [
            | inl (loaded, e) ↦
                let (inside, back) = load_chunk-eq-ok g.chunk x.budget within e in
                rw
                  (
                    e,
                    process_loaded,
                    process_refs-budget loaded.0 g.refs (record x { budget = loaded.1 }) inside,
                  )
                  back
            | inr (f, e) ↦ rw (e, process_loaded)
          ])

    -- From a budget within its limit, the loop over the groups ends with the budget that it began
    -- with: every chunk and every filter buffer that was reserved has been released, whether the
    -- chunk and its segments decode or fail.
    pub process_groups-budget :
        (gs : List ChunkGroup) (x : Extraction)
        → Within x.budget
        → (process_groups p d decode gs x).budget ≡ x.budget
    unfolding process_groups
    process_groups-budget [] x within = refl
    process_groups-budget (g ∷ gs) x within =
        let same = process_group-budget g x within in
        process_groups-budget gs (process_group p d decode g x) (rw (same) within) ∙ same
