-- ===== src/Stream/Extract/ExplainedSteps.antt =====
-- A file that `Extract` of internal/stream/stream.go has marked as failed always has its error.
use innoextract_go.Base.{
  ℕ, zero, suc, ◌+◌, ◌≡◌, refl, Bool, true, false, not, ◌||◌, Option, some, List, [], ◌∷◌, length,
  get_elem?, replicate, leb, if-elim, Option-cases, inl, inr, Bytes, if◌then◌else◌, ◌==◌,
}
use innoextract_go.Crypto.Primitives.{Primitives}
use innoextract_go.Fault.{Fault, Result, ok, err, corrupt, limit_exceeded, Result-cases}
use innoextract_go.Format.{Chunk, DataEntry, FileEntry}
use innoextract_go.PathUtil.Split.{All}
use innoextract_go.Stream.Assembly.{FileAssembly, new_assembly, modify, fail, mark_failure}
use innoextract_go.Stream.Budget.{MemoryBudget, reserve}
use innoextract_go.Stream.Chunk.{Decoders}
use innoextract_go.Stream.Extract.{
  Extraction, plan_file, plan_files, refuse_files, reserve_planned, allocate_file_buffers,
  make_buffers, mark_refs, place_segment, load_segment, settle, process_live, process_ref,
  process_refs, load_chunk, process_loaded, process_group, process_groups, refs_needed,
}
use innoextract_go.Stream.Groups.{
  SegmentRef, ChunkGroup, Building, sum_sizes, place_refs, build_located, build_file, build_files,
}

-- There is an error to show.
abbrev pub Reason : Option Fault → Type 0
Reason error = (e : Fault) × (error ≡ some e)

pub record Explained (f : FileAssembly) : Type 0 where
  pub reason : f.failed ≡ true → Reason f.error

fail-Explained : (e : Fault) (f : FileAssembly) → Explained f → Explained (fail e f)
fail-Explained e f h =
    if-elim Explained f.failed f _ (λ _. h) λ _. record { reason = λ _. (e, refl) }

All-modify :
    (i : ℕ) (g : FileAssembly → FileAssembly) (files : List FileAssembly)
    → ((f : FileAssembly) → Explained f → Explained (g f))
    → All Explained files
    → All Explained (modify i g files)
unfolding modify
All-modify i g [] keeps h = h
All-modify zero g (f ∷ files) keeps h = (keeps f h.0, h.1)
All-modify (suc i) g (f ∷ files) keeps h = (h.0, All-modify i g files keeps h.1)

mark_failure-Explained :
    (files : List FileAssembly) (i : ℕ) (e : Fault)
    → All Explained files
    → All Explained (mark_failure files i e)
unfolding mark_failure
mark_failure-Explained files i e h = All-modify i (fail e) files (fail-Explained e) h

mark_refs-Explained :
    (files : List FileAssembly) (refs : List SegmentRef) (e : Fault)
    → All Explained files
    → All Explained (mark_refs files refs e)
unfolding mark_refs
mark_refs-Explained files [] e h = h
mark_refs-Explained files (ref ∷ refs) e h =
    mark_refs-Explained _ refs e (mark_failure-Explained files ref.file_index e h)

build_located-Explained :
    (entries : List DataEntry) (i : ℕ) (file : FileEntry) (ls : List ℕ) (b : Building)
    (sum : Result ℕ)
    → All Explained b.files
    → All Explained (build_located entries i file ls b sum).files
unfolding build_located
build_located-Explained entries i file ls b (err e) h = mark_failure-Explained b.files i e h
build_located-Explained entries i file ls b (ok sum) h =
    let total = if not (file.size == 0) then file.size else sum in
    let sized = modify i (λ f. record f { total_size = total }) b.files in
    let kept : All Explained sized =
      All-modify i _ b.files (λ f k. record { reason = k.reason }) h in
    if-elim (All Explained) (place_refs entries i 0 ls b.groups).overflow
      (mark_failure sized i corrupt) sized (λ _. mark_failure-Explained sized i corrupt kept)
      (λ _. kept)

build_file-Explained :
    (entries : List DataEntry) (i : ℕ) (file : FileEntry) (b : Building)
    → All Explained b.files
    → All Explained (build_file entries i file b).files
unfolding build_file
build_file-Explained entries i file b h =
    let ls = file.location ∷ file.additional_locations in
    if-elim (λ y. All Explained (Building.files y)) (leb (length entries) file.location) _ _
      (λ _. All-modify i _ b.files (λ f k. record { reason = k.reason }) h)
      (λ _. build_located-Explained entries i file ls b (sum_sizes entries 0 ls) h)

pub build_files-Explained :
    (entries : List DataEntry) (i : ℕ) (fs : List FileEntry) (b : Building)
    → All Explained b.files
    → All Explained (build_files entries i fs b).files
unfolding build_files
build_files-Explained entries i [] b h = h
build_files-Explained entries i (file ∷ fs) b h =
    build_files-Explained entries (i + 1) fs _ (build_file-Explained entries i file b h)

pub new-Explained : (n : ℕ) → All Explained (replicate n new_assembly)
new-Explained zero = tt
new-Explained (suc n) = (record { reason = λ e. absurd (cc) }, new-Explained n)

-- A change that touches neither of the two fields.
same-Explained :
    (f g : FileAssembly) → Explained f → g.failed ≡ f.failed → g.error ≡ f.error → Explained g
same-Explained f g h failed error = record { reason = λ e. rw error (h.reason (rw failed at e)) }

-- The first of a pair, in one of two branches.
planned_if :
    (b : Bool) (x y : FileAssembly × ℕ)
    → Explained x.0
    → Explained y.0
    → Explained (if b then x else y).0
planned_if b x y h k = if-elim (λ (z : FileAssembly × ℕ). Explained z.0) b x y (λ _. h) (λ _. k)

plan_file-Explained :
    (v : Bool) (entry : FileEntry) (f : FileAssembly) (total : ℕ)
    → Explained f
    → Explained (plan_file v entry f total).0
unfolding plan_file
plan_file-Explained v entry f total h =
    let refused : Explained (record (fail limit_exceeded f) { assemble = false }) =
      same-Explained (fail limit_exceeded f) _ (fail-Explained limit_exceeded f h) refl refl in
    let planned : Explained (record f { assemble = true }) = same-Explained f _ h refl refl in
    search planned_if depth 20

plan_files-Explained :
    (v : Bool) (entries : List FileEntry) (files : List FileAssembly) (total : ℕ)
    → All Explained files
    → All Explained (plan_files v entries files total).files
unfolding plan_files
plan_files-Explained v [] files total h = h
plan_files-Explained v (e ∷ entries) [] total h = h
plan_files-Explained v (e ∷ entries) (f ∷ files) total h = (
  plan_file-Explained v e f total h.0,
  plan_files-Explained v entries files (plan_file v e f total).1 h.1,
)

refuse_files-Explained :
    (e : Fault) (files : List FileAssembly)
    → All Explained files
    → All Explained (refuse_files e files)
unfolding refuse_files
refuse_files-Explained e [] h = h
refuse_files-Explained e (f ∷ files) h = (
  if-elim Explained f.assemble _ f (λ _. record { reason = (fail-Explained e f h.0).reason })
      (λ _. h.0),
  refuse_files-Explained e files h.1,
)

pub allocate_file_buffers-Explained :
    (v : Bool) (entries : List FileEntry) (files : List FileAssembly) (b : MemoryBudget)
    → All Explained files
    → All Explained (allocate_file_buffers v entries files b).files
unfolding allocate_file_buffers reserve_planned
allocate_file_buffers-Explained v entries files b h =
    let planned = plan_files v entries files 0 in
    let kept = plan_files-Explained v entries files 0 h in
    elim (Result-cases (reserve b planned.total)) [
      | inl (b', e) ↦ rw (e, reserve_planned) kept
      | inr (f, e) ↦ rw (e, reserve_planned) (refuse_files-Explained f planned.files kept)
    ]

pub make_buffers-Explained :
    (files : List FileAssembly) → All Explained files → All Explained (make_buffers files)
unfolding make_buffers
make_buffers-Explained [] h = h
make_buffers-Explained (f ∷ files) h = (
  if-elim Explained (f.failed || not f.assemble) f (record f { content = replicate f.total_size 0 })
      (λ _. h.0) (λ _. record { reason = h.0.reason }),
  make_buffers-Explained files h.1,
)

module _ (f : FileAssembly) (h : Explained f) where
  settled_if :
      (b : Bool) (m n : Result FileAssembly)
      → Explained (settle f m)
      → Explained (settle f n)
      → Explained (settle f (if b then m else n))
  settled_if b m n x y = if-elim (λ r. Explained (settle f r)) b m n (λ _. x) (λ _. y)

  settled_err : (e : Fault) → Explained (settle f (err e))
  unfolding settle
  settled_err e = fail-Explained e f h

  settled_ok :
      (g : FileAssembly) → g.failed ≡ f.failed → g.error ≡ f.error → Explained (settle f (ok g))
  unfolding settle
  settled_ok g = same-Explained f g h

  settle-Explained :
      (ref : SegmentRef) (segment : Bytes) → Explained (settle f (place_segment ref segment f))
  unfolding place_segment
  settle-Explained ref segment = search (settled_if, settled_err, settled_ok) depth 20

module _ (p : Primitives) (d : Decoders) where
  process_live-Explained :
      (chunk : Bytes) (ref : SegmentRef) (f : FileAssembly) (x : Extraction)
      → All Explained x.files
      → All Explained (process_live p d chunk ref f x).files
  unfolding process_live
  process_live-Explained chunk ref f x h =
      elim (Result-cases (load_segment p d chunk ref x.budget)) [
        | inl (loaded, e) ↦
            rw (e, process_live)
              (All-modify ref.file_index _ x.files (λ f k. settle-Explained f k ref loaded.0) h)
        | inr (f, e) ↦ rw (e, process_live) (mark_failure-Explained x.files ref.file_index f h)
      ]

  process_ref-Explained :
      (chunk : Bytes) (ref : SegmentRef) (x : Extraction)
      → All Explained x.files
      → All Explained (process_ref p d chunk ref x).files
  unfolding process_ref
  process_ref-Explained chunk ref x h = elim (Option-cases (get_elem? x.files ref.file_index)) [
    | inl e ↦ rw (e, process_ref) h
    | inr (f, e) ↦
        rw (e, process_ref)
          (if-elim (λ y. All Explained (Extraction.files y)) f.failed _ _ (λ _. h)
            (λ _. process_live-Explained chunk ref f x h))
  ]

  process_refs-Explained :
      (chunk : Bytes) (refs : List SegmentRef) (x : Extraction)
      → All Explained x.files
      → All Explained (process_refs p d chunk refs x).files
  unfolding process_refs
  process_refs-Explained chunk [] x h = h
  process_refs-Explained chunk (ref ∷ refs) x h =
      process_refs-Explained chunk refs _ (process_ref-Explained chunk ref x h)

  module _ (decode : Chunk → ℕ → Result Bytes) where
    process_loaded-Explained :
        (g : ChunkGroup) (x : Extraction) (r : Result (Bytes × MemoryBudget))
        → All Explained x.files
        → All Explained (process_loaded p d decode g x r).files
    unfolding process_loaded
    process_loaded-Explained g x (err e) h = mark_refs-Explained x.files g.refs e h
    process_loaded-Explained g x (ok loaded) h =
        process_refs-Explained loaded.0 g.refs (record x { budget = loaded.1 }) h

    pub process_groups-Explained :
        (gs : List ChunkGroup) (x : Extraction)
        → All Explained x.files
        → All Explained (process_groups p d decode gs x).files
    unfolding process_groups process_group
    process_groups-Explained [] x h = h
    process_groups-Explained (g ∷ gs) x h =
        process_groups-Explained gs (process_group p d decode g x) (
          if-elim (λ y. All Explained (Extraction.files y)) (not (refs_needed g.refs x.files)) _ _
            (λ _. h) (λ _. process_loaded-Explained g x (load_chunk p d decode g.chunk x.budget) h))
