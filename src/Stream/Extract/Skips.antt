-- ===== src/Stream/Extract/Skips.antt =====
-- Which files `Extract` of internal/stream/stream.go leaves out: `skip` is set by `buildGroups`, and
-- no later step touches it.
use innoextract_go.Base.{
  ℕ, zero, suc, ◌≡◌, refl, ap, ◌∙◌, arith, Bool, not, Option, none, some, List, [], ◌∷◌, get_elem?,
  if-elim, Option-cases, inl, inr, Bytes,
}
use innoextract_go.Fault.{Fault, Result, ok, err, Result-cases}
use innoextract_go.Format.{Chunk, FileEntry}
use innoextract_go.Crypto.Primitives.{Primitives}
use innoextract_go.Stream.Assembly.{FileAssembly, modify, fail, mark_failure}
use innoextract_go.Stream.Budget.{MemoryBudget, reserve}
use innoextract_go.Stream.Chunk.{Decoders}
use innoextract_go.Stream.Groups.{SegmentRef, ChunkGroup}
use innoextract_go.Stream.Extract.{
  Extraction, plan_file, plan_files, refuse_files, reserve_planned, allocate_file_buffers,
  make_buffers, mark_refs, place_segment, load_segment, settle, process_live, process_ref,
  process_refs, load_chunk, process_loaded, process_group, process_groups, refs_needed,
}

-- The `skip` of the k-th file.
unfoldable pub skip_at : List FileAssembly → ℕ → Option Bool
skip_at [] k = none
skip_at (f ∷ files) zero = some f.skip
skip_at (f ∷ files) (suc k) = skip_at files k

abbrev pub Keeps : (FileAssembly → FileAssembly) → Type 0
Keeps g = (f : FileAssembly) → (g f).skip ≡ f.skip

fail-Keeps : (e : Fault) → Keeps (fail e)
fail-Keeps e f = ground arith

pub skip_at-modify :
    (i : ℕ) (g : FileAssembly → FileAssembly) (files : List FileAssembly) (k : ℕ)
    → Keeps g
    → skip_at (modify i g files) k ≡ skip_at files k
unfolding skip_at modify
skip_at-modify i g [] k keeps = refl
skip_at-modify zero g (f ∷ files) zero keeps = ap some (keeps f)
skip_at-modify zero g (f ∷ files) (suc k) keeps = refl
skip_at-modify (suc i) g (f ∷ files) zero keeps = refl
skip_at-modify (suc i) g (f ∷ files) (suc k) keeps = skip_at-modify i g files k keeps

pub skip_at-mark_failure :
    (files : List FileAssembly) (i : ℕ) (e : Fault) (k : ℕ)
    → skip_at (mark_failure files i e) k ≡ skip_at files k
unfolding mark_failure
skip_at-mark_failure files i e k = skip_at-modify i (fail e) files k (fail-Keeps e)

skip_at-mark_refs :
    (files : List FileAssembly) (refs : List SegmentRef) (e : Fault) (k : ℕ)
    → skip_at (mark_refs files refs e) k ≡ skip_at files k
unfolding mark_refs
skip_at-mark_refs files [] e k = refl
skip_at-mark_refs files (ref ∷ refs) e k =
    skip_at-mark_refs (mark_failure files ref.file_index e) refs e k
    ∙ skip_at-mark_failure files ref.file_index e k

pub skip_at-make_buffers :
    (files : List FileAssembly) (k : ℕ) → skip_at (make_buffers files) k ≡ skip_at files k
unfolding skip_at make_buffers
skip_at-make_buffers [] k = refl
skip_at-make_buffers (f ∷ files) zero = ground arith
skip_at-make_buffers (f ∷ files) (suc k) = skip_at-make_buffers files k

skip_at-refuse_files :
    (e : Fault) (files : List FileAssembly) (k : ℕ)
    → skip_at (refuse_files e files) k ≡ skip_at files k
unfolding skip_at refuse_files
skip_at-refuse_files e [] k = refl
skip_at-refuse_files e (f ∷ files) zero = ground arith
skip_at-refuse_files e (f ∷ files) (suc k) = skip_at-refuse_files e files k

plan_file-skip :
    (v : Bool) (entry : FileEntry) (f : FileAssembly) (total : ℕ)
    → (plan_file v entry f total).0.skip ≡ f.skip
unfolding plan_file
plan_file-skip v entry f total = ground arith

skip_at-plan_files :
    (v : Bool) (entries : List FileEntry) (files : List FileAssembly) (total k : ℕ)
    → skip_at (plan_files v entries files total).files k ≡ skip_at files k
unfolding skip_at plan_files
skip_at-plan_files v [] files total k = refl
skip_at-plan_files v (e ∷ entries) [] total k = refl
skip_at-plan_files v (e ∷ entries) (f ∷ files) total zero = ap some (plan_file-skip v e f total)
skip_at-plan_files v (e ∷ entries) (f ∷ files) total (suc k) =
    skip_at-plan_files v entries files (plan_file v e f total).1 k

pub skip_at-allocate_file_buffers :
    (v : Bool) (entries : List FileEntry) (files : List FileAssembly) (b : MemoryBudget) (k : ℕ)
    → skip_at (allocate_file_buffers v entries files b).files k ≡ skip_at files k
unfolding allocate_file_buffers reserve_planned
skip_at-allocate_file_buffers v entries files b k =
    let planned = plan_files v entries files 0 in
    elim (Result-cases (reserve b planned.total)) [
      | inl (b', e) ↦ rw (e, reserve_planned) (skip_at-plan_files v entries files 0 k)
      | inr (f, e) ↦
          rw (e, reserve_planned)
            (skip_at-refuse_files f planned.files k ∙ skip_at-plan_files v entries files 0 k)
    ]

settle-Keeps :
    (ref : SegmentRef) (segment : Bytes) → Keeps (λ f. settle f (place_segment ref segment f))
unfolding settle place_segment
settle-Keeps ref segment f = ground arith

module _ (p : Primitives) (d : Decoders) (k : ℕ) where
  skip_at-process_live :
      (chunk : Bytes) (ref : SegmentRef) (f : FileAssembly) (x : Extraction)
      → skip_at (process_live p d chunk ref f x).files k ≡ skip_at x.files k
  unfolding process_live
  skip_at-process_live chunk ref f x = elim (Result-cases (load_segment p d chunk ref x.budget)) [
    | inl (loaded, e) ↦
        rw (e, process_live)
          (skip_at-modify ref.file_index (λ f. settle f (place_segment ref loaded.0 f)) x.files k
            (settle-Keeps ref loaded.0))
    | inr (f, e) ↦ rw (e, process_live) (skip_at-mark_failure x.files ref.file_index f k)
  ]

  skip_at-process_ref :
      (chunk : Bytes) (ref : SegmentRef) (x : Extraction)
      → skip_at (process_ref p d chunk ref x).files k ≡ skip_at x.files k
  unfolding process_ref
  skip_at-process_ref chunk ref x = elim (Option-cases (get_elem? x.files ref.file_index)) [
    | inl e ↦ rw (e, process_ref)
    | inr (f, e) ↦
        rw (e, process_ref)
          (if-elim (λ y. skip_at (Extraction.files y) k ≡ skip_at x.files k) f.failed _ _
            (λ _. refl) (λ _. skip_at-process_live chunk ref f x))
  ]

  skip_at-process_refs :
      (chunk : Bytes) (refs : List SegmentRef) (x : Extraction)
      → skip_at (process_refs p d chunk refs x).files k ≡ skip_at x.files k
  unfolding process_refs
  skip_at-process_refs chunk [] x = refl
  skip_at-process_refs chunk (ref ∷ refs) x =
      skip_at-process_refs chunk refs (process_ref p d chunk ref x)
      ∙ skip_at-process_ref chunk ref x

  module _ (decode : Chunk → ℕ → Result Bytes) where
    skip_at-process_loaded :
        (g : ChunkGroup) (x : Extraction) (r : Result (Bytes × MemoryBudget))
        → skip_at (process_loaded p d decode g x r).files k ≡ skip_at x.files k
    unfolding process_loaded
    skip_at-process_loaded g x (err e) = skip_at-mark_refs x.files g.refs e k
    skip_at-process_loaded g x (ok loaded) =
        skip_at-process_refs loaded.0 g.refs (record x { budget = loaded.1 })

    pub skip_at-process_groups :
        (gs : List ChunkGroup) (x : Extraction)
        → skip_at (process_groups p d decode gs x).files k ≡ skip_at x.files k
    unfolding process_groups process_group
    skip_at-process_groups [] x = refl
    skip_at-process_groups (g ∷ gs) x =
        skip_at-process_groups gs (process_group p d decode g x)
        ∙ if-elim (λ y. skip_at (Extraction.files y) k ≡ skip_at x.files k)
            (not (refs_needed g.refs x.files)) _ _ (λ _. refl)
            (λ _. skip_at-process_loaded g x (load_chunk p d decode g.chunk x.budget))
