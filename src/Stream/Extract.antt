-- ===== src/Stream/Extract.antt =====
-- `Extract` of internal/stream/stream.go, with `groupNeeded`, `allocateFileBuffers` and
-- `verifyFinalChecksum`.
pub mod Skips
pub mod SkipsBuild
pub mod Budgets
pub mod Reports
pub mod Verified
pub mod ExplainedSteps
pub mod Explained
use innoextract_go.Base.{
  ℕ, zero, suc, ◌+◌, ◌-◌, ◌^◌, ◌≤◌, ◌<◌, Bool, true, false, not, ◌&&◌, ◌||◌, Option, none, some,
  List, [], ◌∷◌, ◌++◌, length, get_elem?, take, drop, replicate, leb, ltb, ◌==◌, if◌then◌else◌,
  Bytes, ℤ, pos, negsuc, max_uint64, max_int64,
}
use innoextract_go.Fault.{
  Fault, Result, ok, err, ◌>>=◌, ◌>>◌, fail_if, wrap, corrupt, limit_exceeded, checksum_mismatch,
  invalid_format,
}
use innoextract_go.Format.{
  Archive, Chunk, Checksum, DataEntry, FileEntry, FileFilter, no_filter, StoredFile,
}
use innoextract_go.Crypto.Checksums.{sum, equal_checksum}
use innoextract_go.Crypto.Password.{archive_key}
use innoextract_go.Crypto.Primitives.{Primitives}
use innoextract_go.Stream.Assembly.{FileAssembly, new_assembly, modify, fail, mark_failure}
use innoextract_go.Stream.Budget.{MemoryBudget, available, reserve, release}
use innoextract_go.Stream.Chunk.{Decoders, decode_chunk}
use innoextract_go.Stream.Groups.{SegmentRef, ChunkGroup, Building, build_groups}
use innoextract_go.Stream.Reader.{ReaderAt, Provider}
use innoextract_go.Stream.Segment.{is_checksum_none, decode_file_segment}

-- `groupNeeded`
unfoldable pub refs_needed : List SegmentRef → List FileAssembly → Bool
refs_needed [] files = false
refs_needed (ref ∷ refs) files =
    let rest = refs_needed refs files in
    elim (get_elem? files ref.file_index) [
      | none ↦ rest
      | some file ↦ if not file.skip && not file.failed then true else rest
    ]

-- What the first loop of `allocateFileBuffers` keeps: the files, and the sum of their sizes.
pub record Allocation : Type 0 where
  pub files : List FileAssembly
  pub total : ℕ

-- A file of the loop. The two failures leave `assemble` unset again.
unfoldable pub plan_file : Bool → FileEntry → FileAssembly → ℕ → FileAssembly × ℕ
unfolding is_checksum_none
plan_file verify_only entry f total =
    if f.skip || f.failed || (verify_only && is_checksum_none entry.checksum.type)
    then (f, total)
    else if ltb max_int64 f.total_size || ltb (max_uint64 - total) f.total_size
    then (record (fail limit_exceeded f) { assemble = false }, total)
    else (record f { assemble = true }, total + f.total_size)

unfoldable pub plan_files : Bool → List FileEntry → List FileAssembly → ℕ → Allocation
unfolding plan_file
plan_files verify_only (entry ∷ entries) (f ∷ files) total =
    let (f', total') = plan_file verify_only entry f total in
    let rest = plan_files verify_only entries files total' in
    record { files = f' ∷ rest.files; total = rest.total }
plan_files verify_only _ files total = record { files = files; total = total }

-- The loop that takes every planned buffer back.
unfoldable pub refuse_files : Fault → List FileAssembly → List FileAssembly
refuse_files e [] = []
refuse_files e (f ∷ files) =
    (if f.assemble then record (fail e f) { assemble = false } else f) ∷ refuse_files e files

-- The files, the segments and the budget that `Extract` works on.
pub record Extraction : Type 0 where
  pub files : List FileAssembly
  pub budget : MemoryBudget

unfoldable pub reserve_planned : Allocation → MemoryBudget → Extraction
unfolding refuse_files
reserve_planned planned b = elim (reserve b planned.total) [
  | ok b' ↦ record { files = planned.files; budget = b' }
  | err e ↦ record { files = refuse_files e planned.files; budget = b }
]

-- `allocateFileBuffers`, which returns no error.
unfoldable pub allocate_file_buffers :
    Bool → List FileEntry → List FileAssembly → MemoryBudget → Extraction
unfolding plan_files reserve_planned
allocate_file_buffers verify_only entries files b =
    reserve_planned (plan_files verify_only entries files 0) b

-- The loop that makes the buffers.
unfoldable pub make_buffers : List FileAssembly → List FileAssembly
make_buffers [] = []
make_buffers (f ∷ files) =
    (if f.failed || not f.assemble then f else record f { content = replicate f.total_size 0 })
    ∷ make_buffers files

unfoldable pub mark_refs : List FileAssembly → List SegmentRef → Fault → List FileAssembly
unfolding mark_failure
mark_refs files [] e = files
mark_refs files (ref ∷ refs) e = mark_refs (mark_failure files ref.file_index e) refs e

-- `copy(data[offset:], segment)`, where the segment fits.
unfoldable pub copy_at : ℕ → Bytes → Bytes → Bytes
copy_at offset segment content =
    take offset content ++ (segment ++ drop (offset + length segment) content)

-- The tests of a decoded segment, and the copy into its file.
unfoldable pub place_segment : SegmentRef → Bytes → FileAssembly → Result FileAssembly
unfolding copy_at
place_segment ref segment f =
    if not (ref.expected_size == 0) && not (length segment == ref.expected_size)
    then err corrupt
    else if not f.assemble
    then ok f
    else if ltb (length f.content) ref.dest_offset
        || ltb (length f.content - ref.dest_offset) (length segment)
    then err corrupt
    else ok (record f { content = copy_at ref.dest_offset segment f.content })

-- What becomes of the file of a segment.
unfoldable pub settle : FileAssembly → Result FileAssembly → FileAssembly
settle f (ok f') = f'
settle f (err e) = fail e f

-- The size of the buffer that a filter has made.
unfoldable pub transient_size : FileFilter → Bytes → ℕ
transient_size no_filter segment = 0
transient_size _ segment = length segment

-- `if Filter != NoFilter { reserve }`: to reserve nothing changes nothing.
unfoldable pub reserve_transient : FileFilter → Bytes → MemoryBudget → Result MemoryBudget
reserve_transient no_filter segment b = ok b
reserve_transient _ segment b = reserve b (length segment)

module _ (p : Primitives) (d : Decoders) where
  -- A segment of the chunk, with the budget that holds its transient buffer.
  unfoldable pub load_segment : Bytes → SegmentRef → MemoryBudget → Result (Bytes × MemoryBudget)
  unfolding reserve_transient
  load_segment chunk ref b = do
    segment ← decode_file_segment p d.new_zlib chunk ref.entry.file (pos (available b))
    b' ← reserve_transient ref.entry.file.filter segment b
    ok (segment, b')

  -- The loop over the segments, for one whose file has not failed.
  unfoldable pub process_live : Bytes → SegmentRef → FileAssembly → Extraction → Extraction
  unfolding load_segment place_segment transient_size settle
  process_live chunk ref f x = elim (load_segment chunk ref x.budget) [
    | err e ↦ record x { files = mark_failure x.files ref.file_index e }
    | ok loaded ↦ record {
      files = modify ref.file_index (λ f. settle f (place_segment ref loaded.0 f)) x.files;
      budget = release loaded.1 (transient_size ref.entry.file.filter loaded.0);
    }
  ]

  -- An index out of range would panic; `build_groups` makes none.
  unfoldable pub process_ref : Bytes → SegmentRef → Extraction → Extraction
  unfolding process_live
  process_ref chunk ref x = elim (get_elem? x.files ref.file_index) [
    | none ↦ x
    | some f ↦ if f.failed then x else process_live chunk ref f x
  ]

  unfoldable pub process_refs : Bytes → List SegmentRef → Extraction → Extraction
  unfolding process_ref
  process_refs chunk [] x = x
  process_refs chunk (ref ∷ refs) x = process_refs chunk refs (process_ref chunk ref x)

  -- The loop over the groups. `decode chunk limit` is `decodeChunk` with its other arguments.
  module _ (decode : Chunk → ℕ → Result Bytes) where
    -- The decoded chunk, and the budget that holds it.
    unfoldable pub load_chunk : Chunk → MemoryBudget → Result (Bytes × MemoryBudget)
    load_chunk chunk b = do
      content ← decode chunk (available b)
      b' ← reserve b (length content)
      ok (content, b')

    unfoldable pub process_loaded :
        ChunkGroup → Extraction → Result (Bytes × MemoryBudget) → Extraction
    unfolding process_refs mark_refs
    process_loaded g x (err e) = record x { files = mark_refs x.files g.refs e }
    process_loaded g x (ok loaded) =
        let y = process_refs loaded.0 g.refs (record x { budget = loaded.1 }) in
        record y { budget = release y.budget (length loaded.0) }

    unfoldable pub process_group : ChunkGroup → Extraction → Extraction
    unfolding load_chunk process_loaded refs_needed
    process_group g x =
        if not (refs_needed g.refs x.files)
        then x
        else process_loaded g x (load_chunk g.chunk x.budget)

    unfoldable pub process_groups : List ChunkGroup → Extraction → Extraction
    unfolding process_group
    process_groups [] x = x
    process_groups (g ∷ gs) x = process_groups gs (process_group g x)

-- `verifyFinalChecksum`
unfoldable pub verify_final_checksum : Primitives → FileEntry → Bytes → ℕ → Result (Unit {0})
verify_final_checksum p entry content total_size =
    if is_checksum_none entry.checksum.type then ok tt else (do
      fail_if (not (length content == total_size)) corrupt
      got ← wrap corrupt (sum p entry.checksum.type content)
      fail_if (not (equal_checksum entry.checksum.type got entry.checksum.digest))
          checksum_mismatch)

pub record FileResult : Type 0 where
  pub file_index : ℕ
  pub content : Bytes

pub record Failure : Type 0 where
  pub file_index : ℕ
  pub error : Option Fault

pub record Outcome : Type 0 where
  pub results : List FileResult
  pub failures : List Failure

-- What is said of the i-th file.
pub data Report : Type 0 where
  unreported : Report
  succeeded : Bytes → Report
  refused : Option Fault → Report

unfoldable pub report_of : Primitives → Bool → FileEntry → FileAssembly → Report
unfolding verify_final_checksum
report_of p verify_only entry f =
    if f.skip
    then unreported
    else if f.failed
    then refused f.error
    else elim (verify_final_checksum p entry f.content f.total_size) [
      | err e ↦ refused (some e)
      | ok _ ↦ succeeded (if verify_only then [] else f.content)
    ]

unfoldable pub add_report : ℕ → Report → Outcome → Outcome
add_report i unreported out = out
add_report i (succeeded content) out = record out {
  results = record { file_index = i; content = content } ∷ out.results;
}
add_report i (refused e) out = record out {
  failures = record { file_index = i; error = e } ∷ out.failures;
}

-- The last loop.
unfoldable pub collect : Primitives → Bool → ℕ → List FileEntry → List FileAssembly → Outcome
unfolding report_of add_report
collect p verify_only i (entry ∷ entries) (f ∷ files) =
    add_report i (report_of p verify_only entry f) (collect p verify_only (i + 1) entries files)
collect p verify_only i _ _ = record { results = []; failures = [] }

pub record Options : Type 0 where
  pub password : Bytes
  pub memory_limit : ℤ
  pub slices : Option Provider

-- `defaultMemoryLimit`
abbrev pub default_memory_limit : ℕ
default_memory_limit = 2 ^ 30

-- The limit that is in force: zero stands for the default.
unfoldable pub effective_limit : ℤ → Result ℕ
effective_limit (negsuc n) = err limit_exceeded
effective_limit (pos n) = ok (if n == 0 then default_memory_limit else n)

module _ (p : Primitives) (d : Decoders) where
  -- `Extract` once the key and the limit are known.
  unfoldable pub extract_with : (Chunk → ℕ → Result Bytes) → Archive → ℕ → Bool → Outcome
  unfolding collect process_groups make_buffers allocate_file_buffers build_groups
  extract_with decode a limit verify_only =
      let built = build_groups a (replicate (length a.files) new_assembly) in
      let x =
        allocate_file_buffers verify_only a.files built.files
          (record { limit = limit; used = 0 }) in
      let y = process_groups p d decode built.groups (record x { files = make_buffers x.files }) in
      collect p verify_only 0 a.files y.files

  -- `Extract`; a nil reader or archive is `none`.
  unfoldable pub extract : Option ReaderAt → Option Archive → Options → Bool → Result Outcome
  unfolding extract_with effective_limit
  extract none a opts verify_only = err invalid_format
  extract (some r) none opts verify_only = err invalid_format
  extract (some r) (some a) opts verify_only = do
    limit ← effective_limit opts.memory_limit
    key ← archive_key p a.header opts.password
    ok (extract_with (decode_chunk p d r a opts.slices key) a limit verify_only)
