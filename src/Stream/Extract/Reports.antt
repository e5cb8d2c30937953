-- ===== src/Stream/Extract/Reports.antt =====
-- What `Extract` of internal/stream/stream.go returns: one report for each file, and the checksums of
-- the files that it says are extracted.
use innoextract_go.Base.{
  ℕ, zero, suc, ◌+◌, ◌<◌, ◌≡◌, ◌≢◌, refl, ◌∙◌, arith, Bool, some, List, [], ◌∷◌, length, get_elem?,
  replicate, leb, ◌==◌, if◌then◌else◌, inl, inr, Bytes,
}
use innoextract_go.Fault.{Result, ok, Result-cases, >>=-eq-ok, ok_injective}
use innoextract_go.Format.{Archive, Chunk, FileEntry}
use innoextract_go.Crypto.Password.{archive_key}
use innoextract_go.Crypto.Primitives.{Primitives}
use innoextract_go.Stream.Assembly.{FileAssembly, new_assembly}
use innoextract_go.Stream.Budget.{MemoryBudget}
use innoextract_go.Stream.Chunk.{Decoders, decode_chunk}
use innoextract_go.Stream.Groups.{build_groups}
use innoextract_go.Stream.Reader.{ReaderAt}
use innoextract_go.Stream.Extract.{
  Extraction, allocate_file_buffers, make_buffers, process_groups, verify_final_checksum,
  FileResult, Failure, Outcome, Report, unreported, succeeded, refused, report_of, add_report,
  collect, Options, effective_limit, extract_with, extract,
}
use innoextract_go.Stream.Extract.Skips.{
  skip_at, skip_at-make_buffers, skip_at-allocate_file_buffers, skip_at-process_groups,
}
use innoextract_go.Stream.Extract.SkipsBuild.{skip_at-build_groups}

-- How often a file is named among the results, and among the failures.
unfoldable pub count_results : ℕ → List FileResult → ℕ
count_results i [] = 0
count_results i (r ∷ rs) = (if r.file_index == i then 1 else 0) + count_results i rs

unfoldable pub count_failures : ℕ → List Failure → ℕ
count_failures i [] = 0
count_failures i (r ∷ rs) = (if r.file_index == i then 1 else 0) + count_failures i rs

abbrev pub times_reported : ℕ → Outcome → ℕ
times_reported i out = count_results i out.results + count_failures i out.failures

abbrev said : Report → ℕ
said unreported = 0
said _ = 1

times_reported-add_report :
    (i : ℕ) (r : Report) (out : Outcome)
    → times_reported i (add_report i r out) ≡ said r + times_reported i out
unfolding add_report count_results count_failures
times_reported-add_report i unreported out = ground arith
times_reported-add_report i (succeeded content) out = ground arith
times_reported-add_report i (refused e) out = ground arith

times_reported-add_report_other :
    (i k : ℕ) (r : Report) (out : Outcome)
    → i ≢ k
    → times_reported k (add_report i r out) ≡ times_reported k out
unfolding add_report count_results count_failures
times_reported-add_report_other i k unreported out ne = refl
times_reported-add_report_other i k (succeeded content) out ne = ground arith
times_reported-add_report_other i k (refused e) out ne = ground arith

said-report_of :
    (p : Primitives) (v : Bool) (entry : FileEntry) (f : FileAssembly)
    → said (report_of p v entry f) ≡ (if f.skip then 0 else 1)
unfolding report_of
said-report_of p v entry f =
    elim (Result-cases (verify_final_checksum p entry f.content f.total_size)) [
      | inl (_, e) ↦ ground arith
      | inr (_, e) ↦ ground arith
    ]

module _ (p : Primitives) (v : Bool) where
  times_reported-collect_below :
      (i : ℕ) (entries : List FileEntry) (files : List FileAssembly) (k : ℕ)
      → k < i
      → times_reported k (collect p v i entries files) ≡ 0
  unfolding collect count_results count_failures
  times_reported-collect_below i [] files k lt = refl
  times_reported-collect_below i (e ∷ entries) [] k lt = refl
  times_reported-collect_below i (e ∷ entries) (f ∷ files) k lt =
      times_reported-add_report_other i k (report_of p v e f) _ (λ e. absurd (omega arith))
      ∙ times_reported-collect_below (i + 1) entries files k (omega arith)

  times_reported-collect :
      (i : ℕ) (entries : List FileEntry) (files : List FileAssembly) (j : ℕ) {entry : FileEntry}
      {b : Bool}
      → get_elem? entries j ≡ some entry
      → skip_at files j ≡ some b
      → times_reported (i + j) (collect p v i entries files) ≡ (if b then 0 else 1)
  unfolding collect skip_at
  times_reported-collect i [] files j found skip = cc
  times_reported-collect i (e ∷ entries) [] j found skip = cc
  times_reported-collect i (e ∷ entries) (f ∷ files) zero {entry} {b} found skip =
      let here : i + 0 ≡ i = omega arith in
      rw
        (
          here,
          times_reported-add_report i (report_of p v e f) (collect p v (i + 1) entries files),
          said-report_of p v e f,
          times_reported-collect_below (i + 1) entries files i (omega arith),
        )
        (ground arith)
  times_reported-collect i (e ∷ entries) (f ∷ files) (suc j) found skip =
      let there : i + suc j ≡ i + 1 + j = omega arith in
      rw (there) (
        times_reported-add_report_other i (i + 1 + j) (report_of p v e f) _
          (λ e. absurd (omega arith))
        ∙ times_reported-collect (i + 1) entries files j found skip)

module _ (p : Primitives) (d : Decoders) where
  times_reported-extract_with :
      (decode : Chunk → ℕ → Result Bytes) (a : Archive) (limit : ℕ) (v : Bool) (i : ℕ)
      {file : FileEntry}
      → get_elem? a.files i ≡ some file
      → times_reported i (extract_with p d decode a limit v)
        ≡ (if leb (length a.data_entries) file.location then 0 else 1)
  unfolding extract_with
  times_reported-extract_with decode a limit v i found =
      let built = build_groups a (replicate (length a.files) new_assembly) in
      let b : MemoryBudget = record { limit = limit; used = 0 } in
      let x = allocate_file_buffers v a.files built.files b in
      let y : Extraction = record x { files = make_buffers x.files } in
      let z : 0 + i ≡ i = omega arith in
      rw (z) at (
        times_reported-collect p v 0 a.files (process_groups p d decode built.groups y).files i
          found
          (skip_at-process_groups p d i decode built.groups y
            ∙ skip_at-make_buffers x.files i
            ∙ skip_at-allocate_file_buffers v a.files built.files b i
            ∙ skip_at-build_groups a i found))

  -- When `Extract` returns without an error, every file whose first location is a data entry is
  -- named exactly once in the results and failures together, and every other file is named in
  -- neither.
  pub times_reported-extract :
      (r : ReaderAt) (a : Archive) (opts : Options) (v : Bool) (i : ℕ) {file : FileEntry}
      {out : Outcome}
      → get_elem? a.files i ≡ some file
      → extract p d (some r) (some a) opts v ≡ ok out
      → times_reported i out ≡ (if leb (length a.data_entries) file.location then 0 else 1)
  unfolding extract
  times_reported-extract r a opts v i {out = out} found e =
      let (limit, _, rest) = >>=-eq-ok (effective_limit opts.memory_limit) _ e in
      let (key, _, last) = >>=-eq-ok (archive_key p a.header opts.password) _ rest in
      let same : ok (extract_with p d (decode_chunk p d r a opts.slices key) a limit v) ≡ ok out =
        last in
      rw (← ok_injective same)
        (times_reported-extract_with (decode_chunk p d r a opts.slices key) a limit v i found)
