-- ===== src/Stream/Extract/Explained.antt =====
-- The failures that `Extract` of internal/stream/stream.go reports.
use innoextract_go.Base.{
  ℕ, ◌+◌, ◌≡◌, refl, Bool, some, List, [], ◌∷◌, length, replicate, if-elim, inl, inr, Bytes,
}
use innoextract_go.Crypto.Password.{archive_key}
use innoextract_go.Crypto.Primitives.{Primitives}
use innoextract_go.Fault.{Result, ok, Result-cases, >>=-eq-ok, ok_injective}
use innoextract_go.Format.{Archive, Chunk, FileEntry}
use innoextract_go.PathUtil.Split.{All}
use innoextract_go.Stream.Assembly.{FileAssembly, new_assembly}
use innoextract_go.Stream.Budget.{MemoryBudget}
use innoextract_go.Stream.Chunk.{Decoders, decode_chunk}
use innoextract_go.Stream.Extract.{
  Extraction, allocate_file_buffers, make_buffers, process_groups, Failure, Outcome, Report,
  unreported, succeeded, refused, report_of, add_report, verify_final_checksum, collect, Options,
  effective_limit, extract_with, extract,
}
use innoextract_go.Stream.Groups.{Building, build_groups}
use innoextract_go.Stream.Reader.{ReaderAt}
use innoextract_go.Stream.Extract.ExplainedSteps.{
  Reason, Explained, build_files-Explained, new-Explained, allocate_file_buffers-Explained,
  make_buffers-Explained, process_groups-Explained,
}

-- The failure names its error.
abbrev pub Named : Failure → Type 0
Named f = Reason f.error

abbrev NamesError : Report → Type 0
NamesError (refused e) = Reason e
NamesError _ = Unit

report_of-NamesError :
    (p : Primitives) (v : Bool) (entry : FileEntry) (f : FileAssembly)
    → Explained f
    → NamesError (report_of p v entry f)
unfolding report_of
report_of-NamesError p v entry f h =
    if-elim NamesError f.skip unreported _ (λ _. tt)
      λ _. if-elim NamesError f.failed (refused f.error) _ h.reason λ _.
        elim (Result-cases (verify_final_checksum p entry f.content f.total_size)) [
          | inl (u, e) ↦ rw e tt
          | inr (e, failed) ↦ rw failed (e, refl)
        ]

add_report-Named :
    (i : ℕ) (r : Report) (out : Outcome)
    → NamesError r
    → All Named out.failures
    → All Named (add_report i r out).failures
unfolding add_report
add_report-Named i unreported out n h = h
add_report-Named i (succeeded content) out n h = h
add_report-Named i (refused e) out n h = (n, h)

collect-Named :
    (p : Primitives) (v : Bool) (i : ℕ) (entries : List FileEntry) (files : List FileAssembly)
    → All Explained files
    → All Named (collect p v i entries files).failures
unfolding collect
collect-Named p v i [] files h = tt
collect-Named p v i (e ∷ entries) [] h = tt
collect-Named p v i (e ∷ entries) (f ∷ files) h =
    add_report-Named i (report_of p v e f) _ (report_of-NamesError p v e f h.0)
      (collect-Named p v (i + 1) entries files h.1)

extract_with-Named :
    (p : Primitives) (d : Decoders) (decode : Chunk → ℕ → Result Bytes) (a : Archive) (limit : ℕ)
    (v : Bool)
    → All Named (extract_with p d decode a limit v).failures
unfolding extract_with build_groups
extract_with-Named p d decode a limit v =
    let n = length a.files in
    let built = build_groups a (replicate n new_assembly) in
    let b : MemoryBudget = record { limit = limit; used = 0 } in
    let x = allocate_file_buffers v a.files built.files b in
    let y : Extraction = record x { files = make_buffers x.files } in
    let fresh : Building = record { files = replicate n new_assembly; groups = [] } in
    let built_ok : All Explained built.files =
      build_files-Explained a.data_entries 0 a.files fresh (new-Explained n) in
    let x_ok = allocate_file_buffers-Explained v a.files built.files b built_ok in
    let y_ok = make_buffers-Explained x.files x_ok in
    collect-Named p v 0 a.files (process_groups p d decode built.groups y).files
      (process_groups-Explained p d decode built.groups y y_ok)

-- Every failure that `Extract` reports comes with an error: a file is never refused without a reason.
pub extract-Named :
    (p : Primitives) (d : Decoders) (r : ReaderAt) (a : Archive) (opts : Options) (v : Bool)
    {out : Outcome}
    → extract p d (some r) (some a) opts v ≡ ok out
    → All Named out.failures
unfolding extract
extract-Named p d r a opts v {out} e =
    let (limit, _, rest) = >>=-eq-ok (effective_limit opts.memory_limit) _ e in
    let (key, _, last) = >>=-eq-ok (archive_key p a.header opts.password) _ rest in
    let same : ok (extract_with p d (decode_chunk p d r a opts.slices key) a limit v) ≡ ok out =
      last in
    rw (← ok_injective same)
      (extract_with-Named p d (decode_chunk p d r a opts.slices key) a limit v)
