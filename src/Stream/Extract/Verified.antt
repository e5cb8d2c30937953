-- ===== src/Stream/Extract/Verified.antt =====
-- The files that `Extract` of internal/stream/stream.go returns: their checksums are right.
use mathlib.Core.List.{Memᴰ}
use mathlib.Core.List.Memᴰ
use innoextract_go.Base.{
  ℕ, suc, ◌+◌, ◌≡◌, refl, ap, sym, ◌∙◌, arith, false, some, List, [], ◌∷◌, get_elem?, inl, inr, ◌⊎◌,
  Bytes, subst,
}
use innoextract_go.Fault.{ok, Result-cases, >>=-eq-ok, ok_injective}
use innoextract_go.Format.{Archive, FileEntry}
use innoextract_go.Crypto.Checksums.{sum}
use innoextract_go.Crypto.Password.{archive_key}
use innoextract_go.Crypto.Primitives.{Primitives}
use innoextract_go.Stream.Assembly.{FileAssembly}
use innoextract_go.Stream.Chunk.{Decoders, decode_chunk}
use innoextract_go.Stream.Reader.{ReaderAt}
use innoextract_go.Stream.Segment.{Verified, is_checksum_none-false}
use innoextract_go.Stream.Extract.{
  verify_final_checksum, FileResult, Outcome, Report, unreported, succeeded, refused, report_of,
  add_report, collect, Options, effective_limit, extract_with, extract,
}

verify_final_checksum-Verified :
    (p : Primitives) (entry : FileEntry) (content : Bytes) (n : ℕ)
    → verify_final_checksum p entry content n ≡ ok tt
    → Verified p entry.checksum content
unfolding verify_final_checksum Verified
verify_final_checksum-Verified p entry content n h ne =
    elim (Result-cases (sum p entry.checksum.type content)) [
      | inl (got, e) ↦ (got, e, ground (arith, is_checksum_none-false entry.checksum.type ne))
      | inr (f, e) ↦ absurd (ground (arith, is_checksum_none-false entry.checksum.type ne))
    ]

report_of-succeeded :
    (p : Primitives) (entry : FileEntry) (f : FileAssembly) {content : Bytes}
    → report_of p false entry f ≡ succeeded content
    → Verified p entry.checksum content
unfolding report_of
report_of-succeeded p entry f {content} h =
    elim (Result-cases (verify_final_checksum p entry f.content f.total_size)) [
      | inl (u, e) ↦
          let same : f.content ≡ content = ground arith in
          rw (← same) (verify_final_checksum-Verified p entry f.content f.total_size e)
      | inr (_, e) ↦ absurd (ground arith)
    ]

Memᴰ-add_report :
    (i : ℕ) (rep : Report) (out : Outcome) (r : FileResult)
    → Memᴰ r (add_report i rep out).results
    → ((rep ≡ succeeded r.content) × (r.file_index ≡ i)) ⊎ Memᴰ r out.results
unfolding add_report
Memᴰ-add_report i unreported out r m = inr m
Memᴰ-add_report i (succeeded content) out r (Memᴰ.head e) =
    inl (ap (λ (x : FileResult). succeeded x.content) (sym e), ap FileResult.file_index e)
Memᴰ-add_report i (succeeded content) out r (Memᴰ.tail m) = inr m
Memᴰ-add_report i (refused e) out r m = inr m

collect-Verified :
    (p : Primitives) (i : ℕ) (entries : List FileEntry) (files : List FileAssembly) (r : FileResult)
    → Memᴰ r (collect p false i entries files).results
    → (j : ℕ) × (entry : FileEntry) × ((r.file_index ≡ i + j)
        × (get_elem? entries j ≡ some entry)
        × Verified p entry.checksum r.content)
unfolding collect
collect-Verified p i [] files r m = absurd (Memᴰ.not-nil m)
collect-Verified p i (e ∷ entries) [] r m = absurd (Memᴰ.not-nil m)
collect-Verified p i (e ∷ entries) (f ∷ files) r m =
    elim (Memᴰ-add_report i (report_of p false e f) (collect p false (i + 1) entries files) r m) [
      | inl (said, here) ↦ (0, e, (here ∙ omega arith, refl, report_of-succeeded p e f said))
      | inr later ↦
          let (j, entry, (k, found, good)) = collect-Verified p (i + 1) entries files r later in
          (suc j, entry, (k ∙ omega arith, found, good))
    ]

-- Every file that `Extract` returns with its content, `verifyOnly` unset, is a file of the archive
-- whose checksum the content passes, where it has one.
pub extract-Verified :
    (p : Primitives) (d : Decoders) (r : ReaderAt) (a : Archive) (opts : Options) {out : Outcome}
    (f : FileResult)
    → extract p d (some r) (some a) opts false ≡ ok out
    → Memᴰ f out.results
    → (entry : FileEntry) × ((get_elem? a.files f.file_index ≡ some entry)
        × Verified p entry.checksum f.content)
unfolding extract extract_with
extract-Verified p d r a opts {out} f e m =
    let (limit, _, rest) = >>=-eq-ok (effective_limit opts.memory_limit) _ e in
    let (key, _, last) = >>=-eq-ok (archive_key p a.header opts.password) _ rest in
    let same : ok (extract_with p d (decode_chunk p d r a opts.slices key) a limit false) ≡ ok out =
      last in
    let (j, entry, (k, found, good)) =
      collect-Verified p 0 a.files _ f (rw (← ok_injective same) at m) in
    let here : f.file_index ≡ j = k ∙ omega arith in
    (entry, (subst (λ k. get_elem? a.files k ≡ some entry) (sym here) found, good))
