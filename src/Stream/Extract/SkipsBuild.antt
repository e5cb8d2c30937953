-- ===== src/Stream/Extract/SkipsBuild.antt =====
-- Which files `buildGroups` of internal/stream/stream.go marks to be skipped.
use innoextract_go.Base.{
  ℕ, zero, suc, ◌+◌, ◌<◌, ◌≡◌, ◌≢◌, refl, ap, ◌∙◌, arith, Bool, true, false, not, some, List, [],
  ◌∷◌, length, get_elem?, replicate, if◌then◌else◌, leb, ◌==◌, if-elim, inl, inr, Bool-cases,
}
use innoextract_go.Fault.{Result, ok, err, corrupt}
use innoextract_go.Format.{Archive, DataEntry, FileEntry}
use innoextract_go.Stream.Assembly.{FileAssembly, new_assembly, modify, mark_failure}
use innoextract_go.Stream.Groups.{
  Building, sum_sizes, place_refs, build_located, build_file, build_files, build_groups,
}
use innoextract_go.Stream.Extract.Skips.{skip_at, skip_at-modify, skip_at-mark_failure}

some_injective : {A : Type 0} {x y : A} → some x ≡ some y → x ≡ y
some_injective e = cc

skip_at-modify_other :
    (i : ℕ) (g : FileAssembly → FileAssembly) (files : List FileAssembly) (k : ℕ)
    → i ≢ k
    → skip_at (modify i g files) k ≡ skip_at files k
unfolding skip_at modify
skip_at-modify_other i g [] k ne = refl
skip_at-modify_other zero g (f ∷ files) zero ne = absurd (ne refl)
skip_at-modify_other zero g (f ∷ files) (suc k) ne = refl
skip_at-modify_other (suc i) g (f ∷ files) zero ne = refl
skip_at-modify_other (suc i) g (f ∷ files) (suc k) ne =
    skip_at-modify_other i g files k (λ e. ne (ap suc e))

skip_at-modify_skip :
    (i : ℕ) (files : List FileAssembly) {b : Bool}
    → skip_at files i ≡ some b
    → skip_at (modify i (λ f. record f { skip = true }) files) i ≡ some true
unfolding skip_at modify
skip_at-modify_skip i [] h = cc
skip_at-modify_skip zero (f ∷ files) h = refl
skip_at-modify_skip (suc i) (f ∷ files) h = skip_at-modify_skip i files h

module _ (entries : List DataEntry) where
  skip_at-build_located :
      (i : ℕ) (file : FileEntry) (locations : List ℕ) (b : Building) (sum : Result ℕ) (k : ℕ)
      → skip_at (build_located entries i file locations b sum).files k ≡ skip_at b.files k
  unfolding build_located
  skip_at-build_located i file locations b (err e) k = skip_at-mark_failure b.files i e k
  skip_at-build_located i file locations b (ok sum) k =
      let total = if not (file.size == 0) then file.size else sum in
      let sized = modify i (λ f. record f { total_size = total }) b.files in
      let same : skip_at sized k ≡ skip_at b.files k = skip_at-modify i _ b.files k (λ f. refl) in
      if-elim (λ files. skip_at files k ≡ skip_at b.files k)
        (place_refs entries i 0 locations b.groups).overflow (mark_failure sized i corrupt) sized
        (λ _. skip_at-mark_failure sized i corrupt k ∙ same) (λ _. same)

  skip_at-build_file_other :
      (i : ℕ) (file : FileEntry) (b : Building) (k : ℕ)
      → i ≢ k
      → skip_at (build_file entries i file b).files k ≡ skip_at b.files k
  unfolding build_file
  skip_at-build_file_other i file b k ne =
      let locations = file.location ∷ file.additional_locations in
      if-elim (λ y. skip_at (Building.files y) k ≡ skip_at b.files k)
        (leb (length entries) file.location) _ _ (λ _. skip_at-modify_other i _ b.files k ne)
        (λ _. skip_at-build_located i file locations b (sum_sizes entries 0 locations) k)

  skip_at-build_file :
      (i : ℕ) (file : FileEntry) (b : Building)
      → skip_at b.files i ≡ some false
      → skip_at (build_file entries i file b).files i ≡ some (leb (length entries) file.location)
  unfolding build_file
  skip_at-build_file i file b h =
      let locations = file.location ∷ file.additional_locations in
      elim (Bool-cases (leb (length entries) file.location)) [
        | inl out ↦ rw (out, build_file) (skip_at-modify_skip i b.files h)
        | inr in_range ↦
            rw (in_range, build_file)
              (skip_at-build_located i file locations b (sum_sizes entries 0 locations) i ∙ h)
      ]

  skip_at-build_files_below :
      (i : ℕ) (fs : List FileEntry) (b : Building) (k : ℕ)
      → k < i
      → skip_at (build_files entries i fs b).files k ≡ skip_at b.files k
  unfolding build_files
  skip_at-build_files_below i [] b k lt = refl
  skip_at-build_files_below i (file ∷ fs) b k lt =
      skip_at-build_files_below (i + 1) fs (build_file entries i file b) k (omega arith)
      ∙ skip_at-build_file_other i file b k (λ e. absurd (omega arith))

  skip_at-build_files :
      (i : ℕ) (fs : List FileEntry) (b : Building) (j : ℕ) {file : FileEntry}
      → get_elem? fs j ≡ some file
      → skip_at b.files (i + j) ≡ some false
      → skip_at (build_files entries i fs b).files (i + j)
        ≡ some (leb (length entries) file.location)
  unfolding build_files
  skip_at-build_files i [] b j found fresh = cc
  skip_at-build_files i (f ∷ fs) b zero {file} found fresh =
      let here : i + 0 ≡ i = omega arith in
      let same : f ≡ file = some_injective found in
      rw
        (
          here,
          skip_at-build_files_below (i + 1) fs (build_file entries i f b) i (omega arith),
          ← same,
        )
        (skip_at-build_file i f b (rw (here) at fresh))
  skip_at-build_files i (f ∷ fs) b (suc j) found fresh =
      let there : i + suc j ≡ i + 1 + j = omega arith in
      rw (there) (
        skip_at-build_files (i + 1) fs (build_file entries i f b) j found (
          skip_at-build_file_other i f b (i + 1 + j) (λ e. absurd (omega arith))
          ∙ (rw (there) at fresh)))

skip_at-replicate : (n i : ℕ) → i < n → skip_at (replicate n new_assembly) i ≡ some false
unfolding skip_at
skip_at-replicate zero i lt = absurd (omega arith)
skip_at-replicate (suc n) zero lt = refl
skip_at-replicate (suc n) (suc i) lt = skip_at-replicate n i (omega arith)

get_elem?-length :
    {A : Type 0} (xs : List A) (i : ℕ) {x : A} → get_elem? xs i ≡ some x → i < length xs
get_elem?-length [] i h = cc
get_elem?-length (x ∷ xs) zero h = omega arith
get_elem?-length (x ∷ xs) (suc i) h = let below = get_elem?-length xs i h in omega arith

-- `buildGroups`, from fresh files, marks a file to be skipped exactly if its first location is none
-- of the data entries.
pub skip_at-build_groups :
    (a : Archive) (i : ℕ) {file : FileEntry}
    → get_elem? a.files i ≡ some file
    → skip_at (build_groups a (replicate (length a.files) new_assembly)).files i
      ≡ some (leb (length a.data_entries) file.location)
unfolding build_groups
skip_at-build_groups a i found =
    let z : 0 + i ≡ i = omega arith in
    let fresh : Building = record {
      files = replicate (length a.files) new_assembly;
      groups = [];
    } in
    rw (z) at (
      skip_at-build_files a.data_entries 0 a.files fresh i found
        (rw (z) (skip_at-replicate (length a.files) i (get_elem?-length a.files i found))))
