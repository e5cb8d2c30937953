-- ===== src/Api/Accounts.antt =====
-- What `Extract` and `Verify` of archive.go return: the files and the error together.
use innoextract_go.Base.{
  ℕ, ◌+◌, ◌≡◌, ◌≢◌, refl, arith, Bool, false, Option, none, some, List, [], ◌∷◌, ◌==◌, map,
  get_elem?, if◌then◌else◌, length, leb, inl, inr, Bool-cases, Option-cases,
}
use innoextract_go.Api.Archive.{
  OpenArchive, Entry, File, EntryError, ExtractFault, plain, failed, Extracted, describe_data,
  entry_of, publish_one, published, failed_entry, entry_error, failures_error, publish,
  extract_parsed, extract_archive,
}
use innoextract_go.Api.Settings.{Settings}
use innoextract_go.Crypto.Primitives.{Primitives}
use innoextract_go.Fault.{Fault, Result-cases}
use innoextract_go.Format.{Archive, DataEntry, FileEntry}
use innoextract_go.PathUtil.Split.{All}
use innoextract_go.Stream.Chunk.{Decoders}
use innoextract_go.Stream.Extract.Explained.{Named, extract-Named}
use innoextract_go.Stream.Extract.ExplainedSteps.{Reason}
use innoextract_go.Stream.Extract.Reports.{count_results, count_failures, times_reported-extract}
use innoextract_go.Stream.Extract.{FileResult, Failure, Outcome, Options}
use innoextract_go.Stream
use innoextract_go.Stream.Reader.{ReaderAt}

-- What an error says beside the files that come with it.
pub Reported : Option ExtractFault → List File → Type 0
Reported none files = Unit
Reported (some (plain e)) files = files ≡ []
Reported (some (failed errors)) files =
    (errors ≢ []) × All (λ e. Reason (EntryError.error e)) errors

-- How often a file is named among the files, and in the error.
pub count_files : ℕ → List File → ℕ
count_files i [] = 0
count_files i (f ∷ files) = (if f.entry.index == i then 1 else 0) + count_files i files

pub count_errors : ℕ → List EntryError → ℕ
count_errors i [] = 0
count_errors i (e ∷ errors) = (if e.entry.index == i then 1 else 0) + count_errors i errors

pub count_fault : ℕ → Option ExtractFault → ℕ
count_fault i (some (failed errors)) = count_errors i errors
count_fault i _ = 0

abbrev pub times_named : ℕ → Extracted → ℕ
times_named i x = count_files i x.files + count_fault i x.error

describe_data-index :
    (f : FileEntry) (stored : Option DataEntry) (e : Entry)
    → (describe_data f stored e).index ≡ e.index
unfolding describe_data
describe_data-index f none e = refl
describe_data-index f (some stored) e = refl

entry_of-index : (a : Archive) (i : ℕ) (f : FileEntry) → (entry_of a i f).index ≡ i
unfolding entry_of
entry_of-index a i f = describe_data-index f (get_elem? a.data_entries f.location) _

module _ (a : Archive) where
  failed_entry-index : (i : ℕ) (f : Option FileEntry) → (failed_entry a i f).index ≡ i
  unfolding failed_entry
  failed_entry-index i none = refl
  failed_entry-index i (some f) = entry_of-index a i f

  entry_error-index : (e : Failure) → (entry_error a e).entry.index ≡ e.file_index
  unfolding entry_error
  entry_error-index e = failed_entry-index e.file_index (get_elem? a.files e.file_index)

  count_errors-map :
      (i : ℕ) (es : List Failure) → count_errors i (map (entry_error a) es) ≡ count_failures i es
  unfolding count_errors count_failures
  count_errors-map i [] = refl
  count_errors-map i (e ∷ es) = rw (entry_error-index e, count_errors-map i es)

  map-entry_error-Reason :
      (es : List Failure)
      → All Named es
      → All (λ e. Reason (EntryError.error e)) (map (entry_error a) es)
  unfolding entry_error
  map-entry_error-Reason [] h = tt
  map-entry_error-Reason (e ∷ es) h = (h.0, map-entry_error-Reason es h.1)

-- A result whose index names no file is not about this file.
absent :
    (a : Archive) (i : ℕ) (r : FileResult) {file : FileEntry}
    → get_elem? a.files i ≡ some file
    → get_elem? a.files r.file_index ≡ none
    → (r.file_index == i) ≡ false
absent a i r found missing = elim (Bool-cases (r.file_index == i)) [
  | inr other ↦ other
  | inl same ↦ let eq : r.file_index ≡ i = ground arith in absurd (cc (eq, missing, found))
]

module _ (p : Primitives) (d : Decoders) where
  count_files-published :
      (a : Archive) (i : ℕ) (rs : List FileResult) {file : FileEntry}
      → get_elem? a.files i ≡ some file
      → count_files i (published p d a rs) ≡ count_results i rs
  unfolding published publish_one count_files count_results
  count_files-published a i [] found = refl
  count_files-published a i (r ∷ rs) {file} found =
      let rest = count_files-published a i rs found in
      elim (Option-cases (get_elem? a.files r.file_index)) [
        | inr (f, here) ↦ rw (here, entry_of-index a r.file_index f, rest)
        | inl missing ↦ rw (missing, absent a i r found missing, rest) (omega arith)
      ]

  failures_error-Reported :
      (a : Archive) (es : List Failure) (files : List File)
      → All Named es
      → Reported (failures_error a es) files
  unfolding failures_error Reported
  failures_error-Reported a [] files h = tt
  failures_error-Reported a (e ∷ es) files h =
      ((λ empty. absurd (cc)), map-entry_error-Reason a (e ∷ es) h)

  count_fault-failures_error :
      (a : Archive) (i : ℕ) (es : List Failure)
      → count_fault i (failures_error a es) ≡ count_failures i es
  unfolding failures_error count_fault count_failures
  count_fault-failures_error a i [] = refl
  count_fault-failures_error a i (e ∷ es) = count_errors-map a i (e ∷ es)

  module _ (v : Bool) (s : Settings) where
    abbrev stream_options : Options
    stream_options = record {
      password = s.password;
      memory_limit = s.memory_limit;
      slices = s.slices;
    }

    publish-Reported :
        (r : ReaderAt) (a : Archive)
        → let x = publish p d a v (Stream.Extract.extract p d (some r) (some a) stream_options v) in
          Reported x.error x.files
    unfolding publish Reported
    publish-Reported r a =
        elim (Result-cases (Stream.Extract.extract p d (some r) (some a) stream_options v)) [
          | inr (f, e) ↦ rw e refl
          | inl (out, e) ↦
              rw e (
                failures_error-Reported a out.failures _ (extract-Named p d r a stream_options v e))
        ]

    extract_parsed-Reported :
        (r : Option ReaderAt) (a : Option Archive)
        → Reported (extract_parsed p d v s r a).error (extract_parsed p d v s r a).files
    unfolding extract_parsed Reported
    extract_parsed-Reported none a = refl
    extract_parsed-Reported (some r) none = refl
    extract_parsed-Reported (some r) (some a) = publish-Reported r a

  -- Beside an error that is not about single files, `Extract` and `Verify` return no file; an error
  -- about files names at least one of them, and comes with an error for each that it names.
  pub extract_archive-Reported :
      (v : Bool) (o : Option OpenArchive)
      → Reported (extract_archive p d v o).error (extract_archive p d v o).files
  unfolding extract_archive Reported
  extract_archive-Reported v none = refl
  extract_archive-Reported v (some o) = extract_parsed-Reported v o.settings o.reader o.parsed

  -- Unless `Extract` fails as a whole, it accounts for every file of an archive: one whose location
  -- is a data entry is either returned once or named once in the error, and another is in neither.
  pub times_named-extract_archive :
      (r : ReaderAt) (a : Archive) (s : Settings) (i : ℕ) {file : FileEntry}
      → get_elem? a.files i ≡ some file
      → ((e : Fault)
          → (extract_archive p d false
              (some (record { reader = some r; settings = s; parsed = some a }))).error
            ≢ some (plain e))
      → times_named i (
          extract_archive p d false
            (some (record { reader = some r; settings = s; parsed = some a })))
        ≡ (if leb (length a.data_entries) file.location then 0 else 1)
  unfolding extract_archive extract_parsed publish
  times_named-extract_archive r a s i found whole =
      elim (Result-cases
        (Stream.Extract.extract p d (some r) (some a) (stream_options false s) false)) [
          | inr (f, e) ↦ absurd (whole f (rw e refl))
          | inl (out, e) ↦
              rw
                (
                  e,
                  count_files-published a i out.results found,
                  count_fault-failures_error a i out.failures,
                )
                (times_reported-extract p d r a (stream_options false s) false i found e)
        ]
