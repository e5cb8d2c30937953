-- ===== src/Api/Paths.antt =====
-- The paths that the package gives to its caller.
use innoextract_go.Base.{ℕ, ◌+◌, Bool, true, false, Option, none, some, List, [], ◌∷◌, get_elem?}
use innoextract_go.Api.Archive.{
  OpenArchive, Entry, File, describe_data, entry_of, entries_from, list_files, publish_one,
  published, publish, extract_parsed, extract_archive,
}
use innoextract_go.Api.Settings.{Settings}
use innoextract_go.Crypto.Primitives.{Primitives}
use innoextract_go.Fault.{Result, ok, err}
use innoextract_go.Format.{Archive, DataEntry, FileEntry}
use innoextract_go.PathUtil.Safety.{SafePath, clean-SafePath}
use innoextract_go.PathUtil.Split.{All}
use innoextract_go.Stream.Chunk.{Decoders}
use innoextract_go.Stream.Extract.{FileResult, Outcome}
use innoextract_go.Stream.Reader.{ReaderAt}

describe_data-SafePath :
    (f : FileEntry) (stored : Option DataEntry) (e : Entry)
    → SafePath e.path
    → SafePath (describe_data f stored e).path
unfolding describe_data
describe_data-SafePath f none e h = h
describe_data-SafePath f (some stored) e h = h

entry_of-SafePath : (a : Archive) (i : ℕ) (f : FileEntry) → SafePath (entry_of a i f).path
unfolding entry_of
entry_of-SafePath a i f =
    describe_data-SafePath f (get_elem? a.data_entries f.location) _ (clean-SafePath f.destination)

entries_from-SafePath :
    (a : Archive) (i : ℕ) (fs : List FileEntry) → All (λ e. SafePath e.path) (entries_from a i fs)
unfolding entries_from
entries_from-SafePath a i [] = tt
entries_from-SafePath a i (f ∷ fs) = (entry_of-SafePath a i f, entries_from-SafePath a (i + 1) fs)

list_files-SafePath : (o : Option OpenArchive) → All (λ e. SafePath e.path) (list_files o)
unfolding list_files
list_files-SafePath none = tt
list_files-SafePath (some o) =
    elim o.parsed
      as (λ q.
        All (λ e. SafePath e.path) (elim q [ none ↦ [] | some a ↦ entries_from a 0 a.files ])) [
          | none ↦ tt
          | some a ↦ entries_from-SafePath a 0 a.files
        ]

-- The path of a returned file leads nowhere out of the directory that it is written to.
abbrev pub SafeFile : File → Type 0
SafeFile f = SafePath f.entry.path

module _ (p : Primitives) (d : Decoders) where
  one-SafePath :
      (a : Archive) (r : FileResult) (f : Option FileEntry) (rest : List File)
      → All SafeFile rest
      → All SafeFile (publish_one p d a r f rest)
  unfolding publish_one
  one-SafePath a r none rest h = h
  one-SafePath a r (some f) rest h = (entry_of-SafePath a r.file_index f, h)

  published-SafePath : (a : Archive) (rs : List FileResult) → All SafeFile (published p d a rs)
  unfolding published
  published-SafePath a [] = tt
  published-SafePath a (r ∷ rs) =
      one-SafePath a r (get_elem? a.files r.file_index) _ (published-SafePath a rs)

  publish-SafePath :
      (a : Archive) (v : Bool) (r : Result Outcome) → All SafeFile (publish p d a v r).files
  unfolding publish
  publish-SafePath a v (err e) = tt
  publish-SafePath a true (ok out) = tt
  publish-SafePath a false (ok out) = published-SafePath a out.results

  extract_parsed-SafePath :
      (v : Bool) (s : Settings) (r : Option ReaderAt) (a : Option Archive)
      → All SafeFile (extract_parsed p d v s r a).files
  unfolding extract_parsed
  extract_parsed-SafePath v s none a = tt
  extract_parsed-SafePath v s (some r) none = tt
  extract_parsed-SafePath v s (some r) (some a) = publish-SafePath a v _

  -- Every path that `Files` lists and every path of a file that `Extract` returns, beside an error
  -- too, is empty or is made of components that stay inside the directory where it is written,
  -- whatever the installer holds.
  pub list_files-extract_archive-SafePath :
      (v : Bool) (o : Option OpenArchive)
      → All (λ e. SafePath e.path) (list_files o) × All SafeFile (extract_archive p d v o).files
  unfolding extract_archive list_files
  list_files-extract_archive-SafePath v none = (tt, tt)
  list_files-extract_archive-SafePath v (some o) =
      (list_files-SafePath (some o), extract_parsed-SafePath v o.settings o.reader o.parsed)
