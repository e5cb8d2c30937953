-- ===== src/Setup/Single.antt =====
-- The files that `Parse` of internal/setup/setup.go returns have one location each.
use innoextract_go.Base.{ℕ, ◌≡◌, subst, arith, Bool, List, [], Bytes, Option, none, some, ℤ}
use innoextract_go.Fault.{ok}
use innoextract_go.Fault.Ensures.{Ensures, Ensures-ok, Ensures-err, Ensures-bind_eq, Ensures->>=}
use innoextract_go.Format.{Archive, FileEntry, Offsets, Version}
use innoextract_go.PathUtil.Split.{All}
use innoextract_go.Setup.Block.{read_block}
use innoextract_go.Setup.Cursor.Gives.{
  Gives, Gives-return, Gives->>=-with, Gives->>=, Gives->>, Gives-collect,
}
use innoextract_go.Setup.Cursor.{Cursor, Parser, ◌>>=◌, collect, start}
use innoextract_go.Setup.Entries.{parse_file}
use innoextract_go.Setup.Parse.{at_end, outer_header, parse_streams, parse}
use innoextract_go.Setup.PrimaryStream.{Primary, parse_primary}
use innoextract_go.Stream.Chunk.{Decoders}
use innoextract_go.Stream.Reader.{ReaderAt}

-- The file has no location besides the first.
abbrev pub Single : FileEntry → Type 0
Single f = f.additional_locations ≡ []

parse_file-Single : (v : Version) (limit : ℕ) → Gives Single (parse_file v limit)
unfolding parse_file
parse_file-Single v limit = search (Gives-return, Gives->>=, Gives->>) depth 60

abbrev SingleFiles : Primary → Type 0
SingleFiles p = All Single p.files

-- The step of `Parse` that reads the files.
Gives-files :
    (n : ℕ) (v : Version) (limit : ℕ) (f : List FileEntry → Parser Primary)
    → ((files : List FileEntry) → All Single files → Gives SingleFiles (f files))
    → Gives SingleFiles (collect n (parse_file v limit) >>= f)
Gives-files n v limit f h =
    Gives->>=-with SingleFiles (All Single) (collect n (parse_file v limit)) f
      (Gives-collect Single n (parse_file v limit) (parse_file-Single v limit)) h

parse_primary-Single :
    (v : Version) (b : Bool) (limit : ℕ) → Gives SingleFiles (parse_primary v b limit)
unfolding parse_primary
parse_primary-Single v b limit = search (Gives-return, Gives-files, Gives->>=, Gives->>) depth 80

at_end-same : {A : Type 0} (x : A × Cursor) {a : A} → at_end x ≡ ok a → x.0 ≡ a
unfolding at_end
at_end-same x e = ground arith

unfoldable pub SingleArchive : Archive → Type 0
SingleArchive a = All Single a.files

module _ (crc32 : Bytes → ℕ) (d : Decoders) where
  parse_streams-Single :
      (r : ReaderAt) (o : Offsets) (v : Version) (limit : ℕ)
      → Ensures SingleArchive (parse_streams crc32 d r o v limit)
  unfolding parse_streams SingleArchive
  parse_streams-Single r o v limit =
      Ensures->>= SingleArchive (outer_header crc32 d r v o.header_offset) _ λ outer.
        Ensures->>= SingleArchive (read_block crc32 d r outer.1 v limit) _ λ block.
          Ensures-bind_eq SingleArchive (parse_primary v outer.0 limit (start block.0)) _
            λ parsed e. Ensures-bind_eq SingleArchive (at_end parsed) _ λ p same.
              let single : SingleFiles parsed.0 =
                (parse_primary-Single v outer.0 limit).gives (start block.0) parsed.0 parsed.1 e in
              let here : SingleFiles p = subst SingleFiles (at_end-same parsed same) single in
              search (Ensures->>=, Ensures-ok, here)

  -- Every file that `Parse` returns has no location besides its first.
  pub parse-Single :
      (r : Option ReaderAt) (limit : ℤ) → Ensures SingleArchive (parse crc32 d r limit)
  unfolding parse
  parse-Single none limit = Ensures-err SingleArchive _
  parse-Single (some r) limit = search (Ensures->>=, parse_streams-Single)
