-- ===== src/Setup/Streams.antt =====
-- What `Parse` of internal/setup/setup.go has read when it returns an archive.
use innoextract_go.Base.{
  ℕ, ◌≡◌, refl, sym, ap, subst, ◌∙◌, Bool, not, ◌||◌, ltb, ◌==◌, max_int64, List, length, Bytes,
  some, ℤ,
}
use innoextract_go.Fault.{ok, fail_if, corrupt, unsupported_version}
use innoextract_go.Fault.Ensures.{Ensures, Ensures-ok, Ensures-bind_eq, Ensures->>=}
use innoextract_go.Format.{Archive, DataEntry, Offsets, Version}
use innoextract_go.Loader.Locate.{locate}
use innoextract_go.Setup.Block.{read_block}
use innoextract_go.Setup.Cursor.Gives.{
  Gives, Gives-return, Gives->>=-with, Gives->>=, Gives->>, Gives-length,
}
use innoextract_go.Setup.Cursor.{Cursor, Parser, ◌>>=◌, return, collect, start}
use innoextract_go.Setup.Entries.{parse_data_entry}
use innoextract_go.Setup.Parse.{header_limit, outer_header, at_end, parse_streams, parse}
use innoextract_go.Setup.PrimaryStream.{Primary, parse_primary, parse_secondary}
use innoextract_go.Setup.ReadVersion.{read_version}
use innoextract_go.Setup.WholeStream.{Inside-parse_primary, Inside-parse_secondary, at_end-whole}
use innoextract_go.Stream.Chunk.{Decoders}
use innoextract_go.Stream.Reader.{ReaderAt}

-- As many entries of each kind as the header counts.
pub record Counted (p : Primary) : Type 0 where
  pub languages : length p.languages ≡ p.counts.languages
  pub files : length p.files ≡ p.counts.files
  pub registry : length p.registry ≡ p.counts.registries

Counted-return :
    (p : Primary)
    → length p.languages ≡ p.counts.languages
    → length p.files ≡ p.counts.files
    → length p.registry ≡ p.counts.registries
    → Gives Counted (return p)
Counted-return p l f r = Gives-return Counted p (record { languages = l; files = f; registry = r })

Counted-collect :
    {A : Type 0} (n : ℕ) (m : Parser A) (f : List A → Parser Primary)
    → ((xs : List A) → length xs ≡ n → Gives Counted (f xs))
    → Gives Counted (collect n m >>= f)
Counted-collect n m f h =
    Gives->>=-with Counted (λ xs. length xs ≡ n) (collect n m) f (Gives-length n m) h

parse_primary-Counted :
    (v : Version) (b : Bool) (limit : ℕ) → Gives Counted (parse_primary v b limit)
unfolding parse_primary
parse_primary-Counted v b limit =
    search (Counted-return, Counted-collect, Gives->>=, Gives->>) depth 80

parse_secondary-length :
    (v : Version) (p : Primary)
    → Gives
        (λ xs. length xs ≡ p.counts.data_entries)
        (parse_secondary v p.header.compression p.counts.data_entries)
unfolding parse_secondary
parse_secondary-length v p =
    Gives-length p.counts.data_entries (parse_data_entry v p.header.compression)

-- The two streams behind an archive: where they begin, what they hold, and that all of it was read.
pub record Streams (crc32 : Bytes → ℕ) (d : Decoders) (r : ReaderAt) (limit : ℕ) (a : Archive)
    : Type 0 where
  pub outer_encrypted : Bool
  pub position : ℕ
  pub next : ℕ
  pub after : ℕ
  pub primary : Bytes
  pub secondary : Bytes
  pub p : Primary
  pub behind_primary : Cursor
  pub behind_secondary : Cursor
  pub outer :
      outer_header crc32 d r a.version a.offsets.header_offset ≡ ok (outer_encrypted, position)
  pub primary_block : read_block crc32 d r position a.version limit ≡ ok (primary, next)
  pub primary_read :
      parse_primary a.version outer_encrypted limit (start primary) ≡ ok (p, behind_primary)
  pub primary_whole : behind_primary.pos ≡ length primary
  pub secondary_block : read_block crc32 d r next a.version limit ≡ ok (secondary, after)
  pub secondary_read :
      parse_secondary a.version p.header.compression p.counts.data_entries (start secondary)
      ≡ ok (a.data_entries, behind_secondary)
  pub secondary_whole : behind_secondary.pos ≡ length secondary
  pub header : a.header ≡ p.header
  pub languages : (a.languages ≡ p.languages) × (length a.languages ≡ p.counts.languages)
  pub files : (a.files ≡ p.files) × (length a.files ≡ p.counts.files)
  pub registry : (a.registry ≡ p.registry) × (length a.registry ≡ p.counts.registries)
  pub data_entries : length a.data_entries ≡ p.counts.data_entries

-- The same, with the offsets and the version that the streams were read by.
record Headed (crc32 : Bytes → ℕ) (d : Decoders) (r : ReaderAt) (limit : ℕ) (o : Offsets)
    (v : Version) (a : Archive) : Type 0 where
  offsets : a.offsets ≡ o
  version : a.version ≡ v
  streams : Streams crc32 d r limit a

module _ (crc32 : Bytes → ℕ) (d : Decoders) where
  abbrev secondary_of : Version → Primary → Parser (List DataEntry)
  secondary_of v p = parse_secondary v p.header.compression p.counts.data_entries

  -- The results of the steps of `Parse`, put together.
  assembled :
      (r : ReaderAt) (o : Offsets) (v : Version) (limit : ℕ) (outer : Bool × ℕ)
      (block block2 : Bytes × ℕ) (parsed : Primary × Cursor) (read : List DataEntry × Cursor)
      (p : Primary) (entries : List DataEntry)
      → outer_header crc32 d r v o.header_offset ≡ ok outer
      → read_block crc32 d r outer.1 v limit ≡ ok block
      → parse_primary v outer.0 limit (start block.0) ≡ ok parsed
      → at_end parsed ≡ ok p
      → read_block crc32 d r block.1 v limit ≡ ok block2
      → secondary_of v p (start block2.0) ≡ ok read
      → at_end read ≡ ok entries
      → Streams crc32 d r limit (record {
        offsets = o;
        version = v;
        header = p.header;
        languages = p.languages;
        files = p.files;
        data_entries = entries;
        registry = p.registry;
      })
  assembled r o v limit outer block block2 parsed read p entries e1 e2 e3 e4 e5 e6 e7 =
      let (same, whole) =
        at_end-whole (parse_primary v outer.0 limit) (Inside-parse_primary v outer.0 limit) block.0
          e3 e4 in
      let (same2, whole2) =
        at_end-whole (secondary_of v p)
          (Inside-parse_secondary v p.header.compression p.counts.data_entries) block2.0 e6 e7 in
      let first =
        (parse_primary-Counted v outer.0 limit).gives (start block.0) parsed.0 parsed.1 e3 in
      let counted : Counted p = subst Counted same first in
      let number = (parse_secondary-length v p).gives (start block2.0) read.0 read.1 e6 in
      record {
        outer_encrypted = outer.0;
        position = outer.1;
        next = block.1;
        after = block2.1;
        primary = block.0;
        secondary = block2.0;
        p = p;
        behind_primary = parsed.1;
        behind_secondary = read.1;
        outer = e1;
        primary_block = e2;
        primary_read = e3 ∙ ap (λ q. ok (q, parsed.1)) same;
        primary_whole = whole;
        secondary_block = e5;
        secondary_read = e6 ∙ ap (λ q. ok (q, read.1)) same2;
        secondary_whole = whole2;
        header = refl;
        languages = (refl, counted.languages);
        files = (refl, counted.files);
        registry = (refl, counted.registry);
        data_entries = ap length (sym same2) ∙ number;
      }

  parse_streams-Headed :
      (r : ReaderAt) (o : Offsets) (v : Version) (limit : ℕ)
      → Ensures (Headed crc32 d r limit o v) (parse_streams crc32 d r o v limit)
  unfolding parse_streams
  parse_streams-Headed r o v limit =
      let P = Headed crc32 d r limit o v in
      Ensures-bind_eq P (outer_header crc32 d r v o.header_offset) _ λ outer e1.
        Ensures-bind_eq P (read_block crc32 d r outer.1 v limit) _ λ block e2.
          Ensures-bind_eq P (parse_primary v outer.0 limit (start block.0)) _ λ parsed e3.
            Ensures-bind_eq P (at_end parsed) _ λ p e4.
              Ensures-bind_eq P (read_block crc32 d r block.1 v limit) _ λ block2 e5.
                Ensures-bind_eq P (secondary_of v p (start block2.0)) _ λ read e6.
                  Ensures-bind_eq P (at_end read) _ λ entries e7. Ensures-ok P _ (record {
                    offsets = refl;
                    version = refl;
                    streams =
                        assembled r o v limit outer block block2 parsed read p entries e1 e2 e3 e4
                          e5 e6 e7;
                  })

  -- When `Parse` returns an archive, its offsets are those that `Locate` finds and its version the one
  -- that stands at the header; both streams of the setup data, the one behind the other, have been
  -- read to their last byte; header, languages, files, registry and data entries are what the
  -- streams hold, and of each kind there are as many as the header counts.
  pub parse-Streams :
      (r : ReaderAt) (limit : ℤ) {a : Archive}
      → parse crc32 d (some r) limit ≡ ok a
      → (locate (some r) ≡ ok a.offsets)
        × (read_version r a.offsets.header_offset ≡ ok a.version)
        × Streams crc32 d r (header_limit limit) a
  unfolding parse
  parse-Streams r limit {a} e =
      let P : Archive → Type 0 = λ a.
        (locate (some r) ≡ ok a.offsets)
        × (read_version r a.offsets.header_offset ≡ ok a.version)
        × Streams crc32 d r (header_limit limit) a in
      let read : Ensures P (parse crc32 d (some r) limit) =
        Ensures-bind_eq P (locate (some r)) _ λ o located.
          Ensures->>= P (fail_if (ltb max_int64 o.header_offset) corrupt) _ λ u.
            Ensures-bind_eq P (read_version r o.header_offset) _ λ v found.
              Ensures->>= P (fail_if (not (v.major == 6) || ltb 7 v.minor) unsupported_version) _
                λ w. record {
                  holds = λ b returns.
                      let h = (parse_streams-Headed r o v (header_limit limit)).holds b returns in
                      (rw h.offsets located, rw (h.offsets, h.version) found, h.streams);
                } in
      read.holds a e
