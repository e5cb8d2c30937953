-- ===== src/Setup/Supported.antt =====
-- The versions that `Parse` of internal/setup/setup.go accepts.
use innoextract_go.Base.{
  ℕ, zero, suc, ◌≤◌, ◌≡◌, refl, arith, Bool, true, false, not, ◌||◌, Option, none, some, List, [],
  ◌∷◌, get_or, ltb, ◌==◌, Bytes, ℤ, max_int64,
}
use innoextract_go.Fault.Ensures.{Ensures, Ensures-ok, Ensures-err, Ensures-bind_eq, Ensures->>=}
use innoextract_go.Fault.{Fault, ok, ◌>>=◌, fail_if, corrupt, unsupported_version}
use innoextract_go.Format.{Archive, Offsets, Version}
use innoextract_go.PathUtil.Split.{All}
use innoextract_go.Loader.Locate.{locate}
use innoextract_go.Setup.Parse.{header_limit, parse_streams, parse}
use innoextract_go.Setup.ReadVersion.{
  version_number, version_numbers, version_of, parse_version, read_version,
}
use innoextract_go.Setup.VersionTrip.{IsVersion}
use innoextract_go.Stream.Chunk.{Decoders}
use innoextract_go.Stream.Reader.{ReaderAt}
use innoextract_go.Strings.{scan_natural}

abbrev IsByte : ℕ → Type 0
IsByte n = n ≤ 255

version_number-IsByte : (n : Option ℕ) → Ensures IsByte (version_number n)
version_number-IsByte none = Ensures-err IsByte _
version_number-IsByte (some n) = record { holds = λ a e. ground arith }

version_numbers-IsByte : (parts : List Bytes) → Ensures (All IsByte) (version_numbers parts)
unfolding version_numbers
version_numbers-IsByte [] = Ensures-ok (All IsByte) [] tt
version_numbers-IsByte (part ∷ parts) =
    Ensures-bind_eq (All IsByte) (version_number (scan_natural part)) _ λ n e.
      Ensures-bind_eq (All IsByte) (version_numbers parts) _ λ rest f.
        Ensures-ok (All IsByte) (n ∷ rest) (
          (version_number-IsByte (scan_natural part)).holds n e,
          (version_numbers-IsByte parts).holds rest f,
        )

get_or-IsByte : (nums : List ℕ) (i : ℕ) → All IsByte nums → IsByte (get_or nums i 0)
get_or-IsByte [] i h = omega arith
get_or-IsByte (n ∷ nums) zero h = h.0
get_or-IsByte (n ∷ nums) (suc i) h = get_or-IsByte nums i h.1

-- What a text gives as its version: four bytes, and strings of Unicode from 6.0.0 on.
pub record ReadVersion (v : Version) : Type 0 where
  pub major : v.major ≤ 255
  pub minor : v.minor ≤ 255
  pub patch : v.patch ≤ 255
  pub revision : v.revision ≤ 255
  pub unicode : 6 ≤ v.major → v.unicode ≡ true
  pub known : v.known ≡ true

version_of-ReadVersion :
    (s : Bytes) (nums : List ℕ) → All IsByte nums → ReadVersion (version_of s nums)
unfolding version_of
version_of-ReadVersion s nums h = record {
  major = get_or-IsByte nums 0 h;
  minor = get_or-IsByte nums 1 h;
  patch = get_or-IsByte nums 2 h;
  revision = get_or-IsByte nums 3 h;
  unicode = λ six. ground arith;
  known = refl;
}

numbers-ReadVersion :
    (s : Bytes) (parts : List Bytes)
    → Ensures ReadVersion (version_numbers parts >>= λ nums. ok (version_of s nums))
numbers-ReadVersion s parts = Ensures-bind_eq ReadVersion (version_numbers parts) _ λ nums e.
    Ensures-ok ReadVersion (version_of s nums)
      (version_of-ReadVersion s nums ((version_numbers-IsByte parts).holds nums e))

parse_version-ReadVersion : (s : Bytes) → Ensures ReadVersion (parse_version s)
unfolding parse_version
parse_version-ReadVersion s = search (Ensures->>=, numbers-ReadVersion)

read_version-ReadVersion : (r : ReaderAt) (off : ℕ) → Ensures ReadVersion (read_version r off)
unfolding read_version
read_version-ReadVersion r off = search (Ensures->>=, parse_version-ReadVersion)

-- An archive of a version that the library supports, whose header can be seeked to.
pub record Supported (a : Archive) : Type 0 where
  pub version : IsVersion a.version
  pub major : a.version.major ≡ 6
  pub minor : a.version.minor ≤ 7
  pub header : a.offsets.header_offset ≤ max_int64

-- What the streams leave as it was.
record Heads (o : Offsets) (v : Version) (a : Archive) : Type 0 where
  offsets : a.offsets ≡ o
  version : a.version ≡ v

Heads-ok :
    (o : Offsets) (v : Version) (a : Archive)
    → a.offsets ≡ o
    → a.version ≡ v
    → Ensures (Heads o v) (ok a)
Heads-ok o v a p q = Ensures-ok (Heads o v) a (record { offsets = p; version = q })

passed : (b : Bool) (e : Fault) (u : Unit {0}) → fail_if b e ≡ ok u → b ≡ false
passed true e u h = cc
passed false e u h = refl

Heads-Supported :
    (o : Offsets) (v : Version) (a : Archive)
    → o.header_offset ≤ max_int64
    → ReadVersion v
    → v.major ≡ 6
    → v.minor ≤ 7
    → Heads o v a
    → Supported a
Heads-Supported o v a seekable read six seven h =
    let version : IsVersion v = record {
      major = (omega arith, read.major);
      minor = read.minor;
      patch = read.patch;
      revision = read.revision;
      unicode = read.unicode (omega arith);
      known = read.known;
    } in
    record {
      version = rw h.version version;
      major = rw h.version six;
      minor = rw h.version seven;
      header = rw h.offsets seekable;
    }

module _ (crc32 : Bytes → ℕ) (d : Decoders) where
  parse_streams-Heads :
      (r : ReaderAt) (o : Offsets) (v : Version) (limit : ℕ)
      → Ensures (Heads o v) (parse_streams crc32 d r o v limit)
  unfolding parse_streams
  parse_streams-Heads r o v limit = search (Ensures->>=, Heads-ok) depth 30

  -- An archive that `Parse` returns has a version from 6.0 to 6.7, known and with strings in Unicode,
  -- whose four numbers are bytes, and a header offset that an int64 holds.
  pub parse-Supported :
      (r : Option ReaderAt) (limit : ℤ) {a : Archive} → parse crc32 d r limit ≡ ok a → Supported a
  unfolding parse
  parse-Supported none limit e = absurd (cc)
  parse-Supported (some r) limit {a} e =
      let supported : Ensures Supported (parse crc32 d (some r) limit) =
        Ensures->>= Supported (locate (some r)) _ λ o.
          Ensures-bind_eq Supported (fail_if (ltb max_int64 o.header_offset) corrupt) _ λ u seek.
            Ensures-bind_eq Supported (read_version r o.header_offset) _ λ v read.
              Ensures-bind_eq Supported
                (fail_if (not (v.major == 6) || ltb 7 v.minor) unsupported_version) _
                λ w known. record {
                  holds = λ b returns.
                      let seekable = passed (ltb max_int64 o.header_offset) corrupt u seek in
                      let accepted =
                        passed (not (v.major == 6) || ltb 7 v.minor) unsupported_version w known in
                      Heads-Supported o v b (ground arith)
                        ((read_version-ReadVersion r o.header_offset).holds v read) (ground arith)
                        (ground arith)
                        ((parse_streams-Heads r o v (header_limit limit)).holds b returns);
                } in
      supported.holds a e
