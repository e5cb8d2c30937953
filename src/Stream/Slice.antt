-- ===== src/Stream/Slice.antt =====
-- internal/stream/slice.go: `sliceSource`, which reads embedded data or a sequence of slices as one
-- stream. A uint32 or uint64 field is a number, and `int` has 64 bits.
pub mod Loop
use innoextract_go.Base.{
  ℕ, zero, suc, ◌+◌, ◌-◌, ◌^◌, Bool, true, false, not, ◌&&◌, ◌||◌, Option, none, some, List, [],
  ◌∷◌, ◌++◌, length, take, drop, equal, leb, ltb, ◌==◌, if◌then◌else◌, Bytes, le_value, max_int64,
  max_uint64, u32, u64,
}
use innoextract_go.Fault.{
  Fault, Result, ok, err, ◌>>=◌, ◌>>◌, fail_if, is_eof, corrupt, missing_slice, eof, unexpected_eof,
  no_progress,
}
use innoextract_go.Format.{Archive, Chunk}
use innoextract_go.Stream.Reader.{ReaderAt, Provider, nil_reader}

-- "idska16" and "idska32", each with a byte 0x1a behind it.
abbrev pub slice_magic16 : Bytes
slice_magic16 = b'i' ∷ b'd' ∷ b's' ∷ b'k' ∷ b'a' ∷ b'1' ∷ b'6' ∷ 0x1a ∷ []

abbrev pub slice_magic32 : Bytes
slice_magic32 = b'i' ∷ b'd' ∷ b's' ∷ b'k' ∷ b'a' ∷ b'3' ∷ b'2' ∷ 0x1a ∷ []

pub record SliceSource : Type 0 where
  pub embedded : Bool
  pub r : ReaderAt
  pub provider : Option Provider
  pub data_start : ℕ
  pub slice : ℕ
  pub last : ℕ
  pub pos : ℕ
  pub current : ReaderAt
  pub base : ℕ
  pub end : ℕ
  pub opened : Bool

embedded_source : ReaderAt → ℕ → Chunk → SliceSource
embedded_source r start chunk = record {
  embedded = true;
  r = r;
  provider = none;
  data_start = start;
  slice = chunk.first_slice;
  last = chunk.last_slice;
  pos = 0;
  current = nil_reader;
  base = 0;
  end = max_uint64;
  opened = false;
}

unfoldable pub new_slice_source : ReaderAt → Archive → Chunk → Result SliceSource
unfolding embedded_source
new_slice_source r a chunk = do
  let data_start = a.offsets.data_offset
  let no_base = equal a.header.base_filename []
  fail_if (ltb chunk.last_slice chunk.first_slice) corrupt
  fail_if (data_start == 0 && not no_base) missing_slice
  if not (data_start == 0) || no_base
      then (do
        fail_if (ltb (max_uint64 - data_start) chunk.offset) corrupt
        ok (embedded_source r (data_start + chunk.offset) chunk))
      else ok (embedded_source r chunk.offset chunk)

-- `newSliceSourceWithProvider`
unfoldable pub new_source : ReaderAt → Archive → Chunk → Option Provider → Result SliceSource
unfolding new_slice_source
new_source r a chunk none = new_slice_source r a chunk
new_source r a chunk (some provider) = do
  fail_if (ltb chunk.last_slice chunk.first_slice) corrupt
  if not (a.offsets.data_offset == 0)
      then new_slice_source r a chunk
      else ok (record {
        embedded = false;
        r = nil_reader;
        provider = some provider;
        data_start = 0;
        slice = chunk.first_slice;
        last = chunk.last_slice;
        pos = chunk.offset;
        current = nil_reader;
        base = 0;
        end = max_uint64;
        opened = false;
      })

-- `bytesEqual8`
unfoldable pub bytes_equal8 : Bytes → Bytes → Bool
bytes_equal8 a b =
    if ltb (length a) 8 || ltb (length b) 8 then false else equal (take 8 a) (take 8 b)

unfoldable pub checked_offset : ℕ → ℕ → Result ℕ
checked_offset base pos = do
  fail_if (ltb (max_uint64 - base) pos) corrupt
  fail_if (ltb max_int64 (base + pos)) corrupt
  ok (base + pos)

unfoldable pub is_slice_header : Bytes → Bool
unfolding bytes_equal8
is_slice_header header =
    let magic = take 8 header in
    leb 8 (length header) && (bytes_equal8 magic slice_magic16 || bytes_equal8 magic slice_magic32)

-- A complete slice file: its size is in the header.
unfoldable pub open_sized : SliceSource → Bytes → Result (Unit {0}) × SliceSource
open_sized s header =
    let total = le_value (drop 8 header) in
    if ltb (length header) 12
    then (err corrupt, s)
    else if ltb total 12
    then (err corrupt, s)
    else (ok tt, record s { base = 12; end = total - 12; opened = true })

-- A raw payload, which has no size.
unfoldable pub open_raw : SliceSource → Bytes → Option Fault → Result (Unit {0}) × SliceSource
open_raw s header none = (ok tt, record s { opened = true })
open_raw s header (some f) =
    if length header == 0 && not (is_eof f)
    then (err corrupt, s)
    else (ok tt, record s { opened = true })

-- `open` once it has the reader. The fields are set before the header is judged, so they stay set
-- beside an error.
unfoldable pub open_reader : SliceSource → ReaderAt → Result (Unit {0}) × SliceSource
unfolding is_slice_header open_sized open_raw
open_reader s r =
    let s' = record s { current = r; base = 0; end = max_uint64 } in
    let (header, e) = r.read_at 12 0 in
    if is_slice_header header then open_sized s' header else open_raw s' header e

unfoldable pub open_found : SliceSource → Result (Option ReaderAt) → Result (Unit {0}) × SliceSource
unfolding open_reader
open_found s (err e) = (err missing_slice, s)
open_found s (ok none) = (err missing_slice, s)
open_found s (ok (some r)) = open_reader s r

-- `open`, by the provider.
unfoldable pub open_from : SliceSource → Option Provider → Result (Unit {0}) × SliceSource
unfolding open_found
open_from s none = (err missing_slice, s)
open_from s (some provider) = open_found s (provider s.slice)

abbrev pub open_slice : SliceSource → Result (Unit {0}) × SliceSource
open_slice s = open_from s s.provider

-- How a round of the loop in `Read` ends: with `return total, err`, or with another round.
pub data Round : Type 0 where
  stop : Bytes → Fault → SliceSource → Round
  more : Bytes → SliceSource → Round

abbrev pub next_slice : SliceSource → SliceSource
next_slice s = record s { slice = u32 (s.slice + 1); pos = 0; opened = false }

abbrev pub sized : SliceSource → Bool
sized s = not (s.end == max_uint64)

-- `ReadAt` came to the end of its data before the buffer was full.
unfoldable pub after_eof : SliceSource → Bytes → Round
after_eof s got =
    if sized s && ltb s.pos s.end
    then stop got unexpected_eof s
    else if s.slice == s.last
    then stop got eof s
    else more got (next_slice s)

unfoldable pub after_short : SliceSource → Bytes → Option Fault → Round
after_short s got none = stop got no_progress s
after_short s got (some f) = if not (is_eof f) then stop got f s else after_eof s got

-- What follows the call of `ReadAt`, by the bytes and the error that it returned.
unfoldable pub after_read : SliceSource → ℕ → Bytes → Option Fault → Round
unfolding after_short after_eof
after_read s want got e =
    let s' = record s { pos = u64 (s.pos + length got) } in
    if length got == want then more got s' else after_short s' got e

-- What a round asks its reader for.
unfoldable pub wanted : SliceSource → ℕ → ℕ
wanted s n = if sized s && ltb (s.end - s.pos) n then s.end - s.pos else n

unfoldable pub read_current : SliceSource → ℕ → Round
unfolding after_read checked_offset
read_current s want = elim (checked_offset s.base s.pos) [
  | err f ↦ stop [] f s
  | ok offset ↦ let (got, e) = s.current.read_at want offset in after_read s want got e
]

-- A round from the second `if` on, with `n` bytes of the buffer free.
unfoldable pub round_opened : SliceSource → ℕ → Round
unfolding read_current wanted
round_opened s n =
    if sized s && leb s.end s.pos
    then (if s.slice == s.last then stop [] eof s else more [] (next_slice s))
    else if wanted s n == 0
    then more [] s
    else read_current s (wanted s n)

-- The first `if` of the loop, by what `open` returned.
unfoldable pub round_after_open : ℕ → Result (Unit {0}) × SliceSource → Round
unfolding round_opened
round_after_open n (err f, s) = stop [] f s
round_after_open n (ok _, s) = round_opened s n

unfoldable pub round : SliceSource → ℕ → Round
unfolding open_from round_after_open
round s n = if s.opened then round_opened s n else round_after_open n (open_slice s)

-- The bytes that a `Read` puts into its buffer, its error, and the source afterwards.
pub record Reading : Type 0 where
  pub got : Bytes
  pub error : Option Fault
  pub source : SliceSource

-- The loop of `Read` with `n` bytes free behind those in `total`. `none`: the fuel ran out.
unfoldable pub read_loop : ℕ → SliceSource → ℕ → Bytes → Option Reading
read_loop fuel s zero total = some (record { got = total; error = none; source = s })
read_loop zero s (suc n) total = none
read_loop (suc fuel) s (suc n) total = elim (round s (suc n)) [
  | stop got f s' ↦ some (record { got = total ++ got; error = some f; source = s' })
  | more got s' ↦ read_loop fuel s' (suc n - length got) (total ++ got)
]

unfoldable pub read_embedded : SliceSource → ℕ → Reading
read_embedded s n = elim (checked_offset s.data_start s.pos) [
  | err f ↦ record { got = []; error = some f; source = s }
  | ok offset ↦
      let (got, e) = s.r.read_at n offset in
      let s' = record s { pos = u64 (s.pos + length got) } in
      record {
        got = got;
        error = if length got == n then none else elim e [ none ↦ some eof | some f ↦ some f ];
        source = s';
      }
]

-- Each round reads a byte at least, or goes on to another slice.
abbrev pub read_fuel : SliceSource → ℕ → ℕ
read_fuel s n = s.last - s.slice + n

-- `Read(p)` by `len(p)`.
unfoldable pub read : SliceSource → ℕ → Option Reading
unfolding read_embedded
read s n =
    if n == 0
    then some (record { got = []; error = none; source = s })
    else if s.embedded
    then some (read_embedded s n)
    else read_loop (read_fuel s n) s n []
