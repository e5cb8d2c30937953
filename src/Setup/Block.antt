-- ===== src/Setup/Block.antt =====
-- `readAt`, `readEncryptionHeader`, `readBlock`, `unwrapBlockChunks` and the decoders of a block of
-- internal/setup/setup.go.
pub mod Chunks
pub mod Accepted
use innoextract_go.Base.{
  ℕ, zero, suc, ◌+◌, ◌-◌, ◌^◌, Bool, true, false, not, ◌||◌, Option, none, some, List, [], ◌∷◌,
  ◌++◌, length, take, drop, replicate, get_or, ltb, leb, min, max, ◌==◌, if◌then◌else◌, Bytes,
  le_value, max_int64,
}
use innoextract_go.Fault.{
  Fault, Result, ok, err, ◌>>=◌, ◌>>◌, fail_if, wrap, corrupt, limit_exceeded, checksum_mismatch,
  no_progress, is_eof,
}
use innoextract_go.Format.{Version}
use innoextract_go.Setup.Version.{version_at_least}
use innoextract_go.Stream.Chunk.{Decoders, limit_reader}
use innoextract_go.Stream.ReadAll.{Reader, bytes_reader}
use innoextract_go.Stream.Reader.{ReaderAt}

-- `readAt`; the offset is not negative.
unfoldable pub read_at : ReaderAt → ℕ → ℕ → Result Bytes
read_at r off n = do
  fail_if (ltb (max_int64 - off) n) corrupt
  let b = (r.read_at n off).0
  fail_if (not (length b == n)) corrupt
  ok b

-- `io.ReadAll`, which asks for 512 bytes at first and for more later; 512 throughout here. A round
-- without a byte or an error would be repeated for ever, which the fuel cuts off.
module _ {S : Type 0} (step : S → ℕ → (Bytes × Option Fault) × S) where
  unfoldable pub read_to_end : ℕ → S → Bytes → Bytes × Option Fault
  read_to_end zero s got = (got, some no_progress)
  read_to_end (suc fuel) s got =
      let ((more, e), s') = step s 512 in
      let rest = read_to_end fuel s' (got ++ more) in
      elim e [ none ↦ rest | some f ↦ (got ++ more, if is_eof f then none else some f) ]

-- `readLimited`; the limit of a header is positive. The reader is limited to one byte more, so
-- `limit + 2` rounds are enough where each of them gives a byte.
unfoldable pub read_limited : Reader → ℕ → Result Bytes
unfolding read_to_end
read_limited r limit = do
  fail_if (limit == 0) limit_exceeded
  let source = limit_reader r (limit + 1)
  let (b, e) = read_to_end source.read (limit + 2) source.state []
  fail_if (ltb limit (length b)) limit_exceeded
  elim e [ none ↦ ok b | some f ↦ err corrupt ]

-- `decodeZlib`
unfoldable pub decode_zlib : Decoders → Bytes → ℕ → Result Bytes
unfolding read_limited
decode_zlib d stream limit = do
  zr ← wrap corrupt (d.new_zlib (bytes_reader stream))
  read_limited zr limit

-- The dictionary capacity: the limit, between 1 MiB and the largest int32.
abbrev dictionary_cap : ℕ → ℕ
dictionary_cap limit =
    let cap = if ltb limit (2 ^ 20) then 2 ^ 20 else limit in
    if ltb (2 ^ 31 - 1) cap then 2 ^ 31 - 1 else cap

-- `decodeRawLZMA1`
unfoldable pub decode_raw_lzma1 : Decoders → Bytes → ℕ → Result Bytes
unfolding read_limited
decode_raw_lzma1 d stream limit = do
  fail_if (ltb (length stream) 5) corrupt
  let header = take 5 stream ++ replicate 8 255
  lr ← wrap corrupt (d.new_lzma1 (dictionary_cap limit) (bytes_reader (header ++ drop 5 stream)))
  read_limited lr limit

-- `crc32.ChecksumIEEE` is a parameter.
module _ (crc32 : Bytes → ℕ) where
  -- `unwrapBlockChunks` with what is in `out`: a checksum, and at most 4096 bytes. Each round takes
  -- five bytes at least, so there are fewer rounds than bytes.
  unfoldable pub unwrap_loop : ℕ → Bytes → Bytes → Result Bytes
  unwrap_loop fuel [] out = ok out
  unwrap_loop zero (b ∷ raw) out = err corrupt
  unwrap_loop (suc fuel) (b ∷ raw) out =
      let want = le_value (take 4 (b ∷ raw)) in
      let body = drop 4 (b ∷ raw) in
      let n = if ltb 4096 (length body) then 4096 else length body in
      let rest = unwrap_loop fuel (drop n body) (out ++ take n body) in
      if ltb (length (b ∷ raw)) 4
      then err corrupt
      else if n == 0
      then err corrupt
      else if not (crc32 (take n body) == want)
      then err checksum_mismatch
      else rest

  unfoldable pub unwrap_block_chunks : Bytes → Result Bytes
  unfolding unwrap_loop
  unwrap_block_chunks raw = unwrap_loop (length raw) raw []

  -- `readEncryptionHeader`
  unfoldable pub read_encryption_header : ReaderAt → ℕ → Result (Bool × ℕ)
  unfolding read_at
  read_encryption_header r off = do
    b ← read_at r off 53
    fail_if (not (crc32 (drop 4 b) == le_value (take 4 b))) checksum_mismatch
    ok (not (get_or b 4 0 == 0), off + 53)

  -- The content of a block: as it is stored, or through the decoder of the version.
  unfoldable pub block_content : Decoders → Version → Bool → Bytes → ℕ → Result Bytes
  unfolding decode_zlib decode_raw_lzma1
  block_content d v compressed stream limit =
      if not compressed
      then (if ltb limit (length stream) then err limit_exceeded else ok stream)
      else if version_at_least v 4 1 6
      then decode_raw_lzma1 d stream limit
      else decode_zlib d stream limit

  -- `readBlock`: its content, and the offset behind it.
  unfoldable pub read_block : Decoders → ReaderAt → ℕ → Version → ℕ → Result (Bytes × ℕ)
  unfolding read_at unwrap_block_chunks block_content
  read_block d r off v limit = do
    let header_len = if version_at_least v 6 7 0 then 13 else 9
    h ← read_at r off header_len
    let expected = le_value (take 4 h)
    let stored =
        if header_len == 13 then le_value (take 8 (drop 4 h)) else le_value (take 4 (drop 4 h))
    fail_if (ltb limit stored || ltb (max_int64 - header_len) stored) limit_exceeded
    fail_if (not (crc32 (drop 4 h) == expected)) checksum_mismatch
    raw ← read_at r (off + header_len) stored
    stream ← unwrap_block_chunks raw
    decoded ← block_content d v (not (get_or h (header_len - 1) 0 == 0)) stream limit
    ok (decoded, off + header_len + stored)
