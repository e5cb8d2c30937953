-- ===== src/Stream/Segment.antt =====
-- `decodeFileSegment` and `checkFilterAllocation` of internal/stream/stream.go.
use innoextract_go.Base.{
  ℕ, ◌+◌, ◌-◌, ◌≤◌, ◌≡◌, ◌≢◌, refl, ◌∙◌, arith, Bool, true, false, not, length, take, drop, ltb,
  if◌then◌else◌, Bytes, IsBytes, ℤ, pos, negsuc, length-take, length-drop, inl, inr, IsBytes-take,
  IsBytes-drop,
}
use innoextract_go.Fault.{
  Result, ok, err, ◌>>=◌, ◌>>◌, fail_if, wrap, is_limit_exceeded, corrupt, limit_exceeded,
  checksum_mismatch, unsupported_compression, >>=-eq-ok, Result-cases,
}
use innoextract_go.Format.{
  ChecksumType, checksum_none, FileFilter, no_filter, instruction4108, instruction5200,
  instruction5309, zlib_filter, filter_unlisted, StoredFile, Checksum,
}
use innoextract_go.Crypto.Checksums.{sum, equal_checksum}
use innoextract_go.Crypto.Primitives.{Primitives}
use innoextract_go.Stream.Filter.{decode_instruction4108, decode_instruction5200}
use innoextract_go.Stream.Filter.Calls4108.{length-decode_instruction4108}
use innoextract_go.Stream.Filter.Calls5200.{length-decode_instruction5200}
use innoextract_go.Stream.ReadAll.{Reader, bytes_reader, read_all_limit, length-read_all_limit}

-- `checkFilterAllocation`
unfoldable pub check_filter_allocation : ℕ → ℤ → Result (Unit {0})
check_filter_allocation size (negsuc n) = err limit_exceeded
check_filter_allocation size (pos limit) = fail_if (ltb limit size) limit_exceeded

unfoldable pub is_checksum_none : ChecksumType → Bool
is_checksum_none checksum_none = true
is_checksum_none _ = false

-- An error of the inflated stream: the limit is passed on, all else is corruption.
unfoldable pub inflate_error : Result Bytes → Result Bytes
inflate_error (ok out) = ok out
inflate_error (err f) = if is_limit_exceeded f then err f else err corrupt

-- The part of a chunk that belongs to a file.
unfoldable pub raw_segment : Bytes → StoredFile → Result Bytes
raw_segment chunk file = do
  fail_if (ltb (length chunk) file.offset) corrupt
  fail_if (ltb (length chunk - file.offset) file.size) corrupt
  ok (take file.size (drop file.offset chunk))

-- The bytes that the checksum is taken of: for the zlib filter those before it.
unfoldable pub checksum_data : FileFilter → Bytes → Bytes → Bytes
checksum_data zlib_filter raw decoded = raw
checksum_data _ raw decoded = decoded

-- The end of `decodeFileSegment`.
unfoldable pub verify_segment : Primitives → Checksum → Bytes → Result (Unit {0})
unfolding is_checksum_none
verify_segment p checksum content = if is_checksum_none checksum.type then ok tt else (do
  got ← wrap corrupt (sum p checksum.type content)
  fail_if (not (equal_checksum checksum.type got checksum.digest)) checksum_mismatch)

-- The checksum of the content is right: there is none to compare, or the digest passes.
unfoldable pub Verified : Primitives → Checksum → Bytes → Type 0
Verified p c content =
    c.type ≢ checksum_none
    → (got : Bytes) × (sum p c.type content ≡ ok got) × (equal_checksum c.type got c.digest ≡ true)

-- `zlib.NewReader`, and the hash functions, are parameters.
module _ (p : Primitives) (zlib : Reader → Result Reader) where
  -- The switch on the filter.
  unfoldable pub apply_filter : FileFilter → Bytes → ℤ → Result Bytes
  unfolding check_filter_allocation inflate_error
  apply_filter no_filter raw limit = ok raw
  apply_filter instruction4108 raw limit = do
    check_filter_allocation (length raw) limit
    ok (decode_instruction4108 raw)
  apply_filter instruction5200 raw limit = do
    check_filter_allocation (length raw) limit
    ok (decode_instruction5200 false raw)
  apply_filter instruction5309 raw limit = do
    check_filter_allocation (length raw) limit
    ok (decode_instruction5200 true raw)
  apply_filter zlib_filter raw limit = do
    z ← wrap corrupt (zlib (bytes_reader raw))
    inflate_error (read_all_limit z limit)
  apply_filter (filter_unlisted n) raw limit = err unsupported_compression

  unfoldable pub decode_file_segment : Bytes → StoredFile → ℤ → Result Bytes
  unfolding raw_segment verify_segment checksum_data
  decode_file_segment chunk file limit = do
    raw ← raw_segment chunk file
    decoded ← apply_filter file.filter raw limit
    verify_segment p file.checksum (checksum_data file.filter raw decoded)
    ok decoded

raw_segment-eq-ok :
    (chunk : Bytes) (file : StoredFile) {raw : Bytes}
    → raw_segment chunk file ≡ ok raw
    → (file.offset + file.size ≤ length chunk)
      × (take file.size (drop file.offset chunk) ≡ raw)
      × (length raw ≡ file.size)
unfolding raw_segment
raw_segment-eq-ok chunk file h =
    ground (arith, length-take file.size (drop file.offset chunk), length-drop file.offset chunk)

pub is_checksum_none-false : (t : ChecksumType) → t ≢ checksum_none → is_checksum_none t ≡ false
unfolding is_checksum_none
is_checksum_none-false checksum_none h = absurd (h refl)
is_checksum_none-false _ h = refl

pub verify_segment-Verified :
    (p : Primitives) (c : Checksum) (content : Bytes)
    → verify_segment p c content ≡ ok tt
    → Verified p c content
unfolding verify_segment Verified
verify_segment-Verified p c content h ne = elim (Result-cases (sum p c.type content)) [
  | inl (got, e) ↦ (got, e, ground (arith, is_checksum_none-false c.type ne))
  | inr (f, e) ↦ absurd (ground (arith, is_checksum_none-false c.type ne))
]

inflate_error-eq-ok : (r : Result Bytes) {out : Bytes} → inflate_error r ≡ ok out → r ≡ ok out
unfolding inflate_error
inflate_error-eq-ok (ok out) h = h
inflate_error-eq-ok (err f) h = ground arith

pos_injective : {m n : ℕ} → pos m ≡ pos n → m ≡ n
pos_injective e = cc

module _ (p : Primitives) (zlib : Reader → Result Reader) where
  apply_filter_size :
      (filter : FileFilter) (raw : Bytes) (limit : ℕ) {out : Bytes}
      → IsBytes raw
      → apply_filter p zlib filter raw (pos limit) ≡ ok out
      → (filter ≢ zlib_filter → length out ≡ length raw) × (filter ≢ no_filter → length out ≤ limit)
  unfolding apply_filter
  apply_filter_size no_filter raw limit bytes h = (λ _. ground arith, λ ne. absurd (ne refl))
  apply_filter_size instruction4108 raw limit bytes h = (
    λ _. ground (arith, length-decode_instruction4108 raw),
    λ _. ground (arith, length-decode_instruction4108 raw),
  )
  apply_filter_size instruction5200 raw limit bytes h =
      let size = (length-decode_instruction5200 false raw bytes).0 in
      (λ _. ground (arith, size), λ _. ground (arith, size))
  apply_filter_size instruction5309 raw limit bytes h =
      let size = (length-decode_instruction5200 true raw bytes).0 in
      (λ _. ground (arith, size), λ _. ground (arith, size))
  apply_filter_size zlib_filter raw limit {out} bytes h =
      let (z, _, inflated) = >>=-eq-ok (wrap corrupt (zlib (bytes_reader raw))) _ h in
      let (n, e, l) =
        length-read_all_limit z (pos limit)
          (inflate_error-eq-ok (read_all_limit z (pos limit)) inflated) in
      let same : limit ≡ n = pos_injective e in (λ ne. absurd (ne refl), λ _. omega arith)
  apply_filter_size (filter_unlisted n) raw limit bytes h = cc

  -- A segment that is decoded from a chunk of bytes lies in the chunk; its checksum passes, for the zlib filter over the
  -- stored bytes; every other filter gives as many bytes as are stored, and every filter but none
  -- gives at most `limit`.
  pub decode_file_segment_sound :
      (chunk : Bytes) (file : StoredFile) (limit : ℕ) {out : Bytes}
      → IsBytes chunk
      → decode_file_segment p zlib chunk file (pos limit) ≡ ok out
      → let raw = take file.size (drop file.offset chunk) in
        (file.offset + file.size ≤ length chunk)
        × Verified p file.checksum (checksum_data file.filter raw out)
        × (file.filter ≢ zlib_filter → length out ≡ file.size)
        × (file.filter ≢ no_filter → length out ≤ limit)
  unfolding decode_file_segment
  decode_file_segment_sound chunk file limit {out} bytes h =
      let (raw, cut, rest) = >>=-eq-ok (raw_segment chunk file) _ h in
      let (range, same, size) = raw_segment-eq-ok chunk file cut in
      let (decoded, filtered, tail) =
        >>=-eq-ok (apply_filter p zlib file.filter raw (pos limit)) _ rest in
      let (_, checked, last) =
        >>=-eq-ok (verify_segment p file.checksum (checksum_data file.filter raw decoded)) _ tail in
      let e : decoded ≡ out = cc in
      let raw_bytes =
        rw same at (
          IsBytes-take file.size (drop file.offset chunk) (IsBytes-drop file.offset chunk bytes)) in
      let (full, bounded) = apply_filter_size file.filter raw limit raw_bytes filtered in
      (
        range,
        rw (same, ← e) (verify_segment-Verified p file.checksum _ checked),
        λ ne. rw (← e) (full ne ∙ size),
        λ ne. rw (← e) (bounded ne),
      )
