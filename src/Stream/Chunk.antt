-- ===== src/Stream/Chunk.antt =====
-- `decodeChunk` of internal/stream/stream.go, with the readers that it stacks and the decoders that
-- it chooses.
use innoextract_go.Base.{
  ℕ, zero, suc, ◌+◌, ◌-◌, ◌*◌, ◌/◌, ◌%◌, ◌^◌, not, ◌||◌, Option, none, some, [], ◌∷◌, ◌++◌, length,
  take, drop, replicate, ltb, leb, ◌==◌, if◌then◌else◌, Bytes, equal, le_value, u32, max_uint32,
  max_int64,
}
use innoextract_go.Base.{pos}
use innoextract_go.Fault.{
  Fault, Result, ok, err, ◌>>=◌, ◌>>◌, fail_if, wrap, is_limit_exceeded, eof, unexpected_eof,
  is_eof, corrupt, limit_exceeded, no_progress, password_required, unsupported_encryption,
  unsupported_compression,
}
use innoextract_go.Format.{
  Chunk, Archive, Compression, stored, zlib, bzip2, lzma1, lzma2, unknown_compression,
  compression_unlisted, Encryption, plaintext, arc4_md5, arc4_sha1, xchacha20, encryption_unlisted,
  ChecksumType, checksum_md5, checksum_sha1,
}
use innoextract_go.Crypto.Arc4.{new_arc4, discard, xor_bytes}
use innoextract_go.Crypto.Checksums.{password_checksum}
use innoextract_go.Crypto.Nonce.{Cipher, new_xchacha}
use innoextract_go.Crypto.Primitives.{Primitives}
use innoextract_go.Base.{bit_xor}
use innoextract_go.Stream.ReadAll.{Reader, read_all_limit}
use innoextract_go.Stream.Reader.{ReaderAt, Provider}
use innoextract_go.Stream.Slice.{SliceSource, read, new_source}

-- `Read` of a slice source, as a reader.
unfoldable pub read_source : SliceSource → ℕ → (Bytes × Option Fault) × SliceSource
read_source s n = elim (read s n) [
  | none ↦ (([], some no_progress), s)
  | some reading ↦ ((reading.got, reading.error), reading.source)
]

abbrev pub source_reader : SliceSource → Reader
source_reader s = record { State = SliceSource; state = s; read = read_source }

-- How `io.ReadFull` ends when `Read` fails: `io.EOF` in the midst of the data is unexpected.
unfoldable pub full_error : Bytes → Fault → Fault
full_error [] f = f
full_error (b ∷ got) f = if is_eof f then unexpected_eof else f

-- `io.ReadFull` for `n` more bytes behind those in `got`. A reader that gives neither a byte nor
-- an error for ever is cut off by the fuel.
module _ {S : Type 0} (step : S → ℕ → (Bytes × Option Fault) × S) where
  unfoldable pub read_full_loop : ℕ → S → ℕ → Bytes → Result (Bytes × S)
  unfolding full_error
  read_full_loop fuel s zero got = ok (got, s)
  read_full_loop zero s (suc n) got = err no_progress
  read_full_loop (suc fuel) s (suc n) got =
      let ((more, e), s') = step s (suc n) in
      let rest = read_full_loop fuel s' (suc n - length more) (got ++ more) in
      if leb (suc n) (length more)
      then ok (got ++ more, s')
      else elim e [ none ↦ rest | some f ↦ err (full_error (got ++ more) f) ]

  unfoldable pub read_full : S → ℕ → Result (Bytes × S)
  unfolding read_full_loop
  read_full s n = read_full_loop n s n []

-- `uint64ReaderLimit`
unfoldable pub uint64_reader_limit : ℕ → ℕ
uint64_reader_limit n = if ltb max_int64 n then max_int64 else n

-- `io.LimitReader(base, limit)`
unfoldable pub limit_reader : Reader → ℕ → Reader
limit_reader r limit = record {
  State = r.State × ℕ;
  state = (r.state, limit);
  read = λ s n.
      if s.1 == 0
      then (([], some eof), s)
      else (let (got, s') = r.read s.0 (if ltb s.1 n then s.1 else n) in
          (got, (s', s.1 - length got.0)));
}

-- `xorReader` over a cipher with the state `C`, whose `xor` turns the bytes that were read.
unfoldable pub xor_reader : Reader → {C : Type 0} → C → (C → Bytes → Bytes × C) → Reader
xor_reader r {C} c xor = record {
  State = r.State × C;
  state = (r.state, c);
  read = λ s n.
      let ((got, e), s') = r.read s.0 n in let (out, c') = xor s.1 got in ((out, e), (s', c'));
}

-- `XORKeyStream` of a chacha20 cipher.
unfoldable pub xor_cipher : Primitives → Cipher → Bytes → Bytes × Cipher
xor_cipher p c [] = ([], c)
xor_cipher p c (b ∷ src) =
    let k = p.cipher_byte c.key c.nonce c.position in
    let (out, c') = xor_cipher p (record c { position = c.position + 1 }) src in
    (bit_xor b k ∷ out, c')

-- `io.MultiReader(bytes.NewReader(header), source)`
unfoldable pub multi_reader : Bytes → Reader → Reader
multi_reader header r = record {
  State = Bytes × r.State;
  state = (header, r.state);
  read = λ s n.
      if length s.0 == 0
      then (let (got, s') = r.read s.1 n in (got, (s.0, s')))
      else ((take n s.0, none), (drop n s.0, s.1));
}

-- The decoders of other packages. The two of LZMA are given their dictionary size, and read through
-- the `bufio` buffer that the code puts in front of them.
pub record Decoders : Type 1 where
  pub new_zlib : Reader → Result Reader
  pub new_bzip2 : Reader → Reader
  pub new_lzma1 : ℕ → Reader → Result Reader
  pub new_lzma2 : ℕ → Reader → Result Reader

-- `lzma2Dictionary`
unfoldable pub lzma2_dictionary : ℕ → Result ℕ
lzma2_dictionary prop =
    if ltb 40 prop
    then err corrupt
    else if prop == 40
    then ok max_uint32
    else ok (u32 ((2 + prop % 2) * 2 ^ (prop / 2 + 11)))

-- `checkDictionary`; `limit` is what the budget has left, which is not negative.
unfoldable pub check_dictionary : ℕ → ℕ → Result (Unit {0})
check_dictionary dict limit = fail_if (ltb max_int64 dict || ltb limit dict) limit_exceeded

-- `newLZMA1Reader`. The size of a raw stream is unknown: eight bytes 0xff.
unfoldable pub new_lzma1_reader : Decoders → Reader → ℕ → Result Reader
unfolding check_dictionary
new_lzma1_reader d source limit = do
  (props, s) ← wrap corrupt (read_full source.read source.state 5)
  let dict = le_value (drop 1 props)
  check_dictionary dict limit
  wrap corrupt
      (d.new_lzma1 dict (multi_reader (props ++ replicate 8 255) (record source { state = s })))

-- `newLZMA2Reader`
unfoldable pub new_lzma2_reader : Decoders → Reader → ℕ → Result Reader
unfolding check_dictionary
new_lzma2_reader d source limit = do
  (prop, s) ← wrap corrupt (read_full source.read source.state 1)
  dict ← lzma2_dictionary (le_value prop)
  check_dictionary dict limit
  wrap corrupt (d.new_lzma2 dict (record source { state = s }))

-- `newChunkDecoder`; closing a decoder is not modelled.
unfoldable pub new_chunk_decoder : Decoders → Reader → Compression → ℕ → Result Reader
unfolding new_lzma1_reader new_lzma2_reader
new_chunk_decoder d source stored limit = ok source
new_chunk_decoder d source zlib limit = wrap corrupt (d.new_zlib source)
new_chunk_decoder d source bzip2 limit = ok (d.new_bzip2 source)
new_chunk_decoder d source lzma1 limit = new_lzma1_reader d source limit
new_chunk_decoder d source lzma2 limit = new_lzma2_reader d source limit
new_chunk_decoder d source unknown_compression limit = err unsupported_compression
new_chunk_decoder d source (compression_unlisted n) limit = err unsupported_compression

-- The source of an ARC4 chunk: the salt in front of its bytes makes the key.
unfoldable pub arc4_source : Primitives → ChecksumType → Chunk → Bytes → SliceSource → Result Reader
arc4_source p t chunk key base = do
  (salt, base) ← wrap corrupt (read_full read_source base 8)
  salted_key ← password_checksum p t salt key
  cipher ← new_arc4 salted_key
  ok (
      xor_reader (limit_reader (source_reader base) (uint64_reader_limit chunk.size))
        (discard 1000 cipher) xor_bytes)

-- The switch on the encryption of a chunk that is not plain.
unfoldable pub encrypted_source :
    Primitives → Encryption → Chunk → Bytes → SliceSource → Result Reader
unfolding arc4_source
encrypted_source p arc4_md5 chunk key base = arc4_source p checksum_md5 chunk key base
encrypted_source p arc4_sha1 chunk key base = arc4_source p checksum_sha1 chunk key base
encrypted_source p xchacha20 chunk key base = do
  cipher ← wrap unsupported_encryption (new_xchacha p key chunk.offset chunk.first_slice)
  ok (
      xor_reader (limit_reader (source_reader base) (uint64_reader_limit chunk.size)) cipher
        (xor_cipher p))
encrypted_source p plaintext chunk key base = err unsupported_encryption
encrypted_source p (encryption_unlisted n) chunk key base = err unsupported_encryption

unfoldable pub chunk_source : Primitives → Encryption → Chunk → Bytes → SliceSource → Result Reader
unfolding encrypted_source
chunk_source p plaintext chunk key base =
    ok (limit_reader (source_reader base) (uint64_reader_limit chunk.size))
chunk_source p e chunk key base =
    if length key == 0 then err password_required else encrypted_source p e chunk key base

-- `chunkMagic`, "zlb" and 0x1a.
abbrev pub chunk_magic : Bytes
chunk_magic = 122 ∷ 108 ∷ 98 ∷ 26 ∷ []

-- The error of the decoded stream.
unfoldable pub decode_error : Result Bytes → Result Bytes
decode_error (ok out) = ok out
decode_error (err f) = if is_limit_exceeded f then err f else err corrupt

-- `decodeChunk`
unfoldable pub decode_chunk :
    Primitives → Decoders → ReaderAt → Archive → Option Provider → Bytes → Chunk → ℕ → Result Bytes
unfolding chunk_source decode_error
decode_chunk p d r a slices key chunk limit = do
  base ← new_source r a chunk slices
  (magic, base) ← wrap corrupt (read_full read_source base 4)
  fail_if (not (equal magic chunk_magic)) corrupt
  source ← chunk_source p chunk.encryption chunk key base
  decoded ← new_chunk_decoder d source chunk.compression limit
  decode_error (read_all_limit decoded (pos limit))
