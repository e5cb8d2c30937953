-- ===== src/Setup/DataEntries.antt =====
-- The data entries of the secondary stream, as a compiler of 6.5.2 or later writes them, against
-- `parseDataEntry` of internal/setup/setup.go.
use innoextract_go.Base.{
  ℕ, ◌+◌, ◌-◌, ◌^◌, ◌<◌, ◌≡◌, refl, sym, ap, ◌∙◌, subst, arith, Bool, true, false, List, [], ◌∷◌,
  ◌++◌, map, length, if◌then◌else◌, ◌==◌, Bytes, le_bytes, append-nil,
}
use innoextract_go.Fault.{ok}
use innoextract_go.Format.{
  Version, DataEntry, Compression, stored, plaintext, xchacha20, no_filter, instruction5309,
  checksum_sha256, Checksum,
}
use innoextract_go.PathUtil.Split.{All}
use innoextract_go.Setup.Cursor.Reads.{
  Reads, Reads-then_return, Reads-return, Reads->>=, Reads->>, Reads-must_read, Reads-uint,
  Reads-skip, Reads-read_bits,
}
use innoextract_go.Setup.Cursor.{
  Cursor, Parser, ◌>>=◌, ◌>>◌, return, collect, when, has_bit, start, uint, skip, must_read,
  read_bits,
}
use innoextract_go.Setup.Entries.{parse_data_checksum, read_data_flags, parse_data_entry}
use innoextract_go.Setup.Parse.{at_end}
use innoextract_go.Setup.PrimaryStream.{parse_secondary}
use innoextract_go.Setup.Version.{version_at_least}

-- What a compiler writes of a data entry.
pub record Written : Type 0 where
  pub first_slice : ℕ
  pub last_slice : ℕ
  pub chunk_offset : ℕ
  pub file_offset : ℕ
  pub file_size : ℕ
  pub chunk_size : ℕ
  pub digest : Bytes
  -- The time stamp and the file version.
  pub stamp : Bytes
  pub file_version : Bytes
  pub call_filter : Bool
  pub encrypted : Bool
  pub compressed : Bool

-- Its numbers fit their fields.
pub record IsWritten (w : Written) : Type 0 where
  pub first_slice : w.first_slice < 2 ^ 32
  pub last_slice : w.last_slice < 2 ^ 32
  pub chunk_offset : w.chunk_offset < 2 ^ 64
  pub file_offset : w.file_offset < 2 ^ 64
  pub file_size : w.file_size < 2 ^ 64
  pub chunk_size : w.chunk_size < 2 ^ 64
  pub digest : length w.digest ≡ 32
  pub stamp : length w.stamp ≡ 8
  pub file_version : length w.file_version ≡ 8

-- The byte of the flags.
unfoldable pub flags_of : Bool → Bool → Bool → ℕ
flags_of call_filter encrypted compressed =
    (if call_filter then 4 else 0) + ((if encrypted then 8 else 0) + (if compressed then 16 else 0))

unfoldable pub encode_entry : Written → Bytes
unfolding flags_of
encode_entry w =
    le_bytes 4 w.first_slice
    ++ (le_bytes 4 w.last_slice
        ++ (le_bytes 8 w.chunk_offset
            ++ (le_bytes 8 w.file_offset
                ++ (le_bytes 8 w.file_size
                    ++ (le_bytes 8 w.chunk_size
                        ++ (w.digest
                            ++ (w.stamp
                                ++ (w.file_version
                                    ++ le_bytes 1
                                        (flags_of w.call_filter w.encrypted w.compressed)))))))))

-- What is written of it, as the parser gives it.
abbrev pub entry_of_written : Compression → Written → DataEntry
entry_of_written compression w = record {
  chunk = record {
    first_slice = w.first_slice;
    last_slice = w.last_slice;
    sort_offset = w.chunk_offset;
    offset = w.chunk_offset;
    size = w.chunk_size;
    compression = if w.compressed then compression else stored;
    encryption = if w.encrypted then xchacha20 else plaintext;
  };
  file = record {
    offset = w.file_offset;
    size = w.file_size;
    checksum = record { type = checksum_sha256; digest = w.digest };
    filter = if w.call_filter then instruction5309 else no_filter;
  };
  uncompressed_size = w.file_size;
}

unfoldable pub encode_entries : List Written → Bytes
unfolding encode_entry
encode_entries [] = []
encode_entries (w ∷ ws) = encode_entry w ++ encode_entries ws

flags_small : (c e z : Bool) → flags_of c e z < 256
unfolding flags_of
flags_small c e z = ground arith

flag_call : (c e z : Bool) → has_bit (flags_of c e z) 2 ≡ c
unfolding flags_of has_bit
flag_call false false false = refl
flag_call false false true = refl
flag_call false true false = refl
flag_call false true true = refl
flag_call true false false = refl
flag_call true false true = refl
flag_call true true false = refl
flag_call true true true = refl

flag_encrypted : (c e z : Bool) → has_bit (flags_of c e z) 3 ≡ e
unfolding flags_of has_bit
flag_encrypted false false false = refl
flag_encrypted false false true = refl
flag_encrypted false true false = refl
flag_encrypted false true true = refl
flag_encrypted true false false = refl
flag_encrypted true false true = refl
flag_encrypted true true false = refl
flag_encrypted true true true = refl

flag_compressed : (c e z : Bool) → has_bit (flags_of c e z) 4 ≡ z
unfolding flags_of has_bit
flag_compressed false false false = refl
flag_compressed false false true = refl
flag_compressed false true false = refl
flag_compressed false true true = refl
flag_compressed true false false = refl
flag_compressed true false true = refl
flag_compressed true true false = refl
flag_compressed true true true = refl

module _ (v : Version) (compression : Compression) (recent : version_at_least v 6 5 2 ≡ true) where
  after_6_4_3 : version_at_least v 6 4 3 ≡ true
  unfolding version_at_least
  after_6_4_3 = ground arith

  after_6_4_0 : version_at_least v 6 4 0 ≡ true
  unfolding version_at_least
  after_6_4_0 = ground arith

  after_6_3_0 : version_at_least v 6 3 0 ≡ true
  unfolding version_at_least
  after_6_3_0 = ground arith

  -- The entry by the flags that are read.
  abbrev decoded : Written → ℕ → DataEntry
  unfolding has_bit
  decoded w flags = record {
    chunk = record {
      first_slice = w.first_slice;
      last_slice = w.last_slice;
      sort_offset = w.chunk_offset;
      offset = w.chunk_offset;
      size = w.chunk_size;
      compression = if has_bit flags 4 then compression else stored;
      encryption = if has_bit flags 3 then xchacha20 else plaintext;
    };
    file = record {
      offset = w.file_offset;
      size = w.file_size;
      checksum = record { type = checksum_sha256; digest = w.digest };
      filter = if has_bit flags 2 then instruction5309 else no_filter;
    };
    uncompressed_size = w.file_size;
  }

  decoded-flags_of :
      (w : Written)
      → decoded w (flags_of w.call_filter w.encrypted w.compressed) ≡ entry_of_written compression w
  unfolding decoded
  decoded-flags_of w = rw (
    flag_call w.call_filter w.encrypted w.compressed,
    flag_encrypted w.call_filter w.encrypted w.compressed,
    flag_compressed w.call_filter w.encrypted w.compressed,
  )

  abbrev nothing_more : Unit {0}
  nothing_more = tt

  -- The end of the parser, behind the flags.
  abbrev finish : (ℕ → DataEntry) → ℕ → Parser DataEntry
  unfolding return ◌>>◌
  finish k flags = return nothing_more >> return (k flags)

  Reads-flags :
      (k : ℕ → DataEntry) (f : ℕ) → f < 256 → Reads (read_bits 1 >>= finish k) (le_bytes 1 f) (k f)
  unfolding finish ◌>>◌
  Reads-flags k f small =
      subst (λ bs. Reads (read_bits 1 >>= finish k) bs (k f)) (append-nil (le_bytes 1 f))
        (Reads->>= (read_bits 1) (finish k) (le_bytes 1 f) [] f (k f)
          (Reads-read_bits 1 f (omega arith) (omega arith))
          (Reads->> (return nothing_more) (return (k f)) [] [] nothing_more (k f)
            (Reads-return nothing_more) (Reads-return (k f))))

  abbrev sha256_sum : Bytes → Checksum
  sha256_sum digest = record { type = checksum_sha256; digest = digest }

  Reads-checksum :
      (digest : Bytes)
      → length digest ≡ 32
      → Reads (must_read 32 >>= λ d. return (sha256_sum d)) digest (sha256_sum digest)
  Reads-checksum digest size =
      Reads-then_return (must_read 32) sha256_sum digest digest (Reads-must_read 32 digest size)

  Reads-parse_data_entry :
      (w : Written)
      → IsWritten w
      → Reads (parse_data_entry v compression) (encode_entry w) (entry_of_written compression w)
  unfolding parse_data_entry encode_entry parse_data_checksum read_data_flags when finish decoded
  Reads-parse_data_entry w h =
      let f = flags_of w.call_filter w.encrypted w.compressed in
      rw (recent, after_6_4_0, after_6_4_3, after_6_3_0, ← decoded-flags_of w)
        (Reads->>= (uint 4) _ _ _ w.first_slice _ (Reads-uint 4 w.first_slice (omega arith)) (
          Reads->>= (uint 4) _ _ _ w.last_slice _ (Reads-uint 4 w.last_slice (omega arith)) (
            Reads->>= (uint 8) _ _ _ w.chunk_offset _ (Reads-uint 8 w.chunk_offset (omega arith)) (
              Reads->>= (uint 8) _ _ _ w.file_offset _ (Reads-uint 8 w.file_offset (omega arith)) (
                Reads->>= (uint 8) _ _ _ w.file_size _ (Reads-uint 8 w.file_size (omega arith)) (
                  Reads->>= (uint 8) _ _ _ w.chunk_size _ (Reads-uint 8 w.chunk_size (omega arith))
                    (Reads->>= _ _ _ _ _ _ (Reads-checksum w.digest h.digest) (
                      Reads->> (skip 8) _ _ _ tt _ (Reads-skip 8 w.stamp h.stamp) (
                        Reads->> (skip 8) _ _ _ tt _ (Reads-skip 8 w.file_version h.file_version) (
                          Reads-flags (decoded w) f
                            (flags_small w.call_filter w.encrypted w.compressed)))))))))))

  Reads-collect :
      (ws : List Written)
      → All IsWritten ws
      → Reads
          (collect (length ws) (parse_data_entry v compression))
          (encode_entries ws)
          (map (entry_of_written compression) ws)
  unfolding collect encode_entries
  Reads-collect [] h = Reads-return []
  Reads-collect (w ∷ ws) h =
      Reads->>= (parse_data_entry v compression) _ (encode_entry w) (encode_entries ws)
        (entry_of_written compression w) _ (Reads-parse_data_entry w h.0)
        (Reads-then_return (collect (length ws) (parse_data_entry v compression))
          (λ rest. entry_of_written compression w ∷ rest) (encode_entries ws)
          (map (entry_of_written compression) ws) (Reads-collect ws h.1))

  -- The cursor behind the last of the entries.
  abbrev pub end_of : List Written → Cursor
  end_of ws = record { b = encode_entries ws; pos = length (encode_entries ws) }

  -- Data entries whose numbers fit their fields, written as by 6.5.2 or later, are read back, whatever their
  -- number, with all that is kept of them, and their stream is accepted as read to its end.
  pub parse_secondary-encode_entries :
      (ws : List Written)
      → All IsWritten ws
      → (parse_secondary v compression (length ws) (start (encode_entries ws))
          ≡ ok (map (entry_of_written compression) ws, end_of ws))
        × (at_end (map (entry_of_written compression) ws, end_of ws)
            ≡ ok (map (entry_of_written compression) ws))
  unfolding parse_secondary at_end
  parse_secondary-encode_entries ws h =
      let block = encode_entries ws in
      let nothing : (length block - length block == 0) ≡ true = ground arith in
      let from_start : 0 + length block ≡ length block = omega arith in
      (
        (Reads-collect ws h).reads block 0 [] (sym (append-nil block)) (omega arith)
            ∙ ap
                (λ (n : ℕ).
                  ok (map (entry_of_written compression) ws, record { b = block; pos = n }))
                from_start,
        rw nothing,
      )
