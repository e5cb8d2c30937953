-- ===== src/Loader/Encode.antt =====
-- The offset table of revision 2, as a compiler writes it, against internal/loader/loader.go.
use innoextract_go.Base.{
  ℕ, ◌+◌, ◌-◌, ◌^◌, ◌≤◌, ◌<◌, ◌≡◌, refl, sym, ap, ◌∙◌, arith, true, some, ◌++◌, length, take, drop,
  Bytes, le_bytes, le_value, equal, max_uint32, max_int64, length-append, length-take, length-drop,
  drop-drop, drop-append_left, le_value-le_bytes, le→ltb, ==_refl,
}
use innoextract_go.Fault.{ok}
use innoextract_go.Format.{Offsets}
use innoextract_go.Loader.Locate.{locate}
use innoextract_go.Loader.Table.{
  read_exact, magic_5_1_5, loader_magic_version, crc32_of, table_of_revision2, load_revision2,
  load_offset_table, inno, fixed_table_at, fixed_offset_table,
}
use innoextract_go.Stream.Reader.{ReaderAt, file_reader}

-- What a table of revision 2 holds besides the magic.
pub record Table : Type 0 where
  pub total_size : ℕ
  pub exe_offset : ℕ
  pub exe_uncompressed_size : ℕ
  pub exe_crc : ℕ
  pub header_offset : ℕ
  pub data_offset : ℕ
  pub reserved : ℕ
  pub table_crc : ℕ

-- Its fields fit their places, and the offsets are not negative as an int64.
pub record IsTable (t : Table) : Type 0 where
  pub exe : t.exe_offset ≤ max_int64
  pub uncompressed : t.exe_uncompressed_size < 2 ^ 32
  pub header : t.header_offset ≤ max_int64
  pub data_stream : t.data_offset ≤ max_int64

unfoldable pub encode_fields : Table → Bytes
encode_fields t =
    le_bytes 8 t.total_size
    ++ (le_bytes 8 t.exe_offset
        ++ (le_bytes 4 t.exe_uncompressed_size
            ++ (le_bytes 4 t.exe_crc
                ++ (le_bytes 8 t.header_offset
                    ++ (le_bytes 8 t.data_offset
                        ++ (le_bytes 4 t.reserved ++ le_bytes 4 t.table_crc))))))

unfoldable pub encode_table : Table → Bytes
unfolding encode_fields
encode_table t = magic_5_1_5 ++ (le_bytes 4 2 ++ encode_fields t)

abbrev pub offsets_of : Table → Offsets
offsets_of t = record {
  found_magic = true;
  revision = 2;
  exe_offset = t.exe_offset;
  exe_compressed_size = 0;
  exe_uncompressed_size = t.exe_uncompressed_size;
  exe_checksum = crc32_of (le_bytes 4 t.exe_crc);
  header_offset = t.header_offset;
  data_offset = t.data_offset;
}

pub read_exact-file_reader :
    (content : Bytes) (off n : ℕ)
    → off + n ≤ length content
    → off + n ≤ max_int64
    → read_exact (file_reader content) off n ≡ ok (take n (drop off content))
unfolding read_exact file_reader
read_exact-file_reader content off n inside small =
    let size : length (take n (drop off content)) ≡ n =
      omega (arith, length-take n (drop off content), length-drop off content) in
    rw (size, ==_refl n) (ground arith)

drop-append : (pre t : Bytes) (k : ℕ) → drop (length pre + k) (pre ++ t) ≡ drop k t
drop-append pre t k =
    sym (drop-drop (length pre) k (pre ++ t))
    ∙ ap (drop k) (drop-append_left (length pre) pre t refl)

-- A read at `k` behind `pre`.
read_behind :
    (pre t : Bytes) (k n : ℕ)
    → k + n ≤ length t
    → length pre + k + n ≤ max_int64
    → read_exact (file_reader (pre ++ t)) (length pre + k) n ≡ ok (take n (drop k t))
read_behind pre t k n inside small =
    read_exact-file_reader (pre ++ t) (length pre + k) n (omega (arith, length-append pre t)) small
    ∙ ap (λ (bs : Bytes). ok (take n bs)) (drop-append pre t k)

table_of_revision2-encode_fields :
    (t : Table) → IsTable t → table_of_revision2 (encode_fields t) ≡ ok (offsets_of t)
unfolding table_of_revision2 encode_fields le_bytes
table_of_revision2-encode_fields t h =
    let exe : le_value (le_bytes 8 t.exe_offset) ≡ t.exe_offset =
      le_value-le_bytes 8 t.exe_offset (omega (arith, h.exe)) in
    let header : le_value (le_bytes 8 t.header_offset) ≡ t.header_offset =
      le_value-le_bytes 8 t.header_offset (omega (arith, h.header)) in
    let content : le_value (le_bytes 8 t.data_offset) ≡ t.data_offset =
      le_value-le_bytes 8 t.data_offset (omega (arith, h.data_stream)) in
    let size : le_value (le_bytes 4 t.exe_uncompressed_size) ≡ t.exe_uncompressed_size =
      le_value-le_bytes 4 t.exe_uncompressed_size h.uncompressed in
    rw (
      exe,
      header,
      content,
      size,
      le→ltb max_int64 t.exe_offset h.exe,
      le→ltb max_int64 t.header_offset h.header,
      le→ltb max_int64 t.data_offset h.data_stream,
    )

load_revision2_reads :
    (r : ReaderAt) (pos : ℕ) (t : Table) (b c : Bytes)
    → IsTable t
    → read_exact r (pos + 16) 48 ≡ ok (encode_fields t)
    → read_exact r pos 60 ≡ ok b
    → read_exact r (pos + 60) 4 ≡ ok c
    → load_revision2 r pos ≡ ok (offsets_of t)
unfolding load_revision2
load_revision2_reads r pos t b c h fields record_bytes crc =
    rw (fields, table_of_revision2-encode_fields t h, record_bytes, crc)

load_offset_table_reads :
    (r : ReaderAt) (pos : ℕ) {o : Offsets}
    → pos ≤ max_int64
    → read_exact r pos 12 ≡ ok magic_5_1_5
    → read_exact r (pos + 12) 4 ≡ ok (le_bytes 4 2)
    → load_revision2 r pos ≡ ok o
    → load_offset_table r pos ≡ ok o
unfolding load_offset_table loader_magic_version equal le_bytes le_value
load_offset_table_reads r pos small magic revision loads =
    rw (le→ltb max_int64 pos small, magic, revision) loads

-- A record behind `pre`: its parts are read, and are the magic, the revision and the fields.
module _ (pre rest : Bytes) (t : Table) (small : length pre < 2 ^ 32) where
  abbrev behind : Bytes
  behind = encode_table t ++ rest

  record_size : 64 ≤ length behind
  unfolding encode_table encode_fields le_bytes
  record_size = omega arith

  load_offset_table-encode_table :
      IsTable t → load_offset_table (file_reader (pre ++ behind)) (length pre) ≡ ok (offsets_of t)
  unfolding encode_table encode_fields le_bytes
  load_offset_table-encode_table h =
      let r = file_reader (pre ++ behind) in
      let size = record_size in
      let here : length pre ≡ length pre + 0 = omega arith in
      let at_0 : (n : ℕ) → n ≤ 64 → read_exact r (length pre) n ≡ ok (take n behind) = λ n l.
        ap (λ (off : ℕ). read_exact r off n) here
        ∙ read_behind pre behind 0 n (omega arith) (omega arith) in
      load_offset_table_reads r (length pre) (omega arith) (at_0 12 (omega arith))
        (read_behind pre behind 12 4 (omega arith) (omega arith))
        (load_revision2_reads r (length pre) t (take 60 behind) (take 4 (drop 60 behind)) h
          (read_behind pre behind 16 48 (omega arith) (omega arith)) (at_0 60 (omega arith))
          (read_behind pre behind 60 4 (omega arith) (omega arith)))

-- What stands at 0x30 of an executable with a fixed offset table at `pos`.
abbrev pub marker : ℕ → Bytes
marker pos = inno ++ (le_bytes 4 pos ++ le_bytes 4 (max_uint32 - pos))

fixed_table_at-marker :
    (r : ReaderAt) (pos : ℕ) {o : Offsets}
    → pos < 2 ^ 32
    → load_offset_table r pos ≡ ok o
    → fixed_table_at r (ok (marker pos)) ≡ ok (some o)
unfolding fixed_table_at equal le_bytes
fixed_table_at-marker r pos small loads =
    let low : le_value (le_bytes 4 pos) ≡ pos = le_value-le_bytes 4 pos small in
    let high : le_value (le_bytes 4 (max_uint32 - pos)) ≡ max_uint32 - pos =
      le_value-le_bytes 4 (max_uint32 - pos) (omega arith) in
    rw (low, high, ==_refl (max_uint32 - pos), loads)

-- An executable with the marker at 0x30 and a table of revision 2 at the place that the marker names
-- is located by that table: `Locate` returns the offsets, sizes and checksum that were written, where
-- they fit their fields and the offsets are not negative.
pub locate-encode_table :
    (pre rest : Bytes) (t : Table)
    → length pre < 2 ^ 32
    → IsTable t
    → take 12 (drop 48 (pre ++ (encode_table t ++ rest))) ≡ marker (length pre)
    → locate (some (file_reader (pre ++ (encode_table t ++ rest)))) ≡ ok (offsets_of t)
unfolding locate fixed_offset_table le_bytes
locate-encode_table pre rest t small h marked =
    let content = pre ++ (encode_table t ++ rest) in
    let twelve : length (take 12 (drop 48 content)) ≡ 12 = rw (marked) in
    let inside : 48 + 12 ≤ length content =
      omega (arith, length-take 12 (drop 48 content), length-drop 48 content) in
    let reads : read_exact (file_reader content) 48 12 ≡ ok (marker (length pre)) =
      read_exact-file_reader content 48 12 inside (omega arith) ∙ ap ok marked in
    rw (
      reads,
      fixed_table_at-marker (file_reader content) (length pre) small
          (load_offset_table-encode_table pre rest t small h),
    )
