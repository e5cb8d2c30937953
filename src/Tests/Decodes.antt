-- ===== src/Tests/Decodes.antt =====
-- Segments, filters, readers and budgets.
use innoextract_go.Base.{
  ℕ, ◌+◌, ◌≡◌, ◌≢◌, ◌≤◌, ◌↔◌, refl, arith, true, false, none, some, [], ◌∷◌, take, drop, length,
  Bytes, IsBytes, Option, subst, ap, ◌∙◌, pos,
}
use innoextract_go.Fault.{Fault, ok, err, Result, is_eof}
use innoextract_go.Format.{zlib_filter, no_filter, instruction5309, checksum_sha256, StoredFile}
use innoextract_go.Crypto.Checksums.{sum, equal_checksum}
use innoextract_go.Base.{equal}
use innoextract_go.Stream.Budget.{MemoryBudget, reserve, reserve_iff, available}
use innoextract_go.Stream.Filter.{
  decode_instruction4108, decode_instruction5200, loop5200, is_plain,
}
use innoextract_go.Stream.Filter.Calls4108.{reference4108, decode_instruction4108-eq-reference4108}
use innoextract_go.Stream.Filter.Calls5200.{
  length-decode_instruction5200, decode_instruction5200_injective,
}
use innoextract_go.Stream.ReadAll.{
  bytes_reader, read_all_limit, read_rounds, read_step, length-read_all_limit, read_rounds_fuel,
}
use innoextract_go.Stream.Reader.{
  Provider, ReaderAt, Documented, nil_reader, file_reader, file_reader-Documented,
}
use innoextract_go.Stream.Segment.{
  decode_file_segment, decode_file_segment_sound, apply_filter, is_checksum_none, checksum_data,
  Verified,
}
use innoextract_go.Stream.Slice.{SliceSource, Reading, read}
use innoextract_go.Stream.Slice.Loop.{Ready, read_total}
use innoextract_go.Tests.Sample.{primitives, decoders}

-- Bytes 1 and 2 of a chunk, with the call filter and a checksum.
abbrev filtered : StoredFile
filtered = record {
  offset = 1;
  size = 2;
  checksum = record { type = checksum_sha256; digest = 8 ∷ 9 ∷ 0 ∷ 0 ∷ [] };
  filter = instruction5309;
}

decodes :
    decode_file_segment primitives decoders.new_zlib (7 ∷ 8 ∷ 9 ∷ []) filtered (pos 10)
    ≡ ok (8 ∷ 9 ∷ [])
unfolding decode_file_segment apply_filter decode_instruction5200 loop5200 is_plain sum
    equal_checksum equal is_checksum_none
decodes = refl

decode_file_segment_sound_example :
    (1 + 2 ≤ 3)
    × Verified primitives filtered.checksum (8 ∷ 9 ∷ [])
    × (instruction5309 ≢ zlib_filter → length {A = ℕ} (8 ∷ 9 ∷ []) ≡ filtered.size)
    × (instruction5309 ≢ no_filter → 2 ≤ 10)
unfolding checksum_data
decode_file_segment_sound_example =
    decode_file_segment_sound primitives decoders.new_zlib (7 ∷ 8 ∷ 9 ∷ []) filtered 10
      (omega arith, (omega arith, (omega arith, tt))) decodes

decode_instruction4108-eq-reference4108_example :
    decode_instruction4108 (232 ∷ 1 ∷ 2 ∷ 3 ∷ 4 ∷ 5 ∷ [])
    ≡ reference4108 0 (232 ∷ 1 ∷ 2 ∷ 3 ∷ 4 ∷ 5 ∷ [])
decode_instruction4108-eq-reference4108_example =
    decode_instruction4108-eq-reference4108 (232 ∷ 1 ∷ 2 ∷ 3 ∷ 4 ∷ 5 ∷ [])
      (omega arith, (omega arith, (omega arith, (omega arith, (omega arith, (omega arith, tt))))))

length-decode_instruction5200_example :
    (length (decode_instruction5200 true (232 ∷ 1 ∷ 2 ∷ 3 ∷ 0 ∷ [])) ≡ 5)
    × IsBytes (decode_instruction5200 true (232 ∷ 1 ∷ 2 ∷ 3 ∷ 0 ∷ []))
length-decode_instruction5200_example =
    length-decode_instruction5200 true (232 ∷ 1 ∷ 2 ∷ 3 ∷ 0 ∷ [])
      (omega arith, (omega arith, (omega arith, (omega arith, (omega arith, tt)))))

decode_instruction5200_injective_example :
    ◌≡◌ {A = Bytes} (232 ∷ 1 ∷ 2 ∷ 3 ∷ 0 ∷ []) (232 ∷ 1 ∷ 2 ∷ 3 ∷ 0 ∷ [])
decode_instruction5200_injective_example =
    decode_instruction5200_injective true (232 ∷ 1 ∷ 2 ∷ 3 ∷ 0 ∷ []) (232 ∷ 1 ∷ 2 ∷ 3 ∷ 0 ∷ [])
      (omega arith, (omega arith, (omega arith, (omega arith, (omega arith, tt)))))
      (omega arith, (omega arith, (omega arith, (omega arith, (omega arith, tt))))) refl

reads : read_all_limit (bytes_reader (1 ∷ 2 ∷ [])) (pos 2) ≡ ok (1 ∷ 2 ∷ [])
unfolding read_all_limit read_rounds read_step bytes_reader is_eof
reads = refl

length-read_all_limit_example : (n : ℕ) × (pos 2 ≡ pos n) × (2 ≤ n)
length-read_all_limit_example = length-read_all_limit (bytes_reader (1 ∷ 2 ∷ [])) (pos 2) reads

abbrev step : Bytes → ℕ → (Bytes × Option Fault) × Bytes
step rest n = ((take n rest, none), drop n rest)

read_rounds_fuel_example :
    read_rounds step 5 6 (1 ∷ 2 ∷ []) [] ≡ read_rounds step 5 9 (1 ∷ 2 ∷ []) []
read_rounds_fuel_example =
    read_rounds_fuel step 5 6 9 (1 ∷ 2 ∷ []) [] (omega arith) (omega arith) (omega arith)

abbrev full : MemoryBudget
full = record { limit = 9; used = 9 }

reserve_iff_example :
    (reserve (record { limit = 9; used = 5 }) 4 ≡ ok full)
    ↔ ((5 + 4 ≤ 9) × (full.used ≡ 5 + 4) × (full.limit ≡ 9))
reserve_iff_example = reserve_iff (record { limit = 9; used = 5 }) 4 full (omega arith)

reserves : reserve (record { limit = 9; used = 5 }) 4 ≡ ok full
unfolding reserve available
reserves = refl

abbrev from_some {ℓ} : {A : Type ℓ} → A → Option A → A
from_some a none = a
from_some a (some b) = b

abbrev from_ok {ℓ} : {A : Type ℓ} → A → Result A → A
from_ok a (ok b) = b
from_ok a (err e) = a

abbrev slices : Provider
slices i = ok (some (file_reader (i ∷ 7 ∷ [])))

provided_reader :
    (p : Provider) (i : ℕ) (r : ReaderAt) → slices ≡ p → p i ≡ ok (some r) → Documented r
provided_reader p i r e f =
    subst Documented (ap (from_some nil_reader) (ap (from_ok none) (ap (λ q. q i) e ∙ f)))
      (file_reader-Documented (i ∷ 7 ∷ []))

-- Slices 0 and 1, each a file of two bytes.
abbrev source : SliceSource
source = record {
  embedded = false;
  r = file_reader [];
  provider = some slices;
  data_start = 0;
  slice = 0;
  last = 1;
  pos = 0;
  current = file_reader [];
  base = 0;
  end = 0;
  opened = false;
}

source-Ready : Ready source
source-Ready = record {
  in_range = omega arith;
  last_word = omega arith;
  provided = λ p i r e f. provided_reader p i r (ap (from_some slices) e) f;
  embedded_reader = file_reader-Documented [];
  current_reader = file_reader-Documented [];
}

read_total_example : (out : Reading) × (read source 3 ≡ some out) × (length out.got ≤ 3)
read_total_example = read_total source 3 source-Ready
