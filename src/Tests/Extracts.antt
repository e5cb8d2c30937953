-- ===== src/Tests/Extracts.antt =====
-- The extraction of the sample archive.
use mathlib.Core.List.{Memᴰ}
use innoextract_go.Base.{◌≡◌, refl, false, some, [], ◌∷◌}
use innoextract_go.Fault.{ok, is_eof, err, corrupt}
use innoextract_go.Stream.Extract.{Outcome, extract, process_groups}
use innoextract_go.Stream.Extract.Budgets.{process_groups-budget}
use innoextract_go.Stream.Extract.Reports.{times_reported, times_reported-extract}
use innoextract_go.Stream.Extract.Verified.{extract-Verified}
use innoextract_go.Stream.Assembly.{new_assembly}
use innoextract_go.Format.{FileEntry}
use innoextract_go.Crypto.Checksums.{sum, equal_checksum}
use innoextract_go.Crypto.Password.{archive_key}
use innoextract_go.Format.{chunk_equal}
use innoextract_go.Base.{equal, get_elem?, replicate, arith}
use innoextract_go.Stream.Groups.{sort_refs, build_groups}
use innoextract_go.Stream.Budget.{reserve, available, release}
use innoextract_go.Stream.Chunk.{
  decode_chunk, read_full, read_source, new_chunk_decoder, limit_reader, chunk_source,
  uint64_reader_limit, decode_error,
}
use innoextract_go.Stream.Slice.{new_source, read, checked_offset}
use innoextract_go.Stream.Reader.{file_reader}
use innoextract_go.Stream.ReadAll.{read_all_limit, read_rounds, read_step}
use innoextract_go.Stream.Assembly.{modify, mark_failure}
use innoextract_go.Stream.Segment.{decode_file_segment, is_checksum_none, apply_filter, Verified}
use innoextract_go.Tests.Sample.{archive, setup, options, primitives, decoders}

abbrev extracted : Outcome
extracted = record {
  results =
      record { file_index = 0; content = 4 ∷ 5 ∷ [] }
      ∷ record { file_index = 1; content = 1 ∷ 2 ∷ 3 ∷ [] }
      ∷ [];
  failures = [];
}

pub extracts : extract primitives decoders (some setup) (some archive) options false ≡ ok extracted
unfolding extract archive_key chunk_equal sort_refs reserve available release decode_chunk
    new_source read_full read_source read checked_offset file_reader equal new_chunk_decoder
    read_all_limit read_rounds read_step limit_reader modify mark_failure decode_file_segment sum
    equal_checksum is_checksum_none chunk_source uint64_reader_limit decode_error is_eof
    apply_filter
extracts = refl

extract-Verified_example :
    (e : FileEntry) × ((get_elem? archive.files 0 ≡ some e)
      × Verified primitives e.checksum (4 ∷ 5 ∷ []))
extract-Verified_example =
    extract-Verified primitives decoders setup archive options
      (record { file_index = 0; content = 4 ∷ 5 ∷ [] }) extracts (Memᴰ.head refl)

-- The third file, whose location is no data entry.
times_reported-extract_example : times_reported 2 extracted ≡ 0
times_reported-extract_example =
    times_reported-extract primitives decoders setup archive options false 2 refl extracts

-- The groups of the sample, by a decoder that fails.
process_groups-budget_example :
    (process_groups primitives decoders
      (λ c n. err corrupt)
      (build_groups archive (replicate 3 new_assembly)).groups
      (record { files = replicate 3 new_assembly; budget = record { limit = 9; used = 5 } })).budget
    ≡ record { limit = 9; used = 5 }
process_groups-budget_example =
    process_groups-budget primitives decoders (λ c n. err corrupt)
      (build_groups archive (replicate 3 new_assembly)).groups
      (record { files = replicate 3 new_assembly; budget = record { limit = 9; used = 5 } })
      (omega arith)
