-- ===== src/Tests/Archives.antt =====
-- The sample archive, by the functions of the package.
use innoextract_go.Base.{◌≡◌, refl, true, false, some, none, [], pos}
use innoextract_go.Api.Accounts.{
  Reported, times_named, extract_archive-Reported, times_named-extract_archive,
}
use innoextract_go.Api.Archive.{
  OpenArchive, list_files, extract_parsed, publish, failures_error, extract_archive,
}
use innoextract_go.Api.Paths.{SafeFile, list_files-extract_archive-SafePath}
use innoextract_go.Api.Settings.{Settings}
use innoextract_go.Fault.{Fault}
use innoextract_go.PathUtil.Safety.{SafePath}
use innoextract_go.PathUtil.Split.{All}
use innoextract_go.Tests.Extracts.{extracts}
use innoextract_go.Tests.Sample.{archive, setup, primitives, decoders}

abbrev settings : Settings
settings = record {
  password = [];
  codepage = 0;
  slices = none;
  memory_limit = pos 100;
  header_limit = pos 100;
}

abbrev opened : OpenArchive
opened = record { reader = some setup; settings = settings; parsed = some archive }

list_files-extract_archive-SafePath_example :
    All (λ e. SafePath e.path) (list_files (some opened))
    × All SafeFile (extract_archive primitives decoders false (some opened)).files
list_files-extract_archive-SafePath_example =
    list_files-extract_archive-SafePath primitives decoders false (some opened)

extract_archive-Reported_example :
    Reported
      (extract_archive primitives decoders true (some opened)).error
      (extract_archive primitives decoders true (some opened)).files
extract_archive-Reported_example = extract_archive-Reported primitives decoders true (some opened)

no_error : (extract_archive primitives decoders false (some opened)).error ≡ none
unfolding extract_archive extract_parsed publish failures_error
no_error = rw extracts refl

-- The second file.
times_named-extract_archive_example :
    times_named 1 (extract_archive primitives decoders false (some opened)) ≡ 1
times_named-extract_archive_example =
    times_named-extract_archive primitives decoders setup archive settings 1 refl
      (λ (e : Fault). λ h. absurd (cc (h, no_error)))
