-- ===== src/Api/Opened.antt =====
-- What an archive that `Open` of archive.go returns is like.
use innoextract_go.Base.{
  ℕ, ◌≡◌, refl, Option, none, some, List, [], ◌∷◌, length, Bytes, ℤ, pos, negsuc, zero, suc, ◌==◌,
}
use innoextract_go.Api.Archive.{OpenArchive, open_archive}
use innoextract_go.Api.Settings.{
  Settings, Setting, with_password, with_codepage, with_slice_provider, with_memory_limit,
  default_settings, apply_settings,
}
use innoextract_go.Crypto.Primitives.{Primitives}
use innoextract_go.Fault.Ensures.{Ensures, Ensures-ok, Ensures-err, Ensures-if, Ensures-bind_eq}
use innoextract_go.Fault.{ok}
use innoextract_go.Format.{Archive, FileEntry}
use innoextract_go.Gog.Apply.{apply}
use innoextract_go.Gog.Kept.{apply-Kept}
use innoextract_go.Gog.Slots.{Distinct, Located}
use innoextract_go.PathUtil.Split.{All}
use innoextract_go.Setup.Parse.{parse}
use innoextract_go.Setup.Single.{Single, SingleArchive, parse-Single}
use innoextract_go.Stream.Chunk.{Decoders}
use innoextract_go.Stream.Reader.{Provider, ReaderAt}

-- The settings with which an archive can be opened: both limits are positive.
pub record Limited (s : Settings) : Type 0 where
  pub memory : (n : ℕ) × (s.memory_limit ≡ pos (suc n))
  pub header : (n : ℕ) × (s.header_limit ≡ pos (suc n))

-- An option that one of the four functions of options.go makes.
pub data Offered : Setting → Type 0 where
  password : (value : Bytes) → Offered (with_password value)
  codepage : (value : ℕ) → Offered (with_codepage value)
  provider : (value : Option Provider) → Offered (with_slice_provider value)
  memory_limit : (value : ℤ) → Offered (with_memory_limit value)

-- The additional locations of every file point to data entries, each of them to another one.
pub LocatedArchive : Archive → Type 0
LocatedArchive a = All (Located (length a.data_entries)) a.files

Limited-default : Limited default_settings
unfolding default_settings
Limited-default = record { memory = (1073741823, refl); header = (67108863, refl) }

Offered-Limited : {f : Setting} (s : Settings) → Offered f → Limited s → Ensures Limited (f s)
unfolding with_password with_codepage with_slice_provider with_memory_limit
Offered-Limited s (password value) h =
    Ensures-ok Limited _ (record { memory = h.memory; header = h.header })
Offered-Limited s (codepage value) h =
    Ensures-if Limited (value == 0) _ _ (Ensures-err Limited _)
      (Ensures-ok Limited _ (record { memory = h.memory; header = h.header }))
Offered-Limited s (provider none) h = Ensures-err Limited _
Offered-Limited s (provider (some value)) h =
    Ensures-ok Limited _ (record { memory = h.memory; header = h.header })
Offered-Limited s (memory_limit (negsuc n)) h = Ensures-err Limited _
Offered-Limited s (memory_limit (pos zero)) h = Ensures-err Limited _
Offered-Limited s (memory_limit (pos (suc n))) h =
    Ensures-if Limited (suc n == 0) _ _ (Ensures-err Limited _)
      (Ensures-ok Limited _ (record { memory = (n, refl); header = h.header }))

-- Where an option is not nil, it is offered.
abbrev pub OfferedOption : Option Setting → Type 0
OfferedOption none = Unit
OfferedOption (some f) = Offered f

apply_settings-Limited :
    (settings : List (Option Setting)) (s : Settings)
    → All OfferedOption settings
    → Limited s
    → Ensures Limited (apply_settings settings s)
unfolding apply_settings
apply_settings-Limited [] s o h = Ensures-ok Limited s h
apply_settings-Limited (none ∷ settings) s o h = Ensures-err Limited _
apply_settings-Limited (some f ∷ settings) s o h =
    Ensures-bind_eq Limited (f s) _
      λ next e. apply_settings-Limited settings next o.1 ((Offered-Limited s o.0 h).holds next e)

Single-Located : (n : ℕ) (files : List FileEntry) → All Single files → All (Located n) files
unfolding Distinct
Single-Located n [] h = tt
Single-Located n (f ∷ files) h =
    (record { inside = rw (h.0) tt; distinct = rw (h.0) tt }, Single-Located n files h.1)

-- An archive that is open.
pub record Opened (o : OpenArchive) : Type 0 where
  pub archive : Archive
  pub parsed : o.parsed ≡ some archive
  pub located : LocatedArchive archive
  pub limited : Limited o.settings

-- An archive that `Open` returns, with any of the options that the package offers, has its data, its
-- limits are positive, and the additional locations of its files are indices of data entries, each
-- of them once.
pub open_archive-Opened :
    (p : Primitives) (d : Decoders) (crc32 : Bytes → ℕ) (r : Option ReaderAt)
    (settings : List (Option Setting)) {o : OpenArchive}
    → All OfferedOption settings
    → open_archive p d crc32 r settings ≡ ok o
    → Opened o
unfolding open_archive LocatedArchive SingleArchive
open_archive-Opened p d crc32 none settings offered e = absurd (cc)
open_archive-Opened p d crc32 (some r) settings {o} offered e =
    let opened : Ensures Opened (open_archive p d crc32 (some r) settings) =
      Ensures-bind_eq Opened (apply_settings settings default_settings) _ λ s applied.
        Ensures-bind_eq Opened (parse crc32 d (some r) s.header_limit) _ λ a read.
          Ensures-ok Opened _ (record {
            archive = apply a;
            parsed = refl;
            located =
                (apply-Kept a (
                  Single-Located (length a.data_entries) a.files
                    ((parse-Single crc32 d (some r) s.header_limit).holds a read))).located;
            limited =
                (apply_settings-Limited settings default_settings offered Limited-default).holds s
                  applied;
          }) in
    opened.holds o e
