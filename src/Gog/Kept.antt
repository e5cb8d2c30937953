-- ===== src/Gog/Kept.antt =====
-- `Apply` of internal/gog/gog.go and the slots of the archive's slices.
use innoextract_go.Base.{
  ℕ, ◌≡◌, refl, ap₂, ◌∙◌, not, ◌||◌, ◌&&◌, List, [], ◌∷◌, map, length, ◌==◌, if-elim, Bytes,
}
use innoextract_go.Format.{Archive, Chunk, FileEntry, DataEntry}
use innoextract_go.Gog.Apply.{
  looks_like_gog, has_galaxy_markers, constrain_languages, constrain_bits, apply_check,
  apply_dependency, default_components, game, constrain_file, apply_gog, apply,
}
use innoextract_go.Gog.Constraint.{constraint_expression, parse_constraints, is_all_languages}
use innoextract_go.PathUtil.Split.{All}
use innoextract_go.Gog.Slots.{Located, Kept, locations, chunks}
use innoextract_go.Gog.KeptParts.{apply_galaxy_parts-Kept}

-- The fields that the constraints leave alone.
record SameSlots (f g : FileEntry) : Type 0 where
  location : g.location ≡ f.location
  additional : g.additional_locations ≡ f.additional_locations

constrain_languages-SameSlots :
    (all : List Bytes) (input : Bytes) (file : FileEntry)
    → SameSlots file (constrain_languages all input file)
unfolding constrain_languages
constrain_languages-SameSlots all input file =
    let constraints = parse_constraints input in
    if-elim (SameSlots file)
      (length input == 0 || length constraints == 0 || is_all_languages constraints all) file
      (record file { languages = constraint_expression constraints })
      (λ _. record { location = refl; additional = refl })
      λ _. record { location = refl; additional = refl }

constrain_bits-SameSlots :
    (args : List Bytes) (file : FileEntry) → SameSlots file (constrain_bits args file)
unfolding constrain_bits
constrain_bits-SameSlots [] file = record { location = refl; additional = refl }
constrain_bits-SameSlots (input ∷ args) file =
    if-elim (SameSlots file) (length input == 0) file _
      (λ _. record { location = refl; additional = refl })
      λ _. record { location = refl; additional = refl }

default_components-SameSlots :
    (name : Bytes) (file : FileEntry) → SameSlots file (default_components name file)
default_components-SameSlots name file =
    if-elim (SameSlots file) (length file.components == 0) _ file
      (λ _. record { location = refl; additional = refl })
      λ _. record { location = refl; additional = refl }

SameSlots-trans : {f g h : FileEntry} → SameSlots f g → SameSlots g h → SameSlots f h
SameSlots-trans p q = record {
  location = q.location ∙ p.location;
  additional = q.additional ∙ p.additional;
}

apply_check-SameSlots :
    (all args : List Bytes) (file : FileEntry) → SameSlots file (apply_check all args file)
unfolding apply_check
apply_check-SameSlots all [] file = record { location = refl; additional = refl }
apply_check-SameSlots all (input ∷ args) file =
    SameSlots-trans (constrain_languages-SameSlots all input file)
      (SameSlots-trans (constrain_bits-SameSlots args _) (default_components-SameSlots game _))

apply_dependency-SameSlots :
    (args : List Bytes) (file : FileEntry) → SameSlots file (apply_dependency args file)
unfolding apply_dependency
apply_dependency-SameSlots [] file = record { location = refl; additional = refl }
apply_dependency-SameSlots (name ∷ args) file =
    if-elim (SameSlots file) (length name == 0) file _
      (λ _. record { location = refl; additional = refl })
      λ _. default_components-SameSlots name file

checks-SameSlots :
    (all args dependency : List Bytes) (file : FileEntry)
    → SameSlots file (apply_dependency dependency (apply_check all args file))
checks-SameSlots all args dependency file =
    SameSlots-trans (apply_check-SameSlots all args file) (apply_dependency-SameSlots dependency _)

constrain_file-SameSlots :
    (all : List Bytes) (file : FileEntry) → SameSlots file (constrain_file all file)
unfolding constrain_file
constrain_file-SameSlots all file =
    if-elim (SameSlots file) (length file.destination == 0) file _
      (λ _. record { location = refl; additional = refl }) λ _. search checks-SameSlots

SameSlots-Located : (n : ℕ) {f g : FileEntry} → SameSlots f g → Located n f → Located n g
SameSlots-Located n p h = record {
  inside = rw p.additional h.inside;
  distinct = rw p.additional h.distinct;
}

Kept-map :
    (ls : List ℕ) (cs : List Chunk) (g : FileEntry → FileEntry) (files : List FileEntry)
    (entries : List DataEntry)
    → ((f : FileEntry) → SameSlots f (g f))
    → Kept ls cs files entries
    → Kept ls cs (map g files) entries
Kept-map ls cs g files entries same h = record {
  same_locations = locations-map files ∙ h.same_locations;
  same_chunks = h.same_chunks;
  located = located files h.located;
}
  where
    locations-map : (fs : List FileEntry) → locations (map g fs) ≡ locations fs
    locations-map [] = refl
    locations-map (f ∷ fs) = ap₂ ◌∷◌ (same f).location (locations-map fs)

    located :
        (fs : List FileEntry)
        → All (Located (length entries)) fs
        → All (Located (length entries)) (map g fs)
    located [] p = tt
    located (f ∷ fs) p = (SameSlots-Located (length entries) (same f) p.0, located fs p.1)

-- In an archive where the additional locations of every file are indices of data entries, each of
-- them once, `Apply` adds and removes neither files nor data entries, changes neither the location of
-- a file nor the chunk of a data entry, and keeps the additional locations so.
pub apply-Kept :
    (a : Archive)
    → All (Located (length a.data_entries)) a.files
    → Kept (locations a.files) (chunks a.data_entries) (apply a).files (apply a).data_entries
unfolding apply apply_gog
apply-Kept a h =
    if-elim (λ b. Kept (locations a.files) (chunks a.data_entries) b.files b.data_entries)
      (not (looks_like_gog a) && not (has_galaxy_markers a.files)) a _
      (λ _. record { same_locations = refl; same_chunks = refl; located = h })
      λ _.
        Kept-map _ _ _ _ _ (constrain_file-SameSlots _)
          (apply_galaxy_parts-Kept a.files a.data_entries h)
