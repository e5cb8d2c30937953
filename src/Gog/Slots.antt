-- ===== src/Gog/Slots.antt =====
-- The slots of the archive's slices, to which the locations of the files point, and the changes of a
-- file that internal/gog/gog.go makes.
use innoextract_go.Base.{
  ℕ, zero, suc, ◌<◌, ◌≡◌, refl, ap, ◌∙◌, arith, false, List, [], ◌∷◌, ◌++◌, map, length, ◌==◌,
  if-elim, Bytes, update_at, length-update_at,
}
use innoextract_go.Format.{Chunk, FileEntry, DataEntry}
use innoextract_go.Gog.Parts.{begin_file, contains_location, add_location, inflated, grown, hidden}
use innoextract_go.PathUtil.Split.{All, All-append}

-- No location stands in the list twice.
unfoldable pub Distinct : List ℕ → Type 0
Distinct [] = Unit
Distinct (x ∷ xs) = (contains_location xs x ≡ false) × Distinct xs

-- The additional locations of a file point to data entries, each of them to another one.
pub record Located (entries : ℕ) (file : FileEntry) : Type 0 where
  pub inside : All (λ l. l < entries) file.additional_locations
  pub distinct : Distinct file.additional_locations

-- The locations of the files, and the chunks of the data entries.
abbrev pub locations : List FileEntry → List ℕ
locations = map (λ f. f.location)

abbrev pub chunks : List DataEntry → List Chunk
chunks = map (λ e. e.chunk)

-- The files and the data entries that an archive with these locations and chunks has become.
pub record Kept (ls : List ℕ) (cs : List Chunk) (files : List FileEntry) (entries : List DataEntry)
    : Type 0 where
  pub same_locations : locations files ≡ ls
  pub same_chunks : chunks entries ≡ cs
  pub located : All (Located (length entries)) files

map-update_at {ℓ κ} :
    {A : Type ℓ} {B : Type κ} (h : A → B) (i : ℕ) (g : A → A) (xs : List A)
    → ((x : A) → h (g x) ≡ h x)
    → map h (update_at i g xs) ≡ map h xs
unfolding update_at
map-update_at h i g [] same = refl
map-update_at h zero g (x ∷ xs) same = ap (λ y. y ∷ map h xs) (same x)
map-update_at h (suc i) g (x ∷ xs) same = ap (◌∷◌ (h x)) (map-update_at h i g xs same)

All-update_at {ℓ κ} :
    {A : Type ℓ} (P : A → Type κ) (i : ℕ) (g : A → A) (xs : List A)
    → ((x : A) → P x → P (g x))
    → All P xs
    → All P (update_at i g xs)
unfolding update_at
All-update_at P i g [] keeps h = h
All-update_at P zero g (x ∷ xs) keeps h = (keeps x h.0, h.1)
All-update_at P (suc i) g (x ∷ xs) keeps h = (h.0, All-update_at P i g xs keeps h.1)

contains_location-append :
    (xs : List ℕ) (l x : ℕ)
    → contains_location xs x ≡ false
    → (l == x) ≡ false
    → contains_location (xs ++ l ∷ []) x ≡ false
unfolding contains_location
contains_location-append [] l x h other = rw other
contains_location-append (y ∷ xs) l x h other = ground (arith, contains_location-append xs l x)

Distinct-append :
    (xs : List ℕ) (l : ℕ) → contains_location xs l ≡ false → Distinct xs → Distinct (xs ++ l ∷ [])
unfolding Distinct contains_location
Distinct-append [] l h d = (refl, tt)
Distinct-append (x ∷ xs) l h d =
    (contains_location-append xs l x d.0 (ground arith), Distinct-append xs l (ground arith) d.1)

-- A change of a file that keeps its location and leaves its additional locations in order.
pub record Keeps (entries : ℕ) (g : FileEntry → FileEntry) : Type 0 where
  pub location : (f : FileEntry) → (g f).location ≡ f.location
  pub located : (f : FileEntry) → Located entries f → Located entries (g f)

pub Keeps-begin_file : (n : ℕ) (md5 : Bytes) (args : List Bytes) → Keeps n (begin_file md5 args)
unfolding begin_file
Keeps-begin_file n md5 args = record {
  location = λ f. refl;
  located = λ f h. record { inside = h.inside; distinct = h.distinct };
}

pub Keeps-grown : (n size : ℕ) → Keeps n (grown size)
Keeps-grown n size = record {
  location = λ f. refl;
  located = λ f h. record { inside = h.inside; distinct = h.distinct };
}

pub Keeps-hidden : (n : ℕ) → Keeps n hidden
Keeps-hidden n = record {
  location = λ f. refl;
  located = λ f h. record { inside = h.inside; distinct = h.distinct };
}

add_location-location : (l : ℕ) (f : FileEntry) → (add_location l f).location ≡ f.location
unfolding add_location
add_location-location l f = ground arith

add_location-Located :
    (n l : ℕ) → l < n → (f : FileEntry) → Located n f → Located n (add_location l f)
unfolding add_location
add_location-Located n l small f h =
    if-elim (Located n) (contains_location f.additional_locations l) f _ (λ old. h)
      λ new. record {
        inside = All-append _ f.additional_locations (l ∷ []) h.inside (small, tt);
        distinct = Distinct-append f.additional_locations l new h.distinct;
      }

pub Keeps-add_location : (n l : ℕ) → l < n → Keeps n (add_location l)
Keeps-add_location n l small = record {
  location = add_location-location l;
  located = add_location-Located n l small;
}

module _ (ls : List ℕ) (cs : List Chunk) where
  pub Kept-files :
      (i : ℕ) (g : FileEntry → FileEntry) (files : List FileEntry) (entries : List DataEntry)
      → Keeps (length entries) g
      → Kept ls cs files entries
      → Kept ls cs (update_at i g files) entries
  Kept-files i g files entries k h = record {
    same_locations = map-update_at _ i g files k.location ∙ h.same_locations;
    same_chunks = h.same_chunks;
    located = All-update_at _ i g files k.located h.located;
  }

  pub Kept-entries :
      (i size : ℕ) (files : List FileEntry) (entries : List DataEntry)
      → Kept ls cs files entries
      → Kept ls cs files (update_at i (inflated size) entries)
  Kept-entries i size files entries h = record {
    same_locations = h.same_locations;
    same_chunks = map-update_at _ i (inflated size) entries (λ e. refl) ∙ h.same_chunks;
    located = rw (length-update_at i (inflated size) entries) h.located;
  }
