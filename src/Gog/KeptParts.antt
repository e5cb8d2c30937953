-- ===== src/Gog/KeptParts.antt =====
-- `applyGalaxyParts` of internal/gog/gog.go and the slots.
use innoextract_go.Base.{
  ℕ, zero, suc, ◌+◌, ◌<◌, ◌≡◌, refl, arith, Bool, not, ◌||◌, Option, none, some, List, [], ◌∷◌,
  length, get_elem?, leb, ◌==◌, if-elim, Bytes, update_at, length-update_at,
}
use innoextract_go.Format.{Chunk, FileEntry, DataEntry}
use innoextract_go.Gog.Parts.{
  begin_file, declared_parts, Scan, abandon, begin_group, add_location, inflated, grown, hidden,
  accept_part, part_size, take_part, start_info, part_info, continue_group, note_file, scan_file,
  scan_files, apply_galaxy_parts,
}
use innoextract_go.PathUtil.Split.{All}
use innoextract_go.Gog.Slots.{
  Located, Kept, locations, chunks, Keeps-begin_file, Keeps-grown, Keeps-hidden, Keeps-add_location,
  Kept-files, Kept-entries,
}

module _ (ls : List ℕ) (cs : List Chunk) where
  abbrev KeptIn : Scan → Type 0
  KeptIn s = Kept ls cs s.files s.entries

  begin_group-Kept :
      (i : ℕ) (info : List Bytes) (s : Scan) → KeptIn s → KeptIn (begin_group i info s)
  unfolding begin_group
  begin_group-Kept i [] s h = h
  begin_group-Kept i (md5 ∷ args) s h =
      let next =
        Kept-files ls cs i (begin_file md5 args) s.files s.entries (Keeps-begin_file _ md5 args)
          h in
      if-elim KeptIn (declared_parts args == 0) _ _ (λ _. next) (λ _. next)

  accept_part-Kept :
      (i start location size : ℕ) (s : Scan)
      → location < length s.entries
      → KeptIn s
      → KeptIn (accept_part i start location size s)
  unfolding accept_part
  accept_part-Kept i start location size s small h =
      let entries = update_at location (inflated size) s.entries in
      let same : length entries ≡ length s.entries =
        length-update_at location (inflated size) s.entries in
      let files = update_at start (grown size) s.files in
      let sized : Kept ls cs files entries =
        Kept-files ls cs start (grown size) s.files entries (Keeps-grown _ size)
          (Kept-entries ls cs location size s.files s.entries h) in
      if-elim (λ fs. Kept ls cs fs entries) (i == start) _ _ (λ _. sized)
        λ _.
          Kept-files ls cs start (add_location location) _ entries
            (Keeps-add_location _ location (omega arith))
            (Kept-files ls cs i hidden files entries (Keeps-hidden _) sized)

  take_part-Kept :
      (i location : ℕ) (info : List Bytes) (active : Option ℕ) (s : Scan)
      → KeptIn s
      → KeptIn (take_part i location info active s)
  unfolding take_part
  take_part-Kept i location info none s h = h
  take_part-Kept i location info (some start) s h =
      if-elim KeptIn (s.remaining == 0 || leb (length s.entries) location) _ _ (λ _. h)
        λ small.
          elim (part_size info)
            as (λ size.
              KeptIn (elim size [
                | none ↦ abandon s
                | some size ↦ accept_part i start location size s
              ])) [
                | none ↦ h
                | some size ↦ accept_part-Kept i start location size s (ground arith) h
              ]

  continue_group-Kept :
      (i location : ℕ) (started : Bool) (info : List Bytes) (s : Scan)
      → KeptIn s
      → KeptIn (continue_group i location started info s)
  unfolding continue_group
  continue_group-Kept i location started [] s h =
      if-elim KeptIn (started || not (s.remaining == 0)) _ _ (λ _. h) (λ _. h)
  continue_group-Kept i location started (arg ∷ args) s h =
      take_part-Kept i location (arg ∷ args) s.active s h

  note_file-Kept : (s : Scan) (file : Option FileEntry) → KeptIn s → KeptIn (note_file s file)
  unfolding note_file
  note_file-Kept s none h = h
  note_file-Kept s (some file) h = h

  scan_file-Kept : (i : ℕ) (file : FileEntry) (s : Scan) → KeptIn s → KeptIn (scan_file i file s)
  unfolding scan_file
  scan_file-Kept i file s h = note_file-Kept _ _ (
      continue_group-Kept i file.location _ (part_info file) _
        (begin_group-Kept i (start_info file) s h))

  scan_files-Kept : (n i : ℕ) (s : Scan) → KeptIn s → KeptIn (scan_files n i s)
  unfolding scan_files
  scan_files-Kept zero i s h = h
  scan_files-Kept (suc n) i s h =
      elim (get_elem? s.files i)
        as (λ o.
          KeptIn (elim o [ none ↦ s | some file ↦ scan_files n (i + 1) (scan_file i file s) ])) [
            | none ↦ h
            | some file ↦ scan_files-Kept n (i + 1) (scan_file i file s) (scan_file-Kept i file s h)
          ]

pub apply_galaxy_parts-Kept :
    (files : List FileEntry) (entries : List DataEntry)
    → All (Located (length entries)) files
    → Kept
        (locations files)
        (chunks entries)
        (apply_galaxy_parts files entries).files
        (apply_galaxy_parts files entries).entries
unfolding apply_galaxy_parts
apply_galaxy_parts-Kept files entries h =
    scan_files-Kept (locations files) (chunks entries) (length files) 0 _
      (record { same_locations = refl; same_chunks = refl; located = h })
