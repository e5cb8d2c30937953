-- ===== src/Gog/Apply.antt =====
-- `GameID`, `Apply` and `applyGalaxyConstraints` of internal/gog/gog.go.
use innoextract_go.Base.{
  Bool, true, false, not, ◌||◌, ◌&&◌, Option, none, some, List, [], ◌∷◌, ◌++◌, map, length, drop,
  ltb, ◌==◌, if◌then◌else◌, Bytes, equal,
}
use innoextract_go.Format.{Archive, FileEntry, Language, RegistryEntry}
use innoextract_go.Gog.Call.{first_function_call}
use innoextract_go.Gog.Constraint.{
  parse_constraints, is_all_languages, constraint_expression, architecture_bits, check_if_install,
}
use innoextract_go.Gog.Parts.{start_info, part_info, apply_galaxy_parts}
use innoextract_go.Strings.{lower, has_prefix, contains_text}
use innoextract_go.PathUtil.{equal_fold}

-- `gogGamesPrefix` in lower case: "software\gog.com\games\".
abbrev gog_com : Bytes
gog_com = b'g' ∷ b'o' ∷ b'g' ∷ b'.' ∷ b'c' ∷ b'o' ∷ b'm' ∷ []

abbrev games_prefix : Bytes
games_prefix =
    (b's' ∷ b'o' ∷ b'f' ∷ b't' ∷ b'w' ∷ b'a' ∷ b'r' ∷ b'e' ∷ b'\\' ∷ gog_com)
    ++ (b'\\' ∷ b'g' ∷ b'a' ∷ b'm' ∷ b'e' ∷ b's' ∷ b'\\' ∷ [])

-- "gameid"
abbrev game_id_name : Bytes
game_id_name = b'g' ∷ b'a' ∷ b'm' ∷ b'e' ∷ b'i' ∷ b'd' ∷ []

-- The last component of a key below the games' key, if it is one.
unfoldable pub game_key : RegistryEntry → Option Bytes
unfolding lower has_prefix contains_text
game_key entry =
    let id = drop (length games_prefix) entry.key in
    if not (has_prefix (lower entry.key) games_prefix)
    then none
    else if contains_text id (b'\\' ∷ [])
    then none
    else some id

-- The loop of `GameID`.
unfoldable pub game_id_from : Bytes → List RegistryEntry → Bytes
unfolding game_key equal_fold
game_id_from fallback [] = fallback
game_id_from fallback (entry ∷ entries) = elim (game_key entry) [
  | none ↦ game_id_from fallback entries
  | some id ↦ elim (equal_fold entry.name game_id_name) [
    | true ↦ entry.value
    | false ↦ game_id_from (if length fallback == 0 then id else fallback) entries
  ]
]

-- `GameID`
abbrev pub game_id : List RegistryEntry → Bytes
game_id entries = game_id_from [] entries

-- `looksLikeGOG`
unfoldable pub looks_like_gog : Archive → Bool
unfolding game_id_from lower contains_text
looks_like_gog a =
    not (length (game_id a.registry) == 0) || contains_text (lower a.header.publisher) gog_com

-- `hasGalaxyMarkers`
unfoldable pub has_galaxy_markers : List FileEntry → Bool
unfolding start_info part_info
has_galaxy_markers [] = false
has_galaxy_markers (file ∷ files) =
    not (length (start_info file) == 0)
    || not (length (part_info file) == 0)
    || has_galaxy_markers files

-- "game"
abbrev pub game : Bytes
game = b'g' ∷ b'a' ∷ b'm' ∷ b'e' ∷ []

unfoldable pub constrain_languages : List Bytes → Bytes → FileEntry → FileEntry
unfolding parse_constraints is_all_languages constraint_expression
constrain_languages all input file =
    let constraints = parse_constraints input in
    if length input == 0 || length constraints == 0 || is_all_languages constraints all
    then file
    else record file { languages = constraint_expression constraints }

unfoldable pub constrain_bits : List Bytes → FileEntry → FileEntry
unfolding architecture_bits
constrain_bits [] file = file
constrain_bits (input ∷ args) file =
    let (bits32, bits64) = architecture_bits input in
    if length input == 0 then file else record file { bits32 = bits32; bits64 = bits64 }

abbrev pub default_components : Bytes → FileEntry → FileEntry
default_components components file =
    if length file.components == 0 then record file { components = components } else file

-- The arguments of "check_if_install".
unfoldable pub apply_check : List Bytes → List Bytes → FileEntry → FileEntry
unfolding constrain_languages constrain_bits
apply_check all [] file = file
apply_check all (languages ∷ args) file =
    default_components game (constrain_bits args (constrain_languages all languages file))

-- The arguments of "check_if_install_dependency".
unfoldable pub apply_dependency : List Bytes → FileEntry → FileEntry
apply_dependency [] file = file
apply_dependency (name ∷ args) file =
    if length name == 0 then file else default_components name file

abbrev check_if_install_dependency : Bytes
check_if_install_dependency =
    check_if_install
    ++ (b'_' ∷ b'd' ∷ b'e' ∷ b'p' ∷ b'e' ∷ b'n' ∷ b'd' ∷ b'e' ∷ b'n' ∷ b'c' ∷ b'y' ∷ [])

-- The body of `applyGalaxyConstraints`.
unfoldable pub constrain_file : List Bytes → FileEntry → FileEntry
unfolding apply_check apply_dependency first_function_call
constrain_file all file =
    if length file.destination == 0
    then file
    else apply_dependency (first_function_call file.check (check_if_install_dependency ∷ []))
        (apply_check all (first_function_call file.check (check_if_install ∷ [])) file)

-- `<` of two strings, and `sort.Strings` of names that are all different.
unfoldable pub text_lt : Bytes → Bytes → Bool
text_lt s [] = false
text_lt [] (d ∷ t) = true
text_lt (c ∷ s) (d ∷ t) = ltb c d || (c == d && text_lt s t)

unfoldable pub insert_sorted : Bytes → List Bytes → List Bytes
unfolding text_lt
insert_sorted name [] = name ∷ []
insert_sorted name (x ∷ names) =
    let rest = insert_sorted name names in if text_lt x name then x ∷ rest else name ∷ x ∷ names

unfoldable pub sort_names : List Bytes → List Bytes
unfolding insert_sorted
sort_names [] = []
sort_names (name ∷ names) = insert_sorted name (sort_names names)

-- `hasLanguage`
unfoldable pub has_language : List Language → Bytes → Bool
has_language [] name = false
has_language (l ∷ languages) name = equal l.name name || has_language languages name

unfoldable pub add_languages : List Bytes → List Language → List Language
unfolding has_language
add_languages [] languages = languages
add_languages (name ∷ names) languages = add_languages names (
    if has_language languages name
    then languages
    else languages ++ record { name = name; display_name = []; id = 0; codepage = 0 } ∷ [])

-- The end of `Apply`: the languages that the files name.
unfoldable pub merge_languages : List Bytes → Bool → List Language → List Language
unfolding add_languages sort_names
merge_languages all constrained languages =
    if length all == 0
    then languages
    else add_languages (sort_names all) (if constrained then languages else [])

unfoldable pub apply_gog : Archive → Archive
unfolding apply_galaxy_parts constrain_file merge_languages
apply_gog a =
    let s = apply_galaxy_parts a.files a.data_entries in
    record a {
      files = map (constrain_file s.languages) s.files;
      data_entries = s.entries;
      languages = merge_languages s.languages s.constrained a.languages;
    }

-- `Apply` of an archive that is not nil.
unfoldable pub apply : Archive → Archive
unfolding apply_gog looks_like_gog has_galaxy_markers
apply a = if not (looks_like_gog a) && not (has_galaxy_markers a.files) then a else apply_gog a
