-- ===== src/Gog/Constraint.antt =====
-- The constraints on languages and architectures in internal/gog/gog.go.
use innoextract_go.Base.{
  Bool, true, false, not, ◌||◌, ◌&&◌, List, [], ◌∷◌, ◌++◌, length, ltb, leb, ◌==◌, if◌then◌else◌,
  Bytes, equal,
}
use innoextract_go.Gog.Call.{first_function_call, starts_with, tail_of}
use innoextract_go.Strings.{trim_space, split_at}

-- `constraint`
pub record Constraint : Type 0 where
  pub name : Bytes
  pub negated : Bool

abbrev add_constraint : Bytes → Bool → List Constraint → List Constraint
add_constraint [] negated rest = rest
add_constraint (c ∷ name) negated rest = record { name = c ∷ name; negated = negated } ∷ rest

-- The body of the loop over the tokens.
unfoldable pub constraint_of : Bytes → List Constraint → List Constraint
unfolding trim_space
constraint_of token rest =
    let name = trim_space token in
    if starts_with b'!' name
    then add_constraint (trim_space (tail_of name)) true rest
    else add_constraint name false rest

unfoldable pub constraints_of : List Bytes → List Constraint
unfolding constraint_of
constraints_of [] = []
constraints_of (token ∷ tokens) = constraint_of token (constraints_of tokens)

-- `parseConstraints`
unfoldable pub parse_constraints : Bytes → List Constraint
unfolding constraints_of split_at
parse_constraints input = constraints_of (split_at b'#' input)

-- " not " and " or "
abbrev item_text : Constraint → Bytes
item_text c = if c.negated then b' ' ∷ b'n' ∷ b'o' ∷ b't' ∷ b' ' ∷ c.name else c.name

unfoldable pub or_items : List Constraint → Bytes
or_items [] = []
or_items (c ∷ cs) = b' ' ∷ b'o' ∷ b'r' ∷ b' ' ∷ (item_text c ++ or_items cs)

-- `constraintExpression`
unfoldable pub constraint_expression : List Constraint → Bytes
unfolding or_items
constraint_expression [] = []
constraint_expression (c ∷ cs) = item_text c ++ or_items cs

-- The set of all languages, as the list of its names.
unfoldable pub member : Bytes → List Bytes → Bool
member name [] = false
member name (x ∷ names) = equal x name || member name names

unfoldable pub insert_name : Bytes → List Bytes → List Bytes
unfolding member
insert_name name names = if member name names then names else name ∷ names

unfoldable pub names_of_positive : List Constraint → List Bytes
names_of_positive [] = []
names_of_positive (c ∷ cs) =
    let rest = names_of_positive cs in if c.negated then rest else c.name ∷ rest

unfoldable pub all_members : List Bytes → List Bytes → Bool
unfolding member
all_members [] seen = true
all_members (name ∷ names) seen = member name seen && all_members names seen

-- `isAllLanguages`
unfoldable pub is_all_languages : List Constraint → List Bytes → Bool
unfolding names_of_positive all_members
is_all_languages constraints all =
    if leb (length all) 1 || ltb (length constraints) (length all)
    then false
    else all_members all (names_of_positive constraints)

-- What the loop of `architectureBits` has seen.
abbrev Seen : Type 0
Seen = Bool × Bool

-- "32" and "64"
abbrev text32 : Bytes
text32 = b'3' ∷ b'2' ∷ []

abbrev text64 : Bytes
text64 = b'6' ∷ b'4' ∷ []

unfoldable pub see : Bool → Constraint → Seen → Seen
see only c (positive32, positive64) =
    if equal c.name text32
    then (if not c.negated then (true, positive64) else (positive32, positive64 || only))
    else if equal c.name text64
    then (if not c.negated then (positive32, true) else (positive32 || only, positive64))
    else (positive32, positive64)

unfoldable pub see_all : Bool → List Constraint → Seen → Seen
unfolding see
see_all only [] seen = seen
see_all only (c ∷ cs) seen = see_all only cs (see only c seen)

-- `architectureBits`
unfoldable pub architecture_bits : Bytes → Bool × Bool
unfolding parse_constraints see_all
architecture_bits input =
    let constraints = parse_constraints input in
    let seen = see_all (leb (length constraints) 1) constraints (false, false) in
    if equal input (b'3' ∷ b'2' ∷ b'#' ∷ b'6' ∷ b'4' ∷ b'#' ∷ [])
    then (false, false)
    else if length constraints == 0
    then (false, false)
    else if seen.0 && seen.1
    then (false, false)
    else seen

unfoldable pub insert_names : List Constraint → List Bytes → List Bytes
unfolding insert_name
insert_names [] all = all
insert_names (c ∷ cs) all = insert_names cs (insert_name c.name all)

-- "check_if_install"
abbrev pub check_if_install : Bytes
check_if_install =
    b'c' ∷ b'h' ∷ b'e' ∷ b'c' ∷ b'k' ∷ b'_' ∷ b'i' ∷ b'f' ∷ b'_' ∷ b'i' ∷ b'n' ∷ b's' ∷ b't' ∷ b'a'
    ∷ b'l' ∷ b'l' ∷ []

-- `collectLanguages`
unfoldable pub collect_languages : Bytes → List Bytes → List Bytes
unfolding insert_names parse_constraints first_function_call
collect_languages code all = elim (first_function_call code (check_if_install ∷ [])) [
  | [] ↦ all
  | languages ∷ args ↦
      if length languages == 0 then all else insert_names (parse_constraints languages) all
]
