-- ===== src/Gog/Call.antt =====
-- `skipSpace`, `parseFunctionCall` and `firstFunctionCall` of internal/gog/gog.go. An index into the
-- code is the code that is left from it. A nil result and one without arguments are both empty.
use innoextract_go.Base.{
  ℕ, zero, suc, Bool, false, not, ◌||◌, Option, none, some, List, [], ◌∷◌, length, ◌==◌,
  if◌then◌else◌, Bytes, equal,
}

unfoldable pub is_space : ℕ → Bool
is_space c = c == b' ' || c == 9 || c == 13 || c == 10

-- `skipSpace`
unfoldable pub skip_space : Bytes → Bytes
unfolding is_space
skip_space [] = []
skip_space (c ∷ s) = let rest = skip_space s in if is_space c then rest else c ∷ s

-- The bytes that end an argument without quotes, and those that end a name.
unfoldable pub ends_value : ℕ → Bool
unfolding is_space
ends_value c = is_space c || c == b'(' || c == b')' || c == b','

unfoldable pub ends_name : ℕ → Bool
unfolding ends_value
ends_name c = ends_value c || c == 39

-- The bytes before the first that ends the word, and the rest.
unfoldable pub span_until : (ℕ → Bool) → Bytes → Bytes × Bytes
span_until ends [] = ([], [])
span_until ends (c ∷ s) =
    let (word, rest) = span_until ends s in if ends c then ([], c ∷ s) else (c ∷ word, rest)

abbrev pub prepend : ℕ → Option (Bytes × Bytes) → Option (Bytes × Bytes)
prepend c none = none
prepend c (some (value, rest)) = some (c ∷ value, rest)

-- A quoted argument behind its first quote, with the code behind its last one. Two quotes in it
-- stand for one.
unfoldable pub quoted : Bytes → Option (Bytes × Bytes)
quoted [] = none
quoted (c ∷ []) = if c == 39 then some ([], []) else none
quoted (c ∷ d ∷ s) =
    let doubled = prepend 39 (quoted s) in
    let plain = prepend c (quoted (d ∷ s)) in
    if c == 39 then (if d == 39 then doubled else some ([], d ∷ s)) else plain

-- An argument at the front of the code, which is not empty and does not begin with a parenthesis.
unfoldable pub argument : Bytes → Option (Bytes × Bytes)
unfolding quoted span_until ends_value
argument [] = none
argument (c ∷ s) = if c == 39 then quoted s else some (span_until ends_value (c ∷ s))

-- How the loop goes on behind an argument: at a comma, at the closing parenthesis, or not at all.
pub data Next : Type 0 where
  another : Bytes → Next
  closed : Bytes → Next
  refused : Next

unfoldable pub after_argument : Bytes → Next
after_argument [] = refused
after_argument (c ∷ s) = if c == b',' then another s else if c == b')' then closed s else refused

abbrev with_argument : Bytes → Option (List Bytes × Bytes) → Option (List Bytes × Bytes)
with_argument value none = none
with_argument value (some (args, rest)) = some (value ∷ args, rest)

abbrev pub starts_with : ℕ → Bytes → Bool
starts_with c [] = false
starts_with c (d ∷ s) = d == c

abbrev pub tail_of : Bytes → Bytes
tail_of [] = []
tail_of (c ∷ s) = s

-- The loop over the arguments, from behind the opening parenthesis. A round takes a byte at least.
unfoldable pub arguments : ℕ → Bytes → Option (List Bytes × Bytes)
unfolding skip_space argument after_argument
arguments zero s = none
arguments (suc fuel) s =
    let here = skip_space s in
    if starts_with b')' here then some ([], tail_of here) else elim (argument here) [
      | none ↦ none
      | some (value, rest) ↦ elim (after_argument (skip_space rest)) [
        | refused ↦ none
        | closed left ↦ some (value ∷ [], left)
        | another left ↦ with_argument value (arguments fuel left)
      ]
    ]

-- The end of the code behind the call: spaces, and at most one semicolon.
unfoldable pub at_code_end : Bytes → Bool
unfolding skip_space
at_code_end s =
    let here = skip_space s in
    let left = if starts_with b';' here then skip_space (tail_of here) else here in length left == 0

unfoldable pub finish_call : Option (List Bytes × Bytes) → List Bytes
unfolding at_code_end
finish_call none = []
finish_call (some (args, rest)) = if at_code_end rest then args else []

-- `parseFunctionCall`
unfoldable pub parse_function_call : Bytes → Bytes → List Bytes
unfolding skip_space span_until ends_name arguments finish_call
parse_function_call code name =
    let (word, rest) = span_until ends_name (skip_space code) in
    let here = skip_space rest in
    if not (equal word name) || not (starts_with b'(' here)
    then []
    else finish_call (arguments (length here) (tail_of here))

-- `firstFunctionCall`
unfoldable pub first_function_call : Bytes → List Bytes → List Bytes
unfolding parse_function_call
first_function_call code [] = []
first_function_call code (name ∷ names) = elim (parse_function_call code name) [
  | [] ↦ first_function_call code names
  | value ∷ args ↦ value ∷ args
]
