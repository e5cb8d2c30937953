-- ===== src/Gog/Print.antt =====
-- The calls that `parseFunctionCall` of internal/gog/gog.go reads, printed: every argument in quotes.
use innoextract_go.Base.{
  ℕ, zero, suc, ◌≤◌, ◌<◌, ◌≡◌, refl, arith, false, some, List, [], ◌∷◌, ◌++◌, length, ◌==◌,
  if◌then◌else◌, Bytes, equal_refl, Bool-cases, inl, inr,
}
use innoextract_go.Gog.Call.{
  is_space, skip_space, ends_value, ends_name, span_until, quoted, argument, after_argument,
  arguments, at_code_end, finish_call, parse_function_call, prepend,
}
use innoextract_go.PathUtil.Split.{All}

-- A value up to its closing quote, with the code that follows. A quote in it is doubled.
unfoldable pub print_value : Bytes → Bytes → Bytes
print_value [] rest = 39 ∷ rest
print_value (c ∷ value) rest =
    let printed = print_value value rest in if c == 39 then 39 ∷ 39 ∷ printed else c ∷ printed

-- The arguments behind the first, and the closing parenthesis.
unfoldable pub print_more : List Bytes → Bytes
unfolding print_value
print_more [] = b')' ∷ []
print_more (value ∷ args) = b',' ∷ 39 ∷ print_value value (print_more args)

unfoldable pub print_arguments : List Bytes → Bytes
unfolding print_value print_more
print_arguments [] = b')' ∷ []
print_arguments (value ∷ args) = 39 ∷ print_value value (print_more args)

unfoldable pub print_call : Bytes → List Bytes → Bytes
unfolding print_arguments
print_call name args = name ++ b'(' ∷ print_arguments args

-- A name that `parseFunctionCall` can find: no byte of it ends a name.
abbrev pub IsName : Bytes → Type 0
IsName = All (λ c. ends_name c ≡ false)

quoted_plain : (c : ℕ) (s : Bytes) → (c == 39) ≡ false → quoted (c ∷ s) ≡ prepend c (quoted s)
unfolding quoted
quoted_plain c [] h = rw h
quoted_plain c (d ∷ s) h = rw h

-- The code behind a printed value does not go on with a quote.
record Follows (rest : Bytes) : Type 0 where
  head : ℕ
  tail : Bytes
  same : rest ≡ head ∷ tail
  plain : (head == 39) ≡ false

quoted-print_value :
    (value rest : Bytes) → Follows rest → quoted (print_value value rest) ≡ some (value, rest)
unfolding print_value quoted
quoted-print_value [] rest f = rw (f.same, f.plain)
quoted-print_value (c ∷ value) rest f = elim (Bool-cases (c == 39)) [
  | inl quote ↦
      let same : c ≡ 39 = ground arith in rw (quote, quoted-print_value value rest f, same)
  | inr plain ↦
      rw (plain, quoted_plain c (print_value value rest) plain, quoted-print_value value rest f)
]

print_more-Follows : (args : List Bytes) → Follows (print_more args)
unfolding print_more
print_more-Follows [] = record { head = b')'; tail = []; same = refl; plain = refl }
print_more-Follows (value ∷ args) = record { head = b','; tail = _; same = refl; plain = refl }

length-print_value : (value rest : Bytes) → length rest < length (print_value value rest)
unfolding print_value
length-print_value [] rest = omega arith
length-print_value (c ∷ value) rest = ground (arith, length-print_value value rest)

length-print_more : (args : List Bytes) → length args < length (print_more args)
unfolding print_more
length-print_more [] = omega arith
length-print_more (value ∷ args) =
    omega (arith, length-print_more args, length-print_value value (print_more args))

arguments-print_more :
    (args : List Bytes) (value : Bytes) (fuel : ℕ)
    → length args < fuel
    → arguments fuel (39 ∷ print_value value (print_more args)) ≡ some (value ∷ args, [])
unfolding arguments argument skip_space is_space after_argument print_more
arguments-print_more args value zero h = absurd (omega arith)
arguments-print_more [] value (suc fuel) h =
    rw (quoted-print_value value (print_more []) (print_more-Follows []))
arguments-print_more (next ∷ args) value (suc fuel) h = rw (
  quoted-print_value value (print_more (next ∷ args)) (print_more-Follows (next ∷ args)),
  arguments-print_more args next fuel (omega arith),
)

arguments-print_arguments :
    (args : List Bytes) (fuel : ℕ)
    → length args < fuel
    → arguments fuel (print_arguments args) ≡ some (args, [])
unfolding print_arguments arguments
arguments-print_arguments args zero h = absurd (omega arith)
arguments-print_arguments [] (suc fuel) h = refl
arguments-print_arguments (value ∷ args) (suc fuel) h =
    arguments-print_more args value (suc fuel) (omega arith)

length-print_arguments : (args : List Bytes) → length args ≤ length (print_arguments args)
unfolding print_arguments
length-print_arguments [] = omega arith
length-print_arguments (value ∷ args) =
    omega (arith, length-print_more args, length-print_value value (print_more args))

-- A byte that does not end a name is no space.
not_space : (c : ℕ) → ends_name c ≡ false → is_space c ≡ false
unfolding ends_name ends_value is_space
not_space c h = ground arith

skip_space-name :
    (name rest : Bytes) → IsName name → skip_space (name ++ b'(' ∷ rest) ≡ name ++ b'(' ∷ rest
unfolding skip_space is_space
skip_space-name [] rest h = refl
skip_space-name (c ∷ name) rest h = let plain = not_space c h.0 in rw plain

span_until-name :
    (name rest : Bytes)
    → IsName name
    → span_until ends_name (name ++ b'(' ∷ rest) ≡ (name, b'(' ∷ rest)
unfolding span_until ends_name ends_value
span_until-name [] rest h = refl
span_until-name (c ∷ name) rest h = rw (span_until-name name rest h.1, h.0)

-- A call with its arguments in quotes, printed, is read as these arguments: for any bytes in them,
-- quotes included, for any number of them, and for a name without the bytes that end one.
pub parse_function_call-print_call :
    (name : Bytes) (args : List Bytes)
    → IsName name
    → parse_function_call (print_call name args) name ≡ args
unfolding parse_function_call print_call finish_call at_code_end skip_space is_space
parse_function_call-print_call name args h =
    let bound = length-print_arguments args in
    rw (
      skip_space-name name (print_arguments args) h,
      span_until-name name (print_arguments args) h,
      equal_refl name,
      arguments-print_arguments args (suc (length (print_arguments args))) (omega arith),
    )
