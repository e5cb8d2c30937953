-- ===== src/Stream/Assembly.antt =====
-- The state that `Extract` of internal/stream/stream.go keeps of each file, and `markFailure`.
use innoextract_go.Base.{
  ℕ, zero, suc, ◌≡◌, refl, ap, arith, Bool, true, false, Option, none, some, List, [], ◌∷◌, length,
  get_elem?, if◌then◌else◌, ◌==◌, Bytes,
}
use innoextract_go.Fault.{Fault}

pub record FileAssembly : Type 0 where
  pub content : Bytes
  pub total_size : ℕ
  pub assemble : Bool
  pub skip : Bool
  pub failed : Bool
  pub error : Option Fault

-- A fresh element of `make([]fileAssembly, n)`.
abbrev pub new_assembly : FileAssembly
new_assembly = record {
  content = [];
  total_size = 0;
  assemble = false;
  skip = false;
  failed = false;
  error = none;
}

-- `files[i]` is changed in place; out of range nothing happens.
unfoldable pub modify : ℕ → (FileAssembly → FileAssembly) → List FileAssembly → List FileAssembly
modify i f [] = []
modify zero f (x ∷ xs) = f x ∷ xs
modify (suc i) f (x ∷ xs) = x ∷ modify i f xs

abbrev pub fail : Fault → FileAssembly → FileAssembly
fail e f = if f.failed then f else record f { failed = true; error = some e }

-- `markFailure`: the first failure of a file stays.
unfoldable pub mark_failure : List FileAssembly → ℕ → Fault → List FileAssembly
unfolding modify
mark_failure files i e = modify i (fail e) files

pub length-modify :
    (i : ℕ) (f : FileAssembly → FileAssembly) (xs : List FileAssembly)
    → length (modify i f xs) ≡ length xs
unfolding modify
length-modify i f [] = refl
length-modify zero f (x ∷ xs) = refl
length-modify (suc i) f (x ∷ xs) = ap suc (length-modify i f xs)

-- What a slot holds after a change.
abbrev pub changed :
    Bool → (FileAssembly → FileAssembly) → Option FileAssembly → Option FileAssembly
changed b f none = none
changed b f (some x) = some (if b then f x else x)

pub get_elem?-modify :
    (i j : ℕ) (f : FileAssembly → FileAssembly) (xs : List FileAssembly)
    → get_elem? (modify i f xs) j ≡ changed (i == j) f (get_elem? xs j)
unfolding modify
get_elem?-modify i j f [] = refl
get_elem?-modify zero zero f (x ∷ xs) = refl
get_elem?-modify zero (suc j) f (x ∷ xs) = ground arith
get_elem?-modify (suc i) zero f (x ∷ xs) = ground arith
get_elem?-modify (suc i) (suc j) f (x ∷ xs) = ground (arith, get_elem?-modify i j f xs)
