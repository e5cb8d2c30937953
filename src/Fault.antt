-- ===== src/Fault.antt =====
-- internal/fault/errors.go, and the error results of the Go code. An error is the sentinel that
-- `errors.Is` finds in it: the text that `fmt.Errorf` adds to `%w` is not modelled, and an error
-- printed by `%v` is not wrapped.
pub mod Ensures
use innoextract_go.Base.{Bool, true, false, ◌≡◌, refl, ◌⊎◌, inl, inr}

pub data Fault : Type 0 where
  invalid_format unsupported_version password_required incorrect_password : Fault
  unsupported_encryption unsupported_compression missing_slice checksum_mismatch : Fault
  corrupt limit_exceeded : Fault
  -- internal/crypto/crypto.go
  unsupported_checksum invalid_key invalid_salt : Fault
  -- package io
  eof unexpected_eof no_progress : Fault
  -- Any other error, of a reader or provider that the caller supplies, or without a sentinel.
  other : Fault

-- The two results of a Go function that ends in `error`: the value counts only beside a nil error.
pub data Result {ℓ} (Value : Type ℓ) : Type ℓ where
  ok : Value → Result Value
  err : Fault → Result Value

module _ {ℓ κ} {Value : Type ℓ} {Next : Type κ} where
  infixl 5 ◌>>=◌
  abbrev pub ◌>>=◌ : Result Value → (Value → Result Next) → Result Next
  ok value >>= next = next value
  err fault >>= next = err fault

  -- A chain that succeeds has succeeded in its first part, and in the rest from there.
  pub >>=-eq-ok :
      (first : Result Value) (next : Value → Result Next) {out : Next}
      → (first >>= next) ≡ ok out
      → (value : Value) × (first ≡ ok value) × (next value ≡ ok out)
  >>=-eq-ok (ok value) next succeeds = (value, refl, succeeds)
  >>=-eq-ok (err fault) next succeeds = cc

infixl 5 ◌>>◌
abbrev pub ◌>>◌ {ℓ} : {Next : Type ℓ} → Result (Unit {0}) → Result Next → Result Next
check >> next = check >>= λ _. next

-- `if cond { return ..., err }`
abbrev pub fail_if : Bool → Fault → Result (Unit {0})
fail_if true e = err e
fail_if false e = ok tt

-- `fmt.Errorf("%w: %v", e, err)` on the error path.
abbrev pub wrap {ℓ} : {A : Type ℓ} → Fault → Result A → Result A
wrap e (ok a) = ok a
wrap e (err _) = err e

-- `errors.Is(err, sentinel)` for the sentinels that the code asks for.
unfoldable pub is_eof : Fault → Bool
is_eof eof = true
is_eof _ = false

unfoldable pub is_limit_exceeded : Fault → Bool
is_limit_exceeded limit_exceeded = true
is_limit_exceeded _ = false

pub Result-cases {ℓ} :
    {A : Type ℓ} (r : Result A) → ((a : A) × (r ≡ ok a)) ⊎ ((e : Fault) × (r ≡ err e))
Result-cases (ok a) = inl (a, refl)
Result-cases (err e) = inr (e, refl)

pub ok_injective {ℓ} : {A : Type ℓ} {a b : A} → ok a ≡ ok b → a ≡ b
ok_injective e = cc
