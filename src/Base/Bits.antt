-- ===== src/Base/Bits.antt =====
-- The laws of `^` (exclusive or) on unsigned words, from the recursion on binary digits that the
-- native operation stands for.
use Prim.Native.Nat.{digits, bit_xor, bit_xor-bitwise, differ}
use Prim.Native.Nat.{ℕ, zero, suc, ◌+◌, ◌*◌, ◌/◌, ◌%◌, ◌^◌, ◌≤◌, ◌<◌}
use mathlib.Core.Path.{◌≡◌, refl, ap, sym, ◌∙◌}
use native.Mathlib.Nat.{pow-suc}
use native.Mathlib.Omega.{arith}

-- The recursion that `bit_xor` stands for.
abbrev xor_digits : ℕ → ℕ → ℕ → ℕ
xor_digits = digits (λ rest. rest) differ

-- Two amounts of fuel that both reach the first number give one result.
xor_digits_settled :
    (x y : ℕ) (low high : ℕ) → x ≤ low → x ≤ high → xor_digits high x y ≡ xor_digits low x y
xor_digits_settled zero y zero zero _ _ = refl
xor_digits_settled zero y zero (suc high) _ _ = refl
xor_digits_settled zero y (suc low) zero _ _ = refl
xor_digits_settled zero y (suc low) (suc high) _ _ = refl
xor_digits_settled (suc x) y zero high short _ = absurd (omega arith)
xor_digits_settled (suc x) y (suc low) zero _ short = absurd (omega arith)
xor_digits_settled (suc x) y (suc low) (suc high) l h =
    let half : suc x / 2 ≤ low = omega arith in
    let half' : suc x / 2 ≤ high = omega arith in
    ap (λ (t : ℕ). t * 2 + differ (suc x % 2) (y % 2))
      (xor_digits_settled (suc x / 2) (y / 2) low high half half')

xor_digits_lowest :
    (x y : ℕ)
    → xor_digits (suc x) (suc x) y
      ≡ xor_digits (suc x / 2) (suc x / 2) (y / 2) * 2 + differ (suc x % 2) (y % 2)
xor_digits_lowest x y =
    let half : suc x / 2 ≤ x = omega arith in
    ap (λ (t : ℕ). t * 2 + differ (suc x % 2) (y % 2))
      (xor_digits_settled (suc x / 2) (y / 2) (suc x / 2) x (omega arith) half)

pub zero-bit_xor : (b : ℕ) → bit_xor 0 b ≡ b
zero-bit_xor b = bit_xor-bitwise 0 b

differ-eq-mod : (a b : ℕ) → a < 2 → b < 2 → differ a b ≡ (a + b) % 2
differ-eq-mod zero b p q = omega arith
differ-eq-mod (suc zero) zero p q = refl
differ-eq-mod (suc zero) (suc zero) p q = refl
differ-eq-mod (suc zero) (suc (suc b)) p q = absurd (omega arith)
differ-eq-mod (suc (suc a)) b p q = absurd (omega arith)

-- The lowest digit of an exclusive or is a sum modulo 2.
pub bit_xor_step : (a b : ℕ) → bit_xor a b ≡ bit_xor (a / 2) (b / 2) * 2 + (a + b) % 2
bit_xor_step zero b = omega (arith, zero-bit_xor b, zero-bit_xor (b / 2))
bit_xor_step (suc a) b = omega (
  arith,
  bit_xor-bitwise (suc a) b,
  bit_xor-bitwise (suc a / 2) (b / 2),
  xor_digits_lowest a b,
  differ-eq-mod (suc a % 2) (b % 2) (omega arith) (omega arith),
)

bit_xor_cancel_fuel : (n a b : ℕ) → a ≤ n → b ≤ n → bit_xor (bit_xor a b) b ≡ a
bit_xor_cancel_fuel zero zero zero p q = refl
bit_xor_cancel_fuel zero (suc a) b p q = absurd (omega arith)
bit_xor_cancel_fuel zero zero (suc b) p q = absurd (omega arith)
bit_xor_cancel_fuel (suc n) a b p q =
    let half : bit_xor a b / 2 ≡ bit_xor (a / 2) (b / 2) = omega (arith, bit_xor_step a b) in
    omega (
      arith,
      bit_xor_step a b,
      bit_xor_step (bit_xor a b) b,
      ap (λ (t : ℕ). bit_xor t (b / 2)) half,
      bit_xor_cancel_fuel n (a / 2) (b / 2) (omega arith) (omega arith),
    )

-- A key applied twice gives the text back.
pub bit_xor_cancel : (a b : ℕ) → bit_xor (bit_xor a b) b ≡ a
bit_xor_cancel a b = bit_xor_cancel_fuel (a + b) a b (omega arith) (omega arith)

bit_xor_comm_fuel : (n a b : ℕ) → a ≤ n → b ≤ n → bit_xor a b ≡ bit_xor b a
bit_xor_comm_fuel zero zero zero p q = refl
bit_xor_comm_fuel zero (suc a) b p q = absurd (omega arith)
bit_xor_comm_fuel zero zero (suc b) p q = absurd (omega arith)
bit_xor_comm_fuel (suc n) a b p q = omega (
  arith,
  bit_xor_step a b,
  bit_xor_step b a,
  bit_xor_comm_fuel n (a / 2) (b / 2) (omega arith) (omega arith),
)

pub bit_xor_comm : (a b : ℕ) → bit_xor a b ≡ bit_xor b a
bit_xor_comm a b = bit_xor_comm_fuel (a + b) a b (omega arith) (omega arith)

-- The other operand is determined by the result.
pub bit_xor_injective : (a b c : ℕ) → bit_xor a b ≡ bit_xor a c → b ≡ c
bit_xor_injective a b c e =
    sym (bit_xor_cancel b a)
    ∙ ap (λ (t : ℕ). bit_xor t a) (bit_xor_comm b a ∙ e ∙ bit_xor_comm a c)
    ∙ bit_xor_cancel c a

pub bit_xor-lt : (k a b : ℕ) → a < 2 ^ k → b < 2 ^ k → bit_xor a b < 2 ^ k
bit_xor-lt zero zero zero p q = p
bit_xor-lt zero (suc a) b p q = absurd (omega arith)
bit_xor-lt zero zero (suc b) p q = absurd (omega arith)
bit_xor-lt (suc k) a b p q = omega (
  arith,
  pow-suc 2 k,
  bit_xor_step a b,
  bit_xor-lt k (a / 2) (b / 2) (omega (arith, pow-suc 2 k)) (omega (arith, pow-suc 2 k)),
)
