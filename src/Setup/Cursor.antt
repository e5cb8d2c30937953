-- ===== src/Setup/Cursor.antt =====
-- `cursor` of internal/setup/setup.go. Its fields `strings` and `phase` enter only the texts of
-- errors and are left out. A parser that fails gives no cursor: no caller reads on with one, but
-- for `mustReadCursor`, which goes on from where it was.
pub mod Inside
pub mod Gives
pub mod Leaves
pub mod Reads
use innoextract_go.Base.{
  ℕ, zero, suc, ◌+◌, ◌-◌, ◌*◌, ◌^◌, ◌%◌, ◌/◌, Bool, true, false, not, ◌||◌, List, [], ◌∷◌, ◌++◌,
  length, take, drop, ltb, ◌==◌, if◌then◌else◌, Bytes, le_value, max_int64,
}
use innoextract_go.Fault.{Fault, Result, ok, err, corrupt, limit_exceeded}

pub record Cursor : Type 0 where
  pub b : Bytes
  pub pos : ℕ

abbrev pub start : Bytes → Cursor
start b = record { b = b; pos = 0 }

-- A method of the cursor that returns an `A` and an error.
abbrev pub Parser {ℓ} : Type ℓ → Type ℓ
Parser A = Cursor → Result (A × Cursor)

abbrev pub and_then {ℓ κ} :
    {A : Type ℓ} {B : Type κ} → Result (A × Cursor) → (A → Parser B) → Result (B × Cursor)
and_then (ok (a, c)) f = f a c
and_then (err e) f = err e

infixl 5 ◌>>=◌ ◌>>◌
unfoldable pub ◌>>=◌ {ℓ κ} : {A : Type ℓ} {B : Type κ} → Parser A → (A → Parser B) → Parser B
(m >>= f) c = and_then (m c) f

unfoldable pub ◌>>◌ {ℓ κ} : {A : Type ℓ} {B : Type κ} → Parser A → Parser B → Parser B
unfolding ◌>>=◌
m >> k = m >>= λ _. k

unfoldable pub return {ℓ} : {A : Type ℓ} → A → Parser A
return a c = ok (a, c)

unfoldable pub failure {ℓ} : {A : Type ℓ} → Fault → Parser A
failure e c = err e

unfoldable pub when : Bool → Parser (Unit {0}) → Parser (Unit {0})
unfolding return
when b m = if b then m else return tt

-- `for i := 0; i < n; i++ { if err := m; err != nil { return err } }`
unfoldable pub times : ℕ → Parser (Unit {0}) → Parser (Unit {0})
unfolding return ◌>>◌
times zero m = return tt
times (suc n) m = m >> times n m

-- The same with the values appended to a slice.
unfoldable pub collect {ℓ} : {A : Type ℓ} → ℕ → Parser A → Parser (List A)
unfolding return ◌>>=◌
collect zero m = return []
collect (suc n) m = m >>= λ a. collect n m >>= λ rest. return (a ∷ rest)

abbrev pub remaining : Cursor → ℕ
remaining c = length c.b - c.pos

unfoldable pub read : ℕ → Parser Bytes
read n c =
    if ltb (remaining c) n
    then err corrupt
    else ok (take n (drop c.pos c.b), record c { pos = c.pos + n })

-- `u8`, `u16`, `u32` and `u64` are the numbers of one, two, four and eight bytes. The signed ones
-- are read only to be dropped.
unfoldable pub uint : ℕ → Parser ℕ
unfolding ◌>>=◌ read return
uint w = read w >>= λ bs. return (le_value bs)

-- The test of `stringRaw`, and its read.
unfoldable pub read_string : ℕ → ℕ → Parser Bytes
unfolding read
read_string limit n c = if ltb (remaining c) n || ltb limit n then err limit_exceeded else read n c

-- `stringRaw`
unfoldable pub string_raw : ℕ → Parser Bytes
unfolding ◌>>=◌ uint read_string
string_raw limit = uint 4 >>= read_string limit

unfoldable pub drop_value {ℓ} : {A : Type ℓ} → Parser A → Parser (Unit {0})
unfolding ◌>>=◌ return
drop_value m = m >>= λ _. return tt

-- `skipString`
unfoldable pub skip_string : ℕ → Parser (Unit {0})
unfolding drop_value string_raw
skip_string limit = drop_value (string_raw limit)

-- `skip`
unfoldable pub skip : ℕ → Parser (Unit {0})
unfolding drop_value read
skip n = drop_value (read n)

-- `mustReadCursor`: where the bytes are missing it reads none, and says nothing.
unfoldable pub must_read : ℕ → Parser Bytes
unfolding read
must_read n c = elim (read n c) [ ok r ↦ ok r | err e ↦ ok ([], c) ]

-- `readCount`; the test of `countInt` cannot fail where an int has 64 bits.
abbrev pub read_count : Parser ℕ
read_count = uint 4

-- `bits |= uint64(x) << (8 * i)` over the bytes, and `flags & (1 << k) != 0`.
unfoldable pub read_bits : ℕ → Parser ℕ
unfolding ◌>>=◌ read return
read_bits n = read n >>= λ bs. return (le_value bs % 2 ^ 64)

unfoldable pub has_bit : ℕ → ℕ → Bool
has_bit flags k = (flags / 2 ^ k) % 2 == 1
