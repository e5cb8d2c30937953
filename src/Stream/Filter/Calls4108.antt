-- ===== src/Stream/Filter/Calls4108.antt =====
-- `decodeInstruction4108` against a description that reads an operand as one number.
use innoextract_go.Base.{
  ℕ, zero, suc, ◌+◌, ◌-◌, ◌*◌, ◌/◌, ◌%◌, ◌^◌, ◌≤◌, ◌<◌, ◌≡◌, refl, ap, ◌∙◌, true, false, [], ◌∷◌,
  ◌++◌, length, take, arith, u32, max_uint32, ◌⊎◌, append-nil, Bytes, IsBytes, le_value, le_bytes,
  Bool-cases, inl, inr,
}
use native.Mathlib.Nat.{one-le-pow, pow-suc}
use innoextract_go.Stream.Filter.{is_call, loop4108, decode_instruction4108}

-- An operand, of four bytes or of what is left of the data, less the address `next` of the
-- instruction behind it.
pub relative : ℕ → Bytes → Bytes
relative next operand =
    take (length operand) (le_bytes 4 (u32 (le_value operand + (2 ^ 32 - u32 next))))

-- `position` is that of the first byte.
pub reference4108 : ℕ → Bytes → Bytes
reference4108 position [] = []
reference4108 position (b ∷ w ∷ x ∷ y ∷ z ∷ src) = elim (is_call b) [
  | true ↦ b ∷ (relative (position + 5) (w ∷ x ∷ y ∷ z ∷ []) ++ reference4108 (position + 5) src)
  | false ↦ b ∷ reference4108 (position + 1) (w ∷ x ∷ y ∷ z ∷ src)
]
reference4108 position (b ∷ src) = elim (is_call b) [
  | true ↦ b ∷ relative (position + 5) src
  | false ↦ b ∷ reference4108 (position + 1) src
]

-- Outside an operand the address does not matter.
loop4108_addr :
    (addr addr' offset : ℕ) (src : Bytes) → loop4108 addr 0 offset src ≡ loop4108 addr' 0 offset src
unfolding loop4108
loop4108_addr addr addr' offset [] = refl
loop4108_addr addr addr' offset (b ∷ src) = elim (Bool-cases (is_call b)) [
  | inl call ↦ rw call
  | inr plain ↦ rw plain (ap (◌∷◌ b) (loop4108_addr addr addr' (u32 (offset + 1)) src))
]

-- The lowest digit of a sum, and what the carry makes of the others, at each width that is left.
digits32 :
    (t b v : ℕ)
    → (b < 256) × (v < 2 ^ 24) × (t < 2 ^ 32)
    → ((b + 256 * v + t) % 2 ^ 32 % 256 ≡ (t + b) % 2 ^ 32 % 256)
      × ((b + 256 * v + t) % 2 ^ 32 / 256 ≡ (v + (t + b) % 2 ^ 32 / 256) % 2 ^ 24)
digits32 t b v h = omega arith

digits24 :
    (t b v : ℕ)
    → (b < 256) × (v < 2 ^ 16) × (t < 2 ^ 24)
    → ((b + 256 * v + t) % 2 ^ 24 % 256 ≡ (t + b) % 2 ^ 32 % 256)
      × ((b + 256 * v + t) % 2 ^ 24 / 256 ≡ (v + (t + b) % 2 ^ 32 / 256) % 2 ^ 16)
digits24 t b v h = omega arith

digits16 :
    (t b v : ℕ)
    → (b < 256) × (v < 2 ^ 8) × (t < 2 ^ 24)
    → ((b + 256 * v + t) % 2 ^ 16 % 256 ≡ (t + b) % 2 ^ 32 % 256)
      × ((b + 256 * v + t) % 2 ^ 16 / 256 ≡ (v + (t + b) % 2 ^ 32 / 256) % 2 ^ 8)
digits16 t b v h = omega arith

digits8 :
    (t b : ℕ)
    → (b < 256) × (t < 2 ^ 24)
    → ((b + 256 * 0 + t) % 2 ^ 8 % 256 ≡ (t + b) % 2 ^ 32 % 256)
      × ((b + 256 * 0 + t) % 2 ^ 8 / 256 ≡ (0 + (t + b) % 2 ^ 32 / 256) % 1)
digits8 t b h = omega arith

-- The rest of an operand is decoded to the digits of `n`, and the loop leaves it at the end.
abbrev Decodes : ℕ → ℕ → ℕ → ℕ → Bytes → Bytes → Type 0
Decodes n t w offset op src =
    loop4108 t w offset (op ++ src)
    ≡ take (length op) (le_bytes w n) ++ loop4108 0 0 (u32 (offset + length op)) src

module _ (w n m t b offset : ℕ) (op src : Bytes) where
  Decodes-cons :
      (n % 256 ≡ (t + b) % 2 ^ 32 % 256) × (n / 256 ≡ m)
      → Decodes m (u32 (t + b) / 2 ^ 8) w (u32 (offset + 1)) op src
      → Decodes n t (suc w) offset (b ∷ op) src
  unfolding loop4108 le_bytes
  Decodes-cons (low, high) ih =
      let o : u32 (u32 (offset + 1) + length op) ≡ u32 (offset + suc (length op)) = omega arith in
      rw (← o, low, high) (ap (◌∷◌ ((t + b) % 2 ^ 32 % 256)) ih)

-- The operand is whole, or the data ends in it.
abbrev Ends : ℕ → Bytes → Bytes → Type 0
Ends w op src = (length op ≡ w) ⊎ ((src ≡ []) × (length op ≤ w))

Decodes-nil :
    (n t w offset : ℕ) (src : Bytes) → offset < 2 ^ 32 → Ends w [] src → Decodes n t w offset [] src
unfolding loop4108
Decodes-nil n t zero offset src h e =
    let o : u32 (offset + 0) ≡ offset = omega arith in rw o (loop4108_addr t 0 offset src)
Decodes-nil n t (suc w) offset src h (inl e) = absurd (omega arith)
Decodes-nil n t (suc w) offset src h (inr (e, l)) = rw e

Ends-tail : (w b : ℕ) (op src : Bytes) → Ends (suc w) (b ∷ op) src → Ends w op src
Ends-tail w b op src (inl e) = inl (omega arith)
Ends-tail w b op src (inr (e, l)) = inr (e, omega arith)

-- What bounds the address while `w` bytes of the operand are left.
abbrev addr_bound : ℕ → ℕ
addr_bound (suc (suc (suc (suc w)))) = 2 ^ 32
addr_bound _ = 2 ^ 24

digits :
    (w t b v : ℕ)
    → w < 4
    → (b < 256) × (v < 256 ^ w) × (t < addr_bound (suc w))
    → ((b + 256 * v + t) % 256 ^ suc w % 256 ≡ (t + b) % 2 ^ 32 % 256)
      × ((b + 256 * v + t) % 256 ^ suc w / 256 ≡ (v + (t + b) % 2 ^ 32 / 256) % 256 ^ w)
digits zero t b v l h = let e : v ≡ 0 = omega arith in rw e (digits8 t b (h.0, h.2))
digits (suc zero) t b v l h = digits16 t b v h
digits (suc (suc zero)) t b v l h = digits24 t b v h
digits (suc (suc (suc zero))) t b v l h = digits32 t b v h
digits (suc (suc (suc (suc w)))) t b v l h = absurd (omega arith)

bound-carry : (w n : ℕ) → w < 4 → u32 n / 2 ^ 8 < addr_bound w
bound-carry zero n l = omega arith
bound-carry (suc zero) n l = omega arith
bound-carry (suc (suc zero)) n l = omega arith
bound-carry (suc (suc (suc zero))) n l = omega arith
bound-carry (suc (suc (suc (suc w)))) n l = absurd (omega arith)

le_value_bound : (w : ℕ) (bs : Bytes) → length bs ≤ w → IsBytes bs → le_value bs < 256 ^ w
unfolding le_value
le_value_bound w [] h b = one-le-pow w 256 (omega arith)
le_value_bound zero (x ∷ bs) h b = absurd (omega arith)
le_value_bound (suc w) (x ∷ bs) h b =
    omega (arith, pow-suc 256 w, le_value_bound w bs (omega arith) b.1)

Ends-le : (w : ℕ) (op src : Bytes) → Ends w op src → length op ≤ w
Ends-le w op src (inl e) = omega arith
Ends-le w op src (inr e) = e.1

loop4108_operand :
    (w t offset : ℕ) (op src : Bytes)
    → w < 5
    → (t < addr_bound w) × (offset < 2 ^ 32)
    → IsBytes op
    → Ends w op src
    → Decodes ((le_value op + t) % 256 ^ w) t w offset op src
unfolding le_value
loop4108_operand w t offset [] src l h bytes e =
    Decodes-nil ((0 + t) % 256 ^ w) t w offset src h.1 e
loop4108_operand zero t offset (b ∷ op) src l h bytes e =
    absurd (omega (arith, Ends-le 0 (b ∷ op) src e))
loop4108_operand (suc w) t offset (b ∷ op) src l h bytes e =
    let e' = Ends-tail w b op src e in
    let v = le_value_bound w op (Ends-le w op src e') bytes.1 in
    let m = u32 (t + b) / 2 ^ 8 in
    Decodes-cons w _ _ t b offset op src
      (digits w t b (le_value op) (omega arith) (bytes.0, v, h.0))
      (loop4108_operand w m (u32 (offset + 1)) op src (omega arith)
        (bound-carry w (t + b) (omega arith), omega arith) bytes.1 e')

-- From a call on, the loop decodes the operand to `relative` and goes on behind it.
loop4108_call :
    (addr position b : ℕ) (op src : Bytes)
    → is_call b ≡ true
    → IsBytes op
    → Ends 4 op src
    → loop4108 addr 0 (u32 (position + 5)) (b ∷ (op ++ src))
      ≡ b ∷ (relative (position + 5) op ++ loop4108 0 0 (u32 (position + 6 + length op)) src)
unfolding loop4108 relative
loop4108_call addr position b op src call bytes e =
    let next = u32 (position + 5) in
    let t = u32 (max_uint32 - next + 1) in
    let o : u32 (u32 (next + 1) + length op) ≡ u32 (position + 6 + length op) = omega arith in
    let n : (le_value op + t) % 2 ^ 32 ≡ u32 (le_value op + (2 ^ 32 - next)) = omega arith in
    rw (call, ← o, ← n)
      (ap (◌∷◌ b) (
        loop4108_operand 4 t (u32 (next + 1)) op src (omega arith) (omega arith, omega arith) bytes
          e))

loop4108_plain :
    (position b : ℕ) (src : Bytes)
    → is_call b ≡ false
    → loop4108 0 0 (u32 (position + 5)) (b ∷ src) ≡ b ∷ loop4108 0 0 (u32 (position + 1 + 5)) src
unfolding loop4108
loop4108_plain position b src plain =
    let o : u32 (u32 (position + 5) + 1) ≡ u32 (position + 1 + 5) = omega arith in rw (plain, o)

-- One step of the description, for any operand that the data hold.
reference4108_step :
    (position b : ℕ) (op src : Bytes)
    → IsBytes op
    → Ends 4 op src
    → is_call b ≡ true
    → loop4108 0 0 (u32 (position + 5 + 5)) src ≡ reference4108 (position + 5) src
    → loop4108 0 0 (u32 (position + 5)) (b ∷ (op ++ src))
      ≡ b ∷ (relative (position + 5) op ++ reference4108 (position + 5) src)
reference4108_step position b op src bytes (inl e) call ih =
    let o : u32 (position + 6 + length op) ≡ u32 (position + 5 + 5) = omega arith in
    loop4108_call 0 position b op src call bytes (inl e)
    ∙ rw o (ap (λ r. b ∷ (relative (position + 5) op ++ r)) ih)
reference4108_step position b op src bytes (inr (e, l)) call ih =
    loop4108_call 0 position b op src call bytes (inr (e, l))
    ∙ rw e (unfold loop4108 reference4108 in refl)

loop4108_last :
    (position b : ℕ) (op : Bytes)
    → IsBytes op
    → length op ≤ 4
    → is_call b ≡ true
    → loop4108 0 0 (u32 (position + 5)) (b ∷ op) ≡ b ∷ relative (position + 5) op
unfolding reference4108 loop4108
loop4108_last position b op bytes l call =
    rw (append-nil, append-nil) at
      (reference4108_step position b op [] bytes (inr (refl, l)) call refl)

loop4108-eq-reference4108 :
    (position : ℕ) (src : Bytes)
    → IsBytes src
    → loop4108 0 0 (u32 (position + 5)) src ≡ reference4108 position src
unfolding reference4108
loop4108-eq-reference4108 position [] h = unfold loop4108 in refl
loop4108-eq-reference4108 position (b ∷ w ∷ x ∷ y ∷ z ∷ src) h = elim (Bool-cases (is_call b)) [
  | inl call ↦
      rw (call, reference4108)
        (reference4108_step position b (w ∷ x ∷ y ∷ z ∷ []) src (omega arith) (inl refl) call
          (loop4108-eq-reference4108 (position + 5) src h.1.1.1.1.1))
  | inr plain ↦
      rw (plain, reference4108)
        (loop4108_plain position b (w ∷ x ∷ y ∷ z ∷ src) plain
          ∙ ap (◌∷◌ b) (loop4108-eq-reference4108 (position + 1) (w ∷ x ∷ y ∷ z ∷ src) h.1))
]
loop4108-eq-reference4108 position (b ∷ src) h = elim (Bool-cases (is_call b)) [
  | inl call ↦ rw (call, reference4108) (loop4108_last position b src h.1 (omega arith) call)
  | inr plain ↦
      rw (plain, reference4108)
        (loop4108_plain position b src plain
          ∙ ap (◌∷◌ b) (loop4108-eq-reference4108 (position + 1) src h.1))
]

-- On bytes, the loop of `decodeInstruction4108` gives what the description gives: each byte 0xe8 or
-- 0xe9 outside an operand makes the four bytes behind it, or those that are left, an operand, and
-- from its little-endian value the address of the byte behind a whole operand is subtracted
-- modulo 2 ^ 32. All other bytes stay.
pub decode_instruction4108-eq-reference4108 :
    (src : Bytes) → IsBytes src → decode_instruction4108 src ≡ reference4108 0 src
unfolding decode_instruction4108
decode_instruction4108-eq-reference4108 src h = loop4108-eq-reference4108 0 src h

length-loop4108 :
    (src : Bytes) (addr left offset : ℕ) → length (loop4108 addr left offset src) ≡ length src
unfolding loop4108
length-loop4108 [] addr left offset = refl
length-loop4108 (b ∷ src) addr zero offset = ap suc (length-loop4108 src _ _ (u32 (offset + 1)))
length-loop4108 (b ∷ src) addr (suc left) offset =
    ap suc (length-loop4108 src _ left (u32 (offset + 1)))

pub length-decode_instruction4108 : (src : Bytes) → length (decode_instruction4108 src) ≡ length src
unfolding decode_instruction4108
length-decode_instruction4108 src = length-loop4108 src 0 0 5
