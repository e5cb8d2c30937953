-- ===== src/Setup/Cursor/Inside.antt =====
-- The parsers over a `cursor` of internal/setup/setup.go never leave the block that they read: one
-- rule for each way to build a parser.
use innoextract_go.Base.{
  ℕ, zero, suc, ◌≤◌, ◌≡◌, refl, ◌∙◌, arith, Bool, [], ◌∷◌, length, if◌then◌else◌, Bytes, inl, inr,
  if-elim, ◌⊎◌,
}
use innoextract_go.Fault.{Fault, Result, ok, err, Result-cases}
use innoextract_go.Setup.Cursor.{
  Cursor, Parser, and_then, ◌>>=◌, ◌>>◌, return, failure, when, times, collect, read, uint,
  read_string, string_raw, skip_string, skip, must_read, read_bits, drop_value,
}

-- A cursor behind `c` in a block of the same length. Its bytes may have been changed.
abbrev pub Behind : Cursor → Cursor → Type 0
Behind c c' = (length c'.b ≡ length c.b) × (c.pos ≤ c'.pos) × (c'.pos ≤ length c.b)

-- From a position inside the block, a parser that succeeds ends at no lower position of the block, at
-- most behind its last byte.
pub record Inside {ℓ} {A : Type ℓ} (m : Parser A) : Type ℓ where
  pub behind :
      (c : Cursor) (a : A) (c' : Cursor) → c.pos ≤ length c.b → m c ≡ ok (a, c') → Behind c c'

Behind-trans : (c c' c'' : Cursor) → Behind c c' → Behind c' c'' → Behind c c''
Behind-trans c c' c'' (b, p, q) (b', p', q') = (b' ∙ b, omega arith, rw (b) at q')

module _ {ℓ} {A : Type ℓ} where
  Behind-return :
      (a x : A) (c c' : Cursor)
      → c.pos ≤ length c.b
      → ◌≡◌ {A = Result (A × Cursor)} (ok (a, c)) (ok (x, c'))
      → Behind c c'
  Behind-return a x c c' within e = let at : c ≡ c' = cc in rw (← at) (refl, omega arith, within)

  pub Inside-return : (a : A) → Inside (return a)
  unfolding return
  Inside-return a = record { behind = λ c x c' within e. Behind-return a x c c' within e }

  pub Inside-failure : (f : Fault) → Inside (failure {A = A} f)
  unfolding failure
  Inside-failure f = record { behind = λ c x c' within e. absurd (cc) }

  pub Inside-if : (b : Bool) (m n : Parser A) → Inside m → Inside n → Inside (if b then m else n)
  Inside-if b m n p q = if-elim Inside b m n (λ _. p) (λ _. q)

err-not-ok {ℓ} : {A : Type ℓ} {f : Fault} {b : A} → err f ≡ ok b → ⊥
err-not-ok e = cc

module _ {ℓ κ} {A : Type ℓ} {B : Type κ} where
  pub and_then-eq-ok :
      (r : Result (A × Cursor)) (f : A → Parser B) {out : B × Cursor}
      → and_then r f ≡ ok out
      → (a : A) × (c : Cursor) × ((r ≡ ok (a, c)) × (f a c ≡ ok out))
  and_then-eq-ok (ok (a, c)) f e = (a, c, (refl, e))
  and_then-eq-ok (err x) f e = absurd (err-not-ok e)

  pub Inside->>= :
      (m : Parser A) (f : A → Parser B) → Inside m → ((a : A) → Inside (f a)) → Inside (m >>= f)
  unfolding ◌>>=◌
  Inside->>= m f p q = record {
    behind = λ c x c'' within e.
        let (a, c', (h, t)) = and_then-eq-ok (m c) f e in
        let first = p.behind c a c' within h in
        let inside : c'.pos ≤ length c'.b = rw (first.0) first.2 in
        Behind-trans c c' c'' first ((q a).behind c' x c'' inside t);
  }

  pub Inside->> : (m : Parser A) (n : Parser B) → Inside m → Inside n → Inside (m >> n)
  unfolding ◌>>◌
  Inside->> m n p q = Inside->>= m (λ _. n) p (λ _. q)

pub Inside-read : (n : ℕ) → Inside (read n)
unfolding read
Inside-read n = record { behind = λ c a c' within e. ground arith }

pub Inside-read_string : (limit n : ℕ) → Inside (read_string limit n)
unfolding read_string read
Inside-read_string limit n = record { behind = λ c a c' within e. ground arith }

must_read-cases :
    (n : ℕ) (c : Cursor) {a : Bytes} {c' : Cursor}
    → must_read n c ≡ ok (a, c')
    → (read n c ≡ ok (a, c')) ⊎ (c ≡ c')
unfolding must_read
must_read-cases n c {a} {c'} e = elim (Result-cases (read n c)) [
  | inl (r, h) ↦ inl (h ∙ (rw (h, must_read) at e))
  | inr (f, h) ↦
      let same : ◌≡◌ {A = Result (Bytes × Cursor)} (ok ([], c)) (ok (a, c')) =
        rw (h, must_read) at e in
      inr (cc)
]

pub Inside-must_read : (n : ℕ) → Inside (must_read n)
Inside-must_read n = record {
  behind = λ c a c' within e. elim (must_read-cases n c e) [
    | inl h ↦ (Inside-read n).behind c a c' within h
    | inr same ↦ rw (← same) (refl, omega arith, within)
  ];
}

pub ruleset basic_rules = (
  Inside-return, Inside-failure, Inside-if, Inside->>=, Inside->>, Inside-read, Inside-read_string,
)

pub Inside-uint : (w : ℕ) → Inside (uint w)
unfolding uint
Inside-uint w = search basic_rules

pub Inside-read_bits : (n : ℕ) → Inside (read_bits n)
unfolding read_bits
Inside-read_bits n = search basic_rules

pub Inside-string_raw : (limit : ℕ) → Inside (string_raw limit)
unfolding string_raw
Inside-string_raw limit = search (basic_rules, Inside-uint)

pub Inside-drop_value {ℓ} : {A : Type ℓ} (m : Parser A) → Inside m → Inside (drop_value m)
unfolding drop_value
Inside-drop_value m p = search basic_rules

pub Inside-skip_string : (limit : ℕ) → Inside (skip_string limit)
unfolding skip_string
Inside-skip_string limit = Inside-drop_value (string_raw limit) (Inside-string_raw limit)

pub Inside-skip : (n : ℕ) → Inside (skip n)
unfolding skip
Inside-skip n = Inside-drop_value (read n) (Inside-read n)

pub Inside-when : (b : Bool) (m : Parser (Unit {0})) → Inside m → Inside (when b m)
unfolding when
Inside-when b m p = search basic_rules

pub Inside-times : (n : ℕ) (m : Parser (Unit {0})) → Inside m → Inside (times n m)
unfolding times
Inside-times zero m p = Inside-return tt
Inside-times (suc n) m p = Inside->> m (times n m) p (Inside-times n m p)

pub Inside-collect {ℓ} : {A : Type ℓ} (n : ℕ) (m : Parser A) → Inside m → Inside (collect n m)
unfolding collect
Inside-collect zero m p = Inside-return []
Inside-collect (suc n) m p =
    Inside->>= m _ p
      (λ a. Inside->>= (collect n m) _ (Inside-collect n m p) (λ rest. Inside-return (a ∷ rest)))

pub ruleset inside_rules = (
  basic_rules, Inside-uint, Inside-read_bits, Inside-string_raw, Inside-drop_value,
  Inside-skip_string, Inside-skip, Inside-when, Inside-times, Inside-collect, Inside-must_read,
)
