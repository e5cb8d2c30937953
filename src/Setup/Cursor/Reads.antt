-- ===== src/Setup/Cursor/Reads.antt =====
-- What the parsers over a `cursor` of internal/setup/setup.go return at given bytes: one rule for each
-- way to build a parser.
use innoextract_go.Base.{
  ℕ, ◌+◌, ◌-◌, ◌^◌, ◌%◌, ◌≤◌, ◌<◌, ◌≡◌, refl, sym, ap, ◌∙◌, subst, arith, false, [], ◌++◌, length,
  take, drop, ltb, Bytes, le_value, le_bytes, le_value-le_bytes, length-le_bytes, length-append,
  append_assoc, append-nil, drop-drop, drop-append_left, take-append_left, length-drop,
}
use innoextract_go.Fault.{ok}
use innoextract_go.Setup.Cursor.{
  Parser, ◌>>=◌, ◌>>◌, return, drop_value, read, uint, skip, must_read, read_bits,
}

-- At a position from where the block goes on with the bytes, the parser returns the value and stands
-- behind them.
pub record Reads {A : Type 0} (m : Parser A) (bs : Bytes) (a : A) : Type 0 where
  pub reads :
      (b : Bytes) (pos : ℕ) (rest : Bytes)
      → drop pos b ≡ bs ++ rest
      → pos ≤ length b
      → m (record { b = b; pos = pos }) ≡ ok (a, record { b = b; pos = pos + length bs })

-- What is left behind the bytes.
goes_on :
    (b : Bytes) (pos : ℕ) (xs rest : Bytes)
    → drop pos b ≡ xs ++ rest
    → pos ≤ length b
    → (drop (pos + length xs) b ≡ rest) × (pos + length xs ≤ length b)
goes_on b pos xs rest e inside =
    let size : length (drop pos b) ≡ length (xs ++ rest) = ap length e in
    (
      sym (drop-drop pos (length xs) b)
          ∙ ap (drop (length xs)) e
          ∙ drop-append_left (length xs) xs rest refl,
      omega (arith, length-drop pos b, length-append xs rest),
    )

module _ {A : Type 0} where
  pub Reads-return : (a : A) → Reads (return a) [] a
  unfolding return
  Reads-return a = record {
    reads = λ b pos rest e inside.
        let same : pos ≡ pos + 0 = omega arith in
        ap (λ (n : ℕ). ok (a, record { b = b; pos = n })) same;
  }

module _ {A B : Type 0} where
  pub Reads->>= :
      (m : Parser A) (f : A → Parser B) (xs ys : Bytes) (a : A) (b : B)
      → Reads m xs a
      → Reads (f a) ys b
      → Reads (m >>= f) (xs ++ ys) b
  unfolding ◌>>=◌
  Reads->>= m f xs ys a v p q = record {
    reads = λ b pos rest e inside.
        let first : drop pos b ≡ xs ++ (ys ++ rest) = e ∙ append_assoc xs ys rest in
        let (left, within) = goes_on b pos xs (ys ++ rest) first inside in
        let total : pos + length xs + length ys ≡ pos + length (xs ++ ys) =
          omega (arith, length-append xs ys) in
        rw (
          p.reads b pos (ys ++ rest) first inside,
          q.reads b (pos + length xs) rest left within,
          total,
        );
  }

  pub Reads->> :
      (m : Parser A) (n : Parser B) (xs ys : Bytes) (a : A) (b : B)
      → Reads m xs a
      → Reads n ys b
      → Reads (m >> n) (xs ++ ys) b
  unfolding ◌>>◌
  Reads->> m n xs ys a b p q = Reads->>= m (λ _. n) xs ys a b p q

pub Reads-read : (n : ℕ) (bs : Bytes) → length bs ≡ n → Reads (read n) bs bs
unfolding read
Reads-read n bs size = record {
  reads = λ b pos rest e inside.
      let (left, within) = goes_on b pos bs rest e inside in
      let enough : ltb (length b - pos) n ≡ false = ground arith in
      let taken : take n (drop pos b) ≡ bs = ap (take n) e ∙ take-append_left n bs rest size in
      rw (enough, taken, size);
}

pub Reads-must_read : (n : ℕ) (bs : Bytes) → length bs ≡ n → Reads (must_read n) bs bs
unfolding must_read
Reads-must_read n bs size = record {
  reads = λ b pos rest e inside. rw ((Reads-read n bs size).reads b pos rest e inside, must_read);
}

-- A step at the end of a parser that reads nothing more.
pub Reads-then_return :
    {A B : Type 0} (m : Parser A) (f : A → B) (xs : Bytes) (a : A)
    → Reads m xs a
    → Reads (m >>= λ x. return (f x)) xs (f a)
Reads-then_return m f xs a p =
    subst (λ bs. Reads (m >>= λ x. return (f x)) bs (f a)) (append-nil xs)
      (Reads->>= m (λ x. return (f x)) xs [] a (f a) p (Reads-return (f a)))

pub Reads-uint : (w n : ℕ) → n < 256 ^ w → Reads (uint w) (le_bytes w n) n
unfolding uint
Reads-uint w n small = subst (Reads (uint w) (le_bytes w n)) (le_value-le_bytes w n small) (
    Reads-then_return (read w) le_value (le_bytes w n) (le_bytes w n)
      (Reads-read w (le_bytes w n) (length-le_bytes w n)))

pub Reads-skip : (n : ℕ) (bs : Bytes) → length bs ≡ n → Reads (skip n) bs tt
unfolding skip drop_value
Reads-skip n bs size = Reads-then_return (read n) (λ x. tt) bs bs (Reads-read n bs size)

pub Reads-read_bits : (w n : ℕ) → n < 256 ^ w → n < 2 ^ 64 → Reads (read_bits w) (le_bytes w n) n
unfolding read_bits
Reads-read_bits w n small fits =
    let value : le_value (le_bytes w n) % 2 ^ 64 ≡ n =
      ap (λ (k : ℕ). k % 2 ^ 64) (le_value-le_bytes w n small) ∙ omega arith in
    subst (Reads (read_bits w) (le_bytes w n)) value (
      Reads-then_return (read w) (λ bs. le_value bs % 2 ^ 64) (le_bytes w n) (le_bytes w n)
        (Reads-read w (le_bytes w n) (length-le_bytes w n)))
