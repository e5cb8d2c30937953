-- ===== src/Setup/Decimals.antt =====
-- Texts of decimal digits, under the functions that `readVersion` of internal/setup/setup.go reads
-- them with.
use mathlib.Core.List.{reverse, reverse-append, reverse-reverse, append-nil, append_assoc}
use innoextract_go.Base.{
  ℕ, zero, suc, ◌+◌, ◌-◌, ◌*◌, ◌/◌, ◌%◌, ◌≤◌, ◌<◌, ◌≡◌, refl, sym, ap, ◌∙◌, arith, true, false,
  some, [], ◌∷◌, ◌++◌, length, ltb, ◌==◌, Bytes, Bool-cases, inl, inr, take-append_left,
  length-append, max_int64,
}
use innoextract_go.PathUtil.Split.{All, All-append}
use innoextract_go.Setup.ReadVersion.{version_prefix, version_inside, digits, itoa}
use innoextract_go.Strings.{
  has_prefix, space_width, last_space_width, trim_by, trim_space, split_at, is_digit, trim_suffix,
  skip_scan_space, leading_value, leading_number, signed_natural, scan_natural,
}

abbrev pub Digits : Bytes → Type 0
Digits = All (λ c. is_digit c ≡ true)

digit_byte : (n : ℕ) → n < 10 → is_digit (b'0' + n) ≡ true
unfolding is_digit
digit_byte n small = ground arith

pub digits-Digits : (fuel n : ℕ) → Digits (digits fuel n)
unfolding digits
digits-Digits zero n = tt
digits-Digits (suc fuel) n = elim (Bool-cases (ltb n 10)) [
  | inl one ↦ rw one (digit_byte n (ground arith), tt)
  | inr more ↦ rw more (
      All-append _ (digits fuel (n / 10)) _ (digits-Digits fuel (n / 10))
        (digit_byte (n % 10) (omega arith), tt))
]

leading_value-digits :
    (fuel n : ℕ) (rest : Bytes)
    → n < fuel
    → leading_value 0 (digits fuel n ++ rest) ≡ leading_value n rest
unfolding digits leading_value is_digit
leading_value-digits zero n rest h = absurd (omega arith)
leading_value-digits (suc fuel) n rest h = elim (Bool-cases (ltb n 10)) [
  | inl one ↦
      let small : n < 10 = ground arith in
      let value : 0 * 10 + (b'0' + n - b'0') ≡ n = omega arith in
      let digit = digit_byte n small in rw (one, digit, value)
  | inr more ↦
      let digit = digit_byte (n % 10) (omega arith) in
      let value : n / 10 * 10 + (b'0' + n % 10 - b'0') ≡ n = omega arith in
      rw (
        more,
        append_assoc (digits fuel (n / 10)) ((b'0' + n % 10) ∷ []) rest,
        leading_value-digits fuel (n / 10) ((b'0' + n % 10) ∷ rest) (ground arith),
        digit,
        value,
      )
]

-- A text that begins with a digit, and one that ends with a digit.
pub record Begins (s : Bytes) : Type 0 where
  pub first : ℕ
  pub rest : Bytes
  pub same : s ≡ first ∷ rest
  pub digit : is_digit first ≡ true

pub record Ends (s : Bytes) : Type 0 where
  pub front : Bytes
  pub final : ℕ
  pub same : s ≡ front ++ final ∷ []
  pub digit : is_digit final ≡ true

pub Begins-append : (s t : Bytes) → Begins s → Begins (s ++ t)
Begins-append s t h = record {
  first = h.first;
  rest = h.rest ++ t;
  same = ap (λ x. x ++ t) h.same;
  digit = h.digit;
}

pub Ends-append : (s t : Bytes) → Ends t → Ends (s ++ t)
Ends-append s t h = record {
  front = s ++ h.front;
  final = h.final;
  same = ap (λ x. s ++ x) h.same ∙ sym (append_assoc s h.front (h.final ∷ []));
  digit = h.digit;
}

pub digits-Ends : (fuel n : ℕ) → Ends (digits (suc fuel) n)
unfolding digits
digits-Ends fuel n = elim (Bool-cases (ltb n 10)) [
  | inl one ↦
      rw one
        (record { front = []; final = b'0' + n; same = refl; digit = digit_byte n (ground arith) })
  | inr more ↦ rw more (record {
    front = digits fuel (n / 10);
    final = b'0' + n % 10;
    same = refl;
    digit = digit_byte (n % 10) (omega arith);
  })
]

pub digits-Begins : (fuel n : ℕ) → n < fuel → Begins (digits fuel n)
unfolding digits
digits-Begins zero n h = absurd (omega arith)
digits-Begins (suc fuel) n h = elim (Bool-cases (ltb n 10)) [
  | inl one ↦
      rw one
        (record { first = b'0' + n; rest = []; same = refl; digit = digit_byte n (ground arith) })
  | inr more ↦
      rw more (Begins-append (digits fuel (n / 10)) _ (digits-Begins fuel (n / 10) (ground arith)))
]

-- A text between two digits has no white space to trim.
space_width-digit : (c : ℕ) (s : Bytes) → is_digit c ≡ true → space_width (c ∷ s) ≡ 0
unfolding space_width is_digit
space_width-digit c [] h = ground arith
space_width-digit c (b ∷ []) h = ground arith
space_width-digit c (b ∷ a ∷ s) h = ground arith

two_bytes : (b c : ℕ) → is_digit c ≡ true → (space_width (b ∷ c ∷ []) == 2) ≡ false
unfolding space_width is_digit
two_bytes b c h = ground arith

three_bytes : (a b c : ℕ) → is_digit c ≡ true → (space_width (a ∷ b ∷ c ∷ []) == 3) ≡ false
unfolding space_width is_digit
three_bytes a b c h = ground arith

last_space_width-digit : (c : ℕ) (s : Bytes) → is_digit c ≡ true → last_space_width (c ∷ s) ≡ 0
unfolding last_space_width
last_space_width-digit c [] h = space_width-digit c [] h
last_space_width-digit c (b ∷ []) h = rw (space_width-digit c [] h, two_bytes b c h)
last_space_width-digit c (b ∷ a ∷ s) h =
    rw (space_width-digit c [] h, two_bytes b c h, three_bytes a b c h)

trim_by_zero : (width : Bytes → ℕ) (fuel : ℕ) (s : Bytes) → width s ≡ 0 → trim_by width fuel s ≡ s
unfolding trim_by
trim_by_zero width zero s h = refl
trim_by_zero width (suc fuel) s h = rw h

reverse-Ends : (s : Bytes) (h : Ends s) → reverse s ≡ h.final ∷ reverse h.front
reverse-Ends s h = ap reverse h.same ∙ reverse-append h.front (h.final ∷ [])

trim_space-digits : (s : Bytes) → Begins s → Ends s → trim_space s ≡ s
unfolding trim_space
trim_space-digits s b e =
    let left : space_width s ≡ 0 =
      ap space_width b.same ∙ space_width-digit b.first b.rest b.digit in
    let right : last_space_width (reverse s) ≡ 0 =
      ap last_space_width (reverse-Ends s e)
      ∙ last_space_width-digit e.final (reverse e.front) e.digit in
    rw (
      trim_by_zero space_width (length s) s left,
      trim_by_zero last_space_width (length s) (reverse s) right,
      reverse-reverse s,
    )

trim_suffix-keeps :
    (s suffix : Bytes) → has_prefix (reverse s) (reverse suffix) ≡ false → trim_suffix s suffix ≡ s
unfolding trim_suffix
trim_suffix-keeps s suffix h = rw h

has_prefix_refl : (c : ℕ) (s : Bytes) → has_prefix (c ∷ s) (c ∷ []) ≡ true
unfolding has_prefix
has_prefix_refl c [] = ground arith
has_prefix_refl c (d ∷ s) = ground arith

trim_suffix-byte : (s : Bytes) (c : ℕ) → trim_suffix (s ++ c ∷ []) (c ∷ []) ≡ s
unfolding trim_suffix
trim_suffix-byte s c =
    let measure : length (s ++ c ∷ []) - 1 ≡ length s = omega (arith, length-append s (c ∷ [])) in
    rw (
      reverse-append s (c ∷ []),
      has_prefix_refl c (reverse s),
      measure,
      take-append_left (length s) s (c ∷ []) refl,
    )

no_parenthesis : (c : ℕ) (s t : Bytes) → is_digit c ≡ true → has_prefix (c ∷ s) (b')' ∷ t) ≡ false
unfolding is_digit has_prefix
no_parenthesis c s t h = ground arith

pub version_inside-text :
    (s : Bytes) → Begins s → Ends s → version_inside (version_prefix ++ s ++ b')' ∷ []) ≡ s
unfolding version_inside
version_inside-text s b e =
    let plain : has_prefix (reverse s) (b')' ∷ b'u' ∷ b'(' ∷ []) ≡ false =
      ap (λ x. has_prefix x (b')' ∷ b'u' ∷ b'(' ∷ [])) (reverse-Ends s e)
      ∙ no_parenthesis e.final (reverse e.front) (b'u' ∷ b'(' ∷ []) e.digit in
    rw (
      trim_suffix-byte s b')',
      trim_suffix-keeps s (b'(' ∷ b'u' ∷ b')' ∷ []) plain,
      trim_space-digits s b e,
    )

pub split_at-Digits : (p : Bytes) → Digits p → split_at b'.' p ≡ p ∷ []
unfolding split_at is_digit
split_at-Digits [] h = refl
split_at-Digits (c ∷ p) h =
    let other : (c == b'.') ≡ false = let d = h.0 in ground arith in
    rw (other, split_at-Digits p h.1)

pub split_at-part : (p s : Bytes) → Digits p → split_at b'.' (p ++ b'.' ∷ s) ≡ p ∷ split_at b'.' s
unfolding split_at is_digit
split_at-part [] s h = refl
split_at-part (c ∷ p) s h =
    let other : (c == b'.') ≡ false = let d = h.0 in ground arith in
    rw (other, split_at-part p s h.1)

skip_scan_space-digit :
    (fuel c : ℕ) (s : Bytes) → is_digit c ≡ true → skip_scan_space fuel (c ∷ s) ≡ some (c ∷ s)
unfolding skip_scan_space has_prefix is_digit
skip_scan_space-digit zero c s h = refl
skip_scan_space-digit (suc fuel) c s h =
    let other : (c == 10) ≡ false = ground arith in rw (other, space_width-digit c s h)

not_sign : (c sign : ℕ) → is_digit c ≡ true → sign < b'0' → (c == sign) ≡ false
unfolding is_digit
not_sign c sign h low = ground arith

scan_natural-digit :
    (c : ℕ) (s : Bytes) (n : ℕ)
    → is_digit c ≡ true
    → leading_value 0 (c ∷ s) ≡ n
    → n ≤ 255
    → scan_natural (c ∷ s) ≡ some n
unfolding scan_natural signed_natural leading_number
scan_natural-digit c s n h value small =
    let plus : (c == b'+') ≡ false = not_sign c b'+' h (omega arith) in
    let minus : (c == b'-') ≡ false = not_sign c b'-' h (omega arith) in
    let below : ltb max_int64 n ≡ false = ground arith in
    rw (skip_scan_space-digit (length (c ∷ s)) c s h, scan_natural, plus, minus, value, h, below)

pub scan_natural-itoa : (n : ℕ) → n ≤ 255 → scan_natural (itoa n) ≡ some n
unfolding digits leading_value
scan_natural-itoa n small =
    let b = digits-Begins (suc n) n (omega arith) in
    let value : leading_value 0 (itoa n) ≡ n =
      ap (leading_value 0) (sym (append-nil (itoa n)))
      ∙ leading_value-digits (suc n) n [] (omega arith) in
    ap scan_natural b.same
    ∙ scan_natural-digit b.first b.rest n b.digit (ap (leading_value 0) (sym b.same) ∙ value) small
