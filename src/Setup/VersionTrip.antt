-- ===== src/Setup/VersionTrip.antt =====
-- The version that `readVersion` of internal/setup/setup.go reads in what `Version.String` of
-- internal/format/types.go prints.
use mathlib.Core.List.{append-nil}
use innoextract_go.Base.{
  ℕ, suc, ◌≤◌, ◌≡◌, ◌≢◌, refl, sym, ap, ◌∙◌, arith, true, false, List, [], ◌∷◌, ◌++◌, length, leb,
  ltb, ◌==◌, if◌then◌else◌, Bytes, Bool-cases, inl, inr,
}
use innoextract_go.Fault.{ok}
use innoextract_go.Format.{Version}
use innoextract_go.PathUtil.Split.{All, All-append}
use innoextract_go.Setup.ReadVersion.{
  before_zero, version_prefix, version_numbers, version_of, parse_version, digits, itoa,
  version_text,
}
use innoextract_go.Strings.{has_prefix, split_at, is_digit}
use innoextract_go.Setup.Decimals.{
  Digits, digits-Digits, Begins, Ends, Begins-append, Ends-append, digits-Ends, digits-Begins,
  version_inside-text, split_at-Digits, split_at-part, scan_natural-itoa,
}

-- What a version of four bytes is.
pub record IsVersion (v : Version) : Type 0 where
  pub major : (6 ≤ v.major) × (v.major ≤ 255)
  pub minor : v.minor ≤ 255
  pub patch : v.patch ≤ 255
  pub revision : v.revision ≤ 255
  pub unicode : v.unicode ≡ true
  pub known : v.known ≡ true

Digits-nonzero : (s : Bytes) → Digits s → All (λ c. c ≢ 0) s
unfolding is_digit
Digits-nonzero [] h = tt
Digits-nonzero (c ∷ s) h = let d = h.0 in ((λ e. absurd (ground arith)), Digits-nonzero s h.1)

before_zero-append : (s rest : Bytes) → All (λ c. c ≢ 0) s → before_zero (s ++ 0 ∷ rest) ≡ s
unfolding before_zero
before_zero-append [] rest h = refl
before_zero-append (c ∷ s) rest h =
    let other : (c == 0) ≡ false = let ne = h.0 in ground arith in
    rw (other, before_zero-append s rest h.1)

-- The text of the revision, which is left out where it is 0.
abbrev revision_text : ℕ → Bytes
revision_text n = if n == 0 then [] else b'.' ∷ itoa n

-- What the digits of a version of these numbers are read as.
record ReadsAs (text : Bytes) (parts : List Bytes) (nums : List ℕ) : Type 0 where
  begins : Begins text
  ends : Ends text
  nonzero : All (λ c. c ≢ 0) text
  parted : split_at b'.' text ≡ parts
  numbers : version_numbers parts ≡ ok nums

last_number : (n : ℕ) → n ≤ 255 → ReadsAs (itoa n) (itoa n ∷ []) (n ∷ [])
unfolding version_numbers digits
last_number n small = record {
  begins = digits-Begins (suc n) n (omega arith);
  ends = digits-Ends n n;
  nonzero = Digits-nonzero (itoa n) (digits-Digits (suc n) n);
  parted = split_at-Digits (itoa n) (digits-Digits (suc n) n);
  numbers = let below : ltb 255 n ≡ false = ground arith in rw (scan_natural-itoa n small, below);
}

next_number :
    (n : ℕ) {text : Bytes} {parts : List Bytes} {nums : List ℕ}
    → n ≤ 255
    → ReadsAs text parts nums
    → ReadsAs (itoa n ++ b'.' ∷ text) (itoa n ∷ parts) (n ∷ nums)
unfolding version_numbers digits
next_number n {text} small h = record {
  begins = Begins-append (itoa n) _ (digits-Begins (suc n) n (omega arith));
  ends = Ends-append (itoa n) (b'.' ∷ text) (Ends-append (b'.' ∷ []) text h.ends);
  nonzero =
      All-append _ (itoa n) (b'.' ∷ text) (Digits-nonzero (itoa n) (digits-Digits (suc n) n))
        ((λ e. absurd (omega arith)), h.nonzero);
  parted = split_at-part (itoa n) text (digits-Digits (suc n) n) ∙ ap (◌∷◌ (itoa n)) h.parted;
  numbers =
      let below : ltb 255 n ≡ false = ground arith in
      rw (scan_natural-itoa n small, below, h.numbers);
}

-- A text that is read as three or four numbers, between the parentheses, makes a version.
parse_version-ReadsAs :
    (text rest : Bytes) (parts : List Bytes) (nums : List ℕ)
    → ReadsAs text parts nums
    → (3 ≤ length parts) × (length parts ≤ 4)
    → parse_version (before_zero ((version_prefix ++ text ++ b')' ∷ []) ++ 0 ∷ rest))
      ≡ ok (version_of (version_prefix ++ text ++ b')' ∷ []) nums)
unfolding parse_version has_prefix
parse_version-ReadsAs text rest parts nums h bounds =
    let few : ltb (length parts) 3 ≡ false = ground arith in
    let many : ltb 4 (length parts) ≡ false = ground arith in
    let ends : All (λ c. c ≢ 0) (text ++ b')' ∷ []) =
      All-append _ text (b')' ∷ []) h.nonzero ((λ e. absurd (omega arith)), tt) in
    let shown : All (λ c. c ≢ 0) (version_prefix ++ text ++ b')' ∷ []) =
      All-append _ version_prefix (text ++ b')' ∷ []) (ground arith) ends in
    rw (
      before_zero-append (version_prefix ++ text ++ b')' ∷ []) rest shown,
      version_inside-text text h.begins h.ends,
      h.parted,
      few,
      many,
      h.numbers,
    )

-- The four fields of a version, and the three where the revision is 0.
version_of-four :
    (s : Bytes) (v : Version)
    → IsVersion v
    → version_of s (v.major ∷ v.minor ∷ v.patch ∷ v.revision ∷ []) ≡ v
unfolding version_of
version_of-four s v h =
    let bound = h.major.0 in
    let six : leb 6 v.major ≡ true = ground arith in
    let unicode : true ≡ v.unicode = sym h.unicode in
    let known : true ≡ v.known = sym h.known in rw (six) (cc (unicode, known))

version_of-three :
    (s : Bytes) (v : Version)
    → IsVersion v
    → v.revision ≡ 0
    → version_of s (v.major ∷ v.minor ∷ v.patch ∷ []) ≡ v
unfolding version_of
version_of-three s v h zero_revision =
    ap (λ (n : ℕ). version_of s (v.major ∷ v.minor ∷ v.patch ∷ n ∷ [])) (sym zero_revision)
    ∙ version_of-four s v h

-- How a version is read, with and without a revision.
three_numbers :
    (v : Version)
    → IsVersion v
    → (v.revision == 0) ≡ true
    → ReadsAs
        (version_text v)
        (itoa v.major ∷ itoa v.minor ∷ itoa v.patch ∷ [])
        (v.major ∷ v.minor ∷ v.patch ∷ [])
unfolding version_text
three_numbers v h none_there =
    rw (none_there, append-nil (itoa v.patch))
      (next_number v.major h.major.1 (next_number v.minor h.minor (last_number v.patch h.patch)))

four_numbers :
    (v : Version)
    → IsVersion v
    → (v.revision == 0) ≡ false
    → ReadsAs
        (version_text v)
        (itoa v.major ∷ itoa v.minor ∷ itoa v.patch ∷ itoa v.revision ∷ [])
        (v.major ∷ v.minor ∷ v.patch ∷ v.revision ∷ [])
unfolding version_text
four_numbers v h there = rw there (
    next_number v.major h.major.1 (
      next_number v.minor h.minor
        (next_number v.patch h.patch (last_number v.revision h.revision))))

-- The version that `Version.String` prints, between the parentheses of the text in a setup file and
-- with a zero byte behind them, is the version that `readVersion` reads: for numbers below 256, a
-- major one of 6 or more, and any revision, 0 included.
pub parse_version-version_text :
    (v : Version) (rest : Bytes)
    → IsVersion v
    → parse_version (before_zero ((version_prefix ++ version_text v ++ b')' ∷ []) ++ 0 ∷ rest))
      ≡ ok v
parse_version-version_text v rest h = elim (Bool-cases (v.revision == 0)) [
  | inl none_there ↦
      let zero_revision : v.revision ≡ 0 = ground arith in
      parse_version-ReadsAs (version_text v) rest _ _ (three_numbers v h none_there) (omega arith)
      ∙ ap ok (version_of-three _ v h zero_revision)
  | inr there ↦
      parse_version-ReadsAs (version_text v) rest _ _ (four_numbers v h there) (omega arith)
      ∙ ap ok (version_of-four _ v h)
]
