-- ===== src/Setup/Flags/Encryption.antt =====
-- The place of the flag "EncryptionUsed" among the header flags of internal/setup/setup.go.
use innoextract_go.Base.{
  ℕ, ap, if-elim, ◌+◌, ◌/◌, ◌≡◌, refl, ◌∙◌, arith, Bool, true, false, some, length, ltb, leb, List,
  [], ◌∷◌, if◌then◌else◌, ◌&&◌,
}
use innoextract_go.Format.{Version}
use innoextract_go.Setup.Flags.{
  Flag, encryption_used, other_flag, others, early_flags, middle_flags, late_flags, encryption_bit,
  header_flag_names, header_encryption_bit, header_flag_count,
}
use innoextract_go.Setup.Version.{version_at_least, version_before}

-- The number of the flag in the versions from 6.0.0 to before 6.5.0: five flags of the window went
-- with 6.4.0.1.
abbrev pub flag_number : Version → ℕ
flag_number v = if version_before v 6 4 0 1 then 36 else 31

-- The bytes that the flags of these versions take.
abbrev pub flag_width : Version → ℕ
flag_width v = if version_at_least v 6 3 0 && version_before v 6 4 0 1 then 7 else 6

-- A version from 6.0.0 to before 6.5.0.
record Early (v : Version) : Type 0 where
  six : v.major ≡ 6
  early : version_at_least v 6 5 0 ≡ false

module _ (v : Version) (e : Early v) where
  before_old : (a b c d : ℕ) → ltb a 6 ≡ true → version_before v a b c d ≡ false
  unfolding version_before
  before_old a b c d lt = let six = e.six in ground arith

  before_newer : (b c d : ℕ) → leb 5 b ≡ true → version_before v 6 b c d ≡ true
  unfolding version_at_least version_before
  before_newer b c d le = let six = e.six in let early = e.early in ground arith

  not_at_newer : (b c : ℕ) → leb 5 b ≡ true → version_at_least v 6 b c ≡ false
  unfolding version_at_least
  not_at_newer b c le = let six = e.six in let early = e.early in ground arith

other : (fs gs : List Flag) → fs ≡ gs → (other_flag ∷ fs) ≡ (other_flag ∷ gs)
other fs gs e = ap (λ rest. other_flag ∷ rest) e

module _ (b : Bool) (f : Flag) (fs gs : List Flag) where
  left_out : b ≡ false → fs ≡ gs → (if b then f ∷ fs else fs) ≡ gs
  left_out out e = if-elim (λ x. x ≡ gs) b (f ∷ fs) fs (λ is. cc) (λ _. e)

  added : b ≡ true → fs ≡ gs → (if b then f ∷ fs else fs) ≡ (f ∷ gs)
  added is e = if-elim (λ x. x ≡ (f ∷ gs)) b (f ∷ fs) fs (λ _. ap (λ rest. f ∷ rest) e) (λ isnt. cc)

abbrev others_if : Bool → ℕ → ℕ → List Flag → List Flag
others_if b m n rest = if b then others m rest else others n rest

ruleset flag_rules = (other, left_out, added, before_old, before_newer, not_at_newer)

module _ (v : Version) (e : Early v) (fs : List Flag) where
  early_eq : (w : Bool) → version_before v 6 4 0 1 ≡ w → early_flags v fs ≡ others_if w 16 11 fs
  unfolding early_flags
  early_eq true h = search flag_rules depth 60
  early_eq false h = search flag_rules depth 60

  middle_eq : middle_flags v fs ≡ others 20 (encryption_used ∷ fs)
  unfolding middle_flags
  middle_eq = search flag_rules depth 60

not_both : (b c : Bool) → b ≡ false → (b && c) ≡ false
not_both b c is = rw (is) refl

late_eq :
    (v : Version)
    → Early v
    → (l : Bool) → version_at_least v 6 3 0 ≡ l
    → late_flags v ≡ others_if l 12 11 []
unfolding late_flags
late_eq v e true h = search (flag_rules, not_both) depth 60
late_eq v e false h = search (flag_rules, not_both) depth 60

names_eq :
    (v : Version)
    → Early v
    → header_flag_names v
      ≡ others_if
          (version_before v 6 4 0 1)
          16
          11
          (others 20 (encryption_used ∷ others_if (version_at_least v 6 3 0) 12 11 []))
unfolding header_flag_names
names_eq v e =
    early_eq v e _ _ refl
    ∙ ap (others_if (version_before v 6 4 0 1) 16 11)
        (middle_eq v e _ ∙ ap (λ fs. others 20 (encryption_used ∷ fs)) (late_eq v e _ refl))

number_of :
    (w l : Bool)
    → encryption_bit 0 (others_if w 16 11 (others 20 (encryption_used ∷ others_if l 12 11 [])))
      ≡ some (if w then 36 else 31)
unfolding encryption_bit
number_of true l = refl
number_of false l = refl

width_of :
    (w l : Bool)
    → (length (others_if w 16 11 (others 20 (encryption_used ∷ others_if l 12 11 []))) + 7) / 8
      ≡ (if l && w then 7 else 6)
width_of true true = refl
width_of true false = refl
width_of false true = refl
width_of false false = refl

pub number_eq :
    (v : Version)
    → v.major ≡ 6
    → version_at_least v 6 5 0 ≡ false
    → header_encryption_bit v ≡ some (flag_number v)
number_eq v six early =
    ap (encryption_bit 0) (names_eq v (record { six = six; early = early })) ∙ number_of _ _

pub width_eq :
    (v : Version)
    → v.major ≡ 6
    → version_at_least v 6 5 0 ≡ false
    → (header_flag_count v + 7) / 8 ≡ flag_width v
width_eq v six early =
    ap (λ fs. (length fs + 7) / 8) (names_eq v (record { six = six; early = early })) ∙ width_of _ _
