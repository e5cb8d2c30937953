-- ===== src/PathUtil/Split.antt =====
-- `strings.Split` and `strings.Join` at "/".
use innoextract_go.Base.{
  ℕ, ◌≡◌, ◌≢◌, refl, ap, ◌∙◌, List, [], ◌∷◌, ◌++◌, arith, ◌==◌, Bytes, Bool-cases, inl, inr,
}
use innoextract_go.PathUtil.{split, onto_first, join}

-- Every byte, or every part, has a property.
abbrev pub All {ℓ κ} : {A : Type ℓ} → (A → Type κ) → List A → Type κ
All P [] = Unit
All P (x ∷ xs) = P x × All P xs

pub All-append {ℓ κ} :
    {A : Type ℓ} (P : A → Type κ) (xs ys : List A) → All P xs → All P ys → All P (xs ++ ys)
All-append P [] ys hx hy = hy
All-append P (x ∷ xs) ys hx hy = (hx.0, All-append P xs ys hx.1 hy)

abbrev pub NoSlash : Bytes → Type 0
NoSlash = All (λ c. c ≢ b'/')

pub split_part : (p : Bytes) → NoSlash p → split p ≡ p ∷ []
unfolding split
split_part [] h = refl
split_part (c ∷ p) h = ground (arith, split_part p h.1)

pub split-append : (p rest : Bytes) → NoSlash p → split (p ++ (b'/' ∷ rest)) ≡ p ∷ split rest
unfolding split
split-append [] rest h = refl
split-append (c ∷ p) rest h = ground (arith, split-append p rest h.1)

-- Splitting gives back the parts that were joined.
pub split-join :
    (p : Bytes) (ps : List Bytes) → All NoSlash (p ∷ ps) → split (join (p ∷ ps)) ≡ p ∷ ps
unfolding join
split-join p [] h = split_part p h.0
split-join p (q ∷ ps) h = split-append p (join (q ∷ ps)) h.0 ∙ ap (◌∷◌ p) (split-join q ps h.1)

-- No part holds a slash, and a byte that the string lacks is in no part.
module _ (b : ℕ) where
  abbrev Part : ℕ → Type 0
  Part c = (c ≢ b'/') × (c ≢ b)

  onto_first-Part :
      (c : ℕ) (ps : List Bytes) → Part c → All (All Part) ps → All (All Part) (onto_first c ps)
  onto_first-Part c [] h k = ((h, tt), tt)
  onto_first-Part c (p ∷ ps) h k = ((h, k.0), k.1)

  pub split-Part :
      (s : Bytes) → All (λ c. c ≢ b) s → All (All (λ c. (c ≢ b'/') × (c ≢ b))) (split s)
  unfolding split
  split-Part [] h = (tt, tt)
  split-Part (c ∷ s) h = elim (Bool-cases (c == b'/')) [
    | inl slash ↦ rw slash (tt, split-Part s h.1)
    | inr other ↦ rw other (onto_first-Part c (split s) (ground arith, h.0) (split-Part s h.1))
  ]
