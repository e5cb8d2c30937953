-- ===== src/PathUtil/Safety.antt =====
-- What a path that `Clean` returns can hold, whatever the installer asked for.
use innoextract_go.Base.{
  ℕ, zero, suc, ◌-◌, ◌≡◌, ◌≢◌, refl, false, List, [], ◌∷◌, arith, ◌==◌, ◌⊎◌, inl, inr, take, length,
  equal, equal_refl, Bytes, Bool-cases,
}
use innoextract_go.PathUtil.{
  is_unsafe, clean_byte, clean_part, replace_backslash, trim_slashes, split, join, resolve_step,
  resolve, clean, expand_constants, trim_app, trim_drive,
}
use innoextract_go.PathUtil.Split.{All, All-append, NoSlash, split-join, split-Part}

-- A byte that a path component may hold: no separator, no control character, none of <>:"|?*.
pub record SafeByte (c : ℕ) : Type 0 where
  pub allowed : is_unsafe c ≡ false
  pub no_slash : c ≢ b'/'
  pub no_backslash : c ≢ b'\\'

-- A component that names an entry of its own directory.
pub record SafePart (p : Bytes) : Type 0 where
  pub bytes : All SafeByte p
  pub not_empty : p ≢ []
  pub not_here : p ≢ b'.' ∷ []
  pub not_parent : p ≢ b'.' ∷ b'.' ∷ []

abbrev Raw : Bytes → Type 0
Raw = All (λ c. (c ≢ b'/') × (c ≢ b'\\'))

clean_byte-SafeByte : (c : ℕ) → (c ≢ b'/') × (c ≢ b'\\') → SafeByte (clean_byte c)
unfolding is_unsafe
clean_byte-SafeByte c h = ground arith

clean_part-SafeByte : (p : Bytes) → Raw p → All SafeByte (clean_part p)
unfolding clean_part
clean_part-SafeByte [] h = tt
clean_part-SafeByte (c ∷ p) h = (clean_byte-SafeByte c h.0, clean_part-SafeByte p h.1)

replace_backslash-free : (s : Bytes) → All (λ c. c ≢ b'\\') (replace_backslash s)
unfolding replace_backslash
replace_backslash-free [] = tt
replace_backslash-free (c ∷ s) = (ground arith, replace_backslash-free s)

trim_slashes-All : (P : ℕ → Type 0) (s : Bytes) → All P s → All P (trim_slashes s)
unfolding trim_slashes
trim_slashes-All P [] h = tt
trim_slashes-All P (c ∷ s) h = elim (Bool-cases (c == b'/')) [
  | inl slash ↦ rw slash (trim_slashes-All P s h.1)
  | inr other ↦ rw other h
]

ne_of_equal : (p q : Bytes) → equal p q ≡ false → p ≢ q
ne_of_equal p q h = ground (arith, equal_refl q)

All-take {ℓ κ} : {A : Type ℓ} (P : A → Type κ) (n : ℕ) (xs : List A) → All P xs → All P (take n xs)
All-take P zero xs h = tt
All-take P (suc n) [] h = tt
All-take P (suc n) (x ∷ xs) h = (h.0, All-take P n xs h.1)

module _ (parts : List Bytes) (part : Bytes) (kept : All SafePart parts)
    (raw : All SafeByte part) where
  resolve_step-SafePart : All SafePart (resolve_step parts part)
  unfolding resolve_step
  resolve_step-SafePart = elim (Bool-cases (equal part [])) [
    | inl e ↦ rw e kept
    | inr e ↦ elim (Bool-cases (equal part (b'.' ∷ []))) [
      | inl d ↦ rw (e, d) kept
      | inr d ↦ elim (Bool-cases (equal part (b'.' ∷ b'.' ∷ []))) [
        | inl dd ↦ rw (e, d, dd) (All-take SafePart (length parts - 1) parts kept)
        | inr dd ↦
            rw (e, d, dd)
              (All-append SafePart parts (part ∷ []) kept (
                record {
                  bytes = raw;
                  not_empty = ne_of_equal part [] e;
                  not_here = ne_of_equal part (b'.' ∷ []) d;
                  not_parent = ne_of_equal part (b'.' ∷ b'.' ∷ []) dd;
                },
                tt,
              ))
      ]
    ]
  ]

resolve-SafePart :
    (parts raws : List Bytes)
    → All SafePart parts
    → All Raw raws
    → All SafePart (resolve parts raws)
unfolding resolve
resolve-SafePart parts [] kept h = kept
resolve-SafePart parts (raw ∷ raws) kept h =
    resolve-SafePart (resolve_step parts (clean_part raw)) raws
      (resolve_step-SafePart parts (clean_part raw) kept (clean_part-SafeByte raw h.0)) h.1

pub SafePart-NoSlash : (ps : List Bytes) → All SafePart ps → All NoSlash ps
SafePart-NoSlash [] h = tt
SafePart-NoSlash (p ∷ ps) h = (bytes-NoSlash p h.0.bytes, SafePart-NoSlash ps h.1)
  where
    bytes-NoSlash : (q : Bytes) → All SafeByte q → NoSlash q
    bytes-NoSlash [] g = tt
    bytes-NoSlash (c ∷ q) g = (g.0.no_slash, bytes-NoSlash q g.1)

-- A path is relative and stays below its root: it is empty, or each of its parts between slashes
-- names an entry of its directory.
abbrev pub SafePath : Bytes → Type 0
SafePath path = (path ≡ []) ⊎ All SafePart (split path)

join-SafePath : (ps : List Bytes) → All SafePart ps → SafePath (join ps)
unfolding join
join-SafePath [] h = inl refl
join-SafePath (p ∷ ps) h = inr (rw (split-join p ps (SafePart-NoSlash (p ∷ ps) h)) h)

pub clean-parts : (raw : Bytes) → (ps : List Bytes) × (clean raw ≡ join ps) × All SafePart ps
unfolding clean
clean-parts raw =
    let s = trim_drive (expand_constants 8 (trim_app raw)) in
    let t = trim_slashes (replace_backslash s) in
    let free = trim_slashes-All (λ c. c ≢ b'\\') (replace_backslash s) (replace_backslash-free s) in
    (resolve [] (split t), refl, resolve-SafePart [] (split t) tt (split-Part b'\\' t free))

-- Whatever the destination in the installer, the path that `Clean` returns is empty or consists,
-- between slashes, of parts that are not empty, not "." and not "..", and hold no separator, no
-- control character and none of <>:"|?*; so it is never absolute and never leads out of its root.
pub clean-SafePath : (raw : Bytes) → SafePath (clean raw)
clean-SafePath raw = let (ps, e, safe) = clean-parts raw in rw e (join-SafePath ps safe)
