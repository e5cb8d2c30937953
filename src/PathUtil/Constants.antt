-- ===== src/PathUtil/Constants.antt =====
-- The fuel of the loop over constants is enough, and a path without braces that is clean is left as
-- it is.
use innoextract_go.Base.{
  ℕ, zero, suc, ◌≤◌, ◌≡◌, ◌≢◌, refl, ap, sym, ◌∙◌, false, List, [], ◌∷◌, ◌++◌, arith, inl, inr,
  drop, length, equal, equal→eq, Bytes, Option-cases, append_assoc, append-nil, length-drop,
}
use innoextract_go.PathUtil.{
  is_unsafe, contains, clean_part, find_constant_end, expand_loop, expand_constants, trim_app,
  trim_drive, replace_backslash, trim_slashes, split, join, resolve_step, resolve, clean,
}
use innoextract_go.PathUtil.Safety.{SafeByte, SafePart, SafePart-NoSlash, clean-parts}
use innoextract_go.PathUtil.Split.{All, All-append, split-join}

-- The loop of `expandConstants` has come to the end of the string once its fuel is the length of the
-- string: more fuel changes nothing.
pub expand_loop_fuel :
    (expand : Bytes → Bytes) (n m : ℕ) (s : Bytes)
    → length s ≤ n
    → length s ≤ m
    → expand_loop expand n s ≡ expand_loop expand m s
unfolding expand_loop
expand_loop_fuel expand n m [] p q = refl
expand_loop_fuel expand zero m (c ∷ s) p q = absurd (omega arith)
expand_loop_fuel expand (suc n) zero (c ∷ s) p q = absurd (omega arith)
expand_loop_fuel expand (suc n) (suc m) (c ∷ s) p q = elim (Option-cases (find_constant_end 0 s)) [
  | inl unmatched ↦ rw (unmatched, expand_loop_fuel expand n m s (omega arith) (omega arith))
  | inr (end, matched) ↦ rw (
    matched,
    expand_loop_fuel expand n m s (omega arith) (omega arith),
    expand_loop_fuel expand n m (drop (suc end) s) (omega (arith, length-drop (suc end) s))
        (omega (arith, length-drop (suc end) s)),
  )
]

abbrev Kept : ℕ → Type 0
Kept c = (is_unsafe c ≡ false) × (c ≢ b'\\') × (c ≢ b'{')

contains→ne : (s : Bytes) → contains b'{' s ≡ false → All (λ c. c ≢ b'{') s
unfolding contains
contains→ne [] h = tt
contains→ne (c ∷ s) h = (ground arith, contains→ne s (ground arith))

SafePart-Kept : (p : Bytes) → All SafeByte p → All (λ c. (is_unsafe c ≡ false) × (c ≢ b'\\')) p
SafePart-Kept [] h = tt
SafePart-Kept (c ∷ p) h = ((h.0.allowed, h.0.no_backslash), SafePart-Kept p h.1)

join-Kept :
    (ps : List Bytes) → All SafePart ps → All (λ c. (is_unsafe c ≡ false) × (c ≢ b'\\')) (join ps)
unfolding join
join-Kept [] h = tt
join-Kept (p ∷ []) h = SafePart-Kept p h.0.bytes
join-Kept (p ∷ q ∷ ps) h =
    All-append _ p _ (SafePart-Kept p h.0.bytes)
      ((unfold is_unsafe in refl, omega arith), join-Kept (q ∷ ps) h.1)

All-zip {ℓ} :
    {A : Type ℓ} (P Q : A → Type 0) (xs : List A) → All P xs → All Q xs → All (λ x. P x × Q x) xs
All-zip P Q [] h k = tt
All-zip P Q (x ∷ xs) h k = ((h.0, k.0), All-zip P Q xs h.1 k.1)

trim_app_kept : (s : Bytes) → All (λ c. c ≢ b'{') s → trim_app s ≡ s
unfolding trim_app
trim_app_kept [] h = refl
trim_app_kept (c ∷ s) h = ground arith

trim_drive_kept : (s : Bytes) → All (λ c. (is_unsafe c ≡ false) × (c ≢ b'\\')) s → trim_drive s ≡ s
unfolding trim_drive is_unsafe
trim_drive_kept [] h = refl
trim_drive_kept (c ∷ []) h = ground arith
trim_drive_kept (c ∷ d ∷ s) h = ground arith

replace_backslash_kept :
    (s : Bytes) → All (λ c. (is_unsafe c ≡ false) × (c ≢ b'\\')) s → replace_backslash s ≡ s
unfolding replace_backslash
replace_backslash_kept [] h = refl
replace_backslash_kept (c ∷ s) h = ground (arith, replace_backslash_kept s h.1)

trim_slashes_first : (c : ℕ) (s : Bytes) → c ≢ b'/' → trim_slashes (c ∷ s) ≡ c ∷ s
unfolding trim_slashes
trim_slashes_first c s h = ground arith

trim_slashes_kept : (ps : List Bytes) → All SafePart ps → trim_slashes (join ps) ≡ join ps
unfolding join
trim_slashes_kept [] h = unfold trim_slashes in refl
trim_slashes_kept ([] ∷ ps) h = absurd (h.0.not_empty refl)
trim_slashes_kept ((c ∷ p) ∷ []) h = trim_slashes_first c p h.0.bytes.0.no_slash
trim_slashes_kept ((c ∷ p) ∷ q ∷ ps) h =
    trim_slashes_first c (p ++ (b'/' ∷ join (q ∷ ps))) h.0.bytes.0.no_slash

clean_part_kept : (p : Bytes) → All SafeByte p → clean_part p ≡ p
unfolding clean_part
clean_part_kept [] h = refl
clean_part_kept (c ∷ p) h = rw (h.0.allowed, clean_part_kept p h.1)

equal_of_ne : (p q : Bytes) → p ≢ q → equal p q ≡ false
equal_of_ne p q h = ground (arith, equal→eq p q)

resolve_step_kept :
    (parts : List Bytes) (p : Bytes)
    → SafePart p
    → resolve_step parts (clean_part p) ≡ parts ++ p ∷ []
unfolding resolve_step
resolve_step_kept parts p h = rw (
  clean_part_kept p h.bytes,
  equal_of_ne p [] h.not_empty,
  equal_of_ne p (b'.' ∷ []) h.not_here,
  equal_of_ne p (b'.' ∷ b'.' ∷ []) h.not_parent,
)

resolve_kept : (parts ps : List Bytes) → All SafePart ps → resolve parts ps ≡ parts ++ ps
unfolding resolve
resolve_kept parts [] h = sym (append-nil parts)
resolve_kept parts (p ∷ ps) h =
    rw (resolve_step_kept parts p h.0)
      (resolve_kept (parts ++ p ∷ []) ps h.1 ∙ append_assoc parts (p ∷ []) ps)

resolve-split-join :
    (ps : List Bytes) → All SafePart ps → join (resolve [] (split (join ps))) ≡ join ps
resolve-split-join [] h = unfold split join resolve resolve_step clean_part equal in refl
resolve-split-join (p ∷ ps) h =
    rw (split-join p ps (SafePart-NoSlash (p ∷ ps) h)) (ap join (resolve_kept [] (p ∷ ps) h))

clean-join_kept :
    (ps : List Bytes)
    → All SafePart ps
    → contains b'{' (join ps) ≡ false
    → clean (join ps) ≡ join ps
unfolding clean expand_constants
clean-join_kept ps safe plain =
    rw
      (
        trim_app_kept (join ps) (contains→ne (join ps) plain),
        plain,
        trim_drive_kept (join ps) (join-Kept ps safe),
        replace_backslash_kept (join ps) (join-Kept ps safe),
        trim_slashes_kept ps safe,
      )
      (resolve-split-join ps safe)

-- A path that `Clean` returned and that holds no opening brace is returned unchanged when it is
-- cleaned again.
pub clean_idempotent :
    (raw : Bytes) → contains b'{' (clean raw) ≡ false → clean (clean raw) ≡ clean raw
clean_idempotent raw plain =
    let (ps, e, safe) = clean-parts raw in
    ap clean e ∙ clean-join_kept ps safe (rw e at plain) ∙ sym e
