-- ===== src/PathUtil.antt =====
-- internal/pathutil/path.go: `Clean` and its helpers, on the bytes of a Go string. Every test of the
-- code is on single ASCII bytes, so no decoding of UTF-8 enters. `strings.EqualFold` against "{app}"
-- compares the ASCII letters without case: no other rune folds to one of them.
pub mod Split
pub mod Safety
pub mod Constants
use innoextract_go.Base.{
  ℕ, zero, suc, ◌+◌, ◌-◌, ◌≡◌, refl, Bool, true, false, not, ◌&&◌, ◌||◌, Option, none, some, List,
  [], ◌∷◌, ◌++◌, map, length, take, drop, get_or, equal, leb, ltb, ◌==◌, if◌then◌else◌, Bytes,
}

unfoldable pub is_ascii_alpha : ℕ → Bool
is_ascii_alpha c = leb b'a' c && leb c b'z' || leb b'A' c && leb c b'Z'

unfoldable pub contains : ℕ → Bytes → Bool
contains c [] = false
contains c (b ∷ s) = b == c || contains c s

-- `c < 0x20 || strings.ContainsRune("<>:\"|?*", rune(c))`
unfoldable pub is_unsafe : ℕ → Bool
is_unsafe c =
    ltb c 0x20
    || c == b'<'
    || c == b'>'
    || c == b':'
    || c == b'"'
    || c == b'|'
    || c == b'?'
    || c == b'*'

abbrev pub clean_byte : ℕ → ℕ
clean_byte c = if is_unsafe c then b'$' else c

unfoldable pub clean_part : Bytes → Bytes
clean_part [] = []
clean_part (c ∷ part) = clean_byte c ∷ clean_part part

-- `findConstantEnd(s, start)` on `s[start:]`: how many bytes stand before the brace that closes.
unfoldable pub find_constant_end : ℕ → Bytes → Option ℕ
find_constant_end depth [] = none
find_constant_end depth (c ∷ s) =
    if c == b'}' && depth == 0
    then some 0
    else elim (find_constant_end
        (if c == b'{' then depth + 1 else if c == b'}' then depth - 1 else depth) s) [
          | none ↦ none
          | some n ↦ some (suc n)
        ]

-- The loop of `expandConstants` on the rest `s[i:]`, with the recursive call as `expand`. Each round
-- takes at least one byte, so the length of the string is enough fuel.
unfoldable pub expand_loop : (Bytes → Bytes) → ℕ → Bytes → Bytes
expand_loop expand fuel [] = []
expand_loop expand zero (c ∷ s) = []
expand_loop expand (suc fuel) (c ∷ s) =
    if not (c == b'{') then c ∷ expand_loop expand fuel s else elim (find_constant_end 0 s) [
      | none ↦ b'$' ∷ expand_loop expand fuel s
      | some end ↦
          let value = take end s in
          (if equal value [] then b'$' ∷ [] else expand value)
          ++ expand_loop expand fuel (drop (suc end) s)
    ]

-- `expandConstants(s, depth)`, by the levels `8 - depth` that are left.
unfoldable pub expand_constants : ℕ → Bytes → Bytes
expand_constants zero s = s
expand_constants (suc levels) s =
    let expanded = expand_loop (expand_constants levels) (length s) s in
    if contains b'{' s then expanded else s

-- `strings.EqualFold` of two strings, the second in lower case.
unfoldable pub equal_fold : Bytes → Bytes → Bool
equal_fold [] [] = true
equal_fold (a ∷ s) (b ∷ t) = (if leb b'A' a && leb a b'Z' then a + 32 else a) == b && equal_fold s t
equal_fold _ _ = false

abbrev pub app_constant : Bytes
app_constant = b'{' ∷ b'a' ∷ b'p' ∷ b'p' ∷ b'}' ∷ []

unfoldable pub trim_app : Bytes → Bytes
unfolding equal_fold
trim_app raw =
    if leb 5 (length raw)
      && equal_fold (take 5 raw) app_constant
      && (length raw == 5 || get_or raw 5 0 == b'\\' || get_or raw 5 0 == b'/')
    then drop 5 raw
    else raw

unfoldable pub trim_drive : Bytes → Bytes
unfolding is_ascii_alpha
trim_drive raw =
    if leb 2 (length raw) && is_ascii_alpha (get_or raw 0 0) && get_or raw 1 0 == b':'
    then drop 2 raw
    else raw

-- `strings.NewReplacer("\\", "/").Replace`
unfoldable pub replace_backslash : Bytes → Bytes
replace_backslash [] = []
replace_backslash (c ∷ s) = (if c == b'\\' then b'/' else c) ∷ replace_backslash s

-- `strings.TrimLeft(raw, "/")`
unfoldable pub trim_slashes : Bytes → Bytes
trim_slashes [] = []
trim_slashes (c ∷ s) = let rest = trim_slashes s in if c == b'/' then rest else c ∷ s

-- `strings.Split(raw, "/")`: one more part than there are slashes.
abbrev onto_first : ℕ → List Bytes → List Bytes
onto_first c [] = (c ∷ []) ∷ []
onto_first c (p ∷ ps) = (c ∷ p) ∷ ps

unfoldable pub split : Bytes → List Bytes
split [] = [] ∷ []
split (c ∷ s) = if c == b'/' then [] ∷ split s else onto_first c (split s)

-- `strings.Join(parts, "/")`
unfoldable pub join : List Bytes → Bytes
join [] = []
join (p ∷ []) = p
join (p ∷ q ∷ ps) = p ++ (b'/' ∷ join (q ∷ ps))

-- One round of the loop over the parts; `parts` are those that are kept.
unfoldable pub resolve_step : List Bytes → Bytes → List Bytes
resolve_step parts part =
    if equal part [] || equal part (b'.' ∷ [])
    then parts
    else if equal part (b'.' ∷ b'.' ∷ [])
    then take (length parts - 1) parts
    else parts ++ part ∷ []

unfoldable pub resolve : List Bytes → List Bytes → List Bytes
resolve parts [] = parts
resolve parts (raw ∷ rest) = resolve (resolve_step parts (clean_part raw)) rest

unfoldable pub clean : Bytes → Bytes
clean raw =
    let expanded = trim_drive (expand_constants 8 (trim_app raw)) in
    join (resolve [] (split (trim_slashes (replace_backslash expanded))))
