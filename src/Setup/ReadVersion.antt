-- ===== src/Setup/ReadVersion.antt =====
-- `readVersion` of internal/setup/setup.go, and `Version.String` of internal/format/types.go.
use innoextract_go.Base.{
  ℕ, zero, suc, ◌+◌, ◌/◌, ◌%◌, Bool, true, not, ◌||◌, Option, none, some, List, [], ◌∷◌, ◌++◌,
  length, drop, get_or, ltb, leb, ◌==◌, if◌then◌else◌, Bytes,
}
use innoextract_go.Fault.{Result, ok, err, ◌>>=◌, ◌>>◌, fail_if, invalid_format}
use innoextract_go.Format.{Version}
use innoextract_go.Setup.Block.{read_at}
use innoextract_go.Stream.Reader.{ReaderAt}
use innoextract_go.Strings.{
  has_prefix, contains_text, trim_suffix, trim_space, split_at, scan_natural,
}

-- The text before the first zero byte.
unfoldable pub before_zero : Bytes → Bytes
before_zero [] = []
before_zero (c ∷ s) = let rest = before_zero s in if c == 0 then [] else c ∷ rest

-- "Inno Setup Setup Data ("
abbrev pub version_prefix : Bytes
version_prefix =
    (b'I' ∷ b'n' ∷ b'n' ∷ b'o' ∷ b' ' ∷ b'S' ∷ b'e' ∷ b't' ∷ b'u' ∷ b'p' ∷ b' ' ∷ [])
    ++ (b'S' ∷ b'e' ∷ b't' ∷ b'u' ∷ b'p' ∷ b' ' ∷ b'D' ∷ b'a' ∷ b't' ∷ b'a' ∷ b' ' ∷ b'(' ∷ [])

-- The text between the parentheses, without the mark of a Unicode version.
unfoldable pub version_inside : Bytes → Bytes
unfolding trim_suffix trim_space
version_inside s = trim_space (
    trim_suffix (trim_suffix (drop (length version_prefix) s) (b')' ∷ []))
      (b'(' ∷ b'u' ∷ b')' ∷ []))

abbrev pub version_number : Option ℕ → Result ℕ
version_number none = err invalid_format
version_number (some n) = if ltb 255 n then err invalid_format else ok n

-- The loop over the parts.
unfoldable pub version_numbers : List Bytes → Result (List ℕ)
unfolding scan_natural
version_numbers [] = ok []
version_numbers (part ∷ parts) = do
  n ← version_number (scan_natural part)
  rest ← version_numbers parts
  ok (n ∷ rest)

abbrev says_unicode : Bytes → Bool
unfolding contains_text
says_unicode s =
    contains_text s (b'(' ∷ b'u' ∷ b')' ∷ []) || contains_text s (b'(' ∷ b'U' ∷ b')' ∷ [])

unfoldable pub version_of : Bytes → List ℕ → Version
unfolding contains_text
version_of s nums = record {
  major = get_or nums 0 0;
  minor = get_or nums 1 0;
  patch = get_or nums 2 0;
  revision = get_or nums 3 0;
  unicode = leb 6 (get_or nums 0 0) || says_unicode s;
  known = true;
}

-- `readVersion`, of the text that was read.
unfoldable pub parse_version : Bytes → Result Version
unfolding has_prefix version_inside split_at version_numbers version_of
parse_version s = do
  fail_if (not (has_prefix s version_prefix)) invalid_format
  let parts = split_at b'.' (version_inside s)
  fail_if (ltb (length parts) 3 || ltb 4 (length parts)) invalid_format
  nums ← version_numbers parts
  ok (version_of s nums)

unfoldable pub read_version : ReaderAt → ℕ → Result Version
unfolding read_at before_zero parse_version
read_version r off = do b ← read_at r off 64; parse_version (before_zero b)

-- `strconv.Itoa` of a number that is not negative, on a fuel that is above its number of digits.
unfoldable pub digits : ℕ → ℕ → Bytes
digits zero n = []
digits (suc fuel) n =
    let front = digits fuel (n / 10) in
    if ltb n 10 then (b'0' + n) ∷ [] else front ++ (b'0' + n % 10) ∷ []

abbrev pub itoa : ℕ → Bytes
unfolding digits
itoa n = digits (suc n) n

-- `Version.String`
unfoldable pub version_text : Version → Bytes
unfolding digits
version_text v =
    let revision = if v.revision == 0 then [] else b'.' ∷ itoa v.revision in
    itoa v.major ++ (b'.' ∷ (itoa v.minor ++ (b'.' ∷ (itoa v.patch ++ revision))))
