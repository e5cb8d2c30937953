-- ===== src/Api/Errors.antt =====
-- errors.go: the texts of the errors, and what they wrap. The text of an error that is wrapped is an
-- argument.
use innoextract_go.Base.{Option, none, some, List, [], ◌∷◌, ◌++◌, map, Bytes}
use innoextract_go.Api.Archive.{EntryError}
use innoextract_go.Fault.{Fault}

-- `strings.Join` with "; ".
unfoldable pub join_texts : List Bytes → Bytes
join_texts [] = []
join_texts (text ∷ []) = text
join_texts (text ∷ next ∷ texts) = text ++ b';' ∷ b' ' ∷ join_texts (next ∷ texts)

module _ (describe : Option Fault → Bytes) where
  -- `EntryError.Error`
  unfoldable pub entry_error_text : EntryError → Bytes
  entry_error_text e = e.entry.path ++ b':' ∷ b' ' ∷ describe e.error

  -- `ExtractError.Error`; a nil error is `none`.
  unfoldable pub extract_error_text : Option (List EntryError) → Bytes
  unfolding entry_error_text join_texts
  extract_error_text none = []
  extract_error_text (some failures) = join_texts (map entry_error_text failures)

-- `EntryError.Unwrap`
abbrev pub unwrap_entry : EntryError → Option Fault
unwrap_entry e = e.error

-- `ExtractError.Unwrap`
unfoldable pub unwrap_extract : Option (List EntryError) → List EntryError
unwrap_extract none = []
unwrap_extract (some failures) = failures
