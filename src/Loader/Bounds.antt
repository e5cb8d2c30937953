-- ===== src/Loader/Bounds.antt =====
-- The offsets that `Locate` of internal/loader/loader.go returns are none that an int64 cannot hold:
-- one rule for each way to build a result.
use innoextract_go.Base.{ℕ, ◌≤◌, Option, none, some, IsBytes, max_int64}
use innoextract_go.Fault.Ensures.{Ensures}
use innoextract_go.Format.{Offsets}
use innoextract_go.Stream.Reader.{ReaderAt}

-- The reader gives bytes, as a Go reader cannot help doing.
pub record GivesBytes (r : ReaderAt) : Type 0 where
  pub bytes : (n off : ℕ) → IsBytes (r.read_at n off).0

-- The offsets are int64 values that are not negative.
pub record InRange (o : Offsets) : Type 0 where
  pub exe : o.exe_offset ≤ max_int64
  pub header : o.header_offset ≤ max_int64
  pub content : o.data_offset ≤ max_int64

-- The offsets are in range, if there are any.
abbrev Some : Option Offsets → Type 0
Some none = Unit
Some (some o) = InRange o
