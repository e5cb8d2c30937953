-- ===== src/Stream/Reader.antt =====
-- The readers of package io, which the library is given: `io.ReaderAt`, and the functions that hand
-- out the readers of external slices.
use innoextract_go.Base.{
  ℕ, ◌≤◌, ◌<◌, ◌≢◌, arith, Option, none, some, [], length, take, drop, ltb, if◌then◌else◌, Bytes,
  length-take,
}
use innoextract_go.Fault.{Fault, Result, eof, other}

-- `ReadAt(p, off)` by `len(p)` and `off`: the bytes that it reads, and its error.
pub record ReaderAt : Type 0 where
  pub read_at : ℕ → ℕ → Bytes × Option Fault

-- Documented behaviour of `io.ReaderAt`: it reads no more than it is asked for, and an error says
-- why when it reads less.
pub record Documented (r : ReaderAt) : Type 0 where
  pub bounded : (n off : ℕ) → length (r.read_at n off).0 ≤ n
  pub explained : (n off : ℕ) → length (r.read_at n off).0 < n → (r.read_at n off).1 ≢ none

-- `func(uint32) (io.ReaderAt, error)`; the reader may be nil.
abbrev pub Provider : Type 0
Provider = ℕ → Result (Option ReaderAt)

-- A nil interface value, which the code does not read from.
abbrev pub nil_reader : ReaderAt
nil_reader = record { read_at = λ n off. ([], some other) }

-- A `bytes.Reader` over the content of a file.
unfoldable pub file_reader : Bytes → ReaderAt
file_reader content = record {
  read_at = λ n off. (
    take n (drop off content),
    if ltb (length (take n (drop off content))) n then some eof else none,
  );
}

pub file_reader-Documented : (content : Bytes) → Documented (file_reader content)
unfolding file_reader
file_reader-Documented content = record {
  bounded = λ n off. omega (arith, length-take n (drop off content));
  explained = λ n off h. ground arith;
}
