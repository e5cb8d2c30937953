-- ===== src/Stream/Slice/Loop.antt =====
-- The loop of `Read` ends within its fuel, whatever readers it is given that behave as package io
-- documents.
use innoextract_go.Base.{
  ℕ, zero, suc, ◌+◌, ◌-◌, ◌^◌, ◌≤◌, ◌<◌, ◌≡◌, ◌≢◌, refl, arith, false, Option, none, some, [], ◌++◌,
  length, ltb, leb, ◌==◌, Bytes, u64, if-elim, le_value, drop, max_uint64, not, ◌&&◌, ◌⊎◌, inl, inr,
  length-append,
}
use innoextract_go.Fault.{Fault, Result, ok, err, is_eof, Result-cases}
use innoextract_go.Stream.Reader.{ReaderAt, Provider, Documented}
use innoextract_go.Stream.Slice.{
  SliceSource, checked_offset, is_slice_header, open_sized, open_raw, open_reader, open_found,
  open_from, open_slice, round_after_open, Round, stop, more, sized, next_slice, after_eof,
  after_short, after_read, wanted, read_current, round_opened, round, Reading, read_loop,
  read_embedded, read_fuel, read,
}

-- The source stands at one of its slices, and its readers behave as documented.
pub record Ready (s : SliceSource) : Type 0 where
  pub in_range : s.slice ≤ s.last
  pub last_word : s.last < 2 ^ 32
  pub provided :
      (p : Provider) (i : ℕ) (r : ReaderAt) → s.provider ≡ some p → p i ≡ ok (some r) → Documented r
  pub embedded_reader : Documented s.r
  pub current_reader : Documented s.current

-- A round leaves fewer slices and free bytes than it found, or ends the loop.
abbrev Progress : SliceSource → ℕ → Round → Type 0
Progress s n (stop got f s') = length got ≤ n
Progress s n (more got s') =
    (length got ≤ n) × Ready s' × (s'.last - s'.slice + (n - length got) < s.last - s.slice + n)

-- What stays when only the position, the bounds and the reader change.
Ready-same :
    (s s' : SliceSource)
    → Ready s
    → (s'.slice ≡ s.slice) × (s'.last ≡ s.last) × (s'.provider ≡ s.provider) × (s'.r ≡ s.r)
    → Documented s'.current
    → Ready s'
Ready-same s s' h (a, b, c, d) r = record {
  in_range = rw (a, b) h.in_range;
  last_word = rw b h.last_word;
  provided = rw c h.provided;
  embedded_reader = rw d h.embedded_reader;
  current_reader = r;
}

Ready-moved : (s : SliceSource) (p : ℕ) → Ready s → Ready (record s { pos = p })
Ready-moved s p h = Ready-same s (record s { pos = p }) h (refl, refl, refl, refl) h.current_reader

next_slice-lt : (s : SliceSource) → Ready s → s.slice ≢ s.last → (next_slice s).slice ≡ s.slice + 1
next_slice-lt s h ne = let a = h.in_range in let b = h.last_word in omega arith

Ready-next : (s : SliceSource) → Ready s → s.slice ≢ s.last → Ready (next_slice s)
Ready-next s h ne = record {
  in_range = let a = h.in_range in omega (arith, next_slice-lt s h ne);
  last_word = h.last_word;
  provided = h.provided;
  embedded_reader = h.embedded_reader;
  current_reader = h.current_reader;
}

-- Going on to the next slice is progress.
next_slice-Progress :
    (s : SliceSource) (n : ℕ) (got : Bytes)
    → Ready s
    → length got ≤ n
    → s.slice ≢ s.last
    → Progress s n (more got (next_slice s))
next_slice-Progress s n got h l ne =
    let a = h.in_range in (l, Ready-next s h ne, omega (arith, next_slice-lt s h ne))

after_eof-Progress :
    (s : SliceSource) (n : ℕ) (got : Bytes)
    → Ready s
    → length got ≤ n
    → Progress s n (after_eof s got)
unfolding after_eof
after_eof-Progress s n got h l =
    if-elim (Progress s n) (sized s && ltb s.pos s.end) _ _ (λ _. l)
      λ _.
        if-elim (Progress s n) (s.slice == s.last) _ _ (λ _. l)
          λ before. next_slice-Progress s n got h l (ground arith)

after_short-Progress :
    (s : SliceSource) (n : ℕ) (got : Bytes) (e : Option Fault)
    → Ready s
    → length got ≤ n
    → Progress s n (after_short s got e)
unfolding after_short
after_short-Progress s n got none h l = l
after_short-Progress s n got (some f) h l =
    if-elim (Progress s n) (not (is_eof f)) _ _ (λ _. l) (λ _. after_eof-Progress s n got h l)

-- Only what a slice holds has changed since.
Progress-same :
    (s s' : SliceSource) (n : ℕ) (r : Round)
    → (s'.slice ≡ s.slice) × (s'.last ≡ s.last)
    → Progress s' n r
    → Progress s n r
Progress-same s s' n (stop got f t) e h = h
Progress-same s s' n (more got t) e h = (h.0, h.1, omega arith)

Progress-moved :
    (s : SliceSource) (p n : ℕ) (r : Round) → Progress (record s { pos = p }) n r → Progress s n r
Progress-moved s p n (stop got f s') h = h
Progress-moved s p n (more got s') h = h

after_read-Progress :
    (s : SliceSource) (n want : ℕ) (got : Bytes) (e : Option Fault)
    → Ready s
    → (0 < want) × (want ≤ n)
    → length got ≤ want
    → Progress s n (after_read s want got e)
unfolding after_read
after_read-Progress s n want got e h w l =
    let p = u64 (s.pos + length got) in
    let moved = Ready-moved s p h in
    if-elim (Progress s n) (length got == want) _ _ (λ full. (omega arith, moved, ground arith))
      λ _.
        Progress-moved s p n _
          (after_short-Progress (record s { pos = p }) n got e moved (omega arith))

read_current-Progress :
    (s : SliceSource) (n want : ℕ)
    → Ready s
    → (0 < want) × (want ≤ n)
    → Progress s n (read_current s want)
unfolding read_current
read_current-Progress s n want h w = elim (Result-cases (checked_offset s.base s.pos)) [
  | inr (f, e) ↦ rw (e, read_current) (omega arith)
  | inl (offset, e) ↦
      rw (e, read_current)
        (after_read-Progress s n want _ _ h w (h.current_reader.bounded want offset))
]

wanted-le : (s : SliceSource) (n : ℕ) → wanted s n ≤ n
unfolding wanted
wanted-le s n = ground arith

wanted_pos :
    (s : SliceSource) (n : ℕ) → (sized s && leb s.end s.pos) ≡ false → 0 < n → 0 < wanted s n
unfolding wanted
wanted_pos s n h p = ground arith

round_opened-Progress :
    (s : SliceSource) (n : ℕ) → Ready s → 0 < n → Progress s n (round_opened s n)
unfolding round_opened
round_opened-Progress s n h free =
    if-elim (Progress s n) (sized s && leb s.end s.pos) _ _
      (λ _.
        if-elim (Progress s n) (s.slice == s.last) _ _ (λ _. omega arith)
          λ before. next_slice-Progress s n [] h (omega arith) (ground arith))
      (λ inside.
        let p = wanted_pos s n inside free in
        if-elim (Progress s n) (wanted s n == 0) _ _ (λ z. absurd (ground arith))
          λ _. read_current-Progress s n (wanted s n) h (p, wanted-le s n))

-- `open` changes the reader, the bounds and the mark, and nothing else.
record Reopened (s s' : SliceSource) : Type 0 where
  same_slice : s'.slice ≡ s.slice
  same_last : s'.last ≡ s.last
  same_provider : s'.provider ≡ s.provider
  same_r : s'.r ≡ s.r
  documented : Documented s'.current

module _ (s s' : SliceSource) (h : Reopened s s') where
  abbrev Opens : Result (Unit {0}) × SliceSource → Type 0
  Opens t = Reopened s t.1

  open_sized-Opens : (header : Bytes) → Opens (open_sized s' header)
  unfolding open_sized
  open_sized-Opens header =
      if-elim Opens (ltb (length header) 12) _ _ (λ _. h)
        λ _.
          if-elim Opens (ltb (le_value (drop 8 header)) 12) _ _ (λ _. h)
            λ _. record {
              same_slice = h.same_slice;
              same_last = h.same_last;
              same_provider = h.same_provider;
              same_r = h.same_r;
              documented = h.documented;
            }

  open_raw-Opens : (header : Bytes) (e : Option Fault) → Opens (open_raw s' header e)
  unfolding open_raw
  open_raw-Opens header none = record {
    same_slice = h.same_slice;
    same_last = h.same_last;
    same_provider = h.same_provider;
    same_r = h.same_r;
    documented = h.documented;
  }
  open_raw-Opens header (some f) =
      if-elim Opens (length header == 0 && not (is_eof f)) _ _ (λ _. h)
        λ _. record {
          same_slice = h.same_slice;
          same_last = h.same_last;
          same_provider = h.same_provider;
          same_r = h.same_r;
          documented = h.documented;
        }

Reopened-refl : (s s' : SliceSource) → Ready s → Reopened s s
Reopened-refl s s' h = record {
  same_slice = refl;
  same_last = refl;
  same_provider = refl;
  same_r = refl;
  documented = h.current_reader;
}

open_reader-Reopened :
    (s : SliceSource) (r : ReaderAt) → Documented r → Reopened s (open_reader s r).1
unfolding open_reader
open_reader-Reopened s r d =
    let s' = record s { current = r; base = 0; end = max_uint64 } in
    let h : Reopened s s' = record {
      same_slice = refl;
      same_last = refl;
      same_provider = refl;
      same_r = refl;
      documented = d;
    } in
    if-elim (Opens s s' h) (is_slice_header (r.read_at 12 0).0) _ _
      (λ _. open_sized-Opens s s' h (r.read_at 12 0).0)
      (λ _. open_raw-Opens s s' h (r.read_at 12 0).0 (r.read_at 12 0).1)

open_found-Reopened :
    (s : SliceSource) (found : Result (Option ReaderAt))
    → Ready s
    → ((r : ReaderAt) → found ≡ ok (some r) → Documented r)
    → Reopened s (open_found s found).1
unfolding open_found
open_found-Reopened s (err e) h d = Reopened-refl s s h
open_found-Reopened s (ok none) h d = Reopened-refl s s h
open_found-Reopened s (ok (some r)) h d = open_reader-Reopened s r (d r refl)

open_from-Reopened :
    (s : SliceSource) (p : Option Provider)
    → Ready s
    → s.provider ≡ p
    → Reopened s (open_from s p).1
unfolding open_from
open_from-Reopened s none h e = Reopened-refl s s h
open_from-Reopened s (some provider) h e =
    open_found-Reopened s (provider s.slice) h (λ r. h.provided provider s.slice r e)

open_slice-Ready :
    (s : SliceSource) → Ready s → Reopened s (open_slice s).1 × Ready (open_slice s).1
open_slice-Ready s h =
    let o = open_from-Reopened s s.provider h refl in
    (
      o,
      Ready-same s (open_slice s).1 h (o.same_slice, o.same_last, o.same_provider, o.same_r)
          o.documented,
    )

round_after_open-Progress :
    (s s' : SliceSource) (r : Result (Unit {0})) (n : ℕ)
    → Reopened s s'
    → Ready s'
    → 0 < n
    → Progress s n (round_after_open n (r, s'))
unfolding round_after_open
round_after_open-Progress s s' (err f) n o h free = omega arith
round_after_open-Progress s s' (ok _) n o h free =
    Progress-same s s' n (round_opened s' n) (o.same_slice, o.same_last)
      (round_opened-Progress s' n h free)

round-Progress : (s : SliceSource) (n : ℕ) → Ready s → 0 < n → Progress s n (round s n)
unfolding round
round-Progress s n h free =
    if-elim (Progress s n) s.opened _ _ (λ _. round_opened-Progress s n h free)
      λ _.
        let (o, h') = open_slice-Ready s h in
        round_after_open-Progress s (open_slice s).1 (open_slice s).0 n o h' free

Round-cases :
    (r : Round)
    → ((got : Bytes) × (f : Fault) × (s : SliceSource) × (r ≡ stop got f s))
      ⊎ ((got : Bytes) × (s : SliceSource) × (r ≡ more got s))
Round-cases (stop got f s) = inl (got, f, s, refl)
Round-cases (more got s) = inr (got, s, refl)

-- Enough fuel gives a result, which fits the buffer.
read_loop_total :
    (fuel : ℕ) (s : SliceSource) (n : ℕ) (total : Bytes)
    → Ready s
    → s.last - s.slice + n ≤ fuel
    → (out : Reading) × (read_loop fuel s n total ≡ some out) × (length out.got ≤ length total + n)
unfolding read_loop
read_loop_total fuel s zero total h f = (_, refl, omega arith)
read_loop_total zero s (suc n) total h f = absurd (omega arith)
read_loop_total (suc fuel) s (suc n) total h f = elim (Round-cases (round s (suc n))) [
  | inl (got, e, s', eq) ↦
      let p = rw eq at (round-Progress s (suc n) h (omega arith)) in
      (
        record { got = total ++ got; error = some e; source = s' },
        rw (eq, read_loop),
        omega (arith, length-append total got),
      )
  | inr (got, s', eq) ↦
      let p = rw eq at (round-Progress s (suc n) h (omega arith)) in
      let (out, found, l) =
        read_loop_total fuel s' (suc n - length got) (total ++ got) p.1 (omega arith) in
      (out, rw (eq, read_loop) found, omega (arith, length-append total got))
]

read_embedded_bounded : (s : SliceSource) (n : ℕ) → Ready s → length (read_embedded s n).got ≤ n
unfolding read_embedded
read_embedded_bounded s n h = elim (Result-cases (checked_offset s.data_start s.pos)) [
  | inr (f, e) ↦ rw (e, read_embedded) (omega arith)
  | inl (offset, e) ↦ rw (e, read_embedded) (h.embedded_reader.bounded n offset)
]

-- `Read` returns: with readers that behave as documented, and at a slice of its range whose last
-- number has 32 bits, it comes to a result in `last - slice + n` rounds, and has put no more than `n`
-- bytes into its buffer.
pub read_total :
    (s : SliceSource) (n : ℕ)
    → Ready s
    → (out : Reading) × (read s n ≡ some out) × (length out.got ≤ n)
unfolding read
read_total s n h =
    let Total = λ (t : Option Reading). (out : Reading) × (t ≡ some out) × (length out.got ≤ n) in
    if-elim Total (n == 0) _ _
      (λ _. (record { got = []; error = none; source = s }, refl, omega arith))
      λ _.
        if-elim Total s.embedded _ _ (λ _. (read_embedded s n, refl, read_embedded_bounded s n h))
          λ _.
            let (out, found, l) = read_loop_total (read_fuel s n) s n [] h (omega arith) in
            (out, found, omega arith)
