-- ===== src/Setup/Encrypted.antt =====
-- Whether an archive is encrypted, as `parseHeader` of internal/setup/setup.go finds it.
use innoextract_go.Base.{
  Bool-cases, ℕ, ◌+◌, ◌/◌, if◌then◌else◌, ◌-◌, ◌%◌, ◌^◌, ◌≤◌, ◌<◌, ◌≡◌, refl, ap, ◌∙◌, arith, Bool,
  true, false, length, take, drop, le_value, Bytes, ◌⊎◌, inl, inr,
}
use innoextract_go.Fault.{ok}
use innoextract_go.Format.{Version, Header}
use innoextract_go.Setup.Cursor.Leaves.{Leaves, Leaves-weaken, Leaves->>=, Leaves->>, Leaves-last}
use innoextract_go.Setup.Cursor.{Cursor, read, read_bits, has_bit}
use innoextract_go.Setup.Flags.Encryption.{flag_number, flag_width, number_eq, width_eq}
use innoextract_go.Setup.Flags.{read_header_flags, is_encrypted, header_flag_count}
use innoextract_go.Setup.Header.{Counts, parse_header, parse_tail}
use innoextract_go.Setup.Version.{version_at_least}

-- The number is the one of the `n` bytes that stand before the cursor.
record BitsBefore (n : ℕ) (flags : ℕ) (c : Cursor) : Type 0 where
  pub before : n ≤ c.pos
  pub there : n ≤ length c.b - (c.pos - n)
  pub value : flags ≡ le_value (take n (drop (c.pos - n) c.b)) % 2 ^ 64

-- The bytes that `read` returns stand before the cursor that it leaves.
record BytesBefore (n : ℕ) (bs : Bytes) (c : Cursor) : Type 0 where
  before : n ≤ c.pos
  there : n ≤ length c.b - (c.pos - n)
  bytes : bs ≡ take n (drop (c.pos - n) c.b)

read_parts :
    (n : ℕ) (c c' : Cursor) {bs : Bytes}
    → read n c ≡ ok (bs, c')
    → (n ≤ length c.b - c.pos)
      × (c'.b ≡ c.b)
      × (c'.pos ≡ c.pos + n)
      × (bs ≡ take n (drop c.pos c.b))
unfolding read
read_parts n c c' e = ground arith

read-BytesBefore : (n : ℕ) → Leaves (BytesBefore n) (read n)
read-BytesBefore n = record {
  leaves = λ c bs c' e.
      let (fits, same, moved, bytes) = read_parts n c c' e in
      let at : c'.pos - n ≡ c.pos = omega arith in
      record { before = omega arith; there = rw (same, at) fits; bytes = rw (same, at) bytes };
}

read_bits-BitsBefore : (n : ℕ) → Leaves (BitsBefore n) (read_bits n)
unfolding read_bits
read_bits-BitsBefore n = Leaves-last (BitsBefore n) (read n) _ (record {
  leaves = λ c bs c' e.
      let h = (read-BytesBefore n).leaves c bs c' e in
      record { before = h.before; there = h.there; value = ap (λ x. le_value x % 2 ^ 64) h.bytes };
})

-- The flags are the last that the header reads.
parse_tail-BitsBefore :
    (v : Version) (n : ℕ)
    → Leaves (BitsBefore n) (read_header_flags v)
    → Leaves (λ r. BitsBefore n r.1.1) (parse_tail v)
unfolding parse_tail
parse_tail-BitsBefore v n h = search (Leaves-last, Leaves->>=, Leaves->>) depth 40

-- The bytes that `readHeaderFlags` reads.
abbrev width : Version → ℕ
width v = if version_at_least v 6 7 0 then 8 else (header_flag_count v + 7) / 8

-- What a header says of encryption, by the flags before the cursor.
record ByFlags (v : Version) (outer : Bool) (h : Header) (c : Cursor) : Type 0 where
  flags : ℕ
  bits : BitsBefore (width v) flags c
  encrypted : h.encrypted ≡ (if version_at_least v 6 5 0 then outer else is_encrypted v flags)
  unsupported : h.unsupported_encryption ≡ h.encrypted

parse_header-ByFlags :
    (v : Version) (outer : Bool) (limit : ℕ)
    → Leaves (λ r. ByFlags v outer r.0) (parse_header v outer limit)
unfolding parse_header read_header_flags
parse_header-ByFlags v outer limit = Leaves->>= _ _ _ λ texts. Leaves->>= _ _ _ λ counts.
    Leaves->> _ _ _ (
      Leaves->> _ _ _ (
        Leaves->>= _ _ _ λ password. Leaves-last _ (parse_tail v) _ (
          Leaves-weaken (λ r. BitsBefore (width v) r.1.1) _ (parse_tail v)
            (λ rest c b. record {
              flags = rest.1.1;
              bits = b;
              encrypted = refl;
              unsupported = refl;
            })
            (parse_tail-BitsBefore v (width v) (read_bits-BitsBefore (width v))))))

-- The flag "EncryptionUsed" as it stands in the bytes before the cursor.
abbrev pub flag_before : Version → Cursor → Bool
flag_before v c =
    has_bit (le_value (take (flag_width v) (drop (c.pos - flag_width v) c.b)) % 2 ^ 64)
      (flag_number v)

not_6_7 : (v : Version) → version_at_least v 6 5 0 ≡ false → version_at_least v 6 7 0 ≡ false
unfolding version_at_least
not_6_7 v early = ground arith

width-flag_width :
    (v : Version) → v.major ≡ 6 → version_at_least v 6 5 0 ≡ false → width v ≡ flag_width v
width-flag_width v six early = rw (not_6_7 v early) (width_eq v six early)

is_encrypted-has_bit :
    (v : Version) (flags : ℕ)
    → v.major ≡ 6
    → version_at_least v 6 5 0 ≡ false
    → is_encrypted v flags ≡ has_bit flags (flag_number v)
unfolding is_encrypted
is_encrypted-has_bit v flags six early = rw (is_encrypted, number_eq v six early) refl

flag_width-positive : (v : Version) → 0 < flag_width v
flag_width-positive v = ground arith

-- A header that is parsed in the format of major version 6 names its archive encrypted from 6.5.0 on
-- when the outer header does, and before by the bit of "EncryptionUsed" in the six or seven bytes of
-- flags that end the header, which stand inside the block: bit 36 before 6.4.0.1, then bit 31. The
-- encryption is reported as unsupported in the same cases.
pub parse_header-encrypted :
    (v : Version) (outer : Bool) (limit : ℕ) (c c' : Cursor) {h : Header} {counts : Counts}
    → v.major ≡ 6
    → parse_header v outer limit c ≡ ok ((h, counts), c')
    → (h.unsupported_encryption ≡ h.encrypted)
      × (((version_at_least v 6 5 0 ≡ true) × (h.encrypted ≡ outer))
          ⊎ ((version_at_least v 6 5 0 ≡ false)
              × (flag_width v ≤ c'.pos)
              × (c'.pos ≤ length c'.b)
              × (h.encrypted ≡ flag_before v c')))
parse_header-encrypted v outer limit c c' {h} {counts} six e =
    let found = (parse_header-ByFlags v outer limit).leaves c (h, counts) c' e in
    (
      found.unsupported,
      elim (Bool-cases (version_at_least v 6 5 0)) [
        | inl late ↦ inl (late, rw (late) at found.encrypted)
        | inr early ↦
            let w = width-flag_width v six early in
            let bits : BitsBefore (flag_width v) found.flags c' = rw (w) at found.bits in
            let bit : h.encrypted ≡ is_encrypted v found.flags = rw (early) at found.encrypted in
            let positive = flag_width-positive v in
            let before = bits.before in
            let there = bits.there in
            inr (
              early,
              before,
              omega arith,
              bit
                  ∙ is_encrypted-has_bit v found.flags six early
                  ∙ ap (λ x. has_bit x (flag_number v)) bits.value,
            )
      ],
    )
