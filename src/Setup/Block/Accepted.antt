-- ===== src/Setup/Block/Accepted.antt =====
-- The blocks that `unwrapBlockChunks` of internal/setup/setup.go accepts.
use innoextract_go.Base.{
  ℕ, zero, suc, ◌≤◌, ◌<◌, ◌≡◌, refl, ap, ap₂, sym, ◌∙◌, arith, [], ◌∷◌, ◌++◌, length, ltb, take,
  drop, if◌then◌else◌, Bytes, IsBytes, IsBytes-take, IsBytes-drop, le_value, le_bytes, length-take,
  length-drop, take_all, append_assoc, le_bytes-le_value, take-append-drop, subst, ◌⊎◌, inl, inr,
}
use innoextract_go.Fault.{ok}
use innoextract_go.Setup.Block.Chunks.{Wrapped, last, piece}
use innoextract_go.Setup.Block.{unwrap_loop, unwrap_block_chunks}

-- How long the next piece of a body is.
abbrev piece_length : Bytes → ℕ
piece_length body = if ltb 4096 (length body) then 4096 else length body

module _ (crc32 : Bytes → ℕ) where
  Wrapped-nonempty : {content raw : Bytes} → Wrapped crc32 content raw → 0 < length raw
  unfolding le_bytes
  Wrapped-nonempty (last part some full) = omega arith
  Wrapped-nonempty (piece part content raw full rest) = omega arith

  -- What a round has tested, and what is left.
  record Accepted (fuel : ℕ) (raw out total : Bytes) : Type 0 where
    room : 4 ≤ length raw
    some : 0 < length (drop 4 raw)
    sum : crc32 (take (piece_length (drop 4 raw)) (drop 4 raw)) ≡ le_value (take 4 raw)
    left :
        unwrap_loop crc32 fuel
          (drop (piece_length (drop 4 raw)) (drop 4 raw))
          (out ++ take (piece_length (drop 4 raw)) (drop 4 raw))
        ≡ ok total

  round-Accepted :
      (fuel b : ℕ) (raw out total : Bytes)
      → unwrap_loop crc32 (suc fuel) (b ∷ raw) out ≡ ok total
      → Accepted fuel (b ∷ raw) out total
  unfolding unwrap_loop
  round-Accepted fuel b raw out total e = record {
    room = ground arith;
    some = ground arith;
    sum = ground arith;
    left = ground arith;
  }

  -- The checksum in front of the body, as it was written.
  checksum_bytes :
      (raw : Bytes) (sum : ℕ)
      → IsBytes raw
      → 4 ≤ length raw
      → sum ≡ le_value (take 4 raw)
      → le_bytes 4 sum ≡ take 4 raw
  checksum_bytes raw sum h room same =
      let size : length (take 4 raw) ≡ 4 = omega (arith, length-take 4 raw) in
      ap (le_bytes 4) same
      ∙ ap (λ (k : ℕ). le_bytes k (le_value (take 4 raw))) (sym size)
      ∙ le_bytes-le_value (take 4 raw) (IsBytes-take 4 raw h)

  -- A piece at the front: the last one if nothing is left.
  assemble_last :
      (fuel : ℕ) (raw out total : Bytes)
      → IsBytes raw
      → Accepted fuel raw out total
      → drop (piece_length (drop 4 raw)) (drop 4 raw) ≡ []
      → Wrapped crc32 (take (piece_length (drop 4 raw)) (drop 4 raw)) raw
  assemble_last fuel raw out total h a none_left =
      let body = drop 4 raw in
      let n = piece_length body in
      let gone : length (drop n body) ≡ 0 = ap length none_left in
      let short : length body ≤ 4096 = ground (arith, length-drop n body) in
      let whole : take n body ≡ body = take_all n body (ground arith) in
      let front = checksum_bytes raw (crc32 (take n body)) h a.room a.sum in
      let written : le_bytes 4 (crc32 (take n body)) ++ take n body ≡ raw =
        ap₂ ◌++◌ front whole ∙ take-append-drop 4 raw in
      let bounds : length (take n body) ≡ length body = ap length whole in
      subst (Wrapped crc32 (take n body)) written
        (last (take n body) (let s = a.some in omega arith) (omega arith))

  assemble_piece :
      (fuel : ℕ) (raw out total content : Bytes)
      → IsBytes raw
      → Accepted fuel raw out total
      → Wrapped crc32 content (drop (piece_length (drop 4 raw)) (drop 4 raw))
      → Wrapped crc32 (take (piece_length (drop 4 raw)) (drop 4 raw) ++ content) raw
  assemble_piece fuel raw out total content h a w =
      let body = drop 4 raw in
      let n = piece_length body in
      let more = Wrapped-nonempty w in
      let full : n ≡ 4096 = ground (arith, length-drop n body) in
      let size : length (take n body) ≡ 4096 =
        ground (arith, length-drop n body, length-take n body) in
      let front = checksum_bytes raw (crc32 (take n body)) h a.room a.sum in
      let written : le_bytes 4 (crc32 (take n body)) ++ (take n body ++ drop n body) ≡ raw =
        ap₂ ◌++◌ front (take-append-drop n body) ∙ take-append-drop 4 raw in
      subst (Wrapped crc32 (take n body ++ content)) written
        (piece (take n body) content (drop n body) size w)

  unwrap_loop-accepts :
      (fuel : ℕ) (raw out total : Bytes)
      → IsBytes raw
      → unwrap_loop crc32 fuel raw out ≡ ok total
      → ((raw ≡ []) × (total ≡ out))
        ⊎ ((content : Bytes) × (total ≡ out ++ content) × Wrapped crc32 content raw)
  unfolding unwrap_loop
  unwrap_loop-accepts fuel [] out total h e = inl (refl, cc)
  unwrap_loop-accepts zero (b ∷ raw) out total h e = absurd (cc)
  unwrap_loop-accepts (suc fuel) (b ∷ raw) out total h e =
      let a = round-Accepted fuel b raw out total e in
      let body = drop 4 (b ∷ raw) in
      let n = piece_length body in
      let part = take n body in
      let later = IsBytes-drop n body (IsBytes-drop 4 (b ∷ raw) h) in
      elim (unwrap_loop-accepts fuel (drop n body) (out ++ part) total later a.left) [
        | inl (gone, same) ↦ inr (part, same, assemble_last fuel (b ∷ raw) out total h a gone)
        | inr (content, same, w) ↦ inr (
          part ++ content,
          same ∙ append_assoc out part content,
          assemble_piece fuel (b ∷ raw) out total content h a w,
        )
      ]

  -- A block of bytes that is accepted is empty, or it is a block as a compiler writes it: every piece
  -- but the last has 4096 bytes, the last has at least one, and the checksum in front of each is its
  -- own. What is returned is the content of the pieces.
  pub unwrap_block_chunks-accepts :
      (raw content : Bytes)
      → IsBytes raw
      → unwrap_block_chunks crc32 raw ≡ ok content
      → ((raw ≡ []) × (content ≡ [])) ⊎ Wrapped crc32 content raw
  unfolding unwrap_block_chunks
  unwrap_block_chunks-accepts raw content h e =
      elim (unwrap_loop-accepts (length raw) raw [] content h e) [
        | inl none_there ↦ inl none_there
        | inr (pieces, same, w) ↦ inr (subst (λ c. Wrapped crc32 c raw) (sym same) w)
      ]
