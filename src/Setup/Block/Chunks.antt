-- ===== src/Setup/Block/Chunks.antt =====
-- `unwrapBlockChunks` of internal/setup/setup.go against the format that it undoes.
use innoextract_go.Base.{
  ℕ, zero, suc, ◌^◌, ◌≤◌, ◌<◌, ◌≡◌, refl, ap, sym, ◌∙◌, arith, [], ◌++◌, length, ltb, if◌then◌else◌,
  Bytes, le_value, le_bytes, length-append, append_assoc, append-nil, le_value-le_bytes,
  take-append_left, drop-append_left, ==_refl, subst,
}
use innoextract_go.Fault.{ok}
use innoextract_go.Setup.Block.{unwrap_loop, unwrap_block_chunks}

-- How a compiler writes a block: pieces of 4096 bytes, and a last one of at least a byte, each behind
-- its checksum.
pub data Wrapped (crc32 : Bytes → ℕ) : Bytes → Bytes → Type 0 where
  last :
      (part : Bytes)
      → 0 < length part
      → length part ≤ 4096
      → Wrapped crc32 part (le_bytes 4 (crc32 part) ++ part)
  piece :
      (part content raw : Bytes)
      → length part ≡ 4096
      → Wrapped crc32 content raw
      → Wrapped crc32 (part ++ content) (le_bytes 4 (crc32 part) ++ (part ++ raw))

unwrap_loop-nil :
    (crc32 : Bytes → ℕ) (fuel : ℕ) (out : Bytes) → unwrap_loop crc32 fuel [] out ≡ ok out
unfolding unwrap_loop
unwrap_loop-nil crc32 fuel out = refl

module _ (crc32 : Bytes → ℕ) (word : (bs : Bytes) → crc32 bs < 2 ^ 32) where
  unwrap_step :
      (fuel : ℕ) (part raw out : Bytes)
      → (n : ℕ) → n ≡ length part
      → (if ltb 4096 (length (part ++ raw)) then 4096 else length (part ++ raw)) ≡ n
      → 0 < n
      → unwrap_loop crc32 (suc fuel) (le_bytes 4 (crc32 part) ++ (part ++ raw)) out
        ≡ unwrap_loop crc32 fuel raw (out ++ part)
  unfolding unwrap_loop le_bytes
  unwrap_step fuel part raw out n size cut some =
      let value : le_value (le_bytes 4 (crc32 part)) ≡ crc32 part =
        le_value-le_bytes 4 (crc32 part) (word part) in
      let taken = take-append_left n part raw (sym size) in
      let left = drop-append_left n part raw (sym size) in
      rw (cut, taken, left, value, ==_refl (crc32 part)) (ground arith)

  unwrap_loop-Wrapped :
      (fuel : ℕ) (content raw out : Bytes)
      → Wrapped crc32 content raw
      → length raw ≤ fuel
      → unwrap_loop crc32 fuel raw out ≡ ok (out ++ content)
  unfolding unwrap_loop le_bytes
  unwrap_loop-Wrapped zero content _ out (last part some full) room = absurd (omega arith)
  unwrap_loop-Wrapped zero _ _ out (piece part content raw full rest) room = absurd (omega arith)
  unwrap_loop-Wrapped (suc fuel) content _ out (last part some full) room =
      let step =
        unwrap_step fuel content [] out (length content) refl
          (ground (arith, length-append content [])) some in
      subst
        (λ xs.
          unwrap_loop crc32 (suc fuel) (le_bytes 4 (crc32 content) ++ xs) out
          ≡ unwrap_loop crc32 fuel [] (out ++ content))
        (append-nil content) step
      ∙ unwrap_loop-nil crc32 fuel (out ++ content)
  unwrap_loop-Wrapped (suc fuel) _ _ out (piece part content raw full rest) room =
      unwrap_step fuel part raw out (length part) refl (ground (arith, length-append part raw))
        (omega arith)
      ∙ unwrap_loop-Wrapped fuel content raw (out ++ part) rest
          (omega (arith, length-append part raw))
      ∙ ap ok (append_assoc out part content)

  -- A block whose content a compiler has cut into pieces of 4096 bytes and a last one of at least a
  -- byte, each behind its checksum, unwraps to that content. The checksums are numbers of 32 bits.
  pub unwrap_block_chunks-Wrapped :
      (content raw : Bytes) → Wrapped crc32 content raw → unwrap_block_chunks crc32 raw ≡ ok content
  unfolding unwrap_block_chunks
  unwrap_block_chunks-Wrapped content raw w =
      unwrap_loop-Wrapped (length raw) content raw [] w (omega arith)
