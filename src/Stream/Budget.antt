-- ===== src/Stream/Budget.antt =====
-- `memoryBudget` of internal/stream/stream.go. `Extract` refuses a negative limit before it makes a
-- budget, so both fields are natural numbers here.
use innoextract_go.Base.{ℕ, ◌+◌, ◌-◌, ◌≤◌, ◌≡◌, arith, leb, ltb, if◌then◌else◌, ◌↔◌}
use innoextract_go.Fault.{Result, ok, err, limit_exceeded}

pub record MemoryBudget : Type 0 where
  pub limit : ℕ
  pub used : ℕ

unfoldable pub available : MemoryBudget → ℕ
available b = if leb b.limit b.used then 0 else b.limit - b.used

unfoldable pub reserve : MemoryBudget → ℕ → Result MemoryBudget
reserve b n =
    if ltb (available b) n then err limit_exceeded else ok (record b { used = b.used + n })

unfoldable pub release : MemoryBudget → ℕ → MemoryBudget
release b n = if leb b.used n then record b { used = 0 } else record b { used = b.used - n }

-- No more is in use than the limit allows.
abbrev pub Within : MemoryBudget → Type 0
Within b = b.used ≤ b.limit

pub available-add : (b : MemoryBudget) → Within b → b.used + available b ≡ b.limit
unfolding available
available-add b h = ground arith

-- From a budget within its limit, a reservation succeeds exactly if what is in use and what is
-- asked for fit the limit together, and then that sum is in use under the same limit.
pub reserve_iff :
    (b : MemoryBudget) (n : ℕ) (b' : MemoryBudget)
    → Within b
    → (reserve b n ≡ ok b')
      ↔ ((b.used + n ≤ b.limit) × (b'.used ≡ b.used + n) × (b'.limit ≡ b.limit))
unfolding reserve available
reserve_iff b n b' h = ground arith

-- From a budget within its limit, a reservation that succeeds stays within it, and its release leaves
-- the budget as it was.
pub release-reserve :
    (b : MemoryBudget) (n : ℕ) {b' : MemoryBudget}
    → Within b
    → reserve b n ≡ ok b'
    → Within b' × (release b' n ≡ b)
unfolding reserve release available
release-reserve b n h e = ground arith

pub release-Within : (b : MemoryBudget) (n : ℕ) → Within b → Within (release b n)
unfolding release
release-Within b n h = ground arith
