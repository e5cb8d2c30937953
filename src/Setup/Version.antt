-- ===== src/Setup/Version.antt =====
-- `versionAtLeast` and `versionBefore` of internal/setup/setup.go.
use innoextract_go.Base.{
  ℕ, ◌<◌, ◌≤◌, ◌≡◌, arith, Bool, true, not, ltb, leb, ◌==◌, if◌then◌else◌, ◌⊎◌,
}
use innoextract_go.Format.{Version}

unfoldable pub version_at_least : Version → ℕ → ℕ → ℕ → Bool
version_at_least v a b c =
    if not (v.major == a)
    then ltb a v.major
    else if not (v.minor == b)
    then ltb b v.minor
    else leb c v.patch

unfoldable pub version_before : Version → ℕ → ℕ → ℕ → ℕ → Bool
version_before v a b c d =
    if not (v.major == a)
    then ltb v.major a
    else if not (v.minor == b)
    then ltb v.minor b
    else if not (v.patch == c)
    then ltb v.patch c
    else ltb v.revision d

-- The two tests are each other's negation at a version without a revision.
pub version_at_least-not-version_before :
    (v : Version) (a b c : ℕ) → version_at_least v a b c ≡ not (version_before v a b c 0)
unfolding version_at_least version_before
version_at_least-not-version_before v a b c = ground arith

-- A version that reaches a threshold reaches every threshold that is lexicographically lower.
pub version_at_least_mono :
    (v : Version) (a b c a' b' c' : ℕ)
    → version_at_least v a b c ≡ true
    → (a' < a) ⊎ ((a' ≡ a) × ((b' < b) ⊎ ((b' ≡ b) × (c' ≤ c))))
    → version_at_least v a' b' c' ≡ true
unfolding version_at_least
version_at_least_mono v a b c a' b' c' h below = ground arith
