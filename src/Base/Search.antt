-- ===== src/Base/Search.antt =====
-- The loops that look for the first index which meets a test.
use Prim.Native.Nat.{ℕ, suc, ◌+◌, ◌≤◌, ◌<◌}
use mathlib.Core.Path.{◌≡◌}
use mathlib.Core.Logic.{inl, inr}
use mathlib.Core.Bool.{Bool, true, false}
use mathlib.Core.Option.{Option, none, some}
use native.Mathlib.Omega.{arith}
use tom_cs.Base.Tests.{◌==◌, if◌then◌else◌, Bool-cases}

-- From `i` on, in `n` rounds: the index is the first that meets the test, or none does.
abbrev pub Finds : (ℕ → Bool) → ℕ → ℕ → Option ℕ → Type 0
Finds test i n none = (j : ℕ) → i ≤ j → j < i + n → test j ≡ false
Finds test i n (some k) =
    (i ≤ k) × (k < i + n) × (test k ≡ true) × ((j : ℕ) → i ≤ j → j < k → test j ≡ false)

module _ (test : ℕ → Bool) where
  pub Finds-zero : (i : ℕ) → Finds test i 0 none
  Finds-zero i = λ j lo hi. absurd (omega arith)

  Finds-next :
      (i n : ℕ) (r : Option ℕ) → test i ≡ false → Finds test (i + 1) n r → Finds test i (suc n) r
  Finds-next i n none no_match f = λ j lo hi. elim (Bool-cases (i == j)) [
    | inl same ↦ ground arith
    | inr other ↦ f j (ground arith) (omega arith)
  ]
  Finds-next i n (some k) no_match f = (
    omega arith,
    omega arith,
    f.2,
    λ j lo hi. elim (Bool-cases (i == j)) [
      | inl same ↦ ground arith
      | inr other ↦ f.3 j (ground arith) hi
    ],
  )

  -- A round of such a loop.
  pub Finds-suc :
      (i n : ℕ) (rest : Option ℕ)
      → Finds test (i + 1) n rest
      → Finds test i (suc n) (if test i then some i else rest)
  Finds-suc i n rest f = elim (Bool-cases (test i)) [
    | inl found ↦ rw found (omega arith, omega arith, found, λ j lo hi. absurd (omega arith))
    | inr none_here ↦ rw none_here (Finds-next i n rest none_here f)
  ]
