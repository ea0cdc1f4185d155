-- ===== src/Base/Maps.antt =====
-- Functions from numbers as maps: threads by index, memory by address.
use Prim.Native.Nat.{ℕ}
use tom_cs.Base.Tests.{◌==◌, if◌then◌else◌}

abbrev pub update {ℓ} : {A : Type ℓ} → (ℕ → A) → ℕ → A → ℕ → A
update f i a j = if i == j then a else f j
