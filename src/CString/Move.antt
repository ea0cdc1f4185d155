-- ===== src/CString/Move.antt =====
-- `memset` and `memmove` as equations for each byte of the memory that they leave.
use tom_cs.Base.{
  ℕ, zero, suc, ◌+◌, ◌-◌, ◌%◌, ◌≤◌, ◌≡◌, ◌⊎◌, inl, inr, Bool, ◌&&◌, ltb, leb, if◌then◌else◌, update,
  Bool-cases, arith,
}
use tom_cs.CString.{Memory, memset, copy_down, copy_up, memmove}

-- The byte `x` lies in the `n` bytes from `p` on.
abbrev pub within : ℕ → ℕ → ℕ → Bool
within p n x = leb p x && ltb x (p + n)

-- `memset` writes `c` to each of the `n` bytes, and nowhere else.
pub memset_lem :
    (d c n : ℕ) (m : Memory) (x : ℕ) → memset d c n m x ≡ (if within d n x then c % 256 else m x)
unfolding memset
memset_lem d c zero m x = ground arith
memset_lem d c (suc n) m x = ground (arith, memset_lem (d + 1) c n (update m d (c % 256)) x)

copy_down_lem :
    (d s n : ℕ) (m : Memory) (x : ℕ)
    → s ≤ d
    → copy_down d s n m x ≡ (if within d n x then m (s + (x - d)) else m x)
unfolding copy_down
copy_down_lem d s zero m x h = ground arith
copy_down_lem d s (suc n) m x h =
    ground (arith, copy_down_lem d s n (update m (d + n) (m (s + n))) x h)

copy_up_lem :
    (d s n : ℕ) (m : Memory) (x : ℕ)
    → (d ≤ s) ⊎ (s + n ≤ d)
    → copy_up d s n m x ≡ (if within d n x then m (s + (x - d)) else m x)
unfolding copy_up
copy_up_lem d s zero m x h = ground arith
copy_up_lem d s (suc n) m x h =
    ground (arith, copy_up_lem (d + 1) (s + 1) n (update m d (m s)) x (omega arith))

-- `memmove` leaves in the `n` bytes from `d` on what stood in those from `s` on before the call,
-- however the two overlap, and changes no other byte.
pub memmove_lem :
    (d s n : ℕ) (m : Memory) (x : ℕ)
    → memmove d s n m x ≡ (if within d n x then m (s + (x - d)) else m x)
unfolding memmove
memmove_lem d s n m x = elim (Bool-cases (ltb s d && ltb d (s + n))) [
  | inl down ↦ rw down (copy_down_lem d s n m x (ground arith))
  | inr up ↦ rw up (copy_up_lem d s n m x (ground arith))
]
