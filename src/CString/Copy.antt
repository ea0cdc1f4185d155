-- ===== src/CString/Copy.antt =====
-- `safestrcpy` always leaves a string that ends inside its buffer.
use tom_cs.Base.{
  ℕ, zero, suc, ◌+◌, ◌≤◌, ◌<◌, ◌≡◌, ◌≢◌, ◌⊎◌, inl, inr, false, refl, ap, ◌∙◌, ◌==◌, Bool-cases,
  arith, update,
}
use tom_cs.CString.{Memory, safe_loop, safestrcpy}
use tom_cs.CString.Move.{within}

-- The string at `s` in `r` is that of `k` bytes at `t` in `m`, in at most `n` bytes with its NUL, and
-- no byte beside those `n` differs.
pub record Copied (s t n : ℕ) (m r : Memory) : Type 0 where
  pub size : ℕ
  pub fits : size < n
  pub ends : r (s + size) ≡ 0
  pub same : (j : ℕ) → j < size → (r (s + j) ≡ m (t + j)) × (m (t + j) ≢ 0)
  pub whole : (size + 1 ≡ n) ⊎ (m (t + size) ≡ 0)
  pub outside : (x : ℕ) → within s n x ≡ false → r x ≡ m x

-- The `n` bytes read and the `n` bytes written do not meet.
abbrev pub IsApart : ℕ → ℕ → ℕ → Type 0
IsApart s t n = (t + n ≤ s) ⊎ (s + n ≤ t)

at_zero : (m : Memory) (p : ℕ) → m (p + 0) ≡ m p
at_zero m p = ap m (omega arith)

at_suc : (m : Memory) (p k : ℕ) → m (p + suc k) ≡ m (p + 1 + k)
at_suc m p k = ap m (omega arith)

module _ (s t n : ℕ) (m r : Memory) where
  -- One byte that is no NUL goes before a string that is copied.
  Copied-suc :
      m t ≢ 0
      → IsApart s t (suc (suc n))
      → Copied (s + 1) (t + 1) (suc n) (update m s (m t)) r
      → Copied s t (suc (suc n)) m r
  Copied-suc h apart c = record {
    size = suc c.size;
    fits = omega (arith, c.fits);
    ends = at_suc r s c.size ∙ c.ends;
    same = bytes;
    whole = ground (arith, c.whole, at_suc m t c.size, apart, c.fits);
    outside = λ x o. ground (arith, c.outside x);
  }
    where
      bytes : (j : ℕ) → j < suc c.size → (r (s + j) ≡ m (t + j)) × (m (t + j) ≢ 0)
      bytes zero lt = ground (arith, c.outside s, at_zero r s, at_zero m t)
      bytes (suc j) lt = ground (arith, c.same j, at_suc r s j, at_suc m t j, c.fits)

safe_loop-Copied :
    (s t n : ℕ) (m : Memory) → IsApart s t (suc n) → Copied s t (suc n) m (safe_loop s t n m)
unfolding safe_loop
safe_loop-Copied s t zero m apart = record {
  size = 0;
  fits = omega arith;
  ends = ground arith;
  same = λ j lt. absurd (omega arith);
  whole = inl refl;
  outside = λ x o. ground arith;
}
safe_loop-Copied s t (suc n) m apart = elim (Bool-cases (m t == 0)) [
  | inl nul ↦ rw nul (record {
    size = 0;
    fits = omega arith;
    ends = ground arith;
    same = λ j lt. absurd (omega arith);
    whole = inr (ground (arith, at_zero m t));
    outside = λ x o. ground arith;
  })
  | inr more ↦ rw more (
      Copied-suc s t n m _ (ground arith) apart
        (safe_loop-Copied (s + 1) (t + 1) n (update m s (m t)) (omega arith)))
]

-- `safestrcpy` into a buffer of `n > 0` bytes apart from its source leaves there the source up to its
-- NUL, or its first `n - 1` bytes; a NUL follows inside the buffer, and nothing else is written.
pub safestrcpy-Copied :
    (s t n : ℕ) (m : Memory) → 0 < n → IsApart s t n → Copied s t n m (safestrcpy s t n m)
unfolding safestrcpy
safestrcpy-Copied s t zero m h apart = absurd (omega arith)
safestrcpy-Copied s t (suc n) m h apart = safe_loop-Copied s t n m apart
