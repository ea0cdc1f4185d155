-- ===== src/Kalloc/Free.antt =====
-- What the loop of `kfree` does to the free list.
use tom_cs.Base.{
  ℕ, ◌+◌, ◌%◌, ◌≤◌, ◌<◌, ◌≡◌, refl, none, true, false, ◌||◌, List, [], ◌∷◌, some, arith, ◌⊎◌, inl,
  inr, ◌==◌, Bool-cases,
}
use native.Mathlib.Decide.{dec_lt}
use tom_cs.CString.Move.{within}
use tom_cs.Kalloc.{page, Run, run, stop, absorb, free_loop}
use tom_cs.Kalloc.Order.{Above, covers, Above-mono, covers-below}

-- The block of `n` bytes at `p` is none of the free ones.
abbrev pub IsApart : ℕ → ℕ → List Run → Type 0
IsApart p n rs = (x : ℕ) → within p n x ≡ true → covers rs x ≡ false

-- A list that holds what `rs` holds and the block, in order above `b`.
abbrev pub Freed : ℕ → ℕ → ℕ → List Run → List Run → Type 0
Freed b p n rs l = Above b l × ((x : ℕ) → covers l x ≡ (within p n x || covers rs x))

module _ (p n : ℕ) (whole : n % page ≡ 0) (some_len : 0 < n) (aligned : p % page ≡ 0) where
  -- A free run lies wholly after the block or wholly before it.
  pub place :
      (r : Run) (rs : List Run) → 0 < r.len → IsApart p n (r ∷ rs) → (p + n ≤ r.addr) ⊎ (stop r ≤ p)
  place r rs h apart = ground (arith, apart p, apart r.addr)

  absorb-Freed :
      {b : ℕ} (r : Run) (rs : List Run)
      → Above b (r ∷ rs)
      → IsApart p n (r ∷ rs)
      → stop r ≡ p
      → Freed b p n (r ∷ rs) (absorb r n (p + n) rs)
  absorb-Freed r [] v apart e = (omega arith, λ x. ground arith)
  absorb-Freed {b} r (q ∷ rs) v apart e = elim (Bool-cases (p + n == q.addr)) [
    | inl t ↦ rw t (
      (omega arith, omega arith, omega arith, omega arith, Above-mono rs (ground arith) v.4.4),
      λ x. ground arith,
    )
    | inr f ↦
        let gap : p + n < q.addr = ground (arith, apart q.addr) in
        rw f (
          (
            omega arith,
            omega arith,
            omega arith,
            omega arith,
            (omega arith, v.4.1, v.4.2, v.4.3, v.4.4),
          ),
          λ x. ground arith,
        )
  ]

  pub free_loop-Freed :
      {b : ℕ} (rs : List Run)
      → b < p
      → Above b rs
      → IsApart p n rs
      → (l : List Run) × (free_loop p n rs ≡ some l) × Freed b p n rs l
  unfolding free_loop
  free_loop-Freed [] lt v apart = (_, refl, ((lt, some_len, aligned, whole, tt), λ x. ground arith))
  free_loop-Freed {b} (r ∷ rs) lt v apart = elim (place r rs v.1 apart) [
    | inl right ↦ elim (dec_lt (p + n) r.addr) [
      | yes h ↦ (
        run p n ∷ r ∷ rs,
        ground arith,
        ((lt, some_len, aligned, whole, (h, v.1, v.2, v.3, v.4)), λ x. ground arith),
      )
      | no h ↦ (
        run p (n + r.len) ∷ rs,
        ground arith,
        (
          (lt, omega arith, aligned, omega arith, Above-mono rs (omega arith) v.4),
          λ x. ground arith,
        ),
      )
    ]
    | inr left ↦ elim (dec_lt (stop r) p) [
      | yes h ↦
          let (l, e, w) = free_loop-Freed {b = stop r} rs h v.4 (λ x i. ground (arith, apart x)) in
          (r ∷ l, ground arith, ((v.0, v.1, v.2, v.3, w.0), λ x. ground (arith, w.1 x)))
      | no h ↦ (absorb r n (p + n) rs, ground arith, absorb-Freed r rs v apart (omega arith))
    ]
  ]

  -- A block that begins inside a free run is refused.
  pub free_loop_panics :
      (b : ℕ) (rs : List Run) → Above b rs → covers rs p ≡ true → free_loop p n rs ≡ none
  unfolding free_loop
  free_loop_panics b [] v c = cc
  free_loop_panics b (r ∷ rs) v c =
      ground (arith, free_loop_panics (stop r) rs v.4, covers-below rs p v.4)
