-- ===== src/Kalloc/Alloc.antt =====
-- What the loop of `kalloc` does to the free list.
use tom_cs.Base.{
  ℕ, ◌+◌, ◌-◌, ◌%◌, ◌≤◌, ◌<◌, ◌≡◌, refl, ◌||◌, List, [], ◌∷◌, Option, none, some, arith, inl, inr,
  ◌==◌, ltb, Bool-cases, Option-cases,
}
use tom_cs.CString.Move.{within}
use tom_cs.Kalloc.{page, Run, run, stop, absorb, alloc_loop, free_loop}
use tom_cs.Kalloc.Order.{Above, covers, Above-mono, covers-below}
use tom_cs.Kalloc.Free.{IsApart}

-- No run holds `n` bytes.
abbrev pub TooShort : ℕ → List Run → Type 0
TooShort n [] = Unit
TooShort n (r ∷ rs) = (r.len < n) × TooShort n rs

-- The block of `n` bytes at `p` was taken out of `rs` and left `l`.
pub record Taken (b n : ℕ) (rs : List Run) (p : ℕ) (l : List Run) : Type 0 where
  pub order : Above b l
  pub above : b < p
  pub aligned : p % page ≡ 0
  pub apart : IsApart p n l
  pub split : (x : ℕ) → covers rs x ≡ (within p n x || covers l x)
  pub back : free_loop p n l ≡ some rs

abbrev pub Fits : ℕ → ℕ → List Run → Option (ℕ × List Run) → Type 0
Fits b n rs none = TooShort n rs
Fits b n rs (some (p, l)) = Taken b n rs p l

module _ (n : ℕ) (whole : n % page ≡ 0) (some_len : 0 < n) where
  free_loop-after :
      (p b : ℕ) (rs : List Run) → Above b rs → p + n ≤ b → free_loop p n rs ≡ some (run p n ∷ rs)
  unfolding free_loop
  free_loop-after p b [] v h = refl
  free_loop-after p b (r ∷ rs) v h = ground arith

  absorb-after :
      (a k : ℕ) (rs : List Run)
      → Above (a + k + n) rs
      → absorb (run a k) n (a + k + n) rs ≡ run a (k + n) ∷ rs
  absorb-after a k [] v = refl
  absorb-after a k (q ∷ rs) v = ground arith

  pub alloc_loop-Fits : (b : ℕ) (rs : List Run) → Above b rs → Fits b n rs (alloc_loop n rs)
  unfolding alloc_loop free_loop
  alloc_loop-Fits b [] v = tt
  alloc_loop-Fits b (r ∷ rs) v = elim (Bool-cases (r.len == n)) [
    | inl exact ↦ rw exact (record {
      order = Above-mono rs (omega arith) v.4;
      above = v.0;
      aligned = v.2;
      apart = λ x i. covers-below rs x v.4 (ground arith);
      split = λ x. ground arith;
      back = ground (arith, free_loop-after r.addr (stop r) rs v.4);
    })
    | inr other ↦ rw other (elim (Bool-cases (ltb n r.len)) [
      | inl more ↦ rw more (record {
        order = (v.0, ground arith, v.2, ground arith, Above-mono rs (omega arith) v.4);
        above = omega arith;
        aligned = ground arith;
        apart = λ x i. ground (arith, covers-below rs x v.4);
        split = λ x. ground arith;
        back =
            ground (arith, absorb-after r.addr (r.len - n) rs (Above-mono rs (ground arith) v.4));
      })
      | inr less ↦ rw less (elim (Option-cases (alloc_loop n rs)) [
        | inl e ↦ rw e (ground arith, rw e at (alloc_loop-Fits (stop r) rs v.4))
        | inr ((p, l), e) ↦
            let t : Taken (stop r) n rs p l = rw e at (alloc_loop-Fits (stop r) rs v.4) in
            rw e (record {
              order = (v.0, v.1, v.2, v.3, t.order);
              above = ground (arith, t.above);
              aligned = t.aligned;
              apart = λ x i. ground (arith, t.apart x, t.above);
              split = λ x. ground (arith, t.split x);
              back = ground (arith, t.back, t.above);
            })
      ])
    ])
  ]
