-- ===== src/Kalloc/Header.antt =====
-- Where the loops of xv6/kalloc.c store into memory: the headers of the runs that are then free.
use tom_cs.Base.{
  ℕ, ◌+◌, ◌-◌, ◌≡◌, refl, Bool, false, ◌||◌, List, [], ◌∷◌, Option, none, some, arith, ◌==◌, ltb,
  leb, inl, inr, Bool-cases, Option-cases,
}
use tom_cs.CString.{Memory}
use tom_cs.CString.Move.{within}
use tom_cs.Kalloc.{
  Run, stop, absorb, free_loop, alloc_loop, put_int, first_run, set_link, absorb_stores,
  free_stores, alloc_stores,
}
use tom_cs.Kalloc.Order.{Above, covers}

-- A `struct run` has eight bytes.
abbrev pub heads : List Run → ℕ → Bool
heads [] x = false
heads (r ∷ rs) x = within r.addr 8 x || heads rs x

-- The byte at `x` is no part of the `next` field behind `rp`.
abbrev pub Spares : Option ℕ → ℕ → Type 0
Spares none x = Unit
Spares (some r) x = within r 4 x ≡ false

put_int-outside : (a v : ℕ) (m : Memory) (x : ℕ) → within a 4 x ≡ false → put_int a v m x ≡ m x
put_int-outside a v m x h = ground arith

pub set_link-Spares :
    (rp : Option ℕ) (q : ℕ) (m : Memory) (x : ℕ) → Spares rp x → set_link rp q m x ≡ m x
set_link-Spares none q m x h = refl
set_link-Spares (some r) q m x h = put_int-outside r q m x h

set_header :
    (r q n : ℕ) (m : Memory) (x : ℕ)
    → within r 8 x ≡ false
    → put_int r q (put_int (r + 4) n m) x ≡ m x
set_header r q n m x h =
    rw (put_int-outside r q (put_int (r + 4) n m) x (ground arith))
      (put_int-outside (r + 4) n m x (ground arith))

pub set_run :
    (rp : Option ℕ) (r q n : ℕ) (m : Memory) (x : ℕ)
    → Spares rp x
    → within r 8 x ≡ false
    → set_link rp r (put_int r q (put_int (r + 4) n m)) x ≡ m x
set_run rp r q n m x h k =
    rw (set_link-Spares rp r (put_int r q (put_int (r + 4) n m)) x h) (set_header r q n m x k)

pub absorb_stores-outside :
    (r : Run) (n pend : ℕ) (rs : List Run) (m : Memory) (x : ℕ)
    → within r.addr 8 x ≡ false
    → absorb_stores r n pend rs m x ≡ m x
absorb_stores-outside r n pend [] m x h =
    put_int-outside (r.addr + 4) (r.len + n) m x (ground arith)
absorb_stores-outside r n pend (q ∷ rs) m x h = elim (Bool-cases (pend == q.addr)) [
  | inl e ↦
      let m' = put_int (r.addr + 4) (r.len + n) m in
      rw (e, set_header r.addr (first_run rs) (r.len + n + q.len) m' x h)
        (put_int-outside (r.addr + 4) (r.len + n) m x (ground arith))
  | inr e ↦ rw e (put_int-outside (r.addr + 4) (r.len + n) m x (ground arith))
]

heads-absorb :
    (r : Run) (n pend : ℕ) (rs : List Run) (x : ℕ)
    → heads (absorb r n pend rs) x ≡ false
    → within r.addr 8 x ≡ false
heads-absorb r n pend [] x h = ground arith
heads-absorb r n pend (q ∷ rs) x h = ground arith

-- `kfree` stores only into headers of the runs that are free afterwards.
pub free_stores-outside :
    (rp : Option ℕ) (p n : ℕ) (rs l : List Run) (m : Memory) (x : ℕ)
    → free_loop p n rs ≡ some l
    → heads l x ≡ false
    → Spares rp x
    → free_stores rp p n rs m x ≡ m x
unfolding free_loop free_stores
free_stores-outside rp p n [] l m x e h k = set_run rp p 0 n m x k (ground arith)
free_stores-outside rp p n (r ∷ rs) l m x e h k = elim (Bool-cases (leb r.addr (p + n))) [
  | inr f ↦ rw f (set_run rp p r.addr n m x k (ground arith))
  | inl f ↦ elim (Bool-cases (p + n == r.addr)) [
    | inl g ↦ rw (f, g) (set_run rp p (first_run rs) (n + r.len) m x k (ground arith))
    | inr g ↦ elim (Bool-cases (stop r == p)) [
      | inl c ↦
          rw (f, g, c)
            (absorb_stores-outside r n (p + n) rs m x
              (heads-absorb r n (p + n) rs x (ground arith)))
      | inr c ↦ elim (Option-cases (free_loop p n rs)) [
        | inl o ↦ absurd (ground arith)
        | inr (l', o) ↦
            rw (f, g, c)
              (free_stores-outside (some r.addr) p n rs l' m x o (ground arith) (ground arith))
      ]
    ]
  ]
]

-- The headers after a block is freed are those from before and perhaps that of the block.
pub heads-free_loop :
    (p n : ℕ) (rs l : List Run) (x : ℕ)
    → free_loop p n rs ≡ some l
    → within p 8 x ≡ false
    → heads rs x ≡ false
    → heads l x ≡ false
unfolding free_loop
heads-free_loop p n [] l x e h k = ground arith
heads-free_loop p n (r ∷ []) l x e h k = ground arith
heads-free_loop p n (r ∷ q ∷ rs) l x e h k = elim (Option-cases (free_loop p n (q ∷ rs))) [
  | inl o ↦ ground arith
  | inr (l', o) ↦ ground (arith, heads-free_loop p n (q ∷ rs) l' x o)
]

-- `kalloc` stores only into headers of the runs that are left.
pub alloc_stores-outside :
    (rp : Option ℕ) (p n : ℕ) (rs l : List Run) (m : Memory) (x : ℕ)
    → alloc_loop n rs ≡ some (p, l)
    → heads l x ≡ false
    → Spares rp x
    → alloc_stores rp n rs m x ≡ m x
unfolding alloc_loop alloc_stores
alloc_stores-outside rp p n [] l m x e h k = cc
alloc_stores-outside rp p n (r ∷ rs) l m x e h k = elim (Bool-cases (r.len == n)) [
  | inl f ↦ rw f (set_link-Spares rp (first_run rs) m x k)
  | inr f ↦ elim (Bool-cases (ltb n r.len)) [
    | inl g ↦ rw (f, g) (put_int-outside (r.addr + 4) (r.len - n) m x (ground arith))
    | inr g ↦ elim (Option-cases (alloc_loop n rs)) [
      | inl o ↦ absurd (ground arith)
      | inr ((q, l'), o) ↦
          rw (f, g)
            (alloc_stores-outside (some r.addr) q n rs l' m x o (ground arith) (ground arith))
    ]
  ]
]

-- The headers of the runs that `kalloc` leaves were headers before.
pub heads-alloc_loop :
    (p n : ℕ) (rs l : List Run) (x : ℕ)
    → alloc_loop n rs ≡ some (p, l)
    → heads rs x ≡ false
    → heads l x ≡ false
unfolding alloc_loop
heads-alloc_loop p n [] l x e h = cc
heads-alloc_loop p n (r ∷ rs) l x e h = elim (Option-cases (alloc_loop n rs)) [
  | inl o ↦ ground arith
  | inr ((q, l'), o) ↦ ground (arith, heads-alloc_loop q n rs l' x o)
]

-- A header stands in the memory that is free.
pub heads-covers :
    (b : ℕ) (rs : List Run) (x : ℕ) → Above b rs → covers rs x ≡ false → heads rs x ≡ false
heads-covers b [] x v h = refl
heads-covers b (r ∷ rs) x v h = ground (arith, heads-covers (stop r) rs x v.4)
