-- ===== src/Kalloc/Linked/Uses.antt =====
-- The memory of xv6/kalloc.c under any calls of `kfree` and `kalloc`, and what others write to it.
use tom_cs.Base.{
  ℕ, ◌+◌, ◌-◌, ◌%◌, ◌^◌, ◌<◌, ◌≤◌, ◌≡◌, true, List, [], ◌∷◌, Option, none, arith, inl, inr,
  Option-cases, returns,
}
use tom_cs.Base.Int.{pos}
use tom_cs.CString.{Memory, memset}
use tom_cs.CString.Move.{memset_lem}
use tom_cs.Kalloc.{page, Run, Kmem, stop, alloc_loop, free_stores, alloc_stores, kfree, kalloc}
use tom_cs.Kalloc.Order.{Above, IsValid, covers}
use tom_cs.Kalloc.Header.{heads-covers}
use tom_cs.Kalloc.Free.{IsApart, free_loop-Freed}
use tom_cs.Kalloc.Safety.{IsBlock, kalloc-none, kalloc-some}
use tom_cs.Kalloc.Alloc.{Taken, alloc_loop-Fits}
use tom_cs.Kalloc.Linked.{Linked, Small, Linked-frame}
use tom_cs.Kalloc.Linked.Free.{free_stores-Linked}
use tom_cs.Kalloc.Linked.Alloc.{alloc_stores-Linked}

-- The list is valid, and its runs end within 32 bits and stand in memory, each with its length and the
-- address of the next.
abbrev pub Stands : Kmem → Type 0
Stands m = IsValid m × Small m.freelist × Linked m.freelist m.byte

-- Any calls of `kfree`, of blocks that are not free, and of `kalloc`, and stores by others into
-- memory that is not free.
pub data Uses (m : Kmem) : Kmem → Type 0 where
  start : Uses m m
  frees :
      (p n : ℕ) {m1 m2 : Kmem}
      → Uses m m1
      → IsBlock p n
      → p + n ≤ 2 ^ 32
      → IsApart p n m1.freelist
      → kfree p (pos n) m1 ≡ returns m2
      → Uses m m2
  takes :
      (n : ℕ) (o : Option ℕ) {m1 m2 : Kmem}
      → Uses m m1
      → kalloc (pos n) m1 ≡ returns (o, m2)
      → Uses m m2
  writes :
      (b : Memory) {m1 : Kmem}
      → Uses m m1
      → ((x : ℕ) → covers m1.freelist x ≡ true → b x ≡ m1.byte x)
      → Uses m (record m1 { byte = b })

Small-covers :
    (b : ℕ) (rs : List Run) → Above b rs → Small rs → (x : ℕ) → covers rs x ≡ true → x < 2 ^ 32
Small-covers b [] v s x c = cc
Small-covers b (r ∷ rs) v s x c = ground (arith, Small-covers (stop r) rs v.4 s.1 x)

covers-Small :
    (b : ℕ) (rs : List Run) → Above b rs → ((x : ℕ) → covers rs x ≡ true → x < 2 ^ 32) → Small rs
covers-Small b [] v h = tt
covers-Small b (r ∷ rs) v h =
    let last : stop r - 1 < 2 ^ 32 = h (stop r - 1) (ground arith) in
    (omega arith, covers-Small (stop r) rs v.4 (λ x c. h x (ground arith)))

kfree-Stands :
    (p n : ℕ) (m m' : Kmem)
    → IsBlock p n
    → p + n ≤ 2 ^ 32
    → IsApart p n m.freelist
    → Stands m
    → kfree p (pos n) m ≡ returns m'
    → Stands m'
unfolding kfree
kfree-Stands p n m m' k small apart (v, s, linked) e =
    let (l, g, f) =
      free_loop-Freed p n k.whole k.some_len k.aligned m.freelist k.not_null v apart in
    let junk = memset p 1 n m.byte in
    let same : record { freelist = l; byte = free_stores none p n m.freelist junk } ≡ m' =
      ground (arith, k.whole, k.some_len) in
    let kept : Linked m.freelist junk =
      Linked-frame m.freelist m.byte junk
        (λ x h. ground (arith, memset_lem p 1 n m.byte x, heads-covers 0 m.freelist x v, apart x))
        linked in
    rw (← same) (
      f.0,
      covers-Small 0 l f.0 (λ x c. ground (arith, f.1 x, Small-covers 0 m.freelist v s x)),
      (free_stores-Linked p n k.whole k.some_len k.aligned k.not_null small none 0 m.freelist l junk
          tt tt v apart s g kept tt).0,
    )

kalloc-whole :
    (n : ℕ) (o : Option ℕ) (m m' : Kmem)
    → kalloc (pos n) m ≡ returns (o, m')
    → (n % page ≡ 0) × (0 < n)
unfolding kalloc
kalloc-whole n o m m' e = ground arith

kalloc-Stands :
    (n : ℕ) (o : Option ℕ) (m m' : Kmem) → Stands m → kalloc (pos n) m ≡ returns (o, m') → Stands m'
kalloc-Stands n o m m' (v, s, linked) e =
    let fits =
      alloc_loop-Fits n (kalloc-whole n o m m' e).0 (kalloc-whole n o m m' e).1 0 m.freelist v in
    elim (Option-cases (alloc_loop n m.freelist)) [
      | inl f ↦
          let w = kalloc-whole n o m m' e in
          let same : m ≡ m' = cc (kalloc-none n m w.0 w.1 v f) in rw (← same) (v, s, linked)
      | inr ((p, l), f) ↦
          let t : Taken 0 n m.freelist p l = rw f at fits in
          let same : record { freelist = l; byte = alloc_stores none n m.freelist m.byte } ≡ m' =
            (let w = kalloc-whole n o m m' e in cc (kalloc-some n m w.0 w.1 v p l f)) in
          rw (← same) (
            t.order,
            covers-Small 0 l t.order
                (λ x c. Small-covers 0 m.freelist v s x (ground (arith, t.split x))),
            (alloc_stores-Linked n none 0 p m.freelist l m.byte tt v s f linked tt).0,
          )
    ]

-- From memory where a valid free list with runs below 2 ^ 32 stands, any calls of kfree, of blocks
-- below 2 ^ 32 that are not free, and of kalloc, and any stores by others into memory that is not
-- free, lead to memory where the new list is valid and stands: each free run has its length and
-- the address of the next run, or 0, in its first 8 bytes.
pub Uses-Stands : (m m' : Kmem) → Stands m → Uses m m' → Stands m'
Uses-Stands m m' s start = s
Uses-Stands m m' s (frees p n {m1} u k small apart e) =
    kfree-Stands p n m1 m' k small apart (Uses-Stands m m1 s u) e
Uses-Stands m m' s (takes n o {m1} u e) = kalloc-Stands n o m1 m' (Uses-Stands m m1 s u) e
Uses-Stands m m' s (writes b {m1} u h) =
    let (v, small, linked) = Uses-Stands m m1 s u in
    (
      v,
      small,
      Linked-frame m1.freelist m1.byte b
          (λ x t. h x (ground (arith, heads-covers 0 m1.freelist x v))) linked,
    )
