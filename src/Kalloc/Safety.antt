-- ===== src/Kalloc/Safety.antt =====
-- What callers may rely on: `kalloc` and `kfree` on a valid free list.
use tom_cs.Base.{
  ℕ, ◌%◌, ◌<◌, ◌≡◌, ◌≢◌, refl, true, false, ◌||◌, List, Option, none, some, arith, inl, inr,
  Option-cases, if◌then◌else◌, Outcome, returns, panics, ◌>>=◌,
}
use tom_cs.Base.Int.{pos}
use tom_cs.CString.Move.{within, memset_lem}
use tom_cs.CString.{memset}
use tom_cs.Kalloc.{page, Run, Kmem, free_loop, alloc_loop, free_stores, alloc_stores, kfree, kalloc}
use tom_cs.Kalloc.Order.{IsValid, covers}
use tom_cs.Kalloc.Header.{
  heads, free_stores-outside, alloc_stores-outside, heads-alloc_loop, heads-covers,
}
use tom_cs.Kalloc.Free.{IsApart, free_loop-Freed, free_loop_panics}
use tom_cs.Kalloc.Alloc.{TooShort, Taken, Fits, alloc_loop-Fits}
use tom_cs.Kalloc.Unique.{eq_of_covers}

-- A block that `kfree` may be given: whole pages at a page's start, and not the null pointer.
pub record IsBlock (p n : ℕ) : Type 0 where
  pub whole : n % page ≡ 0
  pub some_len : 0 < n
  pub aligned : p % page ≡ 0
  pub not_null : 0 < p

-- `m'` is `m` with the block free, and with junk in it, but for the headers of the free runs.
pub record Frees (p n : ℕ) (m m' : Kmem) : Type 0 where
  pub valid : IsValid m'
  pub free : (x : ℕ) → covers m'.freelist x ≡ (within p n x || covers m.freelist x)
  pub junk :
      (x : ℕ) → heads m'.freelist x ≡ false → m'.byte x ≡ (if within p n x then 1 else m.byte x)

-- Memory that is not free afterwards is kept, but for the junk.
pub Frees-kept :
    {p n : ℕ} {m m' : Kmem}
    → Frees p n m m'
    → (x : ℕ) → covers m'.freelist x ≡ false
    → m'.byte x ≡ m.byte x
Frees-kept {p} {n} {m} {m'} f x out =
    ground (arith, f.junk x, f.free x, heads-covers 0 m'.freelist x f.valid)

module _ (p n : ℕ) (m : Kmem) where
  abbrev freed : List Run → Kmem
  freed l = record { freelist = l; byte = free_stores none p n m.freelist (memset p 1 n m.byte) }

  kfree-freed :
      (l : List Run)
      → IsBlock p n
      → free_loop p n m.freelist ≡ some l
      → kfree p (pos n) m ≡ returns (freed l)
  unfolding kfree
  kfree-freed l k e = ground (arith, k.whole, k.some_len)

  -- On a valid free list, `kfree` of a block that is not free returns: the new list is valid, it
  -- holds the bytes of the old one and those of the block. But for the headers of the runs of the
  -- new list, the block is filled with 1 and all other memory is as it was.
  pub kfree-Frees :
      IsBlock p n
      → IsValid m
      → IsApart p n m.freelist
      → (m' : Kmem) × (kfree p (pos n) m ≡ returns m') × Frees p n m m'
  unfolding kfree
  kfree-Frees k v apart =
      let (l, e, f) =
        free_loop-Freed p n k.whole k.some_len k.aligned m.freelist k.not_null v apart in
      (
        freed l,
        kfree-freed l k e,
        record {
          valid = f.0;
          free = f.1;
          junk = λ x out.
              rw (free_stores-outside none p n m.freelist l (memset p 1 n m.byte) x e out tt)
                (memset_lem p 1 n m.byte x);
        },
      )

  -- On a valid free list, `kfree` of a block whose first byte is already free panics.
  pub kfree_double_free :
      IsBlock p n
      → IsValid m
      → covers m.freelist p ≡ true
      → kfree p (pos n) m ≡ panics "freeing free page"
  unfolding kfree
  kfree_double_free k v c =
      ground (arith, free_loop_panics p n k.whole k.some_len k.aligned 0 m.freelist v c)

-- `kalloc` hands out whole pages only.
pub kalloc_panics : (n : ℕ) (m : Kmem) → n % page ≢ 0 → kalloc (pos n) m ≡ panics "kalloc"
unfolding kalloc
kalloc_panics n m odd = ground arith

-- The list of `m` is back, and the block has junk in it, but for the headers of the runs.
abbrev pub Restores : ℕ → ℕ → Kmem → Outcome Kmem → Type 0
Restores p n m (panics e) = ⊥
Restores p n m (returns m') =
    (m'.freelist ≡ m.freelist)
    × ((x : ℕ) → heads m.freelist x ≡ false → m'.byte x ≡ (if within p n x then 1 else m.byte x))

-- Both return, with the same free list and the same bytes outside it.
abbrev pub SameUse : Outcome Kmem → Outcome Kmem → Type 0
SameUse (panics e) o = ⊥
SameUse (returns m) (panics e) = ⊥
SameUse (returns m) (returns m') =
    (m.freelist ≡ m'.freelist) × ((x : ℕ) → covers m.freelist x ≡ false → m.byte x ≡ m'.byte x)

-- What an allocation of `n` bytes may come to. With no memory for it, nothing changes.
abbrev pub Allocates : ℕ → Kmem → Outcome (Option ℕ × Kmem) → Type 0
Allocates n m (panics e) = ⊥
Allocates n m (returns (none, m')) = TooShort n m.freelist × (m' ≡ m)
Allocates n m (returns (some p, m')) =
    IsBlock p n
    × IsValid m'
    × IsApart p n m'.freelist
    × ((x : ℕ) → covers m.freelist x ≡ (within p n x || covers m'.freelist x))
    × ((x : ℕ) → heads m'.freelist x ≡ false → m'.byte x ≡ m.byte x)

module _ (n : ℕ) (m : Kmem) (whole : n % page ≡ 0) (some_len : 0 < n) (v : IsValid m) where
  abbrev taken : List Run → Kmem
  taken l = record { freelist = l; byte = alloc_stores none n m.freelist m.byte }

  pub kalloc-none : alloc_loop n m.freelist ≡ none → kalloc (pos n) m ≡ returns (none, m)
  unfolding kalloc
  kalloc-none e = ground arith

  pub kalloc-some :
      (p : ℕ) (l : List Run)
      → alloc_loop n m.freelist ≡ some (p, l)
      → kalloc (pos n) m ≡ returns (some p, taken l)
  unfolding kalloc
  kalloc-some p l e = ground arith

  fits : Fits 0 n m.freelist (alloc_loop n m.freelist)
  fits = alloc_loop-Fits n whole some_len 0 m.freelist v

  -- On a valid free list, `kalloc` of some whole pages does not panic. It returns the null pointer
  -- only if every free run is shorter than `n`, and then changes nothing. A block that it returns
  -- is page-aligned and not null, and exactly its bytes leave the free list, which stays valid;
  -- the memory is as it was, but for the headers of the runs that are left.
  pub kalloc-Allocates : Allocates n m (kalloc (pos n) m)
  kalloc-Allocates = elim (Option-cases (alloc_loop n m.freelist)) [
    | inl e ↦ rw (kalloc-none e) (rw e at fits, refl)
    | inr ((p, l), e) ↦
        let t : Taken 0 n m.freelist p l = rw e at fits in
        let block : IsBlock p n = record {
          whole = whole;
          some_len = some_len;
          aligned = t.aligned;
          not_null = t.above;
        } in
        rw (kalloc-some p l e) (
          block,
          t.order,
          t.apart,
          t.split,
          λ x out. alloc_stores-outside none p n m.freelist l m.byte x e out tt,
        )
  ]

  kfree-taken :
      (p : ℕ) (l : List Run)
      → alloc_loop n m.freelist ≡ some (p, l)
      → Restores p n m (kfree p (pos n) (taken l))
  kfree-taken p l e =
      let t : Taken 0 n m.freelist p l = rw e at fits in
      let block : IsBlock p n = record {
        whole = whole;
        some_len = some_len;
        aligned = t.aligned;
        not_null = t.above;
      } in
      rw (kfree-freed p n (taken l) m.freelist block t.back) (
        refl,
        λ x out.
            rw
              (
                free_stores-outside none p n l m.freelist (memset p 1 n (taken l).byte) x t.back out
                    tt,
                memset_lem p 1 n (taken l).byte x,
                alloc_stores-outside none p n m.freelist l m.byte x e
                    (heads-alloc_loop p n m.freelist l x e out) tt,
              )
              refl,
      )

  -- On a valid free list, freeing what `kalloc` returned does not panic and gives the very free
  -- list from before, run by run. But for the headers of its runs, the block is filled with 1 and
  -- all other memory is as it was before `kalloc`.
  pub kfree-kalloc :
      {p : ℕ} {m' : Kmem}
      → kalloc (pos n) m ≡ returns (some p, m')
      → Restores p n m (kfree p (pos n) m')
  kfree-kalloc {p} {m'} h = elim (Option-cases (alloc_loop n m.freelist)) [
    | inl e ↦ cc (kalloc-none e)
    | inr ((q, l), e) ↦
        let g : (q ≡ p) × (taken l ≡ m') = ground (arith, kalloc-some q l e) in
        rw (← g.0, ← g.1) (kfree-taken q l e)
  ]

-- Two blocks, apart from the valid free list and from one another, may be freed in either order:
-- neither order panics, both give the same free list, and all memory that is not free afterwards
-- has the same bytes.
pub kfree_comm :
    (p n q k : ℕ) (m : Kmem)
    → IsBlock p n
    → IsBlock q k
    → IsValid m
    → IsApart p n m.freelist
    → IsApart q k m.freelist
    → ((x : ℕ) → within p n x ≡ true → within q k x ≡ false)
    → SameUse (kfree p (pos n) m >>= kfree q (pos k)) (kfree q (pos k) m >>= kfree p (pos n))
kfree_comm p n q k m bp bq v hp hq apart =
    let (m1, e1, f1) = kfree-Frees p n m bp v hp in
    let (m2, e2, f2) = kfree-Frees q k m bq v hq in
    let (m3, e3, f3) =
      kfree-Frees q k m1 bq f1.valid (λ x i. ground (arith, f1.free x, hq x, apart x)) in
    let (m4, e4, f4) =
      kfree-Frees p n m2 bp f2.valid (λ x i. ground (arith, f2.free x, hp x, apart x)) in
    let same : m3.freelist ≡ m4.freelist =
      eq_of_covers 0 0 m3.freelist m4.freelist f3.valid f4.valid
        λ x. ground (arith, f1.free x, f2.free x, f3.free x, f4.free x) in
    rw (e1, e2, e3, e4)
      (
        same,
        λ x out. ground (
          arith,
          Frees-kept f1 x,
          Frees-kept f2 x,
          Frees-kept f3 x,
          Frees-kept f4 x,
          f1.free x,
          f2.free x,
          f3.free x,
          f4.free x,
          same,
        ),
      )
