-- ===== src/Kalloc/Tests.antt =====
-- The allocator on concrete lists, and the theorems at them.
use tom_cs.Base.{◌≡◌, refl, List, [], ◌∷◌, none, some, arith, returns, panics, ◌>>=◌}
use tom_cs.Base.Int.{pos, negsuc}
use tom_cs.CString.{Memory, memset}
use tom_cs.Kalloc.{
  run, Run, Kmem, free_loop, alloc_loop, set_next, set_len, free_stores, alloc_stores, kfree,
  kalloc, kinit,
}
use tom_cs.Kalloc.Free.{IsApart}
use tom_cs.Kalloc.Linked.Uses.{Stands, start, frees, takes, Uses-Stands}
use tom_cs.Kalloc.Safety.{
  IsBlock, Frees, kfree-Frees, Allocates, kalloc-Allocates, Restores, kfree-kalloc, SameUse,
  kfree_comm,
}

abbrev memory : List Run → Kmem
memory l = record { freelist = l; byte = λ x. 0 }

-- One free page at page 1, and two at page 4.
abbrev two_runs : Kmem
two_runs = memory (run 4096 4096 ∷ run 16384 8192 ∷ [])

kfree_joins : free_loop 8192 8192 two_runs.freelist ≡ some (run 4096 20480 ∷ [])
unfolding free_loop
kfree_joins = refl

kalloc_first_fit : alloc_loop 8192 two_runs.freelist ≡ some (16384, run 4096 4096 ∷ [])
unfolding alloc_loop
kalloc_first_fit = refl

kalloc_from_the_end : alloc_loop 4096 (run 16384 8192 ∷ []) ≡ some (20480, run 16384 4096 ∷ [])
unfolding alloc_loop
kalloc_from_the_end = refl

kalloc_bad_length :
    (kalloc (pos 100) two_runs ≡ panics "kalloc")
    × (kalloc (negsuc 4095) two_runs ≡ panics "kalloc")
unfolding kalloc
kalloc_bad_length = (refl, refl)

kinit_list :
    kinit 5000 (memory [])
    ≡ returns (record {
      freelist = run 8192 0x100000 ∷ [];
      byte = set_next 8192 0 (set_len 8192 0x100000 (memset 8192 1 0x100000 (λ x. 0)));
    })
unfolding kinit kfree free_loop free_stores
kinit_list = refl

-- A block behind a run gets no header: the length of the run is 0x3000 then.
kfree_header :
    (b : Memory)
    → (b ≡ free_stores none 8192 8192 (run 4096 4096 ∷ run 28672 4096 ∷ []) (λ x. 7))
    → (b 4096 ≡ 7) × (b 4101 ≡ 48) × (b 8192 ≡ 7)
unfolding free_stores
kfree_header b e = rw e (refl, refl, refl)

middle : IsBlock 8192 4096
middle = omega arith

middle-IsApart : IsApart 8192 4096 two_runs.freelist
middle-IsApart x i = ground arith

kfree-Frees_example :
    (m' : Kmem) × (kfree 8192 (pos 4096) two_runs ≡ returns m') × Frees 8192 4096 two_runs m'
kfree-Frees_example = kfree-Frees 8192 4096 two_runs middle (omega arith) middle-IsApart

kalloc-Allocates_example : Allocates 8192 two_runs (kalloc (pos 8192) two_runs)
kalloc-Allocates_example = kalloc-Allocates 8192 two_runs refl (omega arith) (omega arith)

kfree-kalloc_example : Restores 16384 8192 two_runs (
    kfree 16384
      (pos 8192)
      (record { freelist = run 4096 4096 ∷ []; byte = set_next 4096 0 (λ x. 0) }))
unfolding kalloc alloc_loop alloc_stores
kfree-kalloc_example = kfree-kalloc 8192 two_runs refl (omega arith) (omega arith) refl

kfree_comm_example :
    SameUse
      (kfree 8192 (pos 4096) two_runs >>= kfree 12288 (pos 4096))
      (kfree 12288 (pos 4096) two_runs >>= kfree 8192 (pos 4096))
kfree_comm_example =
    kfree_comm 8192 4096 12288 4096 two_runs middle (omega arith) (omega arith) middle-IsApart
      (λ x i. ground arith) (λ x i. ground arith)

-- A page is freed and allocated again.
abbrev one_page : Kmem
one_page = record {
  freelist = run 8192 4096 ∷ [];
  byte = set_next 8192 0 (set_len 8192 4096 (memset 8192 1 4096 (λ x. 0)));
}

Uses-Stands_example : Stands (record one_page { freelist = [] })
unfolding kfree free_loop free_stores kalloc alloc_loop alloc_stores
Uses-Stands_example =
    Uses-Stands (memory []) (record one_page { freelist = [] }) (tt, tt, tt)
      (takes 4096 (some 8192) {m1 = one_page}
        (frees 8192 4096 {m2 = one_page} start middle (omega arith) (λ x i. refl) refl) refl)
