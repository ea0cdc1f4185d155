-- ===== src/Proc/Memory.antt =====
-- What `fork` makes of memory: the child's copy, and nothing lost when it fails.
use tom_cs.Base.{ℕ, ◌+◌, ◌<◌, ◌≡◌, ◌≢◌, true, false, Outcome, returns, panics}
use tom_cs.Base.Int.{ℤ, pos, negsuc}
use tom_cs.CString.Move.{within}
use tom_cs.Kalloc.{Kmem}
use tom_cs.Kalloc.Order.{IsValid, covers}
use tom_cs.Proc.State.{Proc, is_unused, Table}
use tom_cs.Proc.Fork.{Takes, Child}

-- The block at `a` was free and has the bytes of the memory of `p`; all that was not free is as it
-- was.
pub record CopiesBytes (p : Proc) (a : ℕ) (m m' : Kmem) : Type 0 where
  pub copied : (x : ℕ) → x < p.sz → m'.byte (a + x) ≡ m.byte (p.mem + x)
  pub kept : (x : ℕ) → covers m.freelist x ≡ false → m'.byte x ≡ m.byte x
  pub was_free : (x : ℕ) → within a p.sz x ≡ true → covers m.freelist x ≡ true
  pub is_taken : (x : ℕ) → within a p.sz x ≡ true → covers m'.freelist x ≡ false
  pub valid : IsValid m'

-- If `fork` fails, the free list, the memory outside it and the processes in use are as before. If
-- not, a slot has the child, with the bytes of the parent's memory in memory of its own.
abbrev pub Copies : ℕ → Table → Kmem → Outcome (ℤ × Table × Kmem) → Type 0
Copies cp t m (panics e) = ⊥
Copies cp t m (returns (negsuc n, t', m')) =
    (m'.freelist ≡ m.freelist)
    × ((x : ℕ) → covers m.freelist x ≡ false → m'.byte x ≡ m.byte x)
    × ((j : ℕ) → is_unused (t.proc j) ≡ false → t'.proc j ≡ t.proc j)
Copies cp t m (returns (pos pid, t', m')) =
    (pid ≡ t.nextpid)
    × (i : ℕ) × (k : ℕ) × (a : ℕ) × Takes i t
    × Child cp t.nextpid (t.proc cp) (t.proc i) k a (t'.proc i)
    × ((j : ℕ) → j ≢ i → t'.proc j ≡ t.proc j)
    × CopiesBytes (t.proc cp) a m m'
