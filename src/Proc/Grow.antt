-- ===== src/Proc/Grow.antt =====
-- `growproc` of xv6/proc.c, which `sys_sbrk` calls: a larger block for the memory of a process.
use tom_cs.Base.{
  ℕ, ◌+◌, ◌-◌, ◌%◌, ◌^◌, ◌≤◌, ◌<◌, ◌≡◌, ◌≢◌, refl, ◌&&◌, ◌||◌, not, Option, none, some, arith,
  update, Outcome, returns, panics, ◌>>=◌,
}
use tom_cs.Base.Int.{ℤ, pos, negsuc, to_int, to_int-small}
use tom_cs.CString.{memset, memmove}
use tom_cs.CString.Move.{within}
use tom_cs.Kalloc.{page, Kmem, kalloc, kfree}
use tom_cs.Kalloc.Order.{IsValid, covers}
use tom_cs.Kalloc.Free.{IsApart}
use tom_cs.Kalloc.Safety.{IsBlock, kalloc_panics}
use tom_cs.Proc.State.{Proc, Table}

-- The 32 bits of an `int`, as a `uint`.
abbrev pub int_bits : ℤ → ℕ
int_bits (pos n) = n % 2 ^ 32
int_bits (negsuc n) = 2 ^ 32 - 1 - n % 2 ^ 32

-- `growproc(n)` behind the call of `kalloc`: `memset` takes `n` as a `uint`.
pub with_room : ℕ → ℤ → Table → Option ℕ × Kmem → Outcome (ℤ × Table × Kmem)
with_room cp n t (none, m) = returns (negsuc 0, t, m)
with_room cp n t (some a, m) = do
  let p = t.proc cp
  m' ←
      kfree p.mem (to_int p.sz)
        (record m { byte = memset (a + p.sz) 0 (int_bits n) (memmove a p.mem p.sz m.byte) })
  let sz = (p.sz + int_bits n) % 2 ^ 32
  returns (
    pos ((sz + (2 ^ 32 - int_bits n)) % 2 ^ 32),
    record t { proc = update t.proc cp (record p { mem = a; sz = sz }) },
    m',
  )

-- `growproc(n)` of the process `cp`, which `sys_sbrk` calls.
pub growproc : ℕ → ℤ → Table → Kmem → Outcome (ℤ × Table × Kmem)
growproc cp n t m = kalloc (to_int ((t.proc cp).sz + int_bits n)) m >>= with_room cp n t

-- The process `p` has become `q` with `n` bytes more: the old bytes, and zeros behind them.
pub record GrowsBytes (p q : Proc) (n : ℕ) (m m' : Kmem) : Type 0 where
  pub sz : q.sz ≡ p.sz + n
  pub kept : (x : ℕ) → x < p.sz → m'.byte (q.mem + x) ≡ m.byte (p.mem + x)
  pub zeros : (x : ℕ) → p.sz ≤ x → x < p.sz + n → m'.byte (q.mem + x) ≡ 0
  pub valid : IsValid m'
  pub free :
      (x : ℕ)
      → covers m'.freelist x
        ≡ (within p.mem p.sz x || covers m.freelist x && not (within q.mem q.sz x))

-- What `growproc` may come to, for more bytes.
abbrev pub Grows : ℕ → ℕ → Table → Kmem → Outcome (ℤ × Table × Kmem) → Type 0
Grows cp n t m (panics e) = ⊥
Grows cp n t m (returns (negsuc k, t', m')) = (k ≡ 0) × (t' ≡ t) × (m' ≡ m)
Grows cp n t m (returns (pos r, t', m')) =
    (r ≡ (t.proc cp).sz)
    × ((j : ℕ) → j ≢ cp → t'.proc j ≡ t.proc j)
    × GrowsBytes (t.proc cp) (t'.proc cp) n m m'

growproc-pos :
    (cp n : ℕ) (t : Table) (m : Kmem)
    → (t.proc cp).sz + n < 2 ^ 31
    → growproc cp (pos n) t m ≡ (kalloc (pos ((t.proc cp).sz + n)) m >>= with_room cp (pos n) t)
unfolding growproc
growproc-pos cp n t m small =
    let bits : n % 2 ^ 32 ≡ n = omega arith in
    rw (growproc, bits, to_int-small ((t.proc cp).sz + n) small) refl

module _ (cp n : ℕ) (t : Table) (m : Kmem) (v : IsValid m)
    (block : IsBlock (t.proc cp).mem (t.proc cp).sz)
    (apart : IsApart (t.proc cp).mem (t.proc cp).sz m.freelist) (whole : n % page ≡ 0)
    (small : (t.proc cp).sz + n < 2 ^ 31) where
  -- Memory with the block `a` filled, before the old block is freed.
  filled : ℕ → Kmem → Kmem
  filled a m1 =
      let p = t.proc cp in record m1 { byte = memset (a + p.sz) 0 n (memmove a p.mem p.sz m1.byte) }

-- A size that is not whole pages is too much for `kalloc`: so `sbrk` stops the machine.
pub growproc_panics :
    (cp n : ℕ) (t : Table) (m : Kmem)
    → (t.proc cp).sz % page ≡ 0
    → n % page ≢ 0
    → (t.proc cp).sz + n < 2 ^ 31
    → growproc cp (pos n) t m ≡ panics "kalloc"
growproc_panics cp n t m whole odd small =
    let odd_sum : ((t.proc cp).sz + n) % page ≢ 0 = λ e. odd (omega arith) in
    rw (growproc-pos cp n t m small, kalloc_panics ((t.proc cp).sz + n) m odd_sum) refl
