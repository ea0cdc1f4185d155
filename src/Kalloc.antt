-- ===== src/Kalloc.antt =====
-- xv6/kalloc.c: the allocator of physical memory, a sorted list of free runs that coalesces.
-- A call holds `kalloc_lock` from its first look at the list to its last, so it is one step here.
-- The list of the runs is what the loops read; what they store into the `struct run` headers, which
-- stand in the free memory itself, is written there too.
use tom_cs.CString.{Memory, memset}
use tom_cs.Base.Int.{ℤ, pos, negsuc}
pub mod Order
pub mod Header
pub mod Linked
pub mod Free
pub mod Alloc
pub mod Unique
pub mod Safety
mod Tests
use mathlib.Core.Option
use tom_cs.Base.{
  ℕ, ◌+◌, ◌-◌, ◌*◌, ◌%◌, Bool, ◌&&◌, ◌||◌, not, List, [], ◌∷◌, Option, none, some, ltb, leb, ◌==◌,
  ◌/◌, ◌^◌, update, if◌then◌else◌, Outcome, returns, panics,
}

abbrev pub page : ℕ
page = 4096

-- `struct run`: `addr` is the address at which the header stands.
pub record Run : Type 0 where
  pub addr : ℕ
  pub len : ℕ

abbrev pub run : ℕ → ℕ → Run
run a n = record { addr = a; len = n }

-- `rend`
abbrev pub stop : Run → ℕ
stop r = r.addr + r.len

pub record Kmem : Type 0 where
  pub freelist : List Run
  pub byte : Memory

-- `r next to p: replace p with r`, and then `r now next to r->next?`
abbrev pub absorb : Run → ℕ → ℕ → List Run → List Run
absorb r n pend [] = run r.addr (r.len + n) ∷ []
absorb r n pend (q ∷ rs) =
    if pend == q.addr then run r.addr (r.len + n + q.len) ∷ rs else run r.addr (r.len + n) ∷ q ∷ rs

-- The loop of `kfree` over the runs from `*rp` on; `none` is its panic.
pub free_loop : ℕ → ℕ → List Run → Option (List Run)
free_loop p n [] = some (run p n ∷ [])
free_loop p n (r ∷ rs) =
    let rest = free_loop p n rs in
    if leb r.addr (p + n)
    then (if leb r.addr p && ltb p (stop r)
        then none
        else (if p + n == r.addr
            then some (run p (n + r.len) ∷ rs)
            else (if stop r == p
                then some (absorb r n (p + n) rs)
                else Option.map (λ l. r ∷ l) rest)))
    else some (run p n ∷ r ∷ rs)

-- The loop of `kalloc`: the address handed out and the list that is left.
pub alloc_loop : ℕ → List Run → Option (ℕ × List Run)
alloc_loop n [] = none
alloc_loop n (r ∷ rs) =
    let rest = alloc_loop n rs in
    if r.len == n
    then some (r.addr, rs)
    else (if ltb n r.len
        then some (r.addr + (r.len - n), run r.addr (r.len - n) ∷ rs)
        else Option.map (λ (p, l). (p, r ∷ l)) rest)

-- An `int` or a pointer, four bytes from the lowest on.
abbrev pub put_int : ℕ → ℕ → Memory → Memory
put_int a v m =
    update
      (update (update (update m a (v % 256)) (a + 1) (v / 256 % 256)) (a + 2) (v / 256 ^ 2 % 256))
      (a + 3) (v / 256 ^ 3 % 256)

-- `r->next = q` and `r->len = n`
abbrev pub set_next : ℕ → ℕ → Memory → Memory
set_next = put_int

abbrev pub set_len : ℕ → ℕ → Memory → Memory
set_len r n m = put_int (r + 4) n m

-- `*rp = q`, where `rp` is the `next` field of a run, or the variable `freelist`.
abbrev pub set_link : Option ℕ → ℕ → Memory → Memory
set_link none q m = m
set_link (some r) q m = set_next r q m

-- The address of the first run, or the null pointer.
abbrev pub first_run : List Run → ℕ
first_run [] = 0
first_run (r ∷ rs) = r.addr

abbrev pub absorb_stores : Run → ℕ → ℕ → List Run → Memory → Memory
absorb_stores r n pend [] m = set_len r.addr (r.len + n) m
absorb_stores r n pend (q ∷ rs) m =
    let m' = set_len r.addr (r.len + n) m in
    if pend == q.addr
    then set_next r.addr (first_run rs) (set_len r.addr (r.len + n + q.len) m')
    else m'

-- What the loop of `kfree` stores, from `*rp` on.
pub free_stores : Option ℕ → ℕ → ℕ → List Run → Memory → Memory
free_stores rp p n [] m = set_link rp p (set_next p 0 (set_len p n m))
free_stores rp p n (r ∷ rs) m =
    let rest = free_stores (some r.addr) p n rs m in
    if leb r.addr (p + n)
    then (if p + n == r.addr
        then set_link rp p (set_next p (first_run rs) (set_len p (n + r.len) m))
        else (if stop r == p then absorb_stores r n (p + n) rs m else rest))
    else set_link rp p (set_next p r.addr (set_len p n m))

-- What the loop of `kalloc` stores.
pub alloc_stores : Option ℕ → ℕ → List Run → Memory → Memory
alloc_stores rp n [] m = m
alloc_stores rp n (r ∷ rs) m =
    let rest = alloc_stores (some r.addr) n rs m in
    if r.len == n
    then set_link rp (first_run rs) m
    else (if ltb n r.len then set_len r.addr (r.len - n) m else rest)

-- `kfree`: the junk is written before the list is looked at, also where the loop then panics.
pub kfree : ℕ → ℤ → Kmem → Outcome Kmem
kfree v (negsuc n) m = panics "kfree"
kfree v (pos n) m =
    if n == 0 || not (n % page == 0) then panics "kfree" else (elim (free_loop v n m.freelist) [
      | none ↦ panics "freeing free page"
      | some l ↦
          returns
            (record { freelist = l; byte = free_stores none v n m.freelist (memset v 1 n m.byte) })
    ])

-- `kalloc`: `none` is the null pointer.
pub kalloc : ℤ → Kmem → Outcome (Option ℕ × Kmem)
kalloc (negsuc n) m = panics "kalloc"
kalloc (pos n) m =
    if not (n % page == 0) || n == 0 then panics "kalloc" else (elim (alloc_loop n m.freelist) [
      | none ↦ returns (none, m)
      | some (p, l) ↦
          returns (some p, record { freelist = l; byte = alloc_stores none n m.freelist m.byte })
    ])

-- `kinit`, from the address of `end`: the pages after it.
pub kinit : ℕ → Kmem → Outcome Kmem
kinit end m = kfree ((end + page) / page * page) (pos (256 * page)) m
