-- ===== src/Kalloc/Order.antt =====
-- The order of the free list of xv6/kalloc.c, and the bytes that it covers.
use tom_cs.Base.{ℕ, ◌%◌, ◌≤◌, ◌<◌, ◌≡◌, refl, Bool, false, ◌||◌, List, [], ◌∷◌, arith}
use tom_cs.CString.Move.{within}
use tom_cs.Kalloc.{page, Run, stop, Kmem}

-- Page-aligned runs of whole pages, in order of address, with a gap before each.
abbrev pub Above : ℕ → List Run → Type 0
Above b [] = Unit
Above b (r ∷ rs) =
    (b < r.addr) × (0 < r.len) × (r.addr % page ≡ 0) × (r.len % page ≡ 0) × Above (stop r) rs

-- Address 0 is the null pointer, and no run stands there.
abbrev pub IsValid : Kmem → Type 0
IsValid m = Above 0 m.freelist

abbrev pub covers : List Run → ℕ → Bool
covers [] x = false
covers (r ∷ rs) x = within r.addr r.len x || covers rs x

pub Above-mono : {a b : ℕ} (rs : List Run) → a ≤ b → Above b rs → Above a rs
Above-mono [] h v = tt
Above-mono (r ∷ rs) h v = (omega arith, v.1, v.2, v.3, v.4)

pub covers-below : {b : ℕ} (rs : List Run) (x : ℕ) → Above b rs → x ≤ b → covers rs x ≡ false
covers-below [] x v h = refl
covers-below {b} (r ∷ rs) x v h = ground (arith, covers-below {b = stop r} rs x v.4)
