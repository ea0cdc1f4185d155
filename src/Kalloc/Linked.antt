-- ===== src/Kalloc/Linked.antt =====
-- The free list of xv6/kalloc.c as it stands in memory: each header leads to the next run.
pub mod Free
pub mod Alloc
pub mod Uses
use tom_cs.Base.{
  ℕ, ◌+◌, ◌-◌, ◌*◌, ◌%◌, ◌/◌, ◌^◌, ◌≤◌, ◌<◌, ◌≡◌, ◌≢◌, refl, ◌∙◌, Bool, true, false, ◌||◌, ◌⊎◌,
  List, [], ◌∷◌, Option, none, some, arith, ◌==◌, ltb, leb, inl, inr, Bool-cases, Option-cases,
  Outcome, returns, panics,
}
use tom_cs.CString.{Memory}
use tom_cs.CString.Move.{within}
use tom_cs.Kalloc.{
  page, Run, run, stop, absorb, free_loop, alloc_loop, put_int, first_run, set_next, set_len,
  set_link, absorb_stores, free_stores, alloc_stores,
}
use tom_cs.Kalloc.Order.{Above, covers, covers-below, Above-mono}
use tom_cs.Kalloc.Free.{IsApart, place}
use tom_cs.Kalloc.Header.{
  heads, heads-covers, heads-free_loop, Spares, set_run, absorb_stores-outside, free_stores-outside,
  alloc_stores-outside,
}

-- The `int` or the pointer that stands at `a`.
abbrev pub get_int : ℕ → Memory → ℕ
get_int a m = m a + 256 * m (a + 1) + 256 ^ 2 * m (a + 2) + 256 ^ 3 * m (a + 3)

-- The header of each run has its length and the address of the next run.
abbrev pub Linked : List Run → Memory → Type 0
Linked [] m = Unit
Linked (r ∷ rs) m =
    (get_int r.addr m ≡ first_run rs) × (get_int (r.addr + 4) m ≡ r.len) × Linked rs m

-- The field behind `rp` stands below `b`, and leads to `q`.
abbrev pub Before : Option ℕ → ℕ → Type 0
Before none b = Unit
Before (some a) b = a + 8 ≤ b

abbrev pub Leads : Option ℕ → ℕ → Memory → Type 0
Leads none q m = Unit
Leads (some a) q m = get_int a m ≡ q

-- All runs end within 32 bits.
abbrev pub Small : List Run → Type 0
Small [] = Unit
Small (r ∷ rs) = (stop r ≤ 2 ^ 32) × Small rs

pub four_bytes :
    (v : ℕ)
    → v < 2 ^ 32
    → v % 256
        + 256 * (v / 256 % 256)
        + 256 ^ 2 * (v / 256 ^ 2 % 256)
        + 256 ^ 3 * (v / 256 ^ 3 % 256)
      ≡ v
four_bytes v h = omega arith

pub get_put : (a v : ℕ) (m : Memory) → v < 2 ^ 32 → get_int a (put_int a v m) ≡ v
get_put a v m h = ground (arith, four_bytes v h)

pub get_int-same :
    (a : ℕ) (m m' : Memory)
    → ((x : ℕ) → a ≤ x → x < a + 4 → m' x ≡ m x)
    → get_int a m' ≡ get_int a m
get_int-same a m m' h =
    rw
      (
        h a (omega arith) (omega arith),
        h (a + 1) (omega arith) (omega arith),
        h (a + 2) (omega arith) (omega arith),
        h (a + 3) (omega arith) (omega arith),
      )
      refl

-- A change outside the headers leaves the list.
pub Linked-frame :
    (rs : List Run) (m m' : Memory)
    → ((x : ℕ) → heads rs x ≡ true → m' x ≡ m x)
    → Linked rs m
    → Linked rs m'
Linked-frame [] m m' h l = tt
Linked-frame (r ∷ rs) m m' h (next, len, rest) = (
  get_int-same r.addr m m' (λ x lo hi. h x (ground arith)) ∙ next,
  get_int-same (r.addr + 4) m m' (λ x lo hi. h x (ground arith)) ∙ len,
  Linked-frame rs m m' (λ x i. h x (ground arith)) rest,
)

pub put_int-same : (a v : ℕ) (m : Memory) (x : ℕ) → (x < a) ⊎ (a + 4 ≤ x) → put_int a v m x ≡ m x
put_int-same a v m x h = ground arith

pub get_put-apart :
    (a c v : ℕ) (m : Memory) → (c + 4 ≤ a) ⊎ (a + 4 ≤ c) → get_int c (put_int a v m) ≡ get_int c m
get_put-apart a c v m h =
    get_int-same c m (put_int a v m) (λ x lo hi. put_int-same a v m x (omega arith))

pub heads-below : (b : ℕ) (rs : List Run) (x : ℕ) → Above b rs → x ≤ b → heads rs x ≡ false
heads-below b rs x v h = heads-covers b rs x v (covers-below rs x v h)

pub set_link-apart :
    (rp : Option ℕ) (b q c : ℕ) (m : Memory)
    → Before rp b
    → b ≤ c
    → get_int c (set_link rp q m) ≡ get_int c m
set_link-apart none b q c m h le = refl
set_link-apart (some a) b q c m h le = get_put-apart a c q m (omega arith)

pub set_link-Leads :
    (rp : Option ℕ) (q : ℕ) (m : Memory) → q < 2 ^ 32 → Leads rp q (set_link rp q m)
set_link-Leads none q m h = tt
set_link-Leads (some a) q m h = get_put a q m h

pub first-lt : (b : ℕ) (rs : List Run) → Above b rs → Small rs → first_run rs < 2 ^ 32
first-lt b [] v s = omega arith
first-lt b (r ∷ rs) v s = omega arith

pub heads-gt : (b : ℕ) (rs : List Run) (x : ℕ) → Above b rs → heads rs x ≡ true → b < x
heads-gt b rs x v h = ground (arith, heads-below b rs x v)

pub Before-Spares : (rp : Option ℕ) (b x : ℕ) → Before rp b → b ≤ x → Spares rp x
Before-Spares none b x h le = tt
Before-Spares (some a) b x h le = ground arith

pub out_above : (a x : ℕ) → a + 4 ≤ x → within a 4 x ≡ false
out_above a x h = ground arith

pub out_below : (a x : ℕ) → x < a → within a 4 x ≡ false
out_below a x h = ground arith

pub Leads-same :
    (rp : Option ℕ) (b q : ℕ) (m m' : Memory)
    → Before rp b
    → ((x : ℕ) → x < b → m' x ≡ m x)
    → Leads rp q m
    → Leads rp q m'
Leads-same none b q m m' h same k = tt
Leads-same (some a) b q m m' h same k = get_int-same a m m' (λ x lo hi. same x (omega arith)) ∙ k
