-- ===== src/Bio/Lookup.antt =====
-- The first loop of `bget`.
use tom_cs.Base.{ℕ, ◌≡◌, refl, true, false, List, [], ◌∷◌, arith, Bool-cases, ◌⊎◌, inl, inr}
use tom_cs.Bio.{Buf, holds, Found, absent, in_use, hit, lookup_loop}
use tom_cs.Bio.Order.{Absent, Changed, here, there}

-- Some buffer is busy with the sector.
abbrev pub HasBusy : ℕ → ℕ → List Buf → Type 0
HasBusy dev sector [] = ⊥
HasBusy dev sector (b ∷ bs) = (holds dev sector b ≡ true) × (b.busy ≡ true) ⊎ HasBusy dev sector bs

-- A buffer that was valid and not busy with the sector is now busy with it, and is `x`.
pub record Taken (dev sector : ℕ) (bs : List Buf) (x : Buf) (l : List Buf) : Type 0 where
  pub before : Buf
  pub changed : Changed before x bs l
  pub was_free : before.busy ≡ false
  pub was_valid : before.valid ≡ true
  pub only_busy : x ≡ record before { busy = true }
  pub dev_is : x.dev ≡ dev
  pub sector_is : x.sector ≡ sector

abbrev pub Finds : ℕ → ℕ → List Buf → Found → Type 0
Finds dev sector bs absent = Absent dev sector bs
Finds dev sector bs in_use = HasBusy dev sector bs
Finds dev sector bs (hit x l) = Taken dev sector bs x l

module _ (dev sector : ℕ) where
  Finds-cons :
      (b : Buf) (bs : List Buf) (r : Found)
      → holds dev sector b ≡ false
      → Finds dev sector bs r
      → Finds dev sector
          (b ∷ bs)
          (elim r [ absent ↦ absent | in_use ↦ in_use | hit x l ↦ hit x (b ∷ l) ])
  Finds-cons b bs absent h f = (h, f)
  Finds-cons b bs in_use h f = inr f
  Finds-cons b bs (hit x l) h f = record {
    before = f.before;
    changed = there f.changed;
    was_free = f.was_free;
    was_valid = f.was_valid;
    only_busy = f.only_busy;
    dev_is = f.dev_is;
    sector_is = f.sector_is;
  }

  pub lookup_loop-Finds : (bs : List Buf) → Finds dev sector bs (lookup_loop dev sector bs)
  unfolding lookup_loop
  lookup_loop-Finds [] = tt
  lookup_loop-Finds (b ∷ bs) = elim (Bool-cases (holds dev sector b)) [
    | inr other ↦
        rw other (Finds-cons b bs (lookup_loop dev sector bs) other (lookup_loop-Finds bs))
    | inl same ↦ rw same (elim (Bool-cases b.busy) [
      | inl busy ↦ simp busy (inl (ground arith, refl))
      | inr free ↦ simp free (record {
        before = b;
        changed = here;
        was_free = free;
        was_valid = ground arith;
        only_busy = refl;
        dev_is = ground arith;
        sector_is = ground arith;
      })
    ])
  ]
