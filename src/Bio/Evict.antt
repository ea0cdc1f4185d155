-- ===== src/Bio/Evict.antt =====
-- The second loop of `bget`: the least recently used buffer that is not busy.
use tom_cs.Base.{
  ℕ, ◌≡◌, refl, true, false, List, [], ◌∷◌, ◌++◌, Option, none, some, Bool-cases, inl, inr, ap,
  if◌then◌else◌,
}
use tom_cs.Bio.{Buf, reuse, evict_loop}
use tom_cs.Bio.Order.{Changed, here, there}

abbrev pub AllBusy : List Buf → Type 0
AllBusy [] = Unit
AllBusy (b ∷ bs) = (b.busy ≡ true) × AllBusy bs

-- A buffer that was not busy, with none free behind it, becomes `x`.
pub record Evicts (dev sector : ℕ) (bs : List Buf) (x : Buf) (l : List Buf) : Type 0 where
  pub before : Buf
  pub newer : List Buf
  pub older : List Buf
  pub was_free : before.busy ≡ false
  pub stale : AllBusy older
  pub place : bs ≡ newer ++ before ∷ older
  pub becomes : x ≡ reuse dev sector before
  pub result : l ≡ newer ++ x ∷ older
  pub changed : Changed before x bs l

abbrev pub Evicted : ℕ → ℕ → List Buf → Option (Buf × List Buf) → Type 0
Evicted dev sector bs none = AllBusy bs
Evicted dev sector bs (some (x, l)) = Evicts dev sector bs x l

module _ (dev sector : ℕ) where
  Evicted-cons :
      (b : Buf) (bs : List Buf) (r : Option (Buf × List Buf))
      → Evicted dev sector bs r
      → Evicted dev sector (b ∷ bs) (elim r [
        | some (x, l) ↦ some (x, b ∷ l)
        | none ↦ if b.busy then none else some (reuse dev sector b, reuse dev sector b ∷ bs)
      ])
  Evicted-cons b bs (some (x, l)) e = record {
    before = e.before;
    newer = b ∷ e.newer;
    older = e.older;
    was_free = e.was_free;
    stale = e.stale;
    place = ap (λ l. b ∷ l) e.place;
    becomes = e.becomes;
    result = ap (λ l. b ∷ l) e.result;
    changed = there e.changed;
  }
  Evicted-cons b bs none e = elim (Bool-cases b.busy) [
    | inl busy ↦ simp busy (refl, e)
    | inr free ↦ simp free (record {
      before = b;
      newer = [];
      older = bs;
      was_free = free;
      stale = e;
      place = refl;
      becomes = refl;
      result = refl;
      changed = here;
    })
  ]

  pub evict_loop-Evicted : (bs : List Buf) → Evicted dev sector bs (evict_loop dev sector bs)
  unfolding evict_loop
  evict_loop-Evicted [] = tt
  evict_loop-Evicted (b ∷ bs) = Evicted-cons b bs (evict_loop dev sector bs) (evict_loop-Evicted bs)
