-- ===== src/Bio/Release.antt =====
-- `brelse`: the buffer goes to the front, and the others keep their order.
use mathlib.Core.Path.{subst₂}
use tom_cs.Base.{
  ◌≢◌, ◌⊎◌, ℕ, ◌≡◌, true, false, ◌||◌, List, [], ◌∷◌, Option, none, some, arith, ◌==◌, Bool-cases,
  inl, inr,
}
use tom_cs.Bio.{Buf, holds, unlink}
use tom_cs.Bio.Order.{Absent, Distinct}

-- The buffer `x`, somewhere in `bs`, is left out in `l`.
pub data Without (x : Buf) : List Buf → List Buf → Type 0 where
  here : {bs : List Buf} → Without x (x ∷ bs) bs
  there : {c : Buf} {bs l : List Buf} → Without x bs l → Without x (c ∷ bs) (c ∷ l)

-- A buffer has the place `id` in the array.
abbrev pub Has : ℕ → List Buf → Type 0
Has id [] = ⊥
Has id (b ∷ bs) = (b.id ≡ id) ⊎ Has id bs

abbrev pub Unlinked : ℕ → List Buf → Option (Buf × List Buf) → Type 0
Unlinked id bs none = ¬ Has id bs
Unlinked id bs (some (x, l)) = (x.id ≡ id) × Without x bs l

Unlinked-cons :
    (id : ℕ) (b : Buf) (bs : List Buf) (r : Option (Buf × List Buf))
    → b.id ≢ id
    → Unlinked id bs r
    → Unlinked id (b ∷ bs) (elim r [ none ↦ none | some (x, l) ↦ some (x, b ∷ l) ])
Unlinked-cons id b bs none ne u = elim [ inl e ↦ ne e | inr h ↦ u h ]
Unlinked-cons id b bs (some (x, l)) ne (e, w) = (e, there w)

pub unlink-Unlinked : (id : ℕ) (bs : List Buf) → Unlinked id bs (unlink id bs)
unfolding unlink
unlink-Unlinked id [] = λ h. h
unlink-Unlinked id (b ∷ bs) = elim (Bool-cases (b.id == id)) [
  | inl same ↦ rw same (ground arith, here)
  | inr other ↦
      rw other (Unlinked-cons id b bs (unlink id bs) (ground arith) (unlink-Unlinked id bs))
]

module _ {x : Buf} where
  pub Without-Absent :
      (dev sector : ℕ) {bs l : List Buf}
      → Without x bs l
      → Absent dev sector bs
      → Absent dev sector l
  Without-Absent dev sector here a = a.1
  Without-Absent dev sector (there w) a = (a.0, Without-Absent dev sector w a.1)

  pub Without-source :
      (dev sector : ℕ) {bs l : List Buf}
      → Without x bs l
      → Absent dev sector bs
      → holds dev sector x ≡ false
  Without-source dev sector here a = a.0
  Without-source dev sector (there w) a = Without-source dev sector w a.1

  -- Taken out and put in front with no more use than before, a buffer is still the only one.
  pub front-Distinct :
      (y : Buf) {bs l : List Buf}
      → Without x bs l
      → ((y.busy || y.valid) ≡ true → (x.busy || x.valid) ≡ true)
      → x.dev ≡ y.dev
      → x.sector ≡ y.sector
      → Distinct bs
      → Distinct (y ∷ l)
  front-Distinct y (here {bs}) h e f d = (λ u. subst₂ (λ i j. Absent i j bs) e f (d.0 (h u)), d.1)
  front-Distinct y (there {c} {l} w) h e f d =
      let rest = front-Distinct y w h e f d.1 in
      (λ u. (apart u, rest.0 u), (λ k. Without-Absent c.dev c.sector w (d.0 k), rest.1))
    where
      apart : (y.busy || y.valid) ≡ true → holds y.dev y.sector c ≡ false
      apart u = elim (Bool-cases (c.busy || c.valid)) [
        | inl k ↦ ground (arith, h u, Without-source c.dev c.sector w (d.0 k))
        | inr k ↦ ground arith
      ]
