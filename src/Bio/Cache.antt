-- ===== src/Bio/Cache.antt =====
-- `bget` and `brelse` on a cache where no two buffers hold one sector.
use tom_cs.Base.{
  ℕ, ◌≡◌, refl, true, false, List, ◌∷◌, Option, none, some, arith, Bool-cases, ◌⊎◌, inl, inr,
  Outcome, returns, panics, Option-cases,
}
use tom_cs.Bio.{
  Buf, Found, absent, in_use, hit, lookup_loop, evict_loop, Got, sleeps, got, bget, unlink, brelse,
}
use tom_cs.Bio.Order.{Absent, Distinct, Changed-Distinct, Changed-Distinct_new}
use tom_cs.Bio.Lookup.{HasBusy, Taken, Finds, lookup_loop-Finds}
use tom_cs.Bio.Evict.{AllBusy, Evicts, Evicted, evict_loop-Evicted}
use tom_cs.Bio.Release.{Without, Has, Unlinked, unlink-Unlinked, front-Distinct}

-- What `bget` may come to.
abbrev pub Gets : ℕ → ℕ → List Buf → Outcome Got → Type 0
Gets dev sector bs (panics e) = Absent dev sector bs × AllBusy bs
Gets dev sector bs (returns sleeps) = HasBusy dev sector bs
Gets dev sector bs (returns (got x l)) =
    Distinct l
    × (x.busy ≡ true)
    × (x.dev ≡ dev)
    × (x.sector ≡ sector)
    × (Taken dev sector bs x l ⊎ Absent dev sector bs × Evicts dev sector bs x l)

module _ (dev sector : ℕ) (bs : List Buf) (d : Distinct bs) where
  found-Gets :
      (f : Found)
      → Finds dev sector bs f
      → (e : Option (Buf × List Buf)) → Evicted dev sector bs e
      → Gets dev sector bs (elim f [
        | in_use ↦ returns sleeps
        | hit x l ↦ returns (got x l)
        | absent ↦ elim e [ none ↦ panics "bget: no buffers" | some (x, l) ↦ returns (got x l) ]
      ])
  found-Gets in_use w e v = w
  found-Gets (hit x l) t e v = (
    Changed-Distinct t.changed (ground (arith, t.was_valid)) (ground (arith, t.only_busy))
        (ground (arith, t.only_busy)) d,
    ground (arith, t.only_busy),
    t.dev_is,
    t.sector_is,
    inl t,
  )
  found-Gets absent a none v = (a, v)
  found-Gets absent a (some (x, l)) v = (
    Changed-Distinct_new v.changed (rw v.becomes a) d,
    ground (arith, v.becomes),
    ground (arith, v.becomes),
    ground (arith, v.becomes),
    inr (a, v),
  )

  -- On a cache where no two buffers in use hold one sector, `bget` sleeps only if a busy buffer holds
  -- the sector, and panics only if no buffer holds it and all are busy. Otherwise it returns a busy
  -- buffer for the sector, and still no two hold one sector: either the buffer that held it validly
  -- and was not busy, or, if none held it, the least recently used one that was not busy.
  pub bget-Gets : Gets dev sector bs (bget dev sector bs)
  unfolding bget
  bget-Gets =
      found-Gets (lookup_loop dev sector bs) (lookup_loop-Finds dev sector bs)
        (evict_loop dev sector bs) (evict_loop-Evicted dev sector bs)

-- What `brelse` of the buffer `id` may come to: a panic, or the buffer at the front.
abbrev pub Releases : ℕ → List Buf → Outcome (List Buf) → Type 0
Releases id bs (panics e) =
    (x : Buf) × (r : List Buf) × (x.id ≡ id) × Without x bs r × (x.busy ≡ false)
Releases id bs (returns l) =
    (x : Buf) × (r : List Buf) × (x.id ≡ id)
    × Without x bs r
    × (x.busy ≡ true)
    × (l ≡ record x { busy = false } ∷ r)
    × Distinct l

-- On a cache where no two buffers in use hold one sector, `brelse` panics only at a buffer that is
-- not busy. Otherwise it clears the busy flag and makes the buffer the most recently used; the
-- others keep their order, and still no two hold one sector.
pub brelse-Releases :
    (id : ℕ) (bs : List Buf) → Distinct bs → Has id bs → Releases id bs (brelse id bs)
unfolding brelse
brelse-Releases id bs d has = elim (Option-cases (unlink id bs)) [
  | inl e ↦ absurd ((rw e at (unlink-Unlinked id bs)) has)
  | inr ((x, r), e) ↦
      let u : Unlinked id bs (some (x, r)) = rw e at (unlink-Unlinked id bs) in
      rw (e, brelse)
        (elim (Bool-cases x.busy) [
          | inl busy ↦ simp busy (
            x,
            r,
            u.0,
            u.1,
            busy,
            refl,
            front-Distinct (record x { busy = false }) u.1 (λ h. ground arith) refl refl d,
          )
          | inr free ↦ simp free (x, r, u.0, u.1, free)
        ])
]
