-- ===== src/Bio/Coherent.antt =====
-- What is read through the cache is what the disk holds.
use mathlib.Core.Path.{ap₂}
use tom_cs.Base.{
  ap, ◌∙◌, ℕ, ◌≡◌, ◌≢◌, refl, Bool, true, false, not, ◌&&◌, List, [], ◌∷◌, Option, none, some,
  arith, Bool-cases, ◌⊎◌, inl, inr, Outcome, returns, panics, if◌then◌else◌, ◌==◌, ◌>>=◌,
}
use tom_cs.Bio.{Buf, Got, sleeps, got, bget, Disk, transfer, ide_rw, update_buf, bread}
use tom_cs.Bio.Order.{Absent, Distinct, Changed, here, there}
use tom_cs.Bio.Lookup.{HasBusy}
use tom_cs.Bio.Evict.{AllBusy}
use tom_cs.Bio.Cache.{Gets, bget-Gets}

-- A valid buffer that nobody uses has the bytes of its sector.
abbrev pub Clean : Disk → Buf → Type 0
Clean d b = b.busy ≡ false → b.valid ≡ true → b.bytes ≡ d b.dev b.sector

abbrev pub Coherent : Disk → List Buf → Type 0
Coherent d [] = Unit
Coherent d (b ∷ bs) = Clean d b × Coherent d bs

Changed-Coherent :
    {b x : Buf} {bs l : List Buf} (d : Disk)
    → Changed b x bs l
    → x.busy ≡ true
    → Coherent d bs
    → Clean d b × Coherent d l
Changed-Coherent d here busy c = (c.0, ((λ f. cc), c.1))
Changed-Coherent d (there w) busy c =
    let rest = Changed-Coherent d w busy c.1 in (rest.0, (c.0, rest.1))

update_buf-Coherent :
    (d : Disk) (y : Buf) (bs : List Buf)
    → y.busy ≡ true
    → Coherent d bs
    → Coherent d (update_buf y bs)
unfolding update_buf
update_buf-Coherent d y [] busy c = tt
update_buf-Coherent d y (b ∷ bs) busy c = elim (Bool-cases (b.id == y.id)) [
  | inl same ↦ rw same ((λ f. cc), c.1)
  | inr other ↦ rw other (c.0, update_buf-Coherent d y bs busy c.1)
]

-- What `bread` may come to.
abbrev pub ReadsBlock :
    ℕ → ℕ → List Buf → Disk → Bool → Outcome (Option (Buf × List Buf × Disk)) → Type 0
ReadsBlock dev sector bs d disk_1 (panics e) =
    (Absent dev sector bs × AllBusy bs) ⊎ (dev ≢ 0) × (disk_1 ≡ false)
ReadsBlock dev sector bs d disk_1 (returns none) = HasBusy dev sector bs
ReadsBlock dev sector bs d disk_1 (returns (some (y, l, d'))) =
    (y.busy ≡ true)
    × (y.valid ≡ true)
    × (y.dev ≡ dev)
    × (y.sector ≡ sector)
    × (y.bytes ≡ d dev sector)
    × (d' ≡ d)
    × Coherent d l

if_true {ℓ} : {A : Type ℓ} (b : Bool) (x y : A) → b ≡ true → (if b then x else y) ≡ x
if_true b x y e = rw e

if_false {ℓ} : {A : Type ℓ} (b : Bool) (x y : A) → b ≡ false → (if b then x else y) ≡ y
if_false b x y e = rw e

-- A request for a busy buffer that is neither valid nor dirty reads its sector.
ide_rw-read :
    (disk_1 : Bool) (x : Buf) (d : Disk)
    → x.busy ≡ true
    → x.valid ≡ false
    → x.dirty ≡ false
    → ide_rw disk_1 true x d ≡ (
        if not (x.dev == 0) && not disk_1
        then panics "ide disk 1 not present"
        else returns (record x { valid = true; dirty = false; bytes = d x.dev x.sector }, d))
unfolding ide_rw transfer
ide_rw-read disk_1 x d busy invalid clean = ground arith

module _ (disk_1 : Bool) (dev sector : ℕ) (bs : List Buf) (d : Disk) (c : Coherent d bs) where
  read-ReadsBlock :
      (x : Buf) (l : List Buf)
      → x.busy ≡ true
      → x.dev ≡ dev
      → x.sector ≡ sector
      → Coherent d l
      → ReadsBlock dev sector bs d disk_1 (
          (if not (x.dev == 0) && not disk_1
            then panics "ide disk 1 not present"
            else returns (record x { valid = true; dirty = false; bytes = d x.dev x.sector }, d))
          >>= λ (y, d'). returns (some (y, update_buf y l, d')))
  read-ReadsBlock x l busy e f rest = elim (Bool-cases (not (x.dev == 0) && not disk_1)) [
    | inl missing ↦ rw missing (inr (ground arith, ground arith))
    | inr present ↦ rw present (
      busy,
      refl,
      e,
      f,
      ap₂ d e f,
      refl,
      update_buf-Coherent d (record x { valid = true; dirty = false; bytes = d x.dev x.sector }) l
          busy rest,
    )
  ]

  got-ReadsBlock :
      (x : Buf) (l : List Buf)
      → Gets dev sector bs (returns (got x l))
      → ReadsBlock dev sector bs d disk_1 (
          if not x.valid
          then (ide_rw disk_1 true x d >>= λ (y, d'). returns (some (y, update_buf y l, d')))
          else returns (some (x, l, d)))
  got-ReadsBlock x l (dis, busy, dev_is, sector_is, inl t) =
      let r = Changed-Coherent d t.changed busy c in
      let valid : x.valid ≡ true = ground (arith, t.only_busy, t.was_valid) in
      let before : t.before.bytes ≡ d t.before.dev t.before.sector = r.0 t.was_free t.was_valid in
      let same : x.bytes ≡ d dev sector =
        ap (λ (b : Buf). b.bytes) t.only_busy
        ∙ before
        ∙ ap₂ d (ground (arith, t.only_busy)) (ground (arith, t.only_busy)) in
      rw (if_false (not x.valid) _ _ (ap not valid))
        (busy, valid, dev_is, sector_is, same, refl, r.1)
  got-ReadsBlock x l (dis, busy, dev_is, sector_is, inr (a, v)) =
      let r = Changed-Coherent d v.changed busy c in
      let invalid : x.valid ≡ false = ap (λ (b : Buf). b.valid) v.becomes in
      let clean : x.dirty ≡ false = ap (λ (b : Buf). b.dirty) v.becomes in
      rw (if_true (not x.valid) _ _ (ap not invalid), ide_rw-read disk_1 x d busy invalid clean)
        (read-ReadsBlock x l busy dev_is sector_is r.1)

  -- While the drive reports no error, on a cache where no two buffers in use hold one sector and every
  -- valid idle buffer has the bytes of its sector, `bread` sleeps only if the sector's buffer is
  -- busy, and panics only if all buffers are busy or the disk is missing. Otherwise it returns a
  -- busy, valid buffer for the sector with the bytes that the disk holds there, leaves the disk alone,
  -- and the idle buffers still have the bytes of their sectors.
  pub bread-ReadsBlock :
      Distinct bs → ReadsBlock dev sector bs d disk_1 (bread disk_1 true dev sector bs d)
  unfolding bread
  bread-ReadsBlock dis = bound (bget dev sector bs) (bget-Gets dev sector bs dis)
    where
      bound :
          (o : Outcome Got)
          → Gets dev sector bs o
          → ReadsBlock dev sector bs d disk_1 (
              o >>= λ g. elim g [
                | sleeps ↦ returns none
                | got x l ↦
                    if not x.valid
                    then (ide_rw disk_1 true x d >>= λ (y, d').
                        returns (some (y, update_buf y l, d')))
                    else returns (some (x, l, d))
              ])
      bound (panics e) g = inl g
      bound (returns sleeps) g = g
      bound (returns (got x l)) g = got-ReadsBlock x l g
