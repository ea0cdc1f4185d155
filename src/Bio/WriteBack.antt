-- ===== src/Bio/WriteBack.antt =====
-- `bwrite` then `brelse`: the block is on the disk, and the cache agrees with it.
use tom_cs.Base.{
  ℕ, ◌≡◌, refl, Bool, true, false, List, [], ◌∷◌, some, some, arith, Bool-cases, Option-cases, ◌⊎◌,
  inl, inr, Outcome, returns, ◌==◌, ◌>>=◌,
}
use tom_cs.Bio.{Buf, Disk, store, transfer, ide_rw, unlink, update_buf, brelse, bwrite}
use tom_cs.Bio.Order.{Absent, Distinct}
use tom_cs.Bio.Release.{Without, Unlinked, unlink-Unlinked, front-Distinct}
use tom_cs.Bio.Coherent.{Coherent}

unlink-update_buf :
    (id : ℕ) (x y : Buf) (bs r : List Buf)
    → y.id ≡ id
    → unlink id bs ≡ some (x, r)
    → unlink id (update_buf y bs) ≡ some (y, r)
unfolding unlink update_buf
unlink-update_buf id x y [] r e h = cc
unlink-update_buf id x y (b ∷ bs) r e h = elim (Bool-cases (b.id == id)) [
  | inl same ↦ ground arith
  | inr other ↦ elim (Option-cases (unlink id bs)) [
    | inl nowhere ↦ ground arith
    | inr ((z, l), f) ↦ ground (arith, unlink-update_buf id x y bs l e (ground arith))
  ]
]

Without-Coherent :
    {x : Buf} {bs r : List Buf} (d : Disk) → Without x bs r → Coherent d bs → Coherent d r
Without-Coherent d Without.here c = c.1
Without-Coherent d (Without.there w) c = (c.0, Without-Coherent d w c.1)

-- A write to a sector that no buffer holds leaves the buffers clean.
store-Coherent :
    (d : Disk) (dev sector : ℕ) (bytes : List ℕ) (bs : List Buf)
    → Absent dev sector bs
    → Coherent d bs
    → Coherent (store d dev sector bytes) bs
store-Coherent d dev sector bytes [] a c = tt
store-Coherent d dev sector bytes (b ∷ bs) a c =
    (λ free valid. ground (arith, c.0 free valid), store-Coherent d dev sector bytes bs a.1 c.1)

-- Both calls, for the buffer `id` with the value `y`.
pub write_release : Bool → Bool → ℕ → Buf → List Buf → Disk → Outcome (List Buf × Disk)
write_release disk_1 ok id y bs d = do
  (z, m, e) ← bwrite disk_1 ok y bs d
  n ← brelse id m
  returns (n, e)

module _ (disk_1 ok : Bool) (id : ℕ) (x : Buf) (cs : List ℕ) (bs r : List Buf) (d : Disk) where
  bwrite_writes :
      x.busy ≡ true
      → (x.dev ≡ 0) ⊎ (disk_1 ≡ true)
      → let y = record x { valid = true; dirty = false; bytes = cs } in
        bwrite disk_1 ok (record x { bytes = cs }) bs d
        ≡ returns (y, update_buf y bs, store d x.dev x.sector cs)
  unfolding bwrite ide_rw transfer
  bwrite_writes busy present = ground arith

  with_disk : List Buf → Outcome (List Buf × Disk)
  with_disk n = returns (n, store d x.dev x.sector cs)

  brelse_moves :
      (y : Buf) (m : List Buf)
      → unlink id m ≡ some (y, r)
      → y.busy ≡ true
      → (brelse id m >>= with_disk)
        ≡ returns (record y { busy = false } ∷ r, store d x.dev x.sector cs)
  unfolding brelse with_disk
  brelse_moves y m e busy = ground arith

  -- On a cache where no two buffers in use hold one sector and every valid idle buffer has the bytes
  -- of its sector, let the busy buffer `x` be given new bytes, on a disk that is present. `bwrite` and
  -- then `brelse` of it return with those bytes in its sector of the disk and every other sector
  -- as it was; the buffer is at the front, idle, valid and clean, and still no two hold one sector
  -- and every valid idle buffer has the bytes of its sector.
  pub bwrite-brelse :
      Distinct bs
      → Coherent d bs
      → unlink id bs ≡ some (x, r)
      → x.busy ≡ true
      → (x.dev ≡ 0) ⊎ (disk_1 ≡ true)
      → let d' = store d x.dev x.sector cs in
        let l = record x { busy = false; valid = true; dirty = false; bytes = cs } ∷ r in
        (write_release disk_1 ok id (record x { bytes = cs }) bs d ≡ returns (l, d'))
        × Coherent d' l
        × Distinct l
  unfolding write_release with_disk
  bwrite-brelse dis c e busy present =
      let u : Unlinked id bs (some (x, r)) = rw e at (unlink-Unlinked id bs) in
      let alone : Distinct (x ∷ r) = front-Distinct x u.1 (λ h. h) refl refl dis in
      let y = record x { valid = true; dirty = false; bytes = cs } in
      let clean =
        store-Coherent d x.dev x.sector cs r (alone.0 (ground arith)) (Without-Coherent d u.1 c) in
      (
        rw (bwrite_writes busy present)
            (brelse_moves y (update_buf y bs) (unlink-update_buf id x y bs r u.0 e) busy),
        ((λ free valid. ground arith), clean),
        front-Distinct (record y { busy = false }) u.1 (λ h. ground arith) refl refl dis,
      )
