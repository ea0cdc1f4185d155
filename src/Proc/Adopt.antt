-- ===== src/Proc/Adopt.antt =====
-- The loop of `exit` in xv6/proc.c that passes the children on to the first process.
use tom_cs.Base.{
  ℕ, zero, suc, ◌+◌, ◌≤◌, ◌<◌, ◌≡◌, inl, inr, true, false, ◌&&◌, Option, some, ltb, leb, ◌==◌,
  if◌then◌else◌, update, arith, Bool-cases,
}
use tom_cs.Proc.State.{max_proc, proc_chan, Proc, is_zombie, is_child}
use tom_cs.Proc.{wakeup1, adopt, adopt_loop}
use tom_cs.Proc.Life.{
  waits, Quiet, Quiet-refl, Quiet-trans, wakeup1-Quiet, parent-wakeup1, wakeup1-wakes,
}

module _ (cp init : ℕ) where
  update-Quiet :
      (t : ℕ → Proc) (i j : ℕ) (o : Option ℕ)
      → Quiet j (t j) (update t i (record (t i) { parent = o }) j)
  update-Quiet t i j o = record {
    unused_kept = ground arith;
    zombie_kept = ground arith;
    asleep = λ h. ground arith;
  }

  adopt-Quiet : (t : ℕ → Proc) (i j : ℕ) → Quiet j (t j) (adopt cp init i t j)
  adopt-Quiet t i j = elim (Bool-cases (is_child cp (t i))) [
    | inr e ↦ rw e (Quiet-refl j (t j))
    | inl e ↦ elim (Bool-cases (is_zombie (t i))) [
      | inr z ↦ rw (e, z) (update-Quiet t i j (some init))
      | inl z ↦
          let t' = update t i (record (t i) { parent = some init }) in
          rw (e, z)
            (Quiet-trans j (t j) (t' j) (wakeup1 (proc_chan init) t' j)
              (update-Quiet t i j (some init)) (wakeup1-Quiet (proc_chan init) t' j))
    ]
  ]

  parent-adopt :
      (t : ℕ → Proc) (i j : ℕ)
      → (adopt cp init i t j).parent
        ≡ (if (i == j) && is_child cp (t j) then some init else (t j).parent)
  parent-adopt t i j =
      let t' = update t i (record (t i) { parent = some init }) in
      ground (arith, parent-wakeup1 (proc_chan init) t' j)

  pub adopt_loop-Quiet :
      (i n : ℕ) (t : ℕ → Proc) (j : ℕ) → Quiet j (t j) (adopt_loop cp init i n t j)
  unfolding adopt_loop
  adopt_loop-Quiet i zero t j = Quiet-refl j (t j)
  adopt_loop-Quiet i (suc n) t j =
      let u = adopt cp init i t in
      Quiet-trans j (t j) (u j) (adopt_loop cp init (i + 1) n u j) (adopt-Quiet t i j)
        (adopt_loop-Quiet (i + 1) n u j)

  pub parent-adopt_loop :
      (i n : ℕ) (t : ℕ → Proc) (j : ℕ)
      → (adopt_loop cp init i n t j).parent
        ≡ (if leb i j && (ltb j (i + n) && is_child cp (t j)) then some init else (t j).parent)
  unfolding adopt_loop
  parent-adopt_loop i zero t j = ground arith
  parent-adopt_loop i (suc n) t j =
      let u = adopt cp init i t in
      ground (arith, parent-adopt_loop (i + 1) n u j, parent-adopt t i j)

  -- A dead child that is passed on wakes the first process.
  adopt-wakes :
      (t : ℕ → Proc) (i : ℕ)
      → init < max_proc
      → is_child cp (t i) ≡ true
      → is_zombie (t i) ≡ true
      → waits init (adopt cp init i t init) ≡ false
  adopt-wakes t i lt c z =
      let t' = update t i (record (t i) { parent = some init }) in
      rw (c, z) (wakeup1-wakes t' init lt)

  pub adopt_loop-wakes :
      (i n : ℕ) (t : ℕ → Proc) (j : ℕ)
      → init < max_proc
      → i ≤ j
      → j < i + n
      → is_child cp (t j) ≡ true
      → is_zombie (t j) ≡ true
      → waits init (adopt_loop cp init i n t init) ≡ false
  unfolding adopt_loop
  adopt_loop-wakes i zero t j lt lo hi c z = absurd (omega arith)
  adopt_loop-wakes i (suc n) t j lt lo hi c z =
      let u = adopt cp init i t in
      elim (Bool-cases (i == j)) [
        | inl e ↦ ground (arith, adopt-wakes t i lt, (adopt_loop-Quiet (i + 1) n u init).asleep)
        | inr e ↦
            adopt_loop-wakes (i + 1) n u j lt (ground arith) (omega arith)
              (ground (arith, parent-adopt t i j)) (ground (arith, (adopt-Quiet t i j).zombie_kept))
      ]
