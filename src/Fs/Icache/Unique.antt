-- ===== src/Fs/Icache/Unique.antt =====
-- The inode cache of xv6/fs.c holds an inode once, and iget shares it.
use tom_cs.Base.{
  ℕ, ◌+◌, ◌<◌, ◌≡◌, ◌≢◌, ap, sym, ◌∙◌, inl, inr, true, ◌==◌, arith, Bool-cases, Outcome, returns,
  panics,
}
use tom_cs.Fs.File.Bytes.{eq_of, ne_of}
use tom_cs.Fs.Inode.{Inode}
use tom_cs.Fs.Icache.{Icache, num_slots, is_match, iget}
use tom_cs.Fs.Icache.Get.{Unique, HasSlot, Igets, iget-Igets}

is_match_lem :
    (dev inum : ℕ) (ip : Inode)
    → is_match dev inum ip ≡ true
    → (0 < ip.ref) × (ip.dev ≡ dev) × (ip.inum ≡ inum)
unfolding is_match
is_match_lem dev inum ip e = (ground arith, ground arith, ground arith)

is_match_of :
    (dev inum : ℕ) (ip : Inode)
    → 0 < ip.ref
    → ip.dev ≡ dev
    → ip.inum ≡ inum
    → is_match dev inum ip ≡ true
unfolding is_match
is_match_of dev inum ip p d i = ground arith

module _ (dev inum : ℕ) (c : Icache) (k : ℕ) (c' : Icache) (unique : Unique c)
    (g : HasSlot dev inum c k c') where
  -- The slot of the inode is the only one that has it.
  only : (j : ℕ) → j < num_slots → 0 < (c' j).ref → (c' j).dev ≡ dev → (c' j).inum ≡ inum → j ≡ k
  only j lt held d i = elim (Bool-cases (j == k)) [
    | inl e ↦ eq_of j k e
    | inr e ↦
        let ne : j ≢ k = ne_of j k e in
        let same = g.others j ne in
        let held' : 0 < (c j).ref = rw same at held in
        let d' : (c j).dev ≡ dev = rw same at d in
        let i' : (c j).inum ≡ inum = rw same at i in
        elim g.was [
          | inl m ↦
              let at_k = is_match_lem dev inum (c k) m in
              unique j k lt g.low held' at_k.0 (d' ∙ sym at_k.1) (i' ∙ sym at_k.2)
          | inr (z, none_here) ↦ cc (is_match_of dev inum (c j) held' d' i', none_here j lt)
        ]
  ]

  HasSlot-Unique : Unique c'
  HasSlot-Unique i j li lj hi hj d n = elim (Bool-cases (i == k)) [
    | inl e ↦
        let same : i ≡ k = eq_of i k e in
        same ∙ sym (only j lj hj (sym d ∙ rw same g.dev_same) (sym n ∙ rw same g.inum_same))
    | inr e ↦ elim (Bool-cases (j == k)) [
      | inl f ↦
          let same : j ≡ k = eq_of j k f in
          only i li hi (d ∙ rw same g.dev_same) (n ∙ rw same g.inum_same) ∙ sym same
      | inr f ↦
          let si = g.others i (ne_of i k e) in
          let sj = g.others j (ne_of j k f) in
          unique i j li lj (rw si at hi) (rw sj at hj) (rw (si, sj) at d) (rw (si, sj) at n)
    ]
  ]

  again :
      (r : Outcome (ℕ × Icache))
      → Igets dev inum c' r
      → (c'' : Icache) × (r ≡ returns (k, c'')) × ((c'' k).ref ≡ (c k).ref + 2)
  again (panics e) f =
      let m = is_match_of dev inum (c' k) (omega (arith, g.held)) g.dev_same g.inum_same in
      let full = (f k g.low).1 in cc (m, full)
  again (returns (j, c'')) f =
      let at_j : (0 < (c' j).ref) × ((c' j).dev ≡ dev) × ((c' j).inum ≡ inum) = elim f.was [
        | inl m ↦ is_match_lem dev inum (c' j) m
        | inr (z, none_here) ↦
            let m = is_match_of dev inum (c' k) (omega (arith, g.held)) g.dev_same g.inum_same in
            cc (m, none_here k g.low)
      ] in
      let same : j ≡ k = only j f.low at_j.0 at_j.1 at_j.2 in
      let held = rw same at f.held in
      (c'', ap (λ i. returns (i, c'')) same, omega (arith, held, g.held))

iget-Unique :
    (dev inum : ℕ) (c : Icache) (k : ℕ) (c' : Icache)
    → Unique c
    → iget dev inum c ≡ returns (k, c')
    → Unique c'
iget-Unique dev inum c k c' unique e =
    let g = iget-Igets dev inum c in HasSlot-Unique dev inum c k c' unique (rw e at g)

-- If no inode is in two slots of the cache and iget returns a slot, the same holds afterwards, and
-- a second iget of that inode returns the same slot, with two references more than at first.
pub iget-iget :
    (dev inum : ℕ) (c : Icache) (k : ℕ) (c' : Icache)
    → Unique c
    → iget dev inum c ≡ returns (k, c')
    → Unique c'
      × ((c'' : Icache) × (iget dev inum c' ≡ returns (k, c'')) × ((c'' k).ref ≡ (c k).ref + 2))
iget-iget dev inum c k c' unique e =
    let g = iget-Igets dev inum c in
    (
      iget-Unique dev inum c k c' unique e,
      again dev inum c k c' unique (rw e at g) (iget dev inum c') (iget-Igets dev inum c'),
    )
