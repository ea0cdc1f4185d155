-- ===== src/Fs/Icache/Get.antt =====
-- iget of xv6/fs.c: one slot for each inode in use.
use tom_cs.Base.{
  ℕ, zero, suc, ◌+◌, ◌<◌, ◌≤◌, ◌≡◌, ◌≢◌, ◌⊎◌, refl, inl, inr, true, false, Option, none, some, ◌==◌,
  arith, Bool-cases, Outcome, returns, panics,
}
use tom_cs.Fs.File.Bytes.{eq_of}
use tom_cs.Fs.Icache.{
  Icache, Slot, cached, unused, num_slots, is_match, note_empty, iget_loop, iget_slot, iget,
}

-- No inode is in two slots.
abbrev pub Unique : Icache → Type 0
Unique c =
    (i j : ℕ)
    → i < num_slots
    → j < num_slots
    → 0 < (c i).ref
    → 0 < (c j).ref
    → (c i).dev ≡ (c j).dev
    → (c i).inum ≡ (c j).inum
    → i ≡ j

-- What the loop may come to from the slot `i` on, if it has seen `empty`.
abbrev Scans : ℕ → ℕ → Option ℕ → ℕ → ℕ → Icache → Slot → Type 0
Scans i n empty dev inum c (cached k) = (i ≤ k) × (k < i + n) × (is_match dev inum (c k) ≡ true)
Scans i n empty dev inum c (unused none) =
    (empty ≡ none)
    × ((k : ℕ) → i ≤ k → k < i + n → is_match dev inum (c k) ≡ false)
    × ((k : ℕ) → i ≤ k → k < i + n → (c k).ref ≢ 0)
Scans i n empty dev inum c (unused (some k)) =
    ((j : ℕ) → i ≤ j → j < i + n → is_match dev inum (c j) ≡ false) × (k < i + n) × ((c k).ref ≡ 0)

abbrev Noted : ℕ → Icache → Option ℕ → Type 0
Noted i c none = Unit
Noted i c (some k) = (k < i) × ((c k).ref ≡ 0)

note_empty-Noted :
    (i : ℕ) (c : Icache) (empty : Option ℕ)
    → Noted i c empty
    → Noted (i + 1) c (note_empty i empty c)
unfolding note_empty
note_empty-Noted i c (some k) (lt, z) = (omega arith, z)
note_empty-Noted i c none noted = elim (Bool-cases ((c i).ref == 0)) [
  | inl e ↦ rw e (omega arith, eq_of (c i).ref 0 e)
  | inr e ↦ rw e tt
]

note_empty-none :
    (i : ℕ) (c : Icache) (empty : Option ℕ)
    → note_empty i empty c ≡ none
    → (empty ≡ none) × ((c i).ref ≢ 0)
unfolding note_empty
note_empty-none i c (some k) e = absurd cc
note_empty-none i c none e = (
  refl,
  λ z. let z' : ((c i).ref == 0) ≡ true = ground arith in let e' = rw z' at e in absurd (cc e'),
)

module _ (dev inum : ℕ) (c : Icache) where
  from :
      (i n : ℕ) (P : ℕ → Type 0)
      → P i
      → ((k : ℕ) → i + 1 ≤ k → k < i + 1 + n → P k)
      → (k : ℕ) → i ≤ k
      → k < i + suc n
      → P k
  from i n P p f k lo hi = elim (Bool-cases (k == i)) [
    | inl e ↦ rw (eq_of k i e) p
    | inr e ↦ f k (ground arith) (omega arith)
  ]

  Scans-next :
      (i n : ℕ) (empty : Option ℕ) (r : Slot)
      → is_match dev inum (c i) ≡ false
      → Scans (i + 1) n (note_empty i empty c) dev inum c r
      → Scans i (suc n) empty dev inum c r
  Scans-next i n empty (cached k) no_match s = (omega arith, omega arith, s.2)
  Scans-next i n empty (unused none) no_match s =
      let was = note_empty-none i c empty s.0 in
      (
        was.0,
        from i n (λ k. is_match dev inum (c k) ≡ false) no_match s.1,
        from i n (λ k. (c k).ref ≢ 0) was.1 s.2,
      )
  Scans-next i n empty (unused (some k)) no_match s =
      (from i n (λ k. is_match dev inum (c k) ≡ false) no_match s.0, omega arith, s.2)

  iget_loop-Scans :
      (n i : ℕ) (empty : Option ℕ)
      → Noted i c empty
      → Scans i n empty dev inum c (iget_loop i n empty dev inum c)
  unfolding iget_loop
  iget_loop-Scans zero i none noted =
      (refl, λ k lo hi. absurd (omega arith), λ k lo hi. absurd (omega arith))
  iget_loop-Scans zero i (some k) noted = (λ k lo hi. absurd (omega arith), omega arith, noted.1)
  iget_loop-Scans (suc n) i empty noted = elim (Bool-cases (is_match dev inum (c i))) [
    | inl e ↦ rw e (omega arith, omega arith, e)
    | inr e ↦ rw e (
        Scans-next i n empty _ e
          (iget_loop-Scans n (i + 1) (note_empty i empty c) (note_empty-Noted i c empty noted)))
  ]

-- The slot `k` is the one of the inode: it was, with one reference less, or it was not in use, nor was
-- the inode in any slot.
pub record HasSlot (dev inum : ℕ) (c : Icache) (k : ℕ) (c' : Icache) : Type 0 where
  pub low : k < num_slots
  pub dev_same : (c' k).dev ≡ dev
  pub inum_same : (c' k).inum ≡ inum
  pub held : (c' k).ref ≡ (c k).ref + 1
  pub was :
      (is_match dev inum (c k) ≡ true)
      ⊎ (((c k).ref ≡ 0) × ((j : ℕ) → j < num_slots → is_match dev inum (c j) ≡ false))
  pub unread : (c k).ref ≡ 0 → (c' k).valid ≡ false
  pub cached : 0 < (c k).ref → c' k ≡ record (c k) { ref = (c k).ref + 1 }
  pub others : (j : ℕ) → j ≢ k → c' j ≡ c j

abbrev pub Igets : ℕ → ℕ → Icache → Outcome (ℕ × Icache) → Type 0
Igets dev inum c (panics e) =
    (k : ℕ) → k < num_slots → ((c k).ref ≢ 0) × (is_match dev inum (c k) ≡ false)
Igets dev inum c (returns (k, c')) = HasSlot dev inum c k c'

module _ (dev inum : ℕ) (c : Icache) where
  iget_slot-Igets :
      (s : Slot) → Scans 0 num_slots none dev inum c s → Igets dev inum c (iget_slot s dev inum c)
  unfolding iget_slot is_match
  iget_slot-Igets (cached k) s = record {
    low = omega arith;
    dev_same = ground (arith, s.2);
    inum_same = ground (arith, s.2);
    held = ground arith;
    was = inl s.2;
    unread = λ z. absurd (ground (arith, s.2));
    cached = λ p. ground arith;
    others = λ j ne. ground arith;
  }
  iget_slot-Igets (unused none) s =
      λ k lt. (s.2 k (omega arith) (omega arith), s.1 k (omega arith) (omega arith))
  iget_slot-Igets (unused (some k)) s = record {
    low = omega arith;
    dev_same = ground arith;
    inum_same = ground arith;
    held = ground (arith, s.2);
    was = inr (s.2, λ j lt. s.0 j (omega arith) (omega arith));
    unread = λ z. ground arith;
    cached = λ p. absurd (omega (arith, s.2));
    others = λ j ne. ground arith;
  }

  -- `iget` gives the slot of the inode, with one reference more, or an empty one; it panics only if
  -- the inode is in no slot and none is empty.
  pub iget-Igets : Igets dev inum c (iget dev inum c)
  unfolding iget
  iget-Igets =
      iget_slot-Igets (iget_loop 0 num_slots none dev inum c)
        (iget_loop-Scans dev inum c num_slots 0 none tt)
