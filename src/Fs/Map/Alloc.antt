-- ===== src/Fs/Map/Alloc.antt =====
-- bmap of xv6/fs.c with `alloc` set: the block of the file is there afterwards, and all else stays.
use Prim.Native.String.{String}
use tom_cs.Base.{
  ℕ, ◌+◌, ◌-◌, ◌*◌, ◌<◌, ◌≤◌, ◌≡◌, ◌≢◌, inl, inr, true, false, Option, none, some, ltb, ◌==◌, arith,
  Bool-cases, Outcome, returns, panics, ◌>>=◌, Outcome-cases,
}
use tom_cs.Fs.Disk.{Disk, num_direct, indirect, num_indirect, max_blocks, get_word, read_sb}
use tom_cs.Fs.Bitmap.{balloc}
use tom_cs.Fs.Bitmap.Used.{block_free}
use tom_cs.Fs.Bitmap.Blocks.{balloc-Ballocs}
use tom_cs.Fs.Bitmap.Data.{room, room_none}
use tom_cs.Fs.Bitmap.Healthy.{Healthy, Fresh, balloc-Fresh}
use tom_cs.Fs.Inode.{Inode, set_addr}
use tom_cs.Fs.Map.{addr_slot, word_slot, bmap_indirect, bmap}
use tom_cs.Fs.Map.Slots.{Maps}
use tom_cs.Fs.Map.Steps.{Grown, direct-Grown, indirect-Grown, word-Grown, listed}
use tom_cs.Fs.Map.Mapped.{Mapped, lists, same-Mapped, Grown-Mapped, twice-Mapped}

-- There is no room for a block and, if there is none yet, the indirect block.
unfoldable pub IsFull : Inode → Disk → Type 0
IsFull ip d = room d + lists ip d ≤ 1

-- No block is free.
abbrev AllUsed : Disk → Type 0
AllUsed d = (a : ℕ) → a < (read_sb d).size → block_free (read_sb d).ninodes a d ≡ false

-- What bmap may come to, if `P` holds where it panics.
abbrev pub Bmaps : Type 0 → Inode → Disk → ℕ → Outcome (Option ℕ × Inode × Disk) → Type 0
Bmaps P ip d bn (panics e) = P
Bmaps P ip d bn (returns (none, ip', d')) = ⊥
Bmaps P ip d bn (returns (some a, ip', d')) = Mapped ip d bn a ip' d'

Bmaps-mono :
    {P Q : Type 0} (ip : Inode) (d : Disk) (bn : ℕ) (r : Outcome (Option ℕ × Inode × Disk))
    → (P → Q)
    → Bmaps P ip d bn r
    → Bmaps Q ip d bn r
Bmaps-mono ip d bn (panics e) f b = f b
Bmaps-mono ip d bn (returns (none, ip', d')) f b = b
Bmaps-mono ip d bn (returns (some a, ip', d')) f b = b

AllUsed-IsFull : (ip : Inode) (d : Disk) → AllUsed d → IsFull ip d
unfolding IsFull
AllUsed-IsFull ip d full = ground (arith, room_none d full)

module _ (ip : Inode) (d : Disk) (maps : Maps ip d) (h : Healthy d) where
  no_block : (e : String) → balloc d ≡ panics e → AllUsed d
  no_block x e = let b = balloc-Ballocs d h.bytes in rw e at b

  direct-Bmaps : (bn : ℕ) → bn < num_direct → Bmaps (AllUsed d) ip d bn (addr_slot true ip bn d)
  unfolding addr_slot
  direct-Bmaps bn lt = elim (Bool-cases (ip.addrs bn == 0)) [
    | inr e ↦ rw e (same-Mapped ip d maps h bn (ip.addrs bn) (ground arith) (ground arith))
    | inl e ↦ elim (Outcome-cases (balloc d)) [
      | inr (x, f) ↦ rw (e, f) (no_block x f)
      | inl ((c, d1), f) ↦
          rw (e, f)
            (Grown-Mapped ip d maps h bn c _ d1 (omega arith) (ground arith)
              (direct-Grown ip d maps c d1 (balloc-Fresh d h c d1 f) bn lt))
    ]
  ]

  word-Bmaps :
      (bn : ℕ)
      → bn < num_indirect
      → ip.addrs indirect ≢ 0
      → Bmaps (AllUsed d) ip d (num_direct + bn) (word_slot true ip (ip.addrs indirect) bn d)
  unfolding word_slot listed
  word-Bmaps bn lt some_list =
      let b = ip.addrs indirect in
      let back : num_direct + bn - num_direct ≡ bn = omega arith in
      elim (Bool-cases (get_word b (4 * bn) d == 0)) [
        | inr e ↦ rw e (
            same-Mapped ip d maps h (num_direct + bn) (get_word b (4 * bn) d) (ground (arith, back))
              (ground arith))
        | inl e ↦ elim (Outcome-cases (balloc d)) [
          | inr (x, f) ↦ rw (e, f) (no_block x f)
          | inl ((c, d1), f) ↦
              rw (e, f)
                (Grown-Mapped ip d maps h (num_direct + bn) c ip _ (omega arith)
                  (ground (arith, back))
                  (word-Grown ip d maps c d1 (balloc-Fresh d h c d1 f) bn lt some_list))
        ]
      ]

-- The indirect block is new.
module _ (ip : Inode) (d : Disk) (maps : Maps ip d) (h : Healthy d) (bn : ℕ)
    (lt : bn < num_indirect) where
  list-Bmaps :
      (b : ℕ) (d1 : Disk)
      → ip.addrs indirect ≡ 0
      → Fresh d b d1
      → Grown ip d max_blocks b (set_addr indirect b ip) d1
      → (r : Outcome (Option ℕ × Inode × Disk))
      → Bmaps (AllUsed d1) (set_addr indirect b ip) d1 (num_direct + bn) r
      → Bmaps (IsFull ip d) ip d (num_direct + bn) r
  unfolding IsFull
  list-Bmaps b d1 absent f g (panics x) full = ground (arith, room_none d1 full, g.room_left)
  list-Bmaps b d1 absent f g (returns (none, ip', d')) m = m
  list-Bmaps b d1 absent f g (returns (some a, ip', d')) m =
      twice-Mapped ip d maps h (num_direct + bn) a b (set_addr indirect b ip) ip' d1 d'
        (omega arith) absent (ground arith) g m

  new_list-Bmaps :
      (b : ℕ) (d1 : Disk)
      → ip.addrs indirect ≡ 0
      → Fresh d b d1
      → Bmaps (IsFull ip d) ip d (num_direct + bn) (word_slot true (set_addr indirect b ip) b bn d1)
  new_list-Bmaps b d1 absent f =
      let ip1 = set_addr indirect b ip in
      let g = indirect-Grown ip d maps b d1 f absent in
      list-Bmaps b d1 absent f g (word_slot true ip1 b bn d1)
        (word-Bmaps ip1 d1 g.maps f.healthy bn lt g.some_block)

  indirect-Bmaps :
      Bmaps
        (IsFull ip d)
        ip
        d
        (num_direct + bn)
        (addr_slot true ip indirect d >>= bmap_indirect true bn)
  unfolding addr_slot bmap_indirect
  indirect-Bmaps = elim (Bool-cases (ip.addrs indirect == 0)) [
    | inr e ↦ rw e (
        Bmaps-mono ip d (num_direct + bn) (word_slot true ip (ip.addrs indirect) bn d)
          (AllUsed-IsFull ip d) (word-Bmaps ip d maps h bn lt (ground arith)))
    | inl e ↦ elim (Outcome-cases (balloc d)) [
      | inr (x, f) ↦ rw (e, f) (AllUsed-IsFull ip d (no_block ip d maps h x f))
      | inl ((b, d1), f) ↦ rw (e, f) (new_list-Bmaps b d1 (ground arith) (balloc-Fresh d h b d1 f))
    ]
  ]

-- On a disk in order and for a file with blocks of its own, bmap with alloc set gives every block
-- of the file below the limit of 140 an address: the one that it had, or a new block full of zeros
-- that was free. The other blocks of the file, all other data but the list in the indirect block,
-- and the order of the disk stay. It panics only if there is no room for the block and the
-- indirect block.
pub bmap-Bmaps :
    (ip : Inode) (d : Disk) (bn : ℕ)
    → Maps ip d
    → Healthy d
    → bn < max_blocks
    → Bmaps (IsFull ip d) ip d bn (bmap true ip bn d)
unfolding bmap
bmap-Bmaps ip d bn maps h lt = elim (Bool-cases (ltb bn num_direct)) [
  | inl e ↦ rw e (
      Bmaps-mono ip d bn (addr_slot true ip bn d) (AllUsed-IsFull ip d)
        (direct-Bmaps ip d maps h bn (ground arith)))
  | inr e ↦
      let k = bn - num_direct in
      let low : k < num_indirect = ground arith in
      let in_list : ltb k num_indirect ≡ true = ground arith in
      let same : num_direct + k ≡ bn = ground arith in
      let r = indirect-Bmaps ip d maps h k low in rw (e, in_list) (rw same at r)
]
