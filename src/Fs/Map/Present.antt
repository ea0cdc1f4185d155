-- ===== src/Fs/Map/Present.antt =====
-- bmap of xv6/fs.c on a block that the file has.
use tom_cs.Base.{
  ℕ, ◌-◌, ◌*◌, ◌<◌, ◌≡◌, ◌≢◌, refl, inl, inr, Bool, true, false, some, ltb, ◌==◌, arith, Bool-cases,
  returns,
}
use tom_cs.Fs.Disk.{Disk, max_blocks, get_word, num_direct, num_indirect, indirect}
use tom_cs.Fs.Inode.{Inode}
use tom_cs.Fs.Map.{bmap, addr_slot, word_slot, bmap_indirect}
use tom_cs.Fs.Map.Slots.{slot}

module _ (ip : Inode) (d : Disk) where
  -- A block that is there is found, whether or not `alloc` is set, and nothing changes.
  pub bmap_present :
      (alloc : Bool) (k : ℕ)
      → k < max_blocks
      → slot ip d k ≢ 0
      → bmap alloc ip k d ≡ returns (some (slot ip d k), ip, d)
  unfolding bmap addr_slot word_slot bmap_indirect
  bmap_present alloc k lt there = elim (Bool-cases (ltb k num_direct)) [
    | inl e ↦ let absent : (ip.addrs k == 0) ≡ false = ground arith in rw (e, absent) refl
    | inr e ↦
        let last : (k == max_blocks) ≡ false = ground arith in
        let absent : (ip.addrs indirect == 0) ≡ false = ground (arith, there) in
        let word : (get_word (ip.addrs indirect) (4 * (k - num_direct)) d == 0) ≡ false =
          ground (arith, there) in
        let inside : ltb (k - num_direct) num_indirect ≡ true = ground arith in
        rw (e, inside, absent, word, last) refl
  ]
