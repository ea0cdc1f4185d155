-- ===== src/Fs/Map/Slots.antt =====
-- The blocks that a file has, for bmap of xv6/fs.c.
use tom_cs.Base.{
  ℕ, ◌-◌, ◌*◌, ◌≤◌, ◌≡◌, ◌≢◌, ◌∙◌, inl, inr, false, ltb, ◌==◌, if◌then◌else◌, arith, Bool-cases,
}
use tom_cs.Fs.Disk.{Disk, num_direct, indirect, max_blocks, get_word, read_sb}
use tom_cs.Fs.Bitmap.Used.{block_free}
use tom_cs.Fs.Bitmap.Blocks.{InRange, IsData}
use tom_cs.Fs.Bitmap.Healthy.{Fresh}
use tom_cs.Fs.Inode.{Inode}

-- The address of the block `k` of the file, and with `k = max_blocks` that of its indirect block; 0
-- where there is none.
abbrev pub slot : Inode → Disk → ℕ → ℕ
slot ip d k =
    if ltb k num_direct
    then ip.addrs k
    else (if k == max_blocks
        then ip.addrs indirect
        else (if ip.addrs indirect == 0
            then 0
            else get_word (ip.addrs indirect) (4 * (k - num_direct)) d))

-- The blocks are data in use, and no two are the same.
pub record Maps (ip : Inode) (d : Disk) : Type 0 where
  pub used :
      (k : ℕ)
      → k ≤ max_blocks
      → slot ip d k ≢ 0
      → block_free (read_sb d).ninodes (slot ip d k) d ≡ false
  pub data_block : (k : ℕ) → k ≤ max_blocks → slot ip d k ≢ 0 → IsData d (slot ip d k)
  pub in_range : (k : ℕ) → k ≤ max_blocks → slot ip d k ≢ 0 → InRange d (slot ip d k)
  pub apart :
      (j k : ℕ)
      → j ≤ max_blocks
      → k ≤ max_blocks
      → slot ip d j ≢ 0
      → slot ip d j ≡ slot ip d k
      → j ≡ k

-- A file that gets the fresh block `c` as its block `n`.
module _ (ip : Inode) (d : Disk) (maps : Maps ip d) (n c : ℕ) (low : n ≤ max_blocks) (ip' : Inode)
    (d1 d' : Disk) (fresh : Fresh d c d1) (sb : read_sb d' ≡ read_sb d1)
    (free : (a : ℕ)
      → InRange d a
      → block_free (read_sb d).ninodes a d' ≡ block_free (read_sb d).ninodes a d1)
    (slots : (k : ℕ) → k ≤ max_blocks → slot ip' d' k ≡ (if k == n then c else slot ip d k)) where
  abbrev IsGood : ℕ → Type 0
  IsGood k =
      (block_free (read_sb d).ninodes (slot ip' d' k) d' ≡ false)
      × IsData d (slot ip' d' k)
      × InRange d (slot ip' d' k)

  good : (k : ℕ) → k ≤ max_blocks → slot ip' d' k ≢ 0 → IsGood k
  good k le some_block = elim (Bool-cases (k == n)) [
    | inl e ↦
        let same : slot ip' d' k ≡ c = ground (arith, slots k le) in
        rw same
          (ground (arith, free c fresh.in_range, fresh.free c), fresh.data_block, fresh.in_range)
    | inr e ↦
        let same : slot ip' d' k ≡ slot ip d k = ground (arith, slots k le) in
        let old : slot ip d k ≢ 0 = rw same at some_block in
        rw same (
          ground (
            arith,
            free (slot ip d k) (maps.in_range k le old),
            fresh.free (slot ip d k),
            maps.used k le old,
          ),
          maps.data_block k le old,
          maps.in_range k le old,
        )
  ]

  new_slot : (k : ℕ) → k ≤ max_blocks → slot ip d k ≢ 0 → slot ip d k ≢ c
  new_slot k le old e = cc (maps.used k le old, fresh.was_free)

  pub Maps-add : Maps ip' d'
  Maps-add =
      let same_sb : read_sb d' ≡ read_sb d = sb ∙ fresh.sb in
      record {
        used = λ k le b. rw same_sb (good k le b).0;
        data_block = λ k le b. rw same_sb (good k le b).1;
        in_range = λ k le b. rw same_sb (good k le b).2;
        apart = λ j k lj lk b e.
            ground
              (arith, slots j lj, slots k lk, maps.apart j k lj lk, new_slot j lj, new_slot k lk);
      }
