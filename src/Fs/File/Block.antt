-- ===== src/Fs/File/Block.antt =====
-- One round of writei of xv6/fs.c: bmap, and the bytes that go into the block.
use tom_cs.Base.{ℕ, ◌+◌, ◌-◌, ◌*◌, ◌<◌, ◌≤◌, ◌≡◌, ◌≢◌, ◌⊎◌, sym, ◌∙◌, false, arith}
use tom_cs.Fs.Disk.{Disk, AllBytes, read_sb, max_blocks, get_word_cong, num_direct, indirect}
use tom_cs.Fs.Bitmap.Used.{block_free}
use tom_cs.Fs.Bitmap.Blocks.{InRange, IsData}
use tom_cs.Fs.Bitmap.Data.{room, written_sb, written_free, written-Healthy, written_room}
use tom_cs.Fs.Bitmap.Healthy.{Healthy}
use tom_cs.Fs.Inode.{Inode}
use tom_cs.Fs.Map.Slots.{slot, Maps}
use tom_cs.Fs.Map.Mapped.{lists}
use tom_cs.Fs.File.{max_bytes}
use tom_cs.Fs.File.Content.{byte_at, HasBlocks}

-- The block `b` is in use, and not by the file.
pub record IsOther (ip : Inode) (d : Disk) (b : ℕ) : Type 0 where
  pub data_block : IsData d b
  pub in_range : InRange d b
  pub used : block_free (read_sb d).ninodes b d ≡ false
  pub apart : (k : ℕ) → k ≤ max_blocks → slot ip d k ≢ b

-- `n` bytes of the file from `x` on are those of `src` from `at` on; the other bytes of the file, and
-- the blocks of other files, are as they were.
pub record Writes (ip : Inode) (d : Disk) (x at n : ℕ) (src : ℕ → ℕ) (ip' : Inode) (d' : Disk)
    : Type 0 where
  pub inside : (y : ℕ) → x ≤ y → y < x + n → byte_at ip' d' y ≡ src (at + (y - x))
  pub outside : (y : ℕ) → y < max_bytes → (y < x) ⊎ (x + n ≤ y) → byte_at ip' d' y ≡ byte_at ip d y
  pub there : HasBlocks ip' d' x n
  pub stays : (k : ℕ) → k < max_blocks → slot ip d k ≢ 0 → slot ip' d' k ≡ slot ip d k
  pub others : (b : ℕ) → IsOther ip d b → IsOther ip' d' b × ((o : ℕ) → d' b o ≡ d b o)
  pub maps : Maps ip' d'
  pub healthy : Healthy d'
  pub sb : read_sb d' ≡ read_sb d
  pub rest : ip' ≡ record ip { addrs = ip'.addrs; size = ip'.size }

-- A disk that changes in the block `k` of the file.
module _ (ip : Inode) (d d' : Disk) (k : ℕ) (maps : Maps ip d) (h : Healthy d)
    (low : k < max_blocks) (some_block : slot ip d k ≢ 0)
    (kept : (i o : ℕ) → i ≢ slot ip d k → d' i o ≡ d i o) where
  pub slot-IsData : IsData d (slot ip d k)
  slot-IsData = maps.data_block k (omega arith) some_block

  pub used : block_free (read_sb d).ninodes (slot ip d k) d ≡ false
  used = maps.used k (omega arith) some_block

  pub same_sb : read_sb d' ≡ read_sb d
  same_sb = written_sb (slot ip d k) d d' h slot-IsData used kept

  same_free :
      (a : ℕ)
      → InRange d a
      → block_free (read_sb d).ninodes a d' ≡ block_free (read_sb d).ninodes a d
  same_free = written_free (slot ip d k) d d' h slot-IsData used kept

  not_list : ip.addrs indirect ≢ 0 → ip.addrs indirect ≢ slot ip d k
  not_list there e =
      let f = maps.apart k max_blocks (omega arith) (omega arith) some_block (sym e) in
      absurd (omega (arith, f))

  pub same_slot : (j : ℕ) → j ≤ max_blocks → slot ip d' j ≡ slot ip d j
  same_slot j le = ground (
    arith,
    λ (there : ip.addrs indirect ≢ 0).
        get_word_cong (ip.addrs indirect) (4 * (j - num_direct)) d d'
          (λ o. kept (ip.addrs indirect) o (not_list there)),
  )

  pub same-Maps : Maps ip d'
  same-Maps = record {
    used = λ j le b.
        rw (same_sb, same_slot j le)
          (let b' = rw (same_slot j le) at b in
            same_free (slot ip d j) (maps.in_range j le b') ∙ maps.used j le b');
    data_block =
        λ j le b. rw (same_sb, same_slot j le) (maps.data_block j le (rw (same_slot j le) at b));
    in_range =
        λ j le b. rw (same_sb, same_slot j le) (maps.in_range j le (rw (same_slot j le) at b));
    apart = λ i j li lj b e.
        maps.apart i j li lj (rw (same_slot i li) at b) (sym (same_slot i li) ∙ e ∙ same_slot j lj);
  }

  pub IsOther-stays : (b : ℕ) → IsOther ip d b → IsOther ip d' b × ((o : ℕ) → d' b o ≡ d b o)
  IsOther-stays b r = (
    record {
      data_block = rw same_sb r.data_block;
      in_range = rw same_sb r.in_range;
      used = rw same_sb (same_free b r.in_range ∙ r.used);
      apart = λ j le. rw (same_slot j le) (r.apart j le);
    },
    λ o. kept b o (λ e. r.apart k (omega arith) (sym e)),
  )

  pub same-Healthy : AllBytes d' → Healthy d'
  same-Healthy = written-Healthy (slot ip d k) d d' h slot-IsData used kept

  pub same_room : room d + lists ip d ≤ room d' + lists ip d'
  same_room = ground (
    arith,
    written_room (slot ip d k) d d' h slot-IsData used kept,
    same_slot max_blocks (omega arith),
  )
