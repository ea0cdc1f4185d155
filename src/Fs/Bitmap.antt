-- ===== src/Fs/Bitmap.antt =====
-- balloc and bfree of xv6/fs.c, over the bitmap of blocks in use.
pub mod Bits
pub mod Used
pub mod Blocks
pub mod Healthy
pub mod Data
pub mod Meta
use Prim.Native.Nat.{bit_and, bit_or}
use tom_cs.Base.{
  ℕ, zero, suc, ◌+◌, ◌-◌, ◌*◌, ◌/◌, ◌%◌, ◌^◌, Bool, true, false, not, Option, none, some, leb, ltb,
  ◌==◌, if◌then◌else◌, Outcome, returns, panics,
}
use tom_cs.Fs.Disk.{Disk, SuperBlock, read_sb, store_byte, zero_block, bitmap_block, bits_per_block}

-- `(bp->data[bi/8] & m) == 0` with `m = 1 << (bi % 8)`, of the bitmap block `bb`
unfoldable pub is_free : ℕ → ℕ → Disk → Bool
is_free bb bi d = bit_and (d bb (bi / 8)) (2 ^ (bi % 8)) == 0

-- `bp->data[bi/8] |= m`, and `bp->data[bi/8] &= ~m`
pub set_bit : ℕ → ℕ → Disk → Disk
set_bit bb bi d = store_byte bb (bi / 8) (bit_or (d bb (bi / 8)) (2 ^ (bi % 8))) d

pub clear_bit : ℕ → ℕ → Disk → Disk
clear_bit bb bi d = store_byte bb (bi / 8) (bit_and (d bb (bi / 8)) (255 - 2 ^ (bi % 8))) d

-- The inner loop of `balloc`, from the bit `bi` of the block `bb` on, with `n` rounds left.
pub find_bit : ℕ → ℕ → ℕ → Disk → Option ℕ
find_bit bb bi zero d = none
find_bit bb bi (suc n) d =
    let rest = find_bit bb (bi + 1) n d in if is_free bb bi d then some bi else rest

-- The outer loop, with `n` rounds to spare.
pub balloc_loop : ℕ → ℕ → SuperBlock → Disk → Outcome (ℕ × Disk)
balloc_loop zero b sb d = panics "balloc: out of blocks"
balloc_loop (suc n) b sb d =
    let rest = balloc_loop n (b + bits_per_block) sb d in
    let bb = bitmap_block b sb.ninodes in
    if ltb b sb.size
    then (elim (find_bit bb 0 bits_per_block d) [
      | some bi ↦ returns (b + bi, set_bit bb bi d)
      | none ↦ rest
    ])
    else panics "balloc: out of blocks"

-- `balloc`: the loop comes round at most once for each 4096 blocks.
pub balloc : Disk → Outcome (ℕ × Disk)
balloc d = balloc_loop ((read_sb d).size / bits_per_block + 1) 0 (read_sb d) d

pub bfree : ℕ → Disk → Outcome Disk
bfree b d =
    let d0 = zero_block b d in
    let bb = bitmap_block b (read_sb d0).ninodes in
    let bi = b % bits_per_block in
    if is_free bb bi d0 then panics "freeing free block" else returns (clear_bit bb bi d0)
