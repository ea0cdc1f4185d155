-- ===== src/Fs/Map.antt =====
-- bmap of xv6/fs.c: the disk block of each block of a file.
pub mod Slots
pub mod Steps
pub mod Mapped
pub mod Alloc
pub mod Present
use tom_cs.Base.{
  ℕ, ◌+◌, ◌-◌, ◌*◌, ◌^◌, Bool, true, false, Option, none, some, ltb, ◌==◌, if◌then◌else◌, Outcome,
  returns, panics, ◌>>=◌,
}
use tom_cs.Fs.Disk.{Disk, num_direct, indirect, num_indirect, get_word, put_word}
use tom_cs.Fs.Bitmap.{balloc}
use tom_cs.Fs.Inode.{Inode, set_addr}

-- The address in `ip->addrs[k]`, allocated if there is none and `alloc` is set; `none` is -1.
pub addr_slot : Bool → Inode → ℕ → Disk → Outcome (Option ℕ × Inode × Disk)
addr_slot alloc ip k d =
    if ip.addrs k == 0
    then (if alloc
        then (balloc d >>= λ (a, d'). returns (some a, set_addr k a ip, d'))
        else returns (none, ip, d))
    else returns (some (ip.addrs k), ip, d)

-- The same for the word `bn` of the indirect block `b`.
pub word_slot : Bool → Inode → ℕ → ℕ → Disk → Outcome (Option ℕ × Inode × Disk)
word_slot alloc ip b bn d =
    if get_word b (4 * bn) d == 0
    then (if alloc
        then (balloc d >>= λ (a, d'). returns (some a, ip, put_word b (4 * bn) a d'))
        else returns (none, ip, d))
    else returns (some (get_word b (4 * bn) d), ip, d)

-- `bmap` behind the load of the indirect block.
pub bmap_indirect : Bool → ℕ → Option ℕ × Inode × Disk → Outcome (Option ℕ × Inode × Disk)
bmap_indirect alloc bn (none, ip, d) = returns (none, ip, d)
bmap_indirect alloc bn (some b, ip, d) = word_slot alloc ip b bn d

pub bmap : Bool → Inode → ℕ → Disk → Outcome (Option ℕ × Inode × Disk)
bmap alloc ip bn d =
    if ltb bn num_direct
    then addr_slot alloc ip bn d
    else (if ltb (bn - num_direct) num_indirect
        then addr_slot alloc ip indirect d >>= bmap_indirect alloc (bn - num_direct)
        else panics "bmap: out of range")
