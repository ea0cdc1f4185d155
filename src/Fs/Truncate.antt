-- ===== src/Fs/Truncate.antt =====
-- itrunc of xv6/fs.c. The indirect block itself is not given back.
pub mod Freed
pub mod Loops
pub mod Truncs
use tom_cs.Base.{ℕ, zero, suc, ◌+◌, ◌*◌, ◌==◌, if◌then◌else◌, Outcome, returns, ◌>>=◌}
use tom_cs.Fs.Disk.{Disk, num_direct, indirect, num_indirect, get_word}
use tom_cs.Fs.Bitmap.{bfree}
use tom_cs.Fs.Inode.{Inode, set_addr, iupdate}

pub free_addr : ℕ → Inode → Disk → Outcome (Inode × Disk)
free_addr i ip d =
    if ip.addrs i == 0
    then returns (ip, d)
    else (bfree (ip.addrs i) d >>= λ d'. returns (set_addr i 0 ip, d'))

-- The loop over the direct blocks, from `i` on with `n` rounds left.
pub free_direct : ℕ → ℕ → Inode → Disk → Outcome (Inode × Disk)
free_direct i zero ip d = returns (ip, d)
free_direct i (suc n) ip d = free_addr i ip d >>= λ (ip', d'). free_direct (i + 1) n ip' d'

pub free_word : ℕ → ℕ → Disk → Outcome Disk
free_word b j d = if get_word b (4 * j) d == 0 then returns d else bfree (get_word b (4 * j) d) d

-- The loop over the words of the indirect block `b`.
pub free_list : ℕ → ℕ → ℕ → Disk → Outcome Disk
free_list b j zero d = returns d
free_list b j (suc n) d = free_word b j d >>= free_list b (j + 1) n

pub free_indirect : Inode × Disk → Outcome (Inode × Disk)
free_indirect (ip, d) =
    if ip.addrs indirect == 0
    then returns (ip, d)
    else (free_list (ip.addrs indirect) 0 num_indirect d >>= λ d'.
        returns (set_addr indirect 0 ip, d'))

-- The size is 0, and the inode is stored.
pub store_empty : Inode × Disk → Outcome (Inode × Disk)
store_empty (ip, d) = let ip' = record ip { size = 0 } in returns (ip', iupdate ip' d)

pub itrunc : Inode → Disk → Outcome (Inode × Disk)
itrunc ip d = free_direct 0 num_direct ip d >>= free_indirect >>= store_empty
