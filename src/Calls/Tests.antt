-- ===== src/Calls/Tests.antt =====
-- The theorems on xv6/sysfile.c at a directory of one block with two entries, and two descriptors.
use tom_cs.Base.{
  ℕ, ◌≡◌, refl, true, false, ◌&&◌, ◌==◌, if◌then◌else◌, arith, Option, none, some, zero, suc, List,
  [], ◌∷◌, panics, update,
}
use tom_cs.Files.{File, fd_closed, fd_inode, filealloc_loop, max_file}
use tom_cs.Fs.Sample.{
  test_disk, test_inode, test_Maps, test_Healthy, test_Fits, test_inodes, source, source_lt,
  some_room, test_devices,
}
use tom_cs.Fs.File.Content.{bytes_of}
use tom_cs.Calls.{◌>>=◌, done}
use tom_cs.Calls.Transfer.{write_inode}
use tom_cs.Calls.Reread.{Idle, reread, read_inode-write_inode}
use tom_cs.Calls.Create.{open_found, open_inode, sys_open}
use tom_cs.Fs.Path.{
  slash, skip_slashes, cut_elem, skipelem, walk_cut, walk, is_absolute, namei_from, namei,
}
use tom_cs.Fs.Icache.{is_match, iget_loop, iget_slot, iget, ilock_read, ilock}
use tom_cs.Calls.Full.{AllInUse, open_full}
use tom_cs.Fs.Disk.{Disk}
use tom_cs.Fs.Inode.{Inode}
use tom_cs.Fs.File.Content.{HasBlocks}
use tom_cs.Calls.{isdirempty}
use tom_cs.Calls.Empty.{Empties, isdirempty-Empties}

abbrev dir_disk : Disk
dir_disk b o = if b == 6 && o == 0 then 5 else (if b == 6 && o == 16 then 1 else 0)

abbrev dir_inode : Inode
dir_inode = record {
  dev = 1;
  inum = 5;
  ref = 1;
  busy = true;
  valid = true;
  type = 1;
  major = 0;
  minor = 0;
  nlink = 1;
  size = 48;
  addrs = λ k. if k == 0 then 6 else 0;
}

dir_blocks : HasBlocks dir_inode dir_disk 0 48
dir_blocks y lo hi = ground arith

isdirempty-Empties_example :
    Empties 32 dir_inode dir_disk
      (isdirempty (record { read = λ k. none; write = λ k. none }) dir_inode dir_disk)
isdirempty-Empties_example =
    isdirempty-Empties (record { read = λ k. none; write = λ k. none }) dir_inode dir_disk
      (omega arith) (omega arith) (omega arith) dir_blocks

abbrev closed_files : ℕ → File
closed_files i = record {
  type = fd_closed;
  ref = 0;
  readable = false;
  writable = false;
  pipe = 0;
  ip = 0;
  off = 0;
}

-- One open file, to which all descriptors of the process refer.
abbrev one_file : ℕ → File
one_file = update closed_files 4 (record (closed_files 4) { type = fd_inode; ref = 16 })

-- `n` descriptors, 16 of which (NOFILE) are all that a process has.
abbrev duplicates : ℕ → List (Option ℕ)
duplicates zero = []
duplicates (suc n) = some 4 ∷ duplicates n

duplicates-AllInUse : (n : ℕ) → AllInUse (duplicates n)
duplicates-AllInUse zero i = cc
duplicates-AllInUse (suc n) zero = cc
duplicates-AllInUse (suc n) (suc i) = duplicates-AllInUse n i

first_closed : filealloc_loop 0 max_file one_file ≡ some 0
unfolding filealloc_loop
first_closed = refl

-- The root directory in the first slot of the cache.
abbrev root_cache : ℕ → Inode
root_cache k = record dir_inode { inum = 1; busy = false; ref = if k == 0 then 1 else 0 }

open_root :
    open_inode test_devices (slash ∷ []) 0 0 (root_cache, dir_disk)
    ≡ done (
      some 0,
      (
        update
            (update root_cache 0 (record (root_cache 0) { ref = 2 }))
            0
            (record (root_cache 0) { ref = 2; busy = true }),
        dir_disk,
      ),
    )
unfolding open_inode open_found namei namei_from walk walk_cut skipelem cut_elem skip_slashes
    is_absolute iget iget_slot iget_loop is_match ilock ilock_read
open_root = refl

open_full_example :
    sys_open test_devices (slash ∷ []) 0 0 one_file (duplicates 16) (root_cache, dir_disk)
    ≡ panics "fileclose"
open_full_example =
    open_full test_devices (slash ∷ []) 0 0 0 one_file (duplicates 16) (root_cache, dir_disk) _ 0
      (duplicates-AllInUse 16) first_closed open_root

test_Idle : Idle (test_inode 2 4)
test_Idle = record { held = omega arith; free = refl; valid = refl }

-- The file in the slot 2, at the offset 510.
abbrev test_file : File
test_file = record (closed_files 0) { ip = 2; off = 510 }

read_inode-write_inode_example :
    (write_inode test_devices test_file source 4 ((λ k. test_inode 2 4), test_disk)
      >>= reread test_devices test_file 4)
    ≡ done (some 4, 514, some (bytes_of source 0 4))
read_inode-write_inode_example =
    read_inode-write_inode test_devices (λ k. test_inode 2 4) test_disk 4 test_file test_file source
      refl refl (omega arith) (omega arith) test_Idle (omega arith) (omega arith) (test_Maps 2 4)
      test_Healthy (test_Fits 2 4 (omega arith) (omega arith)) test_inodes source_lt
      (some_room 3 (omega arith))
