-- ===== src/Fs/Sample.antt =====
-- A small disk for the runs of xv6/fs.c: 20 blocks, of which 0 to 4 and 6 are in use, and a file of one block.
use tom_cs.Base.{
  count, ℕ, zero, suc, ◌+◌, ◌^◌, ◌<◌, ◌≤◌, ◌≡◌, ◌≢◌, refl, sym, ◌∙◌, true, false, ◌&&◌, none, ◌==◌,
  if◌then◌else◌, arith,
}
use tom_cs.Fs.Disk.{Disk, AllBytes, read_sb, get_word}
use tom_cs.Fs.Bitmap.{is_free}
use tom_cs.Fs.Bitmap.Used.{block_free}
use tom_cs.Fs.Bitmap.Healthy.{Healthy}
use tom_cs.Fs.Bitmap.Data.{room}
use tom_cs.Fs.Inode.{Inode}
use tom_cs.Fs.Inode.Layout.{Fits}
use tom_cs.Fs.Map.Slots.{slot, Maps}
use tom_cs.Fs.File.{Devices}
use tom_cs.Fs.File.Content.{HasBlocks}

abbrev pub test_disk : Disk
test_disk b o =
    if b == 1 && o == 0
    then 20
    else (if b == 1 && o == 8
        then 8
        else (if b == 4 && o == 0
            then 95
            else (if b == 6 && o == 0 then 5 else (if b == 6 && o == 2 then 97 else 0))))

pub test_sb : read_sb test_disk ≡ record { size = 20; nblocks = 0; ninodes = 8 }
unfolding read_sb get_word
test_sb = refl

pub test_bytes : AllBytes test_disk
test_bytes b o = ground arith

pub low_used : (b : ℕ) → b ≤ 4 → block_free 8 b test_disk ≡ false
unfolding is_free
low_used zero le = refl
low_used (suc zero) le = refl
low_used (suc (suc zero)) le = refl
low_used (suc (suc (suc zero))) le = refl
low_used (suc (suc (suc (suc zero)))) le = refl
low_used (suc (suc (suc (suc (suc b))))) le = absurd (omega arith)

pub test_used : block_free 8 6 test_disk ≡ false
unfolding is_free
test_used = refl

pub test_free : (b : ℕ) → 4 < b → b < 4096 → b ≢ 6 → (o : ℕ) → test_disk b o ≡ 0
test_free b lo hi ne o = ground arith

pub test_Healthy : Healthy test_disk
unfolding read_sb get_word
test_Healthy = record {
  bytes = test_bytes;
  meta_used = low_used;
  free_zero = λ b r db free o lt.
      test_free b db (omega arith) (λ e. let used = rw e at free in absurd (cc (test_used))) o;
  meta_fits = omega arith;
  small = omega arith;
}

-- A file, or a directory, of one block.
abbrev pub test_inode : ℕ → ℕ → Inode
test_inode type size = record {
  dev = 1;
  inum = 3;
  ref = 1;
  busy = false;
  valid = true;
  type = type;
  major = 0;
  minor = 0;
  nlink = 0;
  size = size;
  addrs = λ k. if k == 0 then 6 else 0;
}

pub test_slot :
    (type size k : ℕ)
    → slot (test_inode type size) test_disk k ≢ 0
    → (k ≡ 0) × (slot (test_inode type size) test_disk k ≡ 6)
test_slot type size k ne = ground arith

pub test_Maps : (type size : ℕ) → Maps (test_inode type size) test_disk
unfolding read_sb get_word
test_Maps type size = record {
  used = λ k le ne. rw (test_slot type size k ne).1 test_used;
  data_block = λ k le ne. omega (arith, (test_slot type size k ne).1);
  in_range = λ k le ne. omega (arith, (test_slot type size k ne).1);
  apart = λ j k lj lk ne e.
      (test_slot type size j ne).0 ∙ sym (test_slot type size k (λ z. ne (e ∙ z))).0;
}

pub test_Fits : (type size : ℕ) → type < 2 ^ 16 → size < 2 ^ 32 → Fits (test_inode type size)
test_Fits type size lt ls = record {
  type = lt;
  major = omega arith;
  minor = omega arith;
  nlink = omega arith;
  size = ls;
  addrs = λ k le. ground arith;
}

pub test_room : room test_disk ≡ 14
unfolding read_sb get_word room is_free count
test_room = refl

abbrev pub test_devices : Devices
test_devices = record { read = λ k. none; write = λ k. none }

abbrev pub source : ℕ → ℕ
source j = if j == 0 then 104 else 105

pub source_lt : (j : ℕ) → source j < 256
source_lt j = ground arith

pub has_block : (type size : ℕ) → HasBlocks (test_inode type size) test_disk 0 512
has_block type size y lo hi = ground arith

pub test_inodes : 3 ≤ (read_sb test_disk).ninodes
unfolding read_sb get_word
test_inodes = omega arith

pub some_room : (n : ℕ) → n ≤ 14 → n ≤ room test_disk + 0
some_room n le = omega (arith, test_room)
