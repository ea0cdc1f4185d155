-- ===== src/Fs/Tests.antt =====
-- The theorems on xv6/fs.c at the small disk of Fs/Sample.
use tom_cs.Base.{
  take, length, map, update, ℕ, suc, ◌+◌, ◌≡◌, refl, true, List, [], ◌∷◌, some, ◌==◌, if◌then◌else◌,
  arith, returns, ◌>>=◌,
}
use tom_cs.Fs.Bitmap.{balloc}
use tom_cs.Fs.Bitmap.Blocks.{Ballocs, balloc-Ballocs}
use tom_cs.Fs.Map.{bmap}
use tom_cs.Fs.Map.Alloc.{Bmaps, IsFull, bmap-Bmaps}
use tom_cs.Fs.File.{readi, writei}
use tom_cs.Fs.File.Content.{content, bytes_of, readi_lem}
use tom_cs.Fs.File.Stored.{Writeis, writei-Writeis, readi-writei}
use tom_cs.Fs.Truncate.{itrunc}
use tom_cs.Fs.Truncate.Truncs.{Truncs, itrunc-Truncs}
use tom_cs.Fs.Icache.{Icache, is_match, note_empty, iget_loop, iget_slot, iget, iput}
use tom_cs.Fs.Icache.Get.{Unique}
use tom_cs.Fs.Icache.Unique.{iget-iget}
use tom_cs.Fs.Icache.Put.{Puts, iput-Puts}
use tom_cs.Fs.Dir.{dirlookup, name_size}
use tom_cs.Fs.Dir.Lookup.{Lookups, dirlookup-Lookups}
use tom_cs.Fs.Path.Elements.{elements, path_of, elements-path_of}
use tom_cs.Fs.Sample.{
  test_disk, test_bytes, test_Healthy, test_inode, test_Maps, test_Fits, test_devices, source,
  source_lt, has_block, test_inodes, some_room,
}

balloc-Ballocs_example : Ballocs test_disk (balloc test_disk)
balloc-Ballocs_example = balloc-Ballocs test_disk test_bytes

bmap-Bmaps_example :
    Bmaps
      (IsFull (test_inode 2 4) test_disk)
      (test_inode 2 4)
      test_disk
      12
      (bmap true (test_inode 2 4) 12 test_disk)
bmap-Bmaps_example =
    bmap-Bmaps (test_inode 2 4) test_disk 12 (test_Maps 2 4) test_Healthy (omega arith)

writei-Writeis_example :
    Writeis
      (test_inode 2 4)
      test_disk
      500
      100
      source
      (writei test_devices (test_inode 2 4) 500 100 source test_disk)
writei-Writeis_example =
    writei-Writeis test_devices (test_inode 2 4) test_disk 500 source 100 (omega arith)
      (omega arith) (omega arith) (test_Maps 2 4) test_Healthy
      (test_Fits 2 4 (omega arith) (omega arith)) test_inodes source_lt (some_room 3 (omega arith))

readi-writei_example :
    (writei test_devices (test_inode 2 4) 510 4 source test_disk >>= λ (c, ip', d').
    readi test_devices ip' 510 4 d')
    ≡ returns (some (bytes_of source 0 4))
readi-writei_example =
    readi-writei test_devices (test_inode 2 4) test_disk 510 4 source (omega arith) (omega arith)
      (omega arith) (omega arith) (test_Maps 2 4) test_Healthy
      (test_Fits 2 4 (omega arith) (omega arith)) test_inodes source_lt (some_room 3 (omega arith))

readi_lem_example :
    readi test_devices (test_inode 2 4) 2 7 test_disk
    ≡ returns (some (content (test_inode 2 4) test_disk 2 2))
readi_lem_example =
    readi_lem (test_inode 2 4) test_disk test_devices 2 7 (omega arith) (omega arith) (omega arith)
      (omega arith) (λ y lo hi. has_block 2 4 y (omega arith) (omega arith))

itrunc-Truncs_example : Truncs (test_inode 2 4) test_disk (itrunc (test_inode 2 4) test_disk)
itrunc-Truncs_example =
    itrunc-Truncs (test_inode 2 4) test_disk (test_Maps 2 4) test_inodes
      (test_Fits 2 4 (omega arith) (omega arith)) test_Healthy

abbrev test_cache : Icache
test_cache k = if k == 2 then test_inode 2 4 else record (test_inode 2 4) { ref = 0 }

test_Unique : Unique test_cache
test_Unique i j li lj hi hj d n = ground arith

abbrev got_cache : Icache
got_cache = update test_cache 2 (record (test_cache 2) { ref = (test_cache 2).ref + 1 })

get_once : iget 1 3 test_cache ≡ returns (2, got_cache)
unfolding iget iget_loop iget_slot is_match note_empty
get_once = refl

iget-iget_example :
    Unique got_cache
    × ((c'' : Icache) × (iget 1 3 got_cache ≡ returns (2, c'')) × ((c'' 2).ref ≡ 3))
iget-iget_example = iget-iget 1 3 test_cache 2 got_cache test_Unique get_once

iput-Puts_example : Puts 2 test_cache test_disk (iput 2 test_cache test_disk)
iput-Puts_example =
    iput-Puts 2 test_cache test_disk (test_Maps 2 4) test_Healthy test_inodes
      (test_Fits 2 4 (omega arith) (omega arith)) (λ e. refl)

abbrev test_name : ℕ → ℕ
test_name j = if j == 0 then 97 else 0

dirlookup-Lookups_example :
    Lookups
      (test_inode 1 512)
      test_name
      test_cache
      test_disk
      (dirlookup (test_inode 1 512) test_name test_cache test_disk)
dirlookup-Lookups_example =
    dirlookup-Lookups (test_inode 1 512) test_name test_cache test_disk refl (omega arith)
      (has_block 1 512)

abbrev test_names : List (List ℕ)
test_names = (97 ∷ []) ∷ (98 ∷ 98 ∷ []) ∷ []

elements-path_of_example :
    elements (suc (length (path_of test_names))) (path_of test_names)
    ≡ map (take name_size) test_names
elements-path_of_example =
    elements-path_of test_names ((omega arith, tt), ((omega arith, (omega arith, tt)), tt))
