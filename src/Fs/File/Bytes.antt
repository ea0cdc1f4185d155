-- ===== src/Fs/File/Bytes.antt =====
-- The bytes of a block, before and after the memmove of writei of xv6/fs.c.
use tom_cs.Base.{
  ℕ, ◌+◌, ◌-◌, ◌/◌, ◌%◌, ◌<◌, ◌≡◌, ◌≢◌, refl, true, false, ◌&&◌, leb, ltb, ◌==◌, if◌then◌else◌,
  arith,
}
use tom_cs.Fs.Disk.{Disk, AllBytes, block_size}
use tom_cs.Fs.Inode.{Inode}
use tom_cs.Fs.Map.Slots.{slot}
use tom_cs.Fs.File.{put_bytes}
use tom_cs.Fs.File.Content.{byte_at}

pub put_bytes_kept :
    (b o m : ℕ) (src : ℕ → ℕ) (d : Disk) (i j : ℕ) → i ≢ b → put_bytes b o m src d i j ≡ d i j
unfolding put_bytes
put_bytes_kept b o m src d i j ne = ground arith

pub put_bytes_lem :
    (b o m : ℕ) (src : ℕ → ℕ) (d : Disk) (j : ℕ)
    → put_bytes b o m src d b j ≡ (if leb o j && ltb j (o + m) then src (j - o) else d b j)
unfolding put_bytes
put_bytes_lem b o m src d j = ground arith

pub put_bytes-AllBytes :
    (b o m : ℕ) (src : ℕ → ℕ) (d : Disk)
    → AllBytes d
    → ((j : ℕ) → src j < 256)
    → AllBytes (put_bytes b o m src d)
unfolding put_bytes
put_bytes-AllBytes b o m src d bytes small i j = ground (arith, bytes i j, small (j - o))

pub eq_of : (i j : ℕ) → (i == j) ≡ true → i ≡ j
eq_of i j e = ground arith

pub ne_of : (i j : ℕ) → (i == j) ≡ false → i ≢ j
ne_of i j e = ground arith

-- The byte `j` of the block `s`, if there is one.
pub at_slot : ℕ → Disk → ℕ → ℕ
at_slot s d j = if s == 0 then 0 else d s j

pub byte_at-at_slot :
    (ip : Inode) (d : Disk) (y : ℕ)
    → byte_at ip d y ≡ at_slot (slot ip d (y / block_size)) d (y % block_size)
unfolding at_slot
byte_at-at_slot ip d y = refl

pub same_at_slot :
    (s j : ℕ) (d d' : Disk) → (s ≢ 0 → d' s j ≡ d s j) → at_slot s d' j ≡ at_slot s d j
unfolding at_slot
same_at_slot s j d d' same = ground (arith, same)

pub new_at_slot :
    (s a j : ℕ) (d d' : Disk) → a ≢ 0 → s ≡ 0 → d' a j ≡ 0 → at_slot a d' j ≡ at_slot s d j
unfolding at_slot
new_at_slot s a j d d' ne absent z = ground arith

pub at_slot_lem : (s j : ℕ) (d : Disk) → s ≢ 0 → at_slot s d j ≡ d s j
unfolding at_slot
at_slot_lem s j d ne = ground arith
