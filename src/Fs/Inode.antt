-- ===== src/Fs/Inode.antt =====
-- Inodes of xv6/fs.c and xv6/fsvar.h: in memory, and their copies on the disk.
pub mod Layout
use tom_cs.Base.{
  ℕ, ◌+◌, ◌-◌, ◌*◌, ◌/◌, ◌%◌, ◌^◌, Bool, true, false, ◌&&◌, leb, ltb, ◌==◌, if◌then◌else◌, update,
}
use tom_cs.Fs.Disk.{Disk, inodes_per_block, inode_block, get_word, block_size, zero_block}

pub record Inode : Type 0 where
  pub dev : ℕ
  pub inum : ℕ
  pub ref : ℕ
  pub busy : Bool
  pub valid : Bool
  pub type : ℕ
  pub major : ℕ
  pub minor : ℕ
  pub nlink : ℕ
  pub size : ℕ
  pub addrs : ℕ → ℕ

abbrev pub set_addr : ℕ → ℕ → Inode → Inode
set_addr k a ip = record ip { addrs = update ip.addrs k a }

-- T_DIR and T_DEV
abbrev pub type_dir : ℕ
type_dir = 1

abbrev pub type_dev : ℕ
type_dev = 3

-- The offset of the inode `inum` in its block; a `struct dinode` has 64 bytes.
abbrev pub inode_base : ℕ → ℕ
inode_base inum = inum % inodes_per_block * 64

-- A `short`, and the byte `k` of a number.
abbrev pub get_half : ℕ → ℕ → Disk → ℕ
get_half b o d = d b o + 256 * d b (o + 1)

abbrev pub byte_of : ℕ → ℕ → ℕ
byte_of v k =
    if k == 0
    then v % 256
    else (if k == 1
        then v / 256 % 256
        else (if k == 2 then v / 65536 % 256 else v / 16777216 % 256))

-- The byte `o` of the `struct dinode` that `iupdate` fills in.
pub dinode_byte : Inode → ℕ → ℕ
dinode_byte ip o =
    if ltb o 2
    then byte_of ip.type o
    else (if ltb o 4
        then byte_of ip.major (o - 2)
        else (if ltb o 6
            then byte_of ip.minor (o - 4)
            else (if ltb o 8
                then byte_of ip.nlink (o - 6)
                else (if ltb o 12
                    then byte_of ip.size (o - 8)
                    else byte_of (ip.addrs ((o - 12) / 4)) ((o - 12) % 4)))))

pub iupdate : Inode → Disk → Disk
iupdate ip d b o =
    if b == inode_block ip.inum && (leb (inode_base ip.inum) o && ltb o (inode_base ip.inum + 64))
    then dinode_byte ip (o - inode_base ip.inum)
    else d b o

-- The part of `ilock` that reads the inode from the disk.
unfoldable pub load_inode : Inode → Disk → Inode
load_inode ip d =
    let b = inode_block ip.inum in
    let o = inode_base ip.inum in
    record ip {
      type = get_half b o d;
      major = get_half b (o + 2) d;
      minor = get_half b (o + 4) d;
      nlink = get_half b (o + 6) d;
      size = get_word b (o + 8) d;
      addrs = λ k. get_word b (o + 12 + 4 * k) d;
      valid = true;
    }
