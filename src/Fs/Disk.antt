-- ===== src/Fs/Disk.antt =====
-- Bytes and words of blocks, and the layout of xv6/fs.h.
use tom_cs.Base.{
  ℕ, ◌+◌, ◌*◌, ◌/◌, ◌%◌, ◌^◌, ◌<◌, ◌≤◌, ◌≡◌, ◌≢◌, refl, ◌&&◌, leb, ltb, ◌==◌, if◌then◌else◌, arith,
  ◌⊎◌, inl, inr,
}

abbrev pub Disk : Type 0
Disk = ℕ → ℕ → ℕ

-- BSIZE, BPB, IPB, NDIRECT, INDIRECT, NINDIRECT, MAXFILE
abbrev pub block_size : ℕ
block_size = 512

abbrev pub bits_per_block : ℕ
bits_per_block = 4096

abbrev pub inodes_per_block : ℕ
inodes_per_block = 8

abbrev pub num_direct : ℕ
num_direct = 12

abbrev pub indirect : ℕ
indirect = 12

abbrev pub num_indirect : ℕ
num_indirect = 128

abbrev pub max_blocks : ℕ
max_blocks = 140

-- `bp->data[o] = v` of block `b`
abbrev pub store_byte : ℕ → ℕ → ℕ → Disk → Disk
store_byte b o v d i j = if i == b && j == o then v else d i j

-- The `uint` at offset `o`, low byte first.
unfoldable pub get_word : ℕ → ℕ → Disk → ℕ
get_word b o d = d b o + 256 * d b (o + 1) + 65536 * d b (o + 2) + 16777216 * d b (o + 3)

pub put_word : ℕ → ℕ → ℕ → Disk → Disk
put_word b o v d i j =
    if i == b && (leb o j && ltb j (o + 4))
    then (if j == o
        then v % 256
        else (if j == o + 1
            then v / 256 % 256
            else (if j == o + 2 then v / 65536 % 256 else v / 16777216 % 256)))
    else d i j

-- `readsb`
pub record SuperBlock : Type 0 where
  pub size : ℕ
  pub nblocks : ℕ
  pub ninodes : ℕ

unfoldable pub read_sb : Disk → SuperBlock
read_sb d = record { size = get_word 1 0 d; nblocks = get_word 1 4 d; ninodes = get_word 1 8 d }

-- `bzero`
pub zero_block : ℕ → Disk → Disk
zero_block b d i j = if i == b && ltb j block_size then 0 else d i j

-- BBLOCK and IBLOCK
abbrev pub bitmap_block : ℕ → ℕ → ℕ
bitmap_block b ninodes = b / bits_per_block + ninodes / inodes_per_block + 3

abbrev pub inode_block : ℕ → ℕ
inode_block i = i / inodes_per_block + 2

abbrev pub AllBytes : Disk → Type 0
AllBytes d = (b o : ℕ) → d b o < 256

pub get-put_word : (b o v : ℕ) (d : Disk) → v < 2 ^ 32 → get_word b o (put_word b o v d) ≡ v
unfolding get_word put_word
get-put_word b o v d lt = ground arith

-- A word elsewhere stays.
pub get-put_word_ne :
    (b o b' o' v : ℕ) (d : Disk)
    → (b ≢ b') ⊎ ((o' + 4 ≤ o) ⊎ (o + 4 ≤ o'))
    → get_word b o (put_word b' o' v d) ≡ get_word b o d
unfolding get_word put_word
get-put_word_ne b o b' o' v d (inl ne) = ground arith
get-put_word_ne b o b' o' v d (inr (inl lt)) = ground arith
get-put_word_ne b o b' o' v d (inr (inr lt)) = ground arith

pub get_word-lt : (b o : ℕ) (d : Disk) → AllBytes d → get_word b o d < 2 ^ 32
unfolding get_word
get_word-lt b o d bytes =
    omega (arith, bytes b o, bytes b (o + 1), bytes b (o + 2), bytes b (o + 3))

pub put_word-AllBytes : (b o v : ℕ) (d : Disk) → AllBytes d → AllBytes (put_word b o v d)
unfolding put_word
put_word-AllBytes b o v d bytes i j = ground (arith, bytes i j)

pub zero_block_lem :
    (b i o : ℕ) (d : Disk) → zero_block b d i o ≡ (if i == b && ltb o block_size then 0 else d i o)
unfolding zero_block
zero_block_lem b i o d = refl

-- A word is read in its block only.
pub get_word_cong :
    (b o : ℕ) (d d' : Disk) → ((j : ℕ) → d' b j ≡ d b j) → get_word b o d' ≡ get_word b o d
unfolding get_word
get_word_cong b o d d' same = rw (same o, same (o + 1), same (o + 2), same (o + 3)) refl

pub read_sb_cong : (d d' : Disk) → ((j : ℕ) → d' 1 j ≡ d 1 j) → read_sb d' ≡ read_sb d
unfolding read_sb
read_sb_cong d d' same =
    rw (get_word_cong 1 0 d d' same, get_word_cong 1 4 d d' same, get_word_cong 1 8 d d' same) refl

pub put_word_kept :
    (b o v i j : ℕ) (d : Disk) → (i ≢ b) ⊎ ((j < o) ⊎ (o + 4 ≤ j)) → put_word b o v d i j ≡ d i j
unfolding put_word
put_word_kept b o v i j d (inl ne) = ground arith
put_word_kept b o v i j d (inr (inl lt)) = ground arith
put_word_kept b o v i j d (inr (inr le)) = ground arith

pub get_word-zeros :
    (b o : ℕ) (d : Disk)
    → o + 4 ≤ block_size
    → ((j : ℕ) → j < block_size → d b j ≡ 0)
    → get_word b o d ≡ 0
unfolding get_word
get_word-zeros b o d lt zeros = omega (
  arith,
  zeros o (omega arith),
  zeros (o + 1) (omega arith),
  zeros (o + 2) (omega arith),
  zeros (o + 3) (omega arith),
)

-- The bytes of a word.
pub get_word_bytes :
    (b o v : ℕ) (d : Disk)
    → v < 2 ^ 32
    → d b o ≡ v % 256
    → d b (o + 1) ≡ v / 256 % 256
    → d b (o + 2) ≡ v / 65536 % 256
    → d b (o + 3) ≡ v / 16777216 % 256
    → get_word b o d ≡ v
unfolding get_word
get_word_bytes b o v d lt b0 b1 b2 b3 = rw (b0, b1, b2, b3) (omega arith)
