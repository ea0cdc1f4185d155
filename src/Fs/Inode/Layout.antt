-- ===== src/Fs/Inode/Layout.antt =====
-- What iupdate of xv6/fs.c writes, ilock reads back.
use tom_cs.Base.{
  ℕ, ◌+◌, ◌-◌, ◌*◌, ◌/◌, ◌%◌, ◌^◌, ◌<◌, ◌≤◌, ◌≡◌, ◌≢◌, ◌⊎◌, inl, inr, refl, ◌∙◌, arith,
}
use tom_cs.Fs.Disk.{Disk, inode_block, get_word, get_word_bytes, AllBytes}
use tom_cs.Fs.Inode.{Inode, inode_base, get_half, byte_of, dinode_byte, iupdate, load_inode}

-- The fields fit in the `struct dinode`.
pub record Fits (ip : Inode) : Type 0 where
  pub type : ip.type < 2 ^ 16
  pub major : ip.major < 2 ^ 16
  pub minor : ip.minor < 2 ^ 16
  pub nlink : ip.nlink < 2 ^ 16
  pub size : ip.size < 2 ^ 32
  pub addrs : (k : ℕ) → k ≤ 12 → ip.addrs k < 2 ^ 32

-- The copy on the disk is that of the inode.
pub record Loads (ip q : Inode) : Type 0 where
  pub type : q.type ≡ ip.type
  pub major : q.major ≡ ip.major
  pub minor : q.minor ≡ ip.minor
  pub nlink : q.nlink ≡ ip.nlink
  pub size : q.size ≡ ip.size
  pub addrs : (k : ℕ) → k ≤ 12 → q.addrs k ≡ ip.addrs k

module _ (ip : Inode) (d : Disk) where
  written :
      (o : ℕ)
      → o < 64
      → iupdate ip d (inode_block ip.inum) (inode_base ip.inum + o) ≡ dinode_byte ip o
  unfolding iupdate
  written o lt =
      let same : inode_base ip.inum + o - inode_base ip.inum ≡ o = omega arith in
      ground (arith, same)

  -- A byte of the number `v` that stands at the offset `o`.
  half_written :
      (o v : ℕ)
      → o + 2 ≤ 64
      → v < 2 ^ 16
      → dinode_byte ip o ≡ byte_of v 0
      → dinode_byte ip (o + 1) ≡ byte_of v 1
      → get_half (inode_block ip.inum) (inode_base ip.inum + o) (iupdate ip d) ≡ v
  half_written o v le lt b0 b1 =
      let same : inode_base ip.inum + o + 1 ≡ inode_base ip.inum + (o + 1) = omega arith in
      rw (same, written o (omega arith), written (o + 1) (omega arith), b0, b1) (omega arith)

  word_written :
      (o v : ℕ)
      → o + 4 ≤ 64
      → v < 2 ^ 32
      → ((i : ℕ) → i < 4 → dinode_byte ip (o + i) ≡ byte_of v i)
      → get_word (inode_block ip.inum) (inode_base ip.inum + o) (iupdate ip d) ≡ v
  word_written o v le lt bytes =
      get_word_bytes (inode_block ip.inum) (inode_base ip.inum + o) v (iupdate ip d) lt
        (byte 0 (inode_base ip.inum + o) (omega arith) (omega arith))
        (byte 1 (inode_base ip.inum + o + 1) (omega arith) (omega arith))
        (byte 2 (inode_base ip.inum + o + 2) (omega arith) (omega arith))
        (byte 3 (inode_base ip.inum + o + 3) (omega arith) (omega arith))
    where
      byte :
          (i j : ℕ)
          → i < 4
          → j ≡ inode_base ip.inum + (o + i)
          → iupdate ip d (inode_block ip.inum) j ≡ byte_of v i
      byte i j lt e = rw e (written (o + i) (omega arith) ∙ bytes i lt)

  pub iupdate_kept :
      (b o : ℕ)
      → (b ≢ inode_block ip.inum) ⊎ ((o < inode_base ip.inum) ⊎ (inode_base ip.inum + 64 ≤ o))
      → iupdate ip d b o ≡ d b o
  unfolding iupdate
  iupdate_kept b o (inl ne) = ground arith
  iupdate_kept b o (inr (inl lt)) = ground arith
  iupdate_kept b o (inr (inr le)) = ground arith

  pub iupdate-AllBytes : AllBytes d → AllBytes (iupdate ip d)
  unfolding iupdate dinode_byte
  iupdate-AllBytes bytes b o = ground (arith, bytes b o)

  -- What iupdate stores, the read of ilock gives back.
  pub load-iupdate :
      (q : Inode) → Fits ip → q.inum ≡ ip.inum → Loads ip (load_inode q (iupdate ip d))
  unfolding load_inode dinode_byte
  load-iupdate q fits same = rw same (record {
    type =
        let z : inode_base ip.inum + 0 ≡ inode_base ip.inum = omega arith in
        rw z at (half_written 0 ip.type (omega arith) fits.type refl refl);
    major = half_written 2 ip.major (omega arith) fits.major refl refl;
    minor = half_written 4 ip.minor (omega arith) fits.minor refl refl;
    nlink = half_written 6 ip.nlink (omega arith) fits.nlink refl refl;
    size = word_written 8 ip.size (omega arith) fits.size (λ i lt. ground arith);
    addrs = λ k le.
        let assoc : inode_base ip.inum + (12 + 4 * k) ≡ inode_base ip.inum + 12 + 4 * k =
          omega arith in
        rw assoc at (
          word_written (12 + 4 * k) (ip.addrs k) (omega arith) (fits.addrs k le) (λ i lt.
            let quot : (12 + 4 * k + i - 12) / 4 ≡ k = omega arith in
            let rest : (12 + 4 * k + i - 12) % 4 ≡ i = omega arith in
            rw (quot, rest) (ground arith)));
  })
