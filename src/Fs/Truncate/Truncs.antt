-- ===== src/Fs/Truncate/Truncs.antt =====
-- itrunc of xv6/fs.c: the blocks of the file are free afterwards, and nothing else is.
use tom_cs.Base.{ℕ, ◌≤◌, ◌≡◌, ◌≢◌, ap, refl, ◌∙◌, inl, arith, Outcome, returns, panics, ◌>>=◌}
use tom_cs.Fs.Disk.{Disk, read_sb, max_blocks, num_direct, indirect, inode_block}
use tom_cs.Fs.Bitmap.Used.{block_free}
use tom_cs.Fs.Bitmap.Blocks.{IsData}
use tom_cs.Fs.Bitmap.Healthy.{Healthy}
use tom_cs.Fs.Bitmap.Meta.{meta_sb, meta_free, meta_data, meta-Healthy}
use tom_cs.Fs.Inode.{Inode, iupdate, load_inode}
use tom_cs.Fs.Inode.Layout.{Fits, Loads, load-iupdate, iupdate_kept, iupdate-AllBytes}
use tom_cs.Fs.Map.Slots.{slot, Maps}
use tom_cs.Fs.Truncate.{free_direct, free_indirect, store_empty, itrunc}
use tom_cs.Fs.Truncate.Freed.{Freed}
use tom_cs.Fs.Truncate.Loops.{Emptied, free_all-Emptied}

-- The file is empty, on the disk too; the blocks that it listed are free, and the bits and the data of
-- all others are as they were, of the indirect block too.
pub record Truncated (ip : Inode) (d : Disk) (ip' : Inode) (d' : Disk) : Type 0 where
  pub empty : ip'.size ≡ 0
  pub addrs : (k : ℕ) → k ≤ indirect → ip'.addrs k ≡ 0
  pub rest : ip' ≡ record ip { addrs = ip'.addrs; size = ip'.size }
  pub freed : Freed ip d max_blocks d'
  pub stored : Loads ip' (load_inode ip' d')

-- What itrunc comes to: it does not panic.
abbrev pub Truncs : Inode → Disk → Outcome (Inode × Disk) → Type 0
Truncs ip d (panics e) = ⊥
Truncs ip d (returns (ip', d')) = Truncated ip d ip' d'

module _ (ip : Inode) (d : Disk) (maps : Maps ip d) (some_inode : ip.inum ≤ (read_sb d).ninodes)
    (fits : Fits ip) where
  pub iupdate-Freed :
      (q : Inode) (n : ℕ) (d' : Disk)
      → q.inum ≡ ip.inum
      → Freed ip d n d'
      → Freed ip d n (iupdate q d')
  iupdate-Freed q n d' inum f =
      let some_inode' : q.inum ≤ (read_sb d').ninodes = rw (f.sb, inum) some_inode in
      let kept : (i o : ℕ) → i ≢ inode_block q.inum → iupdate q d' i o ≡ d' i o =
        λ i o ne. iupdate_kept q d' i o (inl ne) in
      let sb = meta_sb q.inum d' (iupdate q d') f.healthy some_inode' kept in
      let free = meta_free q.inum d' (iupdate q d') f.healthy some_inode' kept in
      let free' : (a : ℕ)
          → block_free (read_sb d).ninodes a (iupdate q d') ≡ block_free (read_sb d).ninodes a d' =
        rw f.sb at free in
      record {
        healthy =
            meta-Healthy q.inum d' (iupdate q d') f.healthy some_inode' kept
              (iupdate-AllBytes q d' f.healthy.bytes);
        sb = sb ∙ f.sb;
        gone = λ k lt there. free' (slot ip d k) ∙ f.gone k lt there;
        stays = λ b r ne. free' b ∙ f.stays b r ne;
        kept = λ b o db ne.
            let db' : IsData d' b = rw f.sb db in
            meta_data q.inum d' (iupdate q d') f.healthy some_inode' kept b o db'
            ∙ f.kept b o db ne;
      }

  store_empty-Truncs :
      (r : Outcome (Inode × Disk)) → Emptied ip d maps r → Truncs ip d (r >>= store_empty)
  unfolding store_empty
  store_empty-Truncs (panics e) w = absurd w
  store_empty-Truncs (returns (ip1, d1)) (addrs, rest, f) =
      let q = record ip1 { size = 0 } in
      let inum : q.inum ≡ ip.inum = ap (λ p. p.inum) rest in
      let type : ip1.type ≡ ip.type = ap (λ p. p.type) rest in
      let major : ip1.major ≡ ip.major = ap (λ p. p.major) rest in
      let minor : ip1.minor ≡ ip.minor = ap (λ p. p.minor) rest in
      let nlink : ip1.nlink ≡ ip.nlink = ap (λ p. p.nlink) rest in
      record {
        empty = refl;
        addrs = addrs;
        rest = cc rest;
        freed = iupdate-Freed q max_blocks d1 inum f;
        stored =
            load-iupdate q d1 q
              (record {
                type = rw type fits.type;
                major = rw major fits.major;
                minor = rw minor fits.minor;
                nlink = rw nlink fits.nlink;
                size = omega arith;
                addrs = λ k le. omega (arith, addrs k le);
              })
              refl;
      }

  -- On a disk in order, itrunc of a file does not panic. The file is empty afterwards, in memory
  -- and on the disk, and its blocks are free and full of zeros; the bits and the data of all other
  -- blocks are as they were, of the indirect block of the file too, which so stays in use.
  pub itrunc-Truncs : Healthy d → Truncs ip d (itrunc ip d)
  unfolding itrunc
  itrunc-Truncs h =
      store_empty-Truncs (free_direct 0 num_direct ip d >>= free_indirect)
        (free_all-Emptied ip d maps h)
