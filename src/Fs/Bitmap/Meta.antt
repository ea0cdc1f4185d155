-- ===== src/Fs/Bitmap/Meta.antt =====
-- What a write to a block of inodes keeps, for iupdate and ialloc of xv6/fs.c.
use tom_cs.Base.{ℕ, ◌%◌, ◌≤◌, ◌≡◌, ◌≢◌, sym, ◌∙◌, true, arith}
use tom_cs.Fs.Disk.{
  Disk, read_sb, read_sb_cong, bitmap_block, bits_per_block, AllBytes, inode_block,
}
use tom_cs.Fs.Bitmap.Used.{block_free, is_free_cong}
use tom_cs.Fs.Bitmap.Blocks.{InRange, IsData}
use tom_cs.Fs.Bitmap.Healthy.{Healthy}

-- A disk that changes in the block of the inode `inum`.
module _ (inum : ℕ) (d d' : Disk) (h : Healthy d) (some_inode : inum ≤ (read_sb d).ninodes)
    (kept : (i o : ℕ) → i ≢ inode_block inum → d' i o ≡ d i o) where
  pub meta_sb : read_sb d' ≡ read_sb d
  meta_sb = read_sb_cong d d' (λ j. kept 1 j (omega arith))

  pub meta_free : (a : ℕ) → block_free (read_sb d).ninodes a d' ≡ block_free (read_sb d).ninodes a d
  meta_free a =
      is_free_cong (bitmap_block a (read_sb d).ninodes) (a % bits_per_block) d d'
        (λ j. kept (bitmap_block a (read_sb d).ninodes) j (omega arith))

  pub meta_data : (b o : ℕ) → IsData d b → d' b o ≡ d b o
  meta_data b o db = kept b o (omega arith)

  pub meta-Healthy : AllBytes d' → Healthy d'
  meta-Healthy bytes = record {
    bytes = bytes;
    meta_used =
        λ a le. rw meta_sb (let le' = rw meta_sb at le in rw (meta_free a) (h.meta_used a le'));
    free_zero = λ a r db fr j lt.
        let r' : InRange d a = rw meta_sb at r in
        let db' : IsData d a = rw meta_sb at db in
        let fr' : block_free (read_sb d).ninodes a d' ≡ true = rw meta_sb at fr in
        meta_data a j db' ∙ h.free_zero a r' db' (sym (meta_free a) ∙ fr') j lt;
    meta_fits = rw meta_sb h.meta_fits;
    small = rw meta_sb h.small;
  }
