-- ===== src/Fs/File/Update.antt =====
-- What iupdate of xv6/fs.c keeps of a file.
use tom_cs.Base.{ℕ, ◌+◌, ◌-◌, ◌*◌, ◌/◌, ◌%◌, ◌<◌, ◌≤◌, ◌≡◌, ◌≢◌, sym, ◌∙◌, inl, arith}
use tom_cs.Fs.Disk.{
  Disk, read_sb, inode_block, block_size, max_blocks, get_word_cong, num_direct, indirect,
}
use tom_cs.Fs.Bitmap.Used.{block_free}
use tom_cs.Fs.Bitmap.Blocks.{IsData}
use tom_cs.Fs.Bitmap.Meta.{meta_sb, meta_free, meta_data, meta-Healthy}
use tom_cs.Fs.Bitmap.Healthy.{Healthy}
use tom_cs.Fs.Inode.{Inode, iupdate}
use tom_cs.Fs.Inode.Layout.{iupdate_kept, iupdate-AllBytes}
use tom_cs.Fs.Map.Slots.{slot, Maps}
use tom_cs.Fs.File.{max_bytes}
use tom_cs.Fs.File.Content.{byte_at}
use tom_cs.Fs.File.Bytes.{byte_at-at_slot, same_at_slot}
use tom_cs.Fs.File.Block.{IsOther, Writes}

module _ (ip ip' : Inode) (d : Disk) (maps : Maps ip d) (h : Healthy d)
    (some_inode : ip'.inum ≤ (read_sb d).ninodes) (addrs : ip'.addrs ≡ ip.addrs) where
  kept : (i o : ℕ) → i ≢ inode_block ip'.inum → iupdate ip' d i o ≡ d i o
  kept i o ne = iupdate_kept ip' d i o (inl ne)

  same_sb : read_sb (iupdate ip' d) ≡ read_sb d
  same_sb = meta_sb ip'.inum d (iupdate ip' d) h some_inode kept

  same_free :
      (a : ℕ)
      → block_free (read_sb d).ninodes a (iupdate ip' d) ≡ block_free (read_sb d).ninodes a d
  same_free = meta_free ip'.inum d (iupdate ip' d) h some_inode kept

  pub same_data : (b o : ℕ) → IsData d b → iupdate ip' d b o ≡ d b o
  same_data = meta_data ip'.inum d (iupdate ip' d) h some_inode kept

  same_slot : (j : ℕ) → j ≤ max_blocks → slot ip' (iupdate ip' d) j ≡ slot ip d j
  same_slot j le = rw addrs (
      ground (
        arith,
        λ (there : ip.addrs indirect ≢ 0).
            get_word_cong (ip.addrs indirect) (4 * (j - num_direct)) d (iupdate ip' d) (λ o.
              same_data (ip.addrs indirect) o (maps.data_block max_blocks (omega arith) there)),
      ))

  same-Maps : Maps ip' (iupdate ip' d)
  same-Maps = record {
    used = λ j le b.
        rw (same_sb, same_slot j le)
          (let b' = rw (same_slot j le) at b in same_free (slot ip d j) ∙ maps.used j le b');
    data_block =
        λ j le b. rw (same_sb, same_slot j le) (maps.data_block j le (rw (same_slot j le) at b));
    in_range =
        λ j le b. rw (same_sb, same_slot j le) (maps.in_range j le (rw (same_slot j le) at b));
    apart = λ i j li lj b e.
        maps.apart i j li lj (rw (same_slot i li) at b) (sym (same_slot i li) ∙ e ∙ same_slot j lj);
  }

  same_byte : (y : ℕ) → y < max_bytes → byte_at ip' (iupdate ip' d) y ≡ byte_at ip d y
  same_byte y lt =
      let k = y / block_size in
      rw (byte_at-at_slot ip' (iupdate ip' d) y, byte_at-at_slot ip d y, same_slot k (omega arith))
        (same_at_slot (slot ip d k) (y % block_size) d (iupdate ip' d) (λ there.
          same_data (slot ip d k) (y % block_size) (maps.data_block k (omega arith) there)))

  same-IsOther :
      (b : ℕ)
      → IsOther ip d b
      → IsOther ip' (iupdate ip' d) b × ((o : ℕ) → iupdate ip' d b o ≡ d b o)
  same-IsOther b r = (
    record {
      data_block = rw same_sb r.data_block;
      in_range = rw same_sb r.in_range;
      used = rw same_sb (same_free b ∙ r.used);
      apart = λ j le. rw (same_slot j le) (r.apart j le);
    },
    λ o. same_data b o r.data_block,
  )

-- The inode is stored after a write.
module _ (ip ip1 ip' : Inode) (d d1 : Disk) (x at n : ℕ) (src : ℕ → ℕ) (fits : x + n ≤ max_bytes)
    (w : Writes ip d x at n src ip1 d1) (some_inode : ip'.inum ≤ (read_sb d1).ninodes)
    (same : ip' ≡ record ip1 { size = ip'.size }) where
  addrs : ip'.addrs ≡ ip1.addrs
  addrs = cc same

  pub iupdate-Writes : Writes ip d x at n src ip' (iupdate ip' d1)
  iupdate-Writes = record {
    inside = λ y lo hi.
        same_byte ip1 ip' d1 w.maps w.healthy some_inode addrs y (omega arith) ∙ w.inside y lo hi;
    outside = λ y lt out.
        same_byte ip1 ip' d1 w.maps w.healthy some_inode addrs y lt ∙ w.outside y lt out;
    there = λ y lo hi.
        rw (same_slot ip1 ip' d1 w.maps w.healthy some_inode addrs (y / block_size) (omega arith))
          (w.there y lo hi);
    stays = λ k lt was.
        same_slot ip1 ip' d1 w.maps w.healthy some_inode addrs k (omega arith) ∙ w.stays k lt was;
    others = λ b r.
        let one = w.others b r in
        let two = same-IsOther ip1 ip' d1 w.maps w.healthy some_inode addrs b one.0 in
        (two.0, λ o. two.1 o ∙ one.1 o);
    maps = same-Maps ip1 ip' d1 w.maps w.healthy some_inode addrs;
    healthy =
        meta-Healthy ip'.inum d1 (iupdate ip' d1) w.healthy some_inode
          (λ i o ne. iupdate_kept ip' d1 i o (inl ne)) (iupdate-AllBytes ip' d1 w.healthy.bytes);
    sb = same_sb ip1 ip' d1 w.maps w.healthy some_inode addrs ∙ w.sb;
    rest = cc (w.rest, same);
  }
