-- ===== src/Fs/Bitmap/Healthy.antt =====
-- What balloc and bfree of xv6/fs.c keep of a disk: the blocks before the data are in use, and free
-- blocks are full of zeros.
use tom_cs.Base.{
  ℕ, ◌+◌, ◌*◌, ◌/◌, ◌^◌, ◌<◌, ◌≤◌, ◌≡◌, ◌∙◌, inl, inr, true, false, ltb, ◌==◌, if◌then◌else◌, arith,
  Bool-cases, Outcome, returns, panics,
}
use tom_cs.Fs.Disk.{Disk, read_sb, read_sb_cong, bitmap_block, bits_per_block, block_size, AllBytes}
use tom_cs.Fs.Bitmap.{balloc}
use tom_cs.Fs.Bitmap.Used.{block_free}
use tom_cs.Fs.Bitmap.Blocks.{Takes, Ballocs, balloc-Ballocs, InRange, IsData}

pub record Healthy (d : Disk) : Type 0 where
  pub bytes : AllBytes d
  pub meta_used :
      (b : ℕ)
      → b ≤ bitmap_block (read_sb d).size (read_sb d).ninodes
      → block_free (read_sb d).ninodes b d ≡ false
  pub free_zero :
      (b : ℕ)
      → InRange d b
      → IsData d b
      → block_free (read_sb d).ninodes b d ≡ true
      → (o : ℕ) → o < block_size
      → d b o ≡ 0
  pub meta_fits : bitmap_block (read_sb d).size (read_sb d).ninodes ≤ (read_sb d).size
  pub small : (read_sb d).size + bits_per_block ≤ 2 ^ 32

-- A block from `balloc`: the disk stays healthy, and no data changes.
pub record Fresh (d : Disk) (c : ℕ) (d' : Disk) : Type 0 where
  pub healthy : Healthy d'
  pub sb : read_sb d' ≡ read_sb d
  pub data_block : IsData d c
  pub in_range : InRange d c
  pub word : c < 2 ^ 32
  pub zeros : (o : ℕ) → o < block_size → d' c o ≡ 0
  pub was_free : block_free (read_sb d).ninodes c d ≡ true
  pub free :
      (a : ℕ)
      → block_free (read_sb d).ninodes a d'
        ≡ (if a == c then false else block_free (read_sb d).ninodes a d)
  pub kept : (b o : ℕ) → IsData d b → d' b o ≡ d b o

module _ (d : Disk) (h : Healthy d) where
  Takes-Fresh :
      (c : ℕ) (d' : Disk)
      → c / bits_per_block * bits_per_block < (read_sb d).size
      → Takes (read_sb d).ninodes c d d'
      → Fresh d c d'
  Takes-Fresh c d' inside t =
      let data_block : IsData d c =
        elim (Bool-cases (ltb (bitmap_block (read_sb d).size (read_sb d).ninodes) c)) [
          | inl e ↦ ground arith
          | inr e ↦ cc (t.was_free, h.meta_used c (ground arith))
        ] in
      let sb : read_sb d' ≡ read_sb d = read_sb_cong d d' (λ j. t.kept 1 j (omega arith)) in
      let kept : (b o : ℕ) → IsData d b → d' b o ≡ d b o = λ b o db. t.kept b o (omega arith) in
      record {
        healthy = record {
          bytes = t.bytes;
          meta_used =
              λ b le. rw sb (let le' = rw sb at le in ground (arith, t.free b, h.meta_used b le'));
          free_zero = λ b r db fr o lt.
              let r' : InRange d b = rw sb at r in
              let db' : IsData d b = rw sb at db in
              let fr' : block_free (read_sb d).ninodes b d' ≡ true = rw sb at fr in
              kept b o db' ∙ h.free_zero b r' db' (ground (arith, t.free b)) o lt;
          meta_fits = rw sb h.meta_fits;
          small = rw sb h.small;
        };
        sb = sb;
        data_block = data_block;
        in_range = omega arith;
        word = omega (arith, h.small);
        zeros =
            λ o lt. kept c o data_block ∙ h.free_zero c (omega arith) data_block t.was_free o lt;
        was_free = t.was_free;
        free = t.free;
        kept = kept;
      }

  Ballocs-Fresh :
      (r : Outcome (ℕ × Disk)) (c : ℕ) (d' : Disk)
      → Ballocs d r
      → r ≡ returns (c, d')
      → Fresh d c d'
  Ballocs-Fresh (panics x) c d' b e = cc
  Ballocs-Fresh (returns (a, u)) c d' (inside, t) e =
      let same : a ≡ c = cc in
      let same' : u ≡ d' = cc in rw (← same, ← same') (Takes-Fresh a u inside t)

  pub balloc-Fresh : (c : ℕ) (d' : Disk) → balloc d ≡ returns (c, d') → Fresh d c d'
  balloc-Fresh c d' e = Ballocs-Fresh (balloc d) c d' (balloc-Ballocs d h.bytes) e
