-- ===== src/Fs/Bitmap/Data.antt =====
-- What a write to a data block keeps of the bitmap of xv6/fs.c, and how many blocks it has to give.
use tom_cs.Base.{
  ℕ, ◌+◌, ◌%◌, ◌<◌, ◌≤◌, ◌≡◌, ◌≢◌, ◌⊎◌, sym, ◌∙◌, true, false, arith, count, count_but_one,
  count_mono, count_none,
}
use tom_cs.Fs.Disk.{Disk, read_sb, read_sb_cong, bitmap_block, bits_per_block, AllBytes}
use tom_cs.Fs.Bitmap.Used.{block_free, is_free_cong}
use tom_cs.Fs.Bitmap.Blocks.{InRange, IsData}
use tom_cs.Fs.Bitmap.Healthy.{Healthy}

-- How many blocks below the size are free.
unfoldable pub room : Disk → ℕ
room d = count (λ a. block_free (read_sb d).ninodes a d) (read_sb d).size

pub room_but_one :
    (c : ℕ) (d d' : Disk)
    → read_sb d' ≡ read_sb d
    → ((a : ℕ)
        → InRange d a
        → block_free (read_sb d).ninodes a d ≡ true
        → (a ≡ c) ⊎ (block_free (read_sb d).ninodes a d' ≡ true))
    → room d ≤ room d' + 1
unfolding room
room_but_one c d d' sb but = rw sb (
    count_but_one (λ a. block_free (read_sb d).ninodes a d)
      (λ a. block_free (read_sb d).ninodes a d') c (read_sb d).size
      (λ a lt f. but a (omega arith) f))

pub room_none :
    (d : Disk)
    → ((a : ℕ) → a < (read_sb d).size → block_free (read_sb d).ninodes a d ≡ false)
    → room d ≡ 0
unfolding room
room_none d full = count_none (λ a. block_free (read_sb d).ninodes a d) (read_sb d).size full

-- A disk that changes in the data block `b`, which is in use.
module _ (b : ℕ) (d d' : Disk) (h : Healthy d) (data_block : IsData d b)
    (used : block_free (read_sb d).ninodes b d ≡ false)
    (kept : (i o : ℕ) → i ≢ b → d' i o ≡ d i o) where
  pub written_sb : read_sb d' ≡ read_sb d
  written_sb = read_sb_cong d d' (λ j. kept 1 j (omega arith))

  pub written_free :
      (a : ℕ)
      → InRange d a
      → block_free (read_sb d).ninodes a d' ≡ block_free (read_sb d).ninodes a d
  written_free a r =
      is_free_cong (bitmap_block a (read_sb d).ninodes) (a % bits_per_block) d d'
        (λ j. kept (bitmap_block a (read_sb d).ninodes) j (omega arith))

  pub written-Healthy : AllBytes d' → Healthy d'
  written-Healthy bytes = record {
    bytes = bytes;
    meta_used = λ a le. rw written_sb (
        let le' = rw written_sb at le in
        let r : InRange d a = omega (arith, h.meta_fits) in
        rw (written_free a r) (h.meta_used a le'));
    free_zero = λ a r db fr j lt.
        let r' : InRange d a = rw written_sb at r in
        let db' : IsData d a = rw written_sb at db in
        let fr' : block_free (read_sb d).ninodes a d' ≡ true = rw written_sb at fr in
        let was_free : block_free (read_sb d).ninodes a d ≡ true = sym (written_free a r') ∙ fr' in
        let other : a ≢ b = λ e. cc (was_free, used) in
        kept a j other ∙ h.free_zero a r' db' was_free j lt;
    meta_fits = rw written_sb h.meta_fits;
    small = rw written_sb h.small;
  }

  pub written_room : room d ≤ room d'
  unfolding room
  written_room = rw written_sb (
      count_mono (λ a. block_free (read_sb d).ninodes a d)
        (λ a. block_free (read_sb d).ninodes a d') (read_sb d).size
        (λ a lt f. written_free a (omega arith) ∙ f))
