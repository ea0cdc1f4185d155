-- ===== src/Fs/Bitmap/Blocks.antt =====
-- balloc and bfree of xv6/fs.c, block by block.
use tom_cs.Base.{
  ℕ, ◌+◌, ◌*◌, ◌/◌, ◌%◌, ◌<◌, ◌≤◌, ◌≡◌, ◌≢◌, refl, sym, ◌∙◌, inl, inr, true, false, ◌==◌,
  if◌then◌else◌, arith, Bool-cases, Outcome, returns, panics,
}
use tom_cs.Fs.Disk.{
  Disk, read_sb, zero_block, zero_block_lem, read_sb_cong, bitmap_block, bits_per_block, block_size,
  AllBytes,
}
use tom_cs.Fs.Bitmap.{is_free, set_bit, clear_bit, balloc, bfree}
use tom_cs.Fs.Bitmap.Used.{
  is_free-set_bit, is_free-clear_bit, set_bit-AllBytes, clear_bit-AllBytes, block_free, Allocs,
  balloc_loop-Allocs,
}

-- The block `c` is newly in use, and nothing changed but its bit.
pub record Takes (ninodes c : ℕ) (d d' : Disk) : Type 0 where
  pub was_free : block_free ninodes c d ≡ true
  pub lowest : (a : ℕ) → a < c → block_free ninodes a d ≡ false
  pub free : (a : ℕ) → block_free ninodes a d' ≡ (if a == c then false else block_free ninodes a d)
  pub kept : (b o : ℕ) → b ≢ bitmap_block c ninodes → d' b o ≡ d b o
  pub bytes : AllBytes d'

abbrev pub Ballocs : Disk → Outcome (ℕ × Disk) → Type 0
Ballocs d (panics e) = (c : ℕ) → c < (read_sb d).size → block_free (read_sb d).ninodes c d ≡ false
Ballocs d (returns (c, d')) =
    (c / bits_per_block * bits_per_block < (read_sb d).size) × Takes (read_sb d).ninodes c d d'

set_bit_kept : (bb bi : ℕ) (d : Disk) (b o : ℕ) → b ≢ bb → set_bit bb bi d b o ≡ d b o
unfolding set_bit
set_bit_kept bb bi d b o ne = ground arith

clear_bit_kept : (bb bi : ℕ) (d : Disk) (b o : ℕ) → b ≢ bb → clear_bit bb bi d b o ≡ d b o
unfolding clear_bit
clear_bit_kept bb bi d b o ne = ground arith

module _ (d : Disk) (bytes : AllBytes d) where
  Allocs-Ballocs :
      (r : Outcome (ℕ × Disk)) → Allocs 0 (read_sb d).size (read_sb d).ninodes d r → Ballocs d r
  Allocs-Ballocs (panics e) full = λ c lt. full c (omega arith) lt
  Allocs-Ballocs (returns (c, d')) (lo, inside, free, before, same) =
      let nin = (read_sb d).ninodes in
      (
        inside,
        rw same (record {
          was_free = free;
          lowest = λ a l. before a (omega arith) l;
          free = λ a. ground (
            arith,
            is_free-set_bit d bytes (bitmap_block c nin) (c % bits_per_block) (bitmap_block a nin)
                (a % bits_per_block),
          );
          kept = λ b o ne. set_bit_kept (bitmap_block c nin) (c % bits_per_block) d b o ne;
          bytes = set_bit-AllBytes d bytes (bitmap_block c nin) (c % bits_per_block);
        }),
      )

  -- On a disk of bytes, balloc takes the lowest block whose bit is clear, in the last bitmap block
  -- that the size reaches into at most, sets that bit, and changes nothing else; it panics only if
  -- no block below the size is free.
  pub balloc-Ballocs : Ballocs d (balloc d)
  unfolding balloc
  balloc-Ballocs =
      Allocs-Ballocs (balloc d)
        (balloc_loop-Allocs (read_sb d) d ((read_sb d).size / bits_per_block + 1) 0 (omega arith))

-- The bitmap has a bit for the block.
abbrev pub InRange : Disk → ℕ → Type 0
InRange d b = b / bits_per_block ≤ (read_sb d).size / bits_per_block

-- A block behind the bitmap.
abbrev pub IsData : Disk → ℕ → Type 0
IsData d b = bitmap_block (read_sb d).size (read_sb d).ninodes < b

abbrev pub Bfrees : ℕ → Disk → Outcome Disk → Type 0
Bfrees b d (panics e) = block_free (read_sb d).ninodes b d ≡ true
Bfrees b d (returns d') =
    (block_free (read_sb d).ninodes b d ≡ false)
    × ((c : ℕ)
        → InRange d c
        → block_free (read_sb d).ninodes c d'
          ≡ (if c == b then true else block_free (read_sb d).ninodes c d))
    × ((o : ℕ) → o < block_size → d' b o ≡ 0)
    × ((c o : ℕ) → c ≢ b → c ≢ bitmap_block b (read_sb d).ninodes → d' c o ≡ d c o)
    × AllBytes d'

module _ (b : ℕ) (d : Disk) (bytes : AllBytes d) (data_block : IsData d b)
    (below : InRange d b) where
  zeroed : Disk
  zeroed = zero_block b d

  zeroed-AllBytes : AllBytes zeroed
  unfolding zeroed
  zeroed-AllBytes i j = ground (arith, bytes i j, zero_block_lem b i j d)

  zeroed_kept : (i o : ℕ) → i ≢ b → zeroed i o ≡ d i o
  unfolding zeroed
  zeroed_kept i o ne = ground (arith, zero_block_lem b i o d)

  read_sb-zeroed : read_sb zeroed ≡ read_sb d
  read_sb-zeroed = read_sb_cong d zeroed (λ j. zeroed_kept 1 j (omega arith))

  is_free-zeroed : (bb bi : ℕ) → bb ≢ b → is_free bb bi zeroed ≡ is_free bb bi d
  unfolding is_free
  is_free-zeroed bb bi ne = rw (zeroed_kept bb (bi / 8) ne) refl

  not_bitmap : (c : ℕ) → InRange d c → bitmap_block c (read_sb d).ninodes ≢ b
  not_bitmap c le = λ e. absurd (omega arith)

  zeroed_zero : (o : ℕ) → o < block_size → zeroed b o ≡ 0
  unfolding zeroed
  zeroed_zero o lt = ground (arith, zero_block_lem b b o d)

  -- `bfree` of a block behind the bitmap fills it with zeros and makes it free, and nothing else
  -- changes but its bit; it panics only if the block is free.
  pub bfree-Bfrees : Bfrees b d (bfree b d)
  unfolding bfree zeroed
  bfree-Bfrees =
      let nin = (read_sb d).ninodes in
      let bb = bitmap_block b nin in
      let bi = b % bits_per_block in
      let free = is_free-zeroed bb bi (not_bitmap b below) in
      elim (Bool-cases (is_free bb bi d)) [
        | inl e ↦ rw (bfree, read_sb-zeroed, free, e) e
        | inr e ↦
            rw (bfree, read_sb-zeroed, free, e)
              (
                e,
                λ c le. ground (
                  arith,
                  is_free-clear_bit zeroed zeroed-AllBytes bb bi (bitmap_block c nin)
                      (c % bits_per_block),
                  is_free-zeroed (bitmap_block c nin) (c % bits_per_block) (not_bitmap c le),
                ),
                λ o lt.
                    clear_bit_kept bb bi zeroed b o (λ f. not_bitmap b below (sym f))
                    ∙ zeroed_zero o lt,
                λ c o d1 d2. clear_bit_kept bb bi zeroed c o d2 ∙ zeroed_kept c o d1,
                clear_bit-AllBytes zeroed zeroed-AllBytes bb bi,
              )
      ]
