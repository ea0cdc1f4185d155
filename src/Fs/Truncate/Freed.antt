-- ===== src/Fs/Truncate/Freed.antt =====
-- The blocks that itrunc of xv6/fs.c has given back after some of its rounds.
use tom_cs.Base.{
  ℕ, ◌+◌, ◌<◌, ◌≤◌, ◌≡◌, ◌≢◌, refl, sym, ◌∙◌, inl, inr, Bool, true, false, ◌==◌, if◌then◌else◌,
  arith, Bool-cases, Outcome, returns, panics,
}
use tom_cs.Fs.Disk.{Disk, read_sb, read_sb_cong, max_blocks}
use tom_cs.Fs.Bitmap.{bfree}
use tom_cs.Fs.Bitmap.Used.{block_free}
use tom_cs.Fs.Bitmap.Blocks.{InRange, IsData, Bfrees, bfree-Bfrees}
use tom_cs.Fs.Bitmap.Healthy.{Healthy}
use tom_cs.Fs.Inode.{Inode}
use tom_cs.Fs.Map.Slots.{slot, Maps}

-- `bfree` of a data block in use.
pub record Frees (b : ℕ) (d d' : Disk) : Type 0 where
  pub healthy : Healthy d'
  pub sb : read_sb d' ≡ read_sb d
  pub free :
      (c : ℕ)
      → InRange d c
      → block_free (read_sb d).ninodes c d'
        ≡ (if c == b then true else block_free (read_sb d).ninodes c d)
  pub kept : (c o : ℕ) → IsData d c → c ≢ b → d' c o ≡ d c o

module _ (b : ℕ) (d : Disk) (h : Healthy d) (data_block : IsData d b) (below : InRange d b) where
  Bfrees-Frees : (d' : Disk) → Bfrees b d (returns d') → Frees b d d'
  Bfrees-Frees d' (used, free, zeros, kept, bytes) =
      let sb : read_sb d' ≡ read_sb d =
        read_sb_cong d d' (λ j. kept 1 j (omega arith) (omega arith)) in
      let same : (c o : ℕ) → IsData d c → c ≢ b → d' c o ≡ d c o =
        λ c o dc ne. kept c o ne (omega arith) in
      record {
        healthy = record {
          bytes = bytes;
          meta_used = λ a le. rw sb (
              let le' = rw sb at le in
              ground (arith, free a (omega (arith, h.meta_fits)), h.meta_used a le'));
          free_zero = λ a r da fr o lt.
              let r' : InRange d a = rw sb at r in
              let da' : IsData d a = rw sb at da in
              let fr' : block_free (read_sb d).ninodes a d' ≡ true = rw sb at fr in
              elim (Bool-cases (a == b)) [
                | inl e ↦ let same_block : a ≡ b = ground arith in rw same_block (zeros o lt)
                | inr e ↦
                    same a o da' (ground arith)
                    ∙ h.free_zero a r' da' (ground (arith, free a r')) o lt
              ];
          meta_fits = rw sb h.meta_fits;
          small = rw sb h.small;
        };
        sb = sb;
        free = free;
        kept = same;
      }

  bfree_result :
      (r : Outcome Disk)
      → Bfrees b d r
      → block_free (read_sb d).ninodes b d ≡ false
      → (d' : Disk) × (r ≡ returns d') × Frees b d d'
  bfree_result (panics e) free used = cc
  bfree_result (returns d') f used = (d', refl, Bfrees-Frees d' f)

  pub bfree-Frees :
      block_free (read_sb d).ninodes b d ≡ false
      → (d' : Disk) × (bfree b d ≡ returns d') × Frees b d d'
  bfree-Frees = bfree_result (bfree b d) (bfree-Bfrees b d h.bytes data_block below)

if_same : (b : ℕ) (t r x : Bool) → x ≡ (if b == b then t else r) → x ≡ t
if_same b t r x e = ground arith

if_other : (c b : ℕ) (t r x : Bool) → c ≢ b → x ≡ (if c == b then t else r) → x ≡ r
if_other c b t r x ne e = ground arith

-- The blocks below `n` of the file are free, and all else is as it was.
pub record Freed (ip : Inode) (d : Disk) (n : ℕ) (d' : Disk) : Type 0 where
  pub healthy : Healthy d'
  pub sb : read_sb d' ≡ read_sb d
  pub gone :
      (k : ℕ) → k < n → slot ip d k ≢ 0 → block_free (read_sb d).ninodes (slot ip d k) d' ≡ true
  pub stays :
      (b : ℕ)
      → InRange d b
      → ((k : ℕ) → k < n → slot ip d k ≢ b)
      → block_free (read_sb d).ninodes b d' ≡ block_free (read_sb d).ninodes b d
  pub kept : (b o : ℕ) → IsData d b → ((k : ℕ) → k < n → slot ip d k ≢ b) → d' b o ≡ d b o

module _ (ip : Inode) (d : Disk) (maps : Maps ip d) where
  pub Freed-zero : Healthy d → Freed ip d 0 d
  Freed-zero h = record {
    healthy = h;
    sb = refl;
    gone = λ k lt. absurd (omega arith);
    stays = λ b r ne. refl;
    kept = λ b o db ne. refl;
  }

  pub Freed-none : (n : ℕ) (d' : Disk) → Freed ip d n d' → slot ip d n ≡ 0 → Freed ip d (n + 1) d'
  Freed-none n d' f absent = record {
    healthy = f.healthy;
    sb = f.sb;
    gone = λ k lt there. elim (Bool-cases (k == n)) [
      | inl e ↦ let same : k ≡ n = ground arith in absurd (there (rw same absent))
      | inr e ↦ f.gone k (ground arith) there
    ];
    stays = λ b r ne. f.stays b r (λ k lt. ne k (omega arith));
    kept = λ b o db ne. f.kept b o db (λ k lt. ne k (omega arith));
  }

  module _ (n : ℕ) (low : n ≤ max_blocks) (there : slot ip d n ≢ 0) where
    alone : (k : ℕ) → k < n → slot ip d k ≢ slot ip d n
    alone k lt e =
        absurd (omega (arith, maps.apart k n (omega arith) low (λ z. there (sym e ∙ z)) e))

    module _ (d1 d2 : Disk) (f : Freed ip d n d1) (g : Frees (slot ip d n) d1 d2) where
      own : block_free (read_sb d).ninodes (slot ip d n) d2 ≡ true
      own =
          let r : InRange d1 (slot ip d n) = rw f.sb (maps.in_range n low there) in
          let same = g.free (slot ip d n) r in
          let same' = rw f.sb at same in
          if_same (slot ip d n) true (block_free (read_sb d).ninodes (slot ip d n) d1)
            (block_free (read_sb d).ninodes (slot ip d n) d2) same'

      other :
          (c : ℕ)
          → InRange d c
          → c ≢ slot ip d n
          → block_free (read_sb d).ninodes c d2 ≡ block_free (read_sb d).ninodes c d1
      other c r ne =
          let r' : InRange d1 c = rw f.sb r in
          let same = g.free c r' in
          let same' = rw f.sb at same in
          if_other c (slot ip d n) true (block_free (read_sb d).ninodes c d1)
            (block_free (read_sb d).ninodes c d2) ne same'

    next : (d1 d2 : Disk) → Freed ip d n d1 → Frees (slot ip d n) d1 d2 → Freed ip d (n + 1) d2
    next d1 d2 f g = record {
      healthy = g.healthy;
      sb = g.sb ∙ f.sb;
      gone = λ k lt some_block. elim (Bool-cases (k == n)) [
        | inl e ↦ let same : k ≡ n = ground arith in rw same (own d1 d2 f g)
        | inr e ↦
            let before : k < n = ground arith in
            other d1 d2 f g (slot ip d k) (maps.in_range k (omega arith) some_block)
              (alone k before)
            ∙ f.gone k before some_block
      ];
      stays = λ b r ne.
          other d1 d2 f g b r (λ e. ne n (omega arith) (sym e))
          ∙ f.stays b r (λ k lt. ne k (omega arith));
      kept = λ b o db ne.
          let db' : IsData d1 b = rw f.sb db in
          g.kept b o db' (λ e. ne n (omega arith) (sym e))
          ∙ f.kept b o db (λ k lt. ne k (omega arith));
    }

    pub bfree-Freed :
        (d1 : Disk)
        → Freed ip d n d1
        → (d2 : Disk) × (bfree (slot ip d n) d1 ≡ returns d2) × Freed ip d (n + 1) d2
    bfree-Freed d1 f =
        let b = slot ip d n in
        let data_block : IsData d1 b = rw f.sb (maps.data_block n low there) in
        let below : InRange d1 b = rw f.sb (maps.in_range n low there) in
        let used : block_free (read_sb d1).ninodes b d1 ≡ false =
          rw f.sb (f.stays b (maps.in_range n low there) alone ∙ maps.used n low there) in
        let r = bfree-Frees b d1 f.healthy data_block below used in (r.0, r.1, next d1 r.0 f r.2)
