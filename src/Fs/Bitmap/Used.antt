-- ===== src/Fs/Bitmap/Used.antt =====
-- What balloc and bfree of xv6/fs.c do to the set of blocks in use.
use tom_cs.Base.{
  ℕ, zero, suc, ◌+◌, ◌*◌, ◌/◌, ◌%◌, ◌<◌, ◌≤◌, ◌≡◌, refl, inl, inr, Bool, true, false, ◌&&◌, none,
  some, ltb, ◌==◌, if◌then◌else◌, arith, Bool-cases, Option-cases, Finds, Finds-zero, Finds-suc,
  Outcome, returns, panics,
}
use tom_cs.Fs.Disk.{Disk, SuperBlock, bitmap_block, bits_per_block, AllBytes}
use tom_cs.Fs.Bitmap.{is_free, set_bit, clear_bit, find_bit, balloc_loop}
use tom_cs.Fs.Bitmap.Bits.{set-lt, no_bit-set, clear-lt, no_bit-clear}

module _ (d : Disk) (bytes : AllBytes d) where
  pub is_free-set_bit :
      (bb bi cb ci : ℕ)
      → is_free cb ci (set_bit bb bi d) ≡ (if cb == bb && ci == bi then false else is_free cb ci d)
  unfolding is_free set_bit
  is_free-set_bit bb bi cb ci = ground (
    arith,
    no_bit-set (d bb (bi / 8)) (bi % 8) (ci % 8) (bytes bb (bi / 8)) (omega arith) (omega arith),
  )

  pub is_free-clear_bit :
      (bb bi cb ci : ℕ)
      → is_free cb ci (clear_bit bb bi d) ≡ (if cb == bb && ci == bi then true else is_free cb ci d)
  unfolding is_free clear_bit
  is_free-clear_bit bb bi cb ci = ground (
    arith,
    no_bit-clear (d bb (bi / 8)) (bi % 8) (ci % 8) (bytes bb (bi / 8)) (omega arith) (omega arith),
  )

  pub set_bit-AllBytes : (bb bi : ℕ) → AllBytes (set_bit bb bi d)
  unfolding set_bit
  set_bit-AllBytes bb bi i j = ground (
    arith,
    bytes i j,
    set-lt (d bb (bi / 8)) (bi % 8) 0 (bytes bb (bi / 8)) (omega arith) (omega arith),
  )

  pub clear_bit-AllBytes : (bb bi : ℕ) → AllBytes (clear_bit bb bi d)
  unfolding clear_bit
  clear_bit-AllBytes bb bi i j = ground (
    arith,
    bytes i j,
    clear-lt (d bb (bi / 8)) (bi % 8) 0 (bytes bb (bi / 8)) (omega arith) (omega arith),
  )

pub is_free_cong :
    (bb bi : ℕ) (d d' : Disk) → ((o : ℕ) → d' bb o ≡ d bb o) → is_free bb bi d' ≡ is_free bb bi d
unfolding is_free
is_free_cong bb bi d d' same = rw (same (bi / 8)) refl

find_bit-Finds : (bb i n : ℕ) (d : Disk) → Finds (λ bi. is_free bb bi d) i n (find_bit bb i n d)
unfolding find_bit
find_bit-Finds bb i zero d = Finds-zero (λ bi. is_free bb bi d) i
find_bit-Finds bb i (suc n) d =
    Finds-suc (λ bi. is_free bb bi d) i n (find_bit bb (i + 1) n d) (find_bit-Finds bb (i + 1) n d)

-- The bit of the block `b`.
abbrev pub block_free : ℕ → ℕ → Disk → Bool
block_free ninodes b d = is_free (bitmap_block b ninodes) (b % bits_per_block) d

-- What the loop of `balloc` may come to, from the block `b` on.
abbrev pub Allocs : ℕ → ℕ → ℕ → Disk → Outcome (ℕ × Disk) → Type 0
Allocs b size ninodes d (panics e) = (c : ℕ) → b ≤ c → c < size → block_free ninodes c d ≡ false
Allocs b size ninodes d (returns (c, d')) =
    (b ≤ c)
    × (c / bits_per_block * bits_per_block < size)
    × (block_free ninodes c d ≡ true)
    × ((a : ℕ) → b ≤ a → a < c → block_free ninodes a d ≡ false)
    × (d' ≡ set_bit (bitmap_block c ninodes) (c % bits_per_block) d)

module _ (sb : SuperBlock) (d : Disk) where
  -- The blocks of the bitmap block `k`.
  full-block :
      (k : ℕ)
      → Finds
          (λ bi. is_free (bitmap_block (k * bits_per_block) sb.ninodes) bi d)
          0
          bits_per_block
          none
      → (c : ℕ) → k * bits_per_block ≤ c
      → c < suc k * bits_per_block
      → block_free sb.ninodes c d ≡ false
  full-block k f c lo hi =
      let same : c / bits_per_block ≡ k * bits_per_block / bits_per_block = omega arith in
      rw same (f (c % bits_per_block) (omega arith) (omega arith))

  Allocs-next :
      (k : ℕ) (r : Outcome (ℕ × Disk))
      → ((c : ℕ)
          → k * bits_per_block ≤ c
          → c < suc k * bits_per_block
          → block_free sb.ninodes c d ≡ false)
      → Allocs (suc k * bits_per_block) sb.size sb.ninodes d r
      → Allocs (k * bits_per_block) sb.size sb.ninodes d r
  Allocs-next k (panics e) full rest = λ c lo hi.
      elim (Bool-cases (ltb c (suc k * bits_per_block))) [
        | inl h ↦ full c lo (ground arith)
        | inr h ↦ rest c (ground arith) hi
      ]
  Allocs-next k (returns (c, d')) full (lo, inside, free, before, same) = (
    omega arith,
    inside,
    free,
    λ a l h. elim (Bool-cases (ltb a (suc k * bits_per_block))) [
      | inl e ↦ full a l (ground arith)
      | inr e ↦ before a (ground arith) h
    ],
    same,
  )

  hit-Allocs :
      (k bi : ℕ)
      → k * bits_per_block < sb.size
      → Finds
          (λ bi. is_free (bitmap_block (k * bits_per_block) sb.ninodes) bi d)
          0
          bits_per_block
          (some bi)
      → Allocs (k * bits_per_block) sb.size sb.ninodes d (
          returns
            (k * bits_per_block + bi, set_bit (bitmap_block (k * bits_per_block) sb.ninodes) bi d))
  hit-Allocs k bi inside (lo, hi, free, before) =
      let c = k * bits_per_block + bi in
      let same : c / bits_per_block ≡ k * bits_per_block / bits_per_block = omega arith in
      let rest : c % bits_per_block ≡ bi = omega arith in
      (
        omega arith,
        omega arith,
        rw (same, rest) free,
        λ a l h.
            let same' : a / bits_per_block ≡ k * bits_per_block / bits_per_block = omega arith in
            rw same' (before (a % bits_per_block) (omega arith) (omega arith)),
        rw (same, rest) refl,
      )

  pub balloc_loop-Allocs :
      (n k : ℕ)
      → sb.size < (n + k) * bits_per_block
      → Allocs (k * bits_per_block) sb.size sb.ninodes d (balloc_loop n (k * bits_per_block) sb d)
  unfolding balloc_loop
  balloc_loop-Allocs zero k enough = λ c lo hi. absurd (omega arith)
  balloc_loop-Allocs (suc n) k enough =
      let bb = bitmap_block (k * bits_per_block) sb.ninodes in
      let finds = find_bit-Finds bb 0 bits_per_block d in
      let next : k * bits_per_block + bits_per_block ≡ suc k * bits_per_block = omega arith in
      let ih = balloc_loop-Allocs n (suc k) (omega arith) in
      elim (Bool-cases (ltb (k * bits_per_block) sb.size)) [
        | inr e ↦ rw e (λ c lo hi. absurd (ground arith))
        | inl e ↦ elim (Option-cases (find_bit bb 0 bits_per_block d)) [
          | inl f ↦ rw (e, f, next) (Allocs-next k _ (full-block k (rw f at finds)) ih)
          | inr (bi, f) ↦ rw (e, f) (hit-Allocs k bi (ground arith) (rw f at finds))
        ]
      ]
