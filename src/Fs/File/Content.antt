-- ===== src/Fs/File/Content.antt =====
-- The bytes of a file, for readi of xv6/fs.c.
use tom_cs.Base.{
  ℕ, zero, suc, ◌+◌, ◌-◌, ◌*◌, ◌/◌, ◌%◌, ◌^◌, ◌<◌, ◌≤◌, ◌≡◌, ◌≢◌, ap, refl, sym, inl, inr, false,
  ◌||◌, List, [], ◌∷◌, ◌++◌, none, some, leb, ltb, ◌==◌, if◌then◌else◌, min, arith, Bool-cases,
  returns,
}
use tom_cs.Fs.Disk.{Disk, block_size}
use tom_cs.Fs.Inode.{Inode, type_dev}
use tom_cs.Fs.Map.Present.{bmap_present}
use tom_cs.Fs.Map.Slots.{slot}
use tom_cs.Fs.File.{Devices, readi, readi_loop, bytes_from, chunk, max_bytes}

-- The byte `x` of the file; 0 where no block is there.
abbrev pub byte_at : Inode → Disk → ℕ → ℕ
byte_at ip d x =
    if slot ip d (x / block_size) == 0 then 0 else d (slot ip d (x / block_size)) (x % block_size)

-- `n` bytes from the byte `x` on.
unfoldable pub content : Inode → Disk → ℕ → ℕ → List ℕ
content ip d x zero = []
content ip d x (suc n) = byte_at ip d x ∷ content ip d (x + 1) n

-- There is a block for each of the `n` bytes from `x` on.
abbrev pub HasBlocks : Inode → Disk → ℕ → ℕ → Type 0
HasBlocks ip d x n = (y : ℕ) → x ≤ y → y < x + n → slot ip d (y / block_size) ≢ 0

module _ (ip : Inode) (d : Disk) where
  bytes_from_lem :
      (k o m : ℕ)
      → o + m ≤ block_size
      → slot ip d k ≢ 0
      → bytes_from (slot ip d k) o m d ≡ content ip d (block_size * k + o) m
  unfolding bytes_from content
  bytes_from_lem k o zero le there = refl
  bytes_from_lem k o (suc m) le there =
      let quot : (block_size * k + o) / block_size ≡ k = omega arith in
      let rest : (block_size * k + o) % block_size ≡ o = omega arith in
      let absent : (slot ip d k == 0) ≡ false = ground arith in
      let next : block_size * k + (o + 1) ≡ block_size * k + o + 1 = omega arith in
      rw (quot, rest, absent, bytes_from_lem k (o + 1) m (omega arith) there, next) refl

  content_add : (x m n : ℕ) → content ip d x (m + n) ≡ content ip d x m ++ content ip d (x + m) n
  unfolding content
  content_add x zero n =
      let z : x + 0 ≡ x = omega arith in let z' : 0 + n ≡ n = omega arith in rw (z, z') refl
  content_add x (suc m) n =
      let next : x + suc m ≡ x + 1 + m = omega arith in
      let next' : suc m + n ≡ suc (m + n) = omega arith in
      rw (next, next', content_add (x + 1) m n) refl

  chunk-content :
      (x left : ℕ)
      → slot ip d (x / block_size) ≢ 0
      → bytes_from (slot ip d (x / block_size)) (x % block_size) (chunk x left) d
        ≡ content ip d x (chunk x left)
  chunk-content x left there =
      let back : block_size * (x / block_size) + x % block_size ≡ x = omega arith in
      let b =
        bytes_from_lem (x / block_size) (x % block_size) (chunk x left) (ground arith) there in
      rw back at b

  pub readi_loop_lem :
      (f x left : ℕ)
      → left ≤ f
      → x + left ≤ max_bytes
      → HasBlocks ip d x left
      → readi_loop f ip x left d ≡ returns (content ip d x left)
  unfolding readi_loop content
  readi_loop_lem zero x left le fits there = let e : left ≡ 0 = omega arith in rw (e, content) refl
  readi_loop_lem (suc f) x left le fits there = elim (Bool-cases (left == 0)) [
    | inl e ↦ let z : left ≡ 0 = ground arith in rw z refl
    | inr e ↦
        let m = chunk x left in
        let bound : (m ≤ left) × (1 ≤ m) = ground arith in
        let here : slot ip d (x / block_size) ≢ 0 = there x (omega arith) (ground arith) in
        let whole : m + (left - m) ≡ left = omega arith in
        let later =
          readi_loop_lem f (x + m) (left - m) (omega arith) (omega arith)
            (λ y lo hi. there y (omega arith) (omega arith)) in
        let first = bmap_present ip d false (x / block_size) (omega arith) here in
        let both = content_add x m (left - m) in
        rw (e, first, later, chunk-content x left here) (ap returns (sym (rw whole at both)))
  ]

  -- For a file that is no device, of at most 140 blocks, with a block for each byte read, readi
  -- gives the n bytes of the file from off on, or as many as there are up to the size; it is an
  -- error if off is behind the size or if off + n wraps round.
  pub readi_lem :
      (devs : Devices) (off n : ℕ)
      → ip.type ≢ type_dev
      → off < 2 ^ 32
      → n < 2 ^ 32
      → ip.size ≤ max_bytes
      → HasBlocks ip d off (min n (ip.size - off))
      → readi devs ip off n d
        ≡ returns (
            if ltb ip.size off || leb (2 ^ 32) (off + n)
            then none
            else some (content ip d off (min n (ip.size - off))))
  unfolding readi
  readi_lem devs off n file lo ln fits there =
      let regular : (ip.type == type_dev) ≡ false = ground arith in
      let wraps : ltb ((off + n) % 2 ^ 32) off ≡ leb (2 ^ 32) (off + n) = ground arith in
      elim (Bool-cases (ltb ip.size off || leb (2 ^ 32) (off + n))) [
        | inl e ↦ rw (regular, wraps, e) refl
        | inr e ↦
            let inside : off ≤ ip.size = ground arith in
            let count : (if ltb ip.size ((off + n) % 2 ^ 32) then ip.size - off else n)
                ≡ min n (ip.size - off) =
              ground arith in
            let m = min n (ip.size - off) in
            let got = readi_loop_lem m off m (omega arith) (ground arith) there in
            rw (regular, wraps, e, count, got) refl
      ]

-- The bytes of a source, from `at` on.
pub bytes_of : (ℕ → ℕ) → ℕ → ℕ → List ℕ
bytes_of src at zero = []
bytes_of src at (suc n) = src at ∷ bytes_of src (at + 1) n

pub content-bytes_of :
    (ip : Inode) (d : Disk) (src : ℕ → ℕ) (x at n : ℕ)
    → ((y : ℕ) → x ≤ y → y < x + n → byte_at ip d y ≡ src (at + (y - x)))
    → content ip d x n ≡ bytes_of src at n
unfolding content bytes_of
content-bytes_of ip d src x at zero same = refl
content-bytes_of ip d src x at (suc n) same =
    let first : byte_at ip d x ≡ src at =
      let z : at + (x - x) ≡ at = omega arith in rw z at (same x (omega arith) (omega arith)) in
    let others = content-bytes_of ip d src (x + 1) (at + 1) n (λ y lo hi.
      let e : at + (y - x) ≡ at + 1 + (y - (x + 1)) = omega arith in
      rw e at (same y (omega arith) (omega arith))) in
    cc (first, others)
