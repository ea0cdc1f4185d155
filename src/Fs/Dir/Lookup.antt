-- ===== src/Fs/Dir/Lookup.antt =====
-- dirlookup of xv6/fs.c finds the first entry of the name.
use tom_cs.Base.{
  ℕ, zero, suc, ◌+◌, ◌-◌, ◌*◌, ◌/◌, ◌%◌, ◌<◌, ◌≤◌, ◌≡◌, ◌≢◌, refl, ◌∙◌, inl, inr, Bool, true, false,
  not, ◌&&◌, Option, none, some, ltb, ◌==◌, arith, Bool-cases, Finds, Finds-zero, Finds-suc,
  Outcome, returns, panics, ◌>>=◌,
}
use tom_cs.Fs.Disk.{Disk, block_size}
use tom_cs.Fs.Inode.{Inode, type_dir, get_half}
use tom_cs.Fs.Map.Slots.{slot}
use tom_cs.Fs.Map.Present.{bmap_present}
use tom_cs.Fs.File.{max_bytes}
use tom_cs.Fs.File.Content.{HasBlocks}
use tom_cs.Fs.Icache.{Icache, num_slots, iget}
use tom_cs.Fs.Icache.Get.{HasSlot, Igets, iget-Igets}
use tom_cs.Fs.Dir.{
  dir_get, dirlookup, dirent_size, namecmp, is_zero, find_dirent, dir_entry, dir_loop,
}

-- The entry `e` of the block `b` is in use, and has the name.
pub dirent_match : ℕ → (ℕ → ℕ) → Disk → ℕ → Bool
dirent_match b name d e =
    not (get_half b (dirent_size * e) d == 0)
    && is_zero (namecmp name (λ j. d b (dirent_size * e + 2 + j)))

-- The entry `i` of the directory; a block has 32 of them.
pub entry_match : Inode → (ℕ → ℕ) → Disk → ℕ → Bool
entry_match ip name d i = dirent_match (slot ip d (i / 32)) name d (i % 32)

abbrev pub entry_inum : Inode → Disk → ℕ → ℕ
entry_inum ip d i = get_half (slot ip d (i / 32)) (dirent_size * (i % 32)) d

-- What the loop may come to from the entry `a` on: the first entry of the name, or none has it.
abbrev pub Looks : ℕ → Inode → (ℕ → ℕ) → Disk → Outcome (Option (ℕ × ℕ)) → Type 0
Looks a ip name d (panics e) = ⊥
Looks a ip name d (returns none) =
    (i : ℕ) → a ≤ i → block_size * (i / 32) < ip.size → entry_match ip name d i ≡ false
Looks a ip name d (returns (some (off, inum))) =
    (i : ℕ) × (a ≤ i)
    × (block_size * (i / 32) < ip.size)
    × (off ≡ dirent_size * i)
    × (inum ≡ entry_inum ip d i)
    × (entry_match ip name d i ≡ true)
    × ((j : ℕ) → a ≤ j → j < i → entry_match ip name d j ≡ false)

find_dirent-Finds :
    (b e n : ℕ) (name : ℕ → ℕ) (d : Disk)
    → Finds (dirent_match b name d) e n (find_dirent b e n name d)
unfolding find_dirent dirent_match
find_dirent-Finds b e zero name d = Finds-zero (dirent_match b name d) e
find_dirent-Finds b e (suc n) name d =
    Finds-suc (dirent_match b name d) e n (find_dirent b (e + 1) n name d)
      (find_dirent-Finds b (e + 1) n name d)

module _ (ip : Inode) (name : ℕ → ℕ) (d : Disk) where
  in_block :
      (k e : ℕ) → e < 32 → entry_match ip name d (32 * k + e) ≡ dirent_match (slot ip d k) name d e
  unfolding entry_match
  in_block k e lt =
      let quot : (32 * k + e) / 32 ≡ k = omega arith in
      let rest : (32 * k + e) % 32 ≡ e = omega arith in rw (quot, rest) refl

  -- The block `k` has no entry of the name.
  none_there :
      (k : ℕ)
      → ((e : ℕ) → 0 ≤ e → e < 32 → dirent_match (slot ip d k) name d e ≡ false)
      → (i : ℕ) → 32 * k ≤ i
      → i < 32 * (k + 1)
      → entry_match ip name d i ≡ false
  none_there k f i lo hi =
      let e : 32 * k + (i - 32 * k) ≡ i = omega arith in
      rw e at (in_block k (i - 32 * k) (omega arith) ∙ f (i - 32 * k) (omega arith) (omega arith))

  later :
      (k : ℕ) (r : Outcome (Option (ℕ × ℕ)))
      → ((e : ℕ) → 0 ≤ e → e < 32 → dirent_match (slot ip d k) name d e ≡ false)
      → Looks (32 * (k + 1)) ip name d r
      → Looks (32 * k) ip name d r
  later k (panics e) no_match l = l
  later k (returns none) no_match l = λ i lo lt. elim (Bool-cases (ltb i (32 * (k + 1)))) [
    | inl e ↦ none_there k no_match i lo (ground arith)
    | inr e ↦ l i (ground arith) lt
  ]
  later k (returns (some (off, inum))) no_match (i, lo, inside, at, num, m, first) = (
    i,
    omega arith,
    inside,
    at,
    num,
    m,
    λ j l h. elim (Bool-cases (ltb j (32 * (k + 1)))) [
      | inl e ↦ none_there k no_match j l (ground arith)
      | inr e ↦ first j (ground arith) h
    ],
  )

  found :
      (k e : ℕ)
      → block_size * k < ip.size
      → e < 32
      → dirent_match (slot ip d k) name d e ≡ true
      → ((j : ℕ) → 0 ≤ j → j < e → dirent_match (slot ip d k) name d j ≡ false)
      → Looks (32 * k) ip name d (
          returns
            (some (block_size * k + dirent_size * e, get_half (slot ip d k) (dirent_size * e) d)))
  found k e inside lt m first =
      let quot : (32 * k + e) / 32 ≡ k = omega arith in
      let rest : (32 * k + e) % 32 ≡ e = omega arith in
      (
        32 * k + e,
        omega arith,
        omega arith,
        omega arith,
        rw (quot, rest) refl,
        in_block k e lt ∙ m,
        λ j l h.
            let same : 32 * k + (j - 32 * k) ≡ j = omega arith in
            rw same at (
              in_block k (j - 32 * k) (omega arith)
              ∙ first (j - 32 * k) (omega arith) (omega arith)),
      )

  entry-Looks :
      (k : ℕ) (rest : Outcome (Option (ℕ × ℕ)))
      → block_size * k < ip.size
      → Looks (32 * (k + 1)) ip name d rest
      → (o : Option ℕ) → Finds (dirent_match (slot ip d k) name d) 0 32 o
      → Looks (32 * k) ip name d (dir_entry (block_size * k) (slot ip d k) d rest o)
  unfolding dir_entry
  entry-Looks k rest inside l none f = later k rest f l
  entry-Looks k rest inside l (some e) f = found k e inside f.1 f.2 f.3

  -- The loop finds the first entry of the name, if any has it.
  pub dir_loop-Looks :
      (f k : ℕ)
      → ip.size < block_size * (k + f)
      → ip.size ≤ max_bytes
      → HasBlocks ip d 0 ip.size
      → Looks (32 * k) ip name d (dir_loop f ip (block_size * k) name d)
  unfolding dir_loop
  dir_loop-Looks zero k lt fits there = λ i lo inside. absurd (omega arith)
  dir_loop-Looks (suc f) k lt fits there = elim (Bool-cases (ltb (block_size * k) ip.size)) [
    | inr e ↦ rw e (λ i lo inside. absurd (ground arith))
    | inl e ↦
        let quot : block_size * k / block_size ≡ k = omega arith in
        let some_block : slot ip d k ≢ 0 =
          rw quot at (there (block_size * k) (omega arith) (ground arith)) in
        let next : block_size * k + block_size ≡ block_size * (k + 1) = omega arith in
        let got = bmap_present ip d false k (ground arith) some_block in
        let rest = dir_loop-Looks f (k + 1) (omega arith) fits there in
        rw (e, quot, got, next)
          (entry-Looks k (dir_loop f ip (block_size * (k + 1)) name d) (ground arith) rest
            (find_dirent (slot ip d k) 0 32 name d) (find_dirent-Finds (slot ip d k) 0 32 name d))
  ]

-- The outcomes of a lookup of the name, with the slot of the inode or without.
abbrev pub Lookups : Inode → (ℕ → ℕ) → Icache → Disk → Outcome (Option (ℕ × ℕ) × Icache) → Type 0
Lookups ip name c d (panics e) = (k : ℕ) → k < num_slots → (c k).ref ≢ 0
Lookups ip name c d (returns (none, c')) =
    (c' ≡ c) × ((i : ℕ) → block_size * (i / 32) < ip.size → entry_match ip name d i ≡ false)
Lookups ip name c d (returns (some (off, k), c')) =
    (i : ℕ) × (block_size * (i / 32) < ip.size)
    × (off ≡ dirent_size * i)
    × (entry_match ip name d i ≡ true)
    × ((j : ℕ) → j < i → entry_match ip name d j ≡ false)
    × HasSlot ip.dev (entry_inum ip d i) c k c'

module _ (ip : Inode) (name : ℕ → ℕ) (c : Icache) (d : Disk) where
  get-Lookups :
      (off i inum : ℕ)
      → block_size * (i / 32) < ip.size
      → off ≡ dirent_size * i
      → inum ≡ entry_inum ip d i
      → entry_match ip name d i ≡ true
      → ((j : ℕ) → j < i → entry_match ip name d j ≡ false)
      → (r : Outcome (ℕ × Icache)) → Igets ip.dev inum c r
      → Lookups ip name c d (r >>= λ (k, c'). returns (some (off, k), c'))
  get-Lookups off i inum inside at num m first (panics e) g = λ k lt. (g k lt).0
  get-Lookups off i inum inside at num m first (returns (k, c')) g =
      (i, inside, at, m, first, rw num at g)

  dir_get-Lookups :
      (r : Outcome (Option (ℕ × ℕ)))
      → Looks 0 ip name d r
      → Lookups ip name c d (r >>= λ o. dir_get ip.dev o c)
  unfolding dir_get
  dir_get-Lookups (panics e) l = absurd l
  dir_get-Lookups (returns none) l = (refl, λ i lt. l i (omega arith) lt)
  dir_get-Lookups (returns (some (off, inum))) (i, lo, inside, at, num, m, first) =
      get-Lookups off i inum inside at num m (λ j lt. first j (omega arith) lt) (iget ip.dev inum c)
        (iget-Igets ip.dev inum c)

  -- In a directory of at most 140 blocks that are all there, dirlookup gives the offset of the
  -- first entry in use whose name is the one asked for, and the slot of its inode; if there is
  -- none, it gives nothing and the cache stays. It panics only if no slot of the cache is empty.
  pub dirlookup-Lookups :
      ip.type ≡ type_dir
      → ip.size ≤ max_bytes
      → HasBlocks ip d 0 ip.size
      → Lookups ip name c d (dirlookup ip name c d)
  unfolding dirlookup
  dirlookup-Lookups dir fits there =
      let is_dir : (ip.type == type_dir) ≡ true = ground arith in
      rw is_dir (
        dir_get-Lookups (dir_loop (ip.size / block_size + 1) ip 0 name d)
          (dir_loop-Looks ip name d (ip.size / block_size + 1) 0 (omega arith) fits there))
