-- ===== src/Calls/Empty.antt =====
-- isdirempty of xv6/sysfile.c looks at every entry but the first two.
use tom_cs.Base.{
  ℕ, zero, suc, ◌+◌, ◌-◌, ◌*◌, ◌/◌, ◌%◌, ◌^◌, ◌<◌, ◌≤◌, ◌≡◌, ◌≢◌, refl, ◌∙◌, inl, inr, Bool, true,
  false, ◌||◌, some, leb, ltb, ◌==◌, min, length, arith, Bool-cases, Outcome, returns, panics,
}
use tom_cs.Fs.Disk.{Disk}
use tom_cs.Fs.Inode.{Inode, type_dev}
use tom_cs.Fs.File.{Devices, readi, max_bytes}
use tom_cs.Fs.File.Content.{byte_at, content, HasBlocks, readi_lem}
use tom_cs.Fs.Dir.{dirent_size, inum_of}
use tom_cs.Calls.{no_entry, isdirempty_loop, isdirempty}

-- The inode number of the entry at the offset `x`.
abbrev pub inum_at : Inode → Disk → ℕ → ℕ
inum_at ip d x = byte_at ip d x + 256 * byte_at ip d (x + 1)

-- What the loop may come to from `off` on: whether all entries are unused.
abbrev pub Empties : ℕ → Inode → Disk → Outcome Bool → Type 0
Empties off ip d (panics e) = ⊥
Empties off ip d (returns true) =
    (x : ℕ) → off ≤ x → x < ip.size → x % dirent_size ≡ 0 → inum_at ip d x ≡ 0
Empties off ip d (returns false) =
    (x : ℕ) × (off ≤ x) × (x < ip.size) × (x % dirent_size ≡ 0) × (inum_at ip d x ≢ 0)

inum_of-content : (ip : Inode) (d : Disk) (x : ℕ) → inum_of (content ip d x 16) ≡ inum_at ip d x
unfolding inum_of content
inum_of-content ip d x = refl

length-content : (ip : Inode) (d : Disk) (x n : ℕ) → length (content ip d x n) ≡ n
unfolding content
length-content ip d x zero = refl
length-content ip d x (suc n) = omega (arith, length-content ip d (x + 1) n)

module _ (devs : Devices) (ip : Inode) (d : Disk) (file : ip.type ≢ type_dev)
    (fits : ip.size ≤ max_bytes) (whole : ip.size % dirent_size ≡ 0)
    (there : HasBlocks ip d 0 ip.size) where
  read_entry :
      (off : ℕ)
      → off < ip.size
      → off % dirent_size ≡ 0
      → readi devs ip off dirent_size d ≡ returns (some (content ip d off 16))
  read_entry off lt at =
      let all_bytes : min dirent_size (ip.size - off) ≡ 16 = ground arith in
      let good : (ltb ip.size off || leb (2 ^ 32) (off + dirent_size)) ≡ false = ground arith in
      let got =
        readi_lem ip d devs off dirent_size file (omega arith) (omega arith) fits
          (λ y lo hi. there y (omega arith) (ground arith)) in
      got ∙ rw (good, all_bytes) refl

  Empties-next :
      (off : ℕ) (r : Outcome Bool)
      → off % dirent_size ≡ 0
      → inum_at ip d off ≡ 0
      → Empties (off + dirent_size) ip d r
      → Empties off ip d r
  Empties-next off (panics e) at z f = f
  Empties-next off (returns true) at z f = λ x lo lt a. elim (Bool-cases (x == off)) [
    | inl e ↦ let same : x ≡ off = ground arith in rw same z
    | inr e ↦ f x (ground arith) lt a
  ]
  Empties-next off (returns false) at z (x, lo, lt, a, ne) = (x, omega arith, lt, a, ne)

  isdirempty_loop-Empties :
      (f off : ℕ)
      → off % dirent_size ≡ 0
      → ip.size < off + dirent_size * f
      → Empties off ip d (isdirempty_loop f devs ip off d)
  unfolding isdirempty_loop no_entry
  isdirempty_loop-Empties zero off at lt = λ x lo hi a. absurd (omega arith)
  isdirempty_loop-Empties (suc f) off at lt = elim (Bool-cases (ltb off ip.size)) [
    | inr e ↦ rw e (λ x lo hi a. absurd (ground arith))
    | inl e ↦
        let inside : off < ip.size = ground arith in
        let rest = isdirempty_loop-Empties f (off + dirent_size) (omega arith) (omega arith) in
        let size : (length (content ip d off 16) == dirent_size) ≡ true =
          rw (length-content ip d off 16) refl in
        elim (Bool-cases (inum_at ip d off == 0)) [
          | inl z ↦
              let z' : (inum_of (content ip d off 16) == 0) ≡ true =
                rw (inum_of-content ip d off) z in
              rw (e, read_entry off inside at, size, z') (Empties-next off _ at (ground arith) rest)
          | inr z ↦
              let z' : (inum_of (content ip d off 16) == 0) ≡ false =
                rw (inum_of-content ip d off) z in
              rw (e, read_entry off inside at, size, z')
                (off, omega arith, inside, at, ground arith)
        ]
  ]

  -- For a file that is no device, of at most 140 blocks that are all there and with a size of
  -- whole entries, isdirempty does not panic: it says yes if every entry but the first two has
  -- inode number 0, and otherwise no.
  pub isdirempty-Empties : Empties 32 ip d (isdirempty devs ip d)
  unfolding isdirempty
  isdirempty-Empties =
      isdirempty_loop-Empties (ip.size / dirent_size + 1) 32 (omega arith) (omega arith)
