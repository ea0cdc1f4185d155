-- ===== src/Fs/File/Stored.antt =====
-- writei of xv6/fs.c as a whole, and readi behind it.
use tom_cs.Base.{
  ℕ, ◌+◌, ◌-◌, ◌/◌, ◌%◌, ◌^◌, ◌<◌, ◌≤◌, ◌≡◌, ◌≢◌, ap, refl, ◌∙◌, inl, inr, true, false, ◌&&◌, ◌||◌,
  Option, none, some, leb, ltb, ◌==◌, if◌then◌else◌, min, arith, Bool-cases, Outcome, returns,
  panics, ◌>>=◌,
}
use tom_cs.Fs.Disk.{Disk, read_sb, max_blocks, indirect, num_direct, bits_per_block}
use tom_cs.Fs.Bitmap.Data.{room}
use tom_cs.Fs.Bitmap.Healthy.{Healthy}
use tom_cs.Fs.Inode.{Inode, type_dev, load_inode}
use tom_cs.Fs.Inode.Layout.{Fits, Loads, load-iupdate}
use tom_cs.Fs.Map.Slots.{slot, Maps}
use tom_cs.Fs.Map.Mapped.{lists}
use tom_cs.Fs.File.{Devices, write_loop, readi, writei, store_size, max_bytes}
use tom_cs.Fs.File.Content.{bytes_of, content-bytes_of, readi_lem}
use tom_cs.Fs.File.Bytes.{eq_of, ne_of}
use tom_cs.Fs.Bitmap.Blocks.{InRange}
use tom_cs.Fs.File.Block.{Writes}
use tom_cs.Fs.File.Write.{span, WritesTo, write_loop_lem}
use tom_cs.Fs.File.Update.{iupdate-Writes}

-- The size behind a write of `c` bytes at `off`.
abbrev pub new_size : ℕ → ℕ → ℕ → ℕ
new_size size off c = if ltb 0 c && ltb size (off + c) then off + c else size

-- `c` bytes are written, and a file that has grown is stored on the disk.
pub record Stored (ip : Inode) (d : Disk) (off c : ℕ) (src : ℕ → ℕ) (ip' : Inode) (d' : Disk)
    : Type 0 where
  pub writes : Writes ip d off 0 c src ip' d'
  pub size : ip'.size ≡ new_size ip.size off c
  pub stored : (ltb 0 c && ltb ip.size (off + c)) ≡ true → Loads ip' (load_inode ip' d')

abbrev pub Writeis : Inode → Disk → ℕ → ℕ → (ℕ → ℕ) → Outcome (Option ℕ × Inode × Disk) → Type 0
Writeis ip d off c src (panics e) = ⊥
Writeis ip d off c src (returns (none, ip', d')) = ⊥
Writeis ip d off c src (returns (some n, ip', d')) = (n ≡ c) × Stored ip d off c src ip' d'

in_range_lt :
    (a size : ℕ)
    → a / bits_per_block ≤ size / bits_per_block
    → size + bits_per_block ≤ 2 ^ 32
    → a < 2 ^ 32
in_range_lt a size r small = omega arith

-- The addresses of a file fit in 32 bits.
Maps-Fits :
    (ip ip' : Inode) (d : Disk)
    → Maps ip' d
    → Healthy d
    → Fits ip
    → ip' ≡ record ip { addrs = ip'.addrs; size = ip'.size }
    → (size : ℕ) → size < 2 ^ 32
    → Fits (record ip' { size = size })
Maps-Fits ip ip' d maps h fits rest size lt =
    let type : ip'.type ≡ ip.type = ap (λ q. q.type) rest in
    let major : ip'.major ≡ ip.major = ap (λ q. q.major) rest in
    let minor : ip'.minor ≡ ip.minor = ap (λ q. q.minor) rest in
    let nlink : ip'.nlink ≡ ip.nlink = ap (λ q. q.nlink) rest in
    record {
      type = rw type fits.type;
      major = rw major fits.major;
      minor = rw minor fits.minor;
      nlink = rw nlink fits.nlink;
      size = lt;
      addrs = addr_lt;
    }
  where
    slot_bound : (k : ℕ) → k ≤ max_blocks → slot ip' d k ≢ 0 → slot ip' d k < 2 ^ 32
    slot_bound k le there =
        let r : InRange d (slot ip' d k) = maps.in_range k le there in
        in_range_lt (slot ip' d k) (read_sb d).size r h.small

    slot_lt : (k : ℕ) → k ≤ max_blocks → slot ip' d k < 2 ^ 32
    slot_lt k le = elim (Bool-cases (slot ip' d k == 0)) [
      | inl e ↦ rw (eq_of (slot ip' d k) 0 e) (omega arith)
      | inr e ↦ slot_bound k le (ne_of (slot ip' d k) 0 e)
    ]

    addr_lt : (k : ℕ) → k ≤ 12 → ip'.addrs k < 2 ^ 32
    addr_lt k le = elim (Bool-cases (k == indirect)) [
      | inl e ↦ let same : k ≡ indirect = ground arith in rw same (slot_lt max_blocks (omega arith))
      | inr e ↦
          let low : ltb k num_direct ≡ true = ground arith in rw low at (slot_lt k (omega arith))
    ]

module _ (devs : Devices) (ip : Inode) (d : Disk) (off : ℕ) (src : ℕ → ℕ) where
  store_size-Stored :
      (c : ℕ) (ip' : Inode) (d' : Disk)
      → off + c ≤ max_bytes
      → Fits ip
      → ip.inum ≤ (read_sb d).ninodes
      → ip'.size ≡ ip.size
      → Writes ip d off 0 c src ip' d'
      → Writeis ip d off c src (returns (store_size off c (ip', d')))
  unfolding store_size
  store_size-Stored c ip' d' le fits some_inode size w =
      elim (Bool-cases (ltb 0 c && ltb ip.size (off + c))) [
        | inr e ↦
            let e' : (ltb 0 c && ltb ip'.size (off + c)) ≡ false = rw size e in
            rw e'
              (refl, record { writes = w; size = rw e size; stored = λ t. absurd (ground arith) })
        | inl e ↦
            let e' : (ltb 0 c && ltb ip'.size (off + c)) ≡ true = rw size e in
            let ip2 = record ip' { size = off + c } in
            let fits' = Maps-Fits ip ip' d' w.maps w.healthy fits w.rest (off + c) (omega arith) in
            let inum : ip'.inum ≡ ip.inum = ap (λ q. q.inum) w.rest in
            let some_inode' : ip2.inum ≤ (read_sb d').ninodes = rw (w.sb, inum) some_inode in
            rw e' (
              refl,
              record {
                writes = iupdate-Writes ip ip' ip2 d d' off 0 c src le w some_inode' refl;
                size = rw e refl;
                stored = λ t. load-iupdate ip2 d' ip2 fits' refl;
              },
            )
      ]

  store_size-Writeis :
      (c : ℕ) (r : Outcome (Inode × Disk))
      → off + c ≤ max_bytes
      → Fits ip
      → ip.inum ≤ (read_sb d).ninodes
      → WritesTo ip d off 0 c src r
      → Writeis ip d off c src (r >>= λ q. returns (store_size off c q))
  store_size-Writeis c (panics e) le fits some_inode w = absurd w
  store_size-Writeis c (returns (ip', d')) le fits some_inode (size, w) =
      store_size-Stored c ip' d' le fits some_inode size w

  -- On a disk in order with room for the blocks that the bytes lie in and one more, writei to a
  -- file that is no device, from an offset within the limit, of bytes below 256 and a count n with
  -- off + n below 2 ^ 32, does not panic, if the fields of the inode have the width of the disk
  -- and its number is at most the count of inodes. It writes n bytes, or as many as there are up
  -- to the limit: those bytes of the file are then the source's, all its other bytes and the
  -- blocks of other files are as they were, the disk is in order, the size is the old one or the
  -- end of the write if that is greater, and then the inode on the disk is the new one.
  pub writei-Writeis :
      (n : ℕ)
      → ip.type ≢ type_dev
      → off ≤ max_bytes
      → off + n < 2 ^ 32
      → Maps ip d
      → Healthy d
      → Fits ip
      → ip.inum ≤ (read_sb d).ninodes
      → ((j : ℕ) → src j < 256)
      → span off (min n (max_bytes - off)) + 1 ≤ room d + lists ip d
      → Writeis ip d off (min n (max_bytes - off)) src (writei devs ip off n src d)
  unfolding writei
  writei-Writeis n file lo hi maps h fits some_inode small space =
      let c = min n (max_bytes - off) in
      let regular : (ip.type == type_dev) ≡ false = ground arith in
      let wraps : ltb ((off + n) % 2 ^ 32) off ≡ false = ground arith in
      let clip : (if ltb max_bytes ((off + n) % 2 ^ 32)
            then (max_bytes + 2 ^ 32 - off) % 2 ^ 32
            else n)
          ≡ c =
        ground arith in
      rw (regular, wraps, clip)
        (store_size-Writeis c (write_loop c ip off 0 c src d) (omega arith) fits some_inode
          (write_loop_lem src small c ip d off 0 c (omega arith) (omega arith) maps h space))

module _ (devs : Devices) (ip : Inode) (d : Disk) (off n : ℕ) (src : ℕ → ℕ) where
  read_back :
      (r : Outcome (Option ℕ × Inode × Disk))
      → 1 ≤ n
      → off + n ≤ max_bytes
      → ip.size ≤ max_bytes
      → ip.type ≢ type_dev
      → Writeis ip d off n src r
      → (r >>= λ (c, ip', d'). readi devs ip' off n d') ≡ returns (some (bytes_of src 0 n))
  read_back (panics e) some_bytes le fits file w = absurd w
  read_back (returns (none, ip', d')) some_bytes le fits file w = absurd w
  read_back (returns (some c, ip', d')) some_bytes le fits file (count, w) =
      let size : ip'.size ≡ new_size ip.size off n = w.size in
      let bound : (off + n ≤ ip'.size) × (ip'.size ≤ max_bytes) = ground arith in
      let all_bytes : min n (ip'.size - off) ≡ n = ground arith in
      let type : ip'.type ≡ ip.type = ap (λ q. q.type) w.writes.rest in
      let file' : ip'.type ≢ type_dev = rw type file in
      let got =
        readi_lem ip' d' devs off n file' (omega arith) (omega arith) (omega arith)
          (rw all_bytes w.writes.there) in
      let good : (ltb ip'.size off || leb (2 ^ 32) (off + n)) ≡ false = ground arith in
      got
      ∙ rw (good, all_bytes)
          (ap (λ bs. returns (some bs)) (content-bytes_of ip' d' src off 0 n w.writes.inside))

  -- On a disk in order with room for the blocks and one more, what writei writes to a file that is
  -- no device, at least one byte and below the limit, readi gives back.
  pub readi-writei :
      1 ≤ n
      → off + n ≤ max_bytes
      → ip.size ≤ max_bytes
      → ip.type ≢ type_dev
      → Maps ip d
      → Healthy d
      → Fits ip
      → ip.inum ≤ (read_sb d).ninodes
      → ((j : ℕ) → src j < 256)
      → span off n + 1 ≤ room d + lists ip d
      → (writei devs ip off n src d >>= λ (c, ip', d'). readi devs ip' off n d')
        ≡ returns (some (bytes_of src 0 n))
  readi-writei some_bytes le fits file maps h fit some_inode small space =
      let all_bytes : min n (max_bytes - off) ≡ n = ground arith in
      let space' : span off (min n (max_bytes - off)) + 1 ≤ room d + lists ip d =
        rw all_bytes space in
      let w =
        writei-Writeis devs ip d off src n file (omega arith) (omega arith) maps h fit some_inode
          small space' in
      read_back (writei devs ip off n src d) some_bytes le fits file (rw all_bytes at w)
