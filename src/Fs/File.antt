-- ===== src/Fs/File.antt =====
-- readi, writei and stati of xv6/fs.c. A file is read into a list of bytes, and written from a function
-- that gives the byte at each offset of the source.
pub mod Content
pub mod Bytes
pub mod Block
pub mod Round
pub mod Write
pub mod Update
pub mod Stored
use tom_cs.Base.{
  ℕ, zero, suc, ◌+◌, ◌-◌, ◌*◌, ◌/◌, ◌%◌, ◌^◌, Bool, true, false, ◌&&◌, ◌||◌, List, [], ◌∷◌, ◌++◌,
  Option, none, some, leb, ltb, ◌==◌, if◌then◌else◌, min, Outcome, returns, panics, ◌>>=◌,
}
use tom_cs.Fs.Disk.{Disk, block_size, max_blocks}
use tom_cs.Fs.Inode.{Inode, type_dev, iupdate}
use tom_cs.Fs.Map.{bmap}

-- `devsw`: what a device reads for a count, and whether it takes a count of bytes; `none` is a null
-- pointer, and the inner `none` an error.
pub record Devices : Type 0 where
  pub read : ℕ → Option (ℕ → Option (List ℕ))
  pub write : ℕ → Option ((ℕ → ℕ) → ℕ → Option ℕ)

-- (uint)-1, the block that is read where bmap returns -1
abbrev pub block_of : Option ℕ → ℕ
block_of none = 2 ^ 32 - 1
block_of (some a) = a

-- `m` bytes of the block `b` from `o` on.
pub bytes_from : ℕ → ℕ → ℕ → Disk → List ℕ
bytes_from b o zero d = []
bytes_from b o (suc m) d = d b o ∷ bytes_from b (o + 1) m d

abbrev pub chunk : ℕ → ℕ → ℕ
chunk off left = min left (block_size - off % block_size)

-- The loop of `readi` with `left` bytes to go; each round takes one of them at least.
pub readi_loop : ℕ → Inode → ℕ → ℕ → Disk → Outcome (List ℕ)
readi_loop zero ip off left d = returns []
readi_loop (suc f) ip off left d =
    let m = chunk off left in
    let rest = readi_loop f ip (off + m) (left - m) d in
    if left == 0
    then returns []
    else (bmap false ip (off / block_size) d >>= λ (a, ip', d').
        rest >>= λ bs. returns (bytes_from (block_of a) (off % block_size) m d ++ bs))

-- NDEV; a negative `major` is a number above it here.
abbrev pub num_devices : ℕ
num_devices = 10

-- `none` is -1.
pub device_read : Option (ℕ → Option (List ℕ)) → ℕ → Outcome (Option (List ℕ))
device_read none n = returns none
device_read (some f) n = returns (f n)

pub device_write : Option ((ℕ → ℕ) → ℕ → Option ℕ) → (ℕ → ℕ) → ℕ → Outcome (Option ℕ)
device_write none src n = returns none
device_write (some f) src n = returns (f src n)

pub readi : Devices → Inode → ℕ → ℕ → Disk → Outcome (Option (List ℕ))
readi devs ip off n d =
    if ip.type == type_dev
    then (if leb num_devices ip.major then returns none else device_read (devs.read ip.major) n)
    else (if ltb ip.size off || ltb ((off + n) % 2 ^ 32) off
        then returns none
        else (let n' = if ltb ip.size ((off + n) % 2 ^ 32) then ip.size - off else n in
            readi_loop n' ip off n' d >>= λ bs. returns (some bs)))

-- `memmove(bp->data + o, src, m)`
pub put_bytes : ℕ → ℕ → ℕ → (ℕ → ℕ) → Disk → Disk
put_bytes b o m src d i j = if i == b && (leb o j && ltb j (o + m)) then src (j - o) else d i j

-- The loop of `writei` with `left` bytes to go, from the byte `at` of the source on.
pub write_loop : ℕ → Inode → ℕ → ℕ → ℕ → (ℕ → ℕ) → Disk → Outcome (Inode × Disk)
write_loop zero ip off at left src d = returns (ip, d)
write_loop (suc f) ip off at left src d =
    let m = chunk off left in
    let next = bmap true ip (off / block_size) d >>= λ (a, ip', d').
    write_loop f ip' (off + m) (at + m) (left - m) src
      (put_bytes (block_of a) (off % block_size) m (λ j. src (at + j)) d') in
    if left == 0 then returns (ip, d) else next

-- The end of `writei`: the size is stored if the file has grown.
pub store_size : ℕ → ℕ → Inode × Disk → Option ℕ × Inode × Disk
store_size off n (ip, d) =
    if ltb 0 n && ltb ip.size (off + n)
    then (let ip' = record ip { size = off + n } in (some n, ip', iupdate ip' d))
    else (some n, ip, d)

abbrev pub max_bytes : ℕ
max_bytes = max_blocks * block_size

pub writei : Devices → Inode → ℕ → ℕ → (ℕ → ℕ) → Disk → Outcome (Option ℕ × Inode × Disk)
writei devs ip off n src d =
    if ip.type == type_dev
    then (if leb num_devices ip.major
        then returns (none, ip, d)
        else device_write (devs.write ip.major) src n >>= λ r. returns (r, ip, d))
    else (if ltb ((off + n) % 2 ^ 32) off
        then returns (none, ip, d)
        else (let n' =
              if ltb max_bytes ((off + n) % 2 ^ 32)
              then (max_bytes + 2 ^ 32 - off) % 2 ^ 32
              else n in
            write_loop n' ip off 0 n' src d >>= λ r. returns (store_size off n' r)))
