-- ===== src/Fs/Dir.antt =====
-- Directories of xv6/fs.c: namecmp, dirlookup and dirlink. A name is a function that gives its bytes.
pub mod Lookup
use tom_cs.Base.{
  ℕ, zero, suc, ◌+◌, ◌-◌, ◌*◌, ◌/◌, ◌%◌, ◌^◌, Bool, true, false, not, ◌&&◌, ◌||◌, List, [], ◌∷◌,
  ◌++◌, Option, none, some, leb, ltb, ◌==◌, if◌then◌else◌, length, update, Outcome, returns, panics,
  ◌>>=◌,
}
use tom_cs.Base.Int.{ℤ, pos}
use tom_cs.CString.{Memory, strncmp, strncpy}
use tom_cs.Fs.Disk.{Disk, block_size}
use tom_cs.Fs.Inode.{Inode, type_dir, get_half, byte_of}
use tom_cs.Fs.Map.{bmap}
use tom_cs.Fs.File.{Devices, block_of, readi, writei}
use tom_cs.Fs.Icache.{Icache, iget, iput}

-- DIRSIZ, and the bytes of a `struct dirent`.
abbrev pub name_size : ℕ
name_size = 14

abbrev pub dirent_size : ℕ
dirent_size = 16

-- The two strings in one memory, at 0 and at 16.
abbrev pub two_names : (ℕ → ℕ) → (ℕ → ℕ) → Memory
two_names s t a = if ltb a 16 then s a else t (a - 16)

pub namecmp : (ℕ → ℕ) → (ℕ → ℕ) → ℤ
namecmp s t = strncmp 0 16 name_size (two_names s t)

unfoldable pub is_zero : ℤ → Bool
is_zero (pos n) = n == 0
is_zero _ = false

-- The loop over the entries of the block `b` from the entry `e` on, with `n` rounds left.
pub find_dirent : ℕ → ℕ → ℕ → (ℕ → ℕ) → Disk → Option ℕ
find_dirent b e zero name d = none
find_dirent b e (suc n) name d =
    let rest = find_dirent b (e + 1) n name d in
    if not (get_half b (dirent_size * e) d == 0)
      && is_zero (namecmp name (λ j. d b (dirent_size * e + 2 + j)))
    then some e
    else rest

-- The entry that was found in the block `b`, or what the next blocks have.
pub dir_entry : ℕ → ℕ → Disk → Outcome (Option (ℕ × ℕ)) → Option ℕ → Outcome (Option (ℕ × ℕ))
dir_entry off b d rest none = rest
dir_entry off b d rest (some e) =
    returns (some (off + dirent_size * e, get_half b (dirent_size * e) d))

-- The loop over the blocks from `off` on: the offset of the entry, and its inode number.
pub dir_loop : ℕ → Inode → ℕ → (ℕ → ℕ) → Disk → Outcome (Option (ℕ × ℕ))
dir_loop zero ip off name d = returns none
dir_loop (suc f) ip off name d =
    let rest = dir_loop f ip (off + block_size) name d in
    if ltb off ip.size
    then (bmap false ip (off / block_size) d >>= λ (a, ip', d').
        dir_entry off (block_of a) d rest (find_dirent (block_of a) 0 32 name d))
    else returns none

-- `iget` of the entry that was found.
pub dir_get : ℕ → Option (ℕ × ℕ) → Icache → Outcome (Option (ℕ × ℕ) × Icache)
dir_get dev none c = returns (none, c)
dir_get dev (some (off, inum)) c = iget dev inum c >>= λ (k, c'). returns (some (off, k), c')

-- `dirlookup`: the offset of the entry and the slot of its inode. The loop comes round at most once
-- for each block.
pub dirlookup : Inode → (ℕ → ℕ) → Icache → Disk → Outcome (Option (ℕ × ℕ) × Icache)
dirlookup ip name c d =
    if not (ip.type == type_dir)
    then panics "dirlookup not DIR"
    else dir_loop (ip.size / block_size + 1) ip 0 name d >>= λ r. dir_get ip.dev r c

-- The loop of `dirlink` that looks for an empty entry, from `off` on.
unfoldable pub inum_of : List ℕ → ℕ
inum_of (b0 ∷ (b1 ∷ bs)) = b0 + 256 * b1
inum_of _ = 0

pub dirent_empty : Option (List ℕ) → Outcome Bool
dirent_empty none = panics "dirlink read"
dirent_empty (some bs) =
    if length bs == dirent_size then returns (inum_of bs == 0) else panics "dirlink read"

pub empty_loop : ℕ → Devices → Inode → ℕ → Disk → Outcome ℕ
empty_loop zero devs ip off d = returns off
empty_loop (suc f) devs ip off d =
    let rest = empty_loop f devs ip (off + dirent_size) d in
    if ltb off ip.size
    then (readi devs ip off dirent_size d >>= λ r.
        dirent_empty r >>= λ e. if e then returns off else rest)
    else returns off

-- The bytes of the new entry.
pub dirent_bytes : ℕ → (ℕ → ℕ) → ℕ → ℕ
dirent_bytes ino name j =
    if ltb j 2 then byte_of ino j else strncpy 0 16 name_size (two_names (λ i. 0) name) (j - 2)

pub is_count : Option ℕ → Bool
is_count none = false
is_count (some n) = n == dirent_size

-- The new entry is written at the first empty one, or at the end; `true` is 0.
pub dir_add : Devices → ℕ → (ℕ → ℕ) → ℕ → Icache → Disk → Outcome (Bool × Icache × Disk)
dir_add devs k name ino c d = empty_loop ((c k).size / dirent_size + 1) devs (c k) 0 d >>= λ off.
    writei devs (c k) off dirent_size (dirent_bytes ino name) d >>= λ (n, ip, d').
    if is_count n then returns (true, update c k ip, d') else panics "dirlink"

-- `dirlink` into the directory in the slot `k`; a name that is there is an error, -1.
pub dirlink : Devices → ℕ → (ℕ → ℕ) → ℕ → Icache → Disk → Outcome (Bool × Icache × Disk)
dirlink devs k name ino c d = dirlookup (c k) name c d >>= λ (found, c'). elim found [
  | some (off, j) ↦ iput j c' d >>= λ (c'', d'). returns (false, c'', d')
  | none ↦ dir_add devs k name ino c' d
]
