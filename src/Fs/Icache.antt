-- ===== src/Fs/Icache.antt =====
-- The inode cache of xv6/fs.c: the table of inodes in use, and the operations on it. An inode is named
-- by its place in the table. A routine of the kernel runs as one step between two sleeps.
pub mod Get
pub mod Unique
pub mod Put
use tom_cs.Base.{
  ℕ, zero, suc, ◌+◌, ◌-◌, ◌*◌, ◌%◌, ◌^◌, Bool, true, false, not, ◌&&◌, ◌||◌, Option, none, some,
  leb, ltb, ◌==◌, if◌then◌else◌, update, Outcome, returns, panics, ◌>>=◌,
}
use tom_cs.Fs.Disk.{Disk, SuperBlock, read_sb, inode_block, inodes_per_block}
use tom_cs.Fs.Inode.{Inode, inode_base, get_half, byte_of, iupdate, load_inode}
use tom_cs.Fs.Truncate.{itrunc}

-- NINODE
abbrev pub num_slots : ℕ
num_slots = 50

abbrev pub Icache : Type 0
Icache = ℕ → Inode

-- `ip->ref > 0 && ip->dev == dev && ip->inum == inum`
unfoldable pub is_match : ℕ → ℕ → Inode → Bool
is_match dev inum ip = ltb 0 ip.ref && ip.dev == dev && ip.inum == inum

-- The loop of `iget` from the slot `i` on with `n` rounds left: the slot that matches, or else the
-- first that is empty, which `empty` is once it has been seen.
pub data Slot : Type 0 where
  cached : ℕ → Slot
  unused : Option ℕ → Slot

unfoldable pub note_empty : ℕ → Option ℕ → Icache → Option ℕ
note_empty i none c = if (c i).ref == 0 then some i else none
note_empty i (some k) c = some k

unfoldable pub iget_loop : ℕ → ℕ → Option ℕ → ℕ → ℕ → Icache → Slot
iget_loop i zero empty dev inum c = unused empty
iget_loop i (suc n) empty dev inum c =
    let rest = iget_loop (i + 1) n (note_empty i empty c) dev inum c in
    if is_match dev inum (c i) then cached i else rest

-- A slot that `iget` takes holds no inode yet.
abbrev pub fresh_inode : ℕ → ℕ → Inode → Inode
fresh_inode dev inum ip = record ip { dev = dev; inum = inum; ref = 1; busy = false; valid = false }

unfoldable pub iget_slot : Slot → ℕ → ℕ → Icache → Outcome (ℕ × Icache)
iget_slot (cached k) dev inum c = returns (k, update c k (record (c k) { ref = (c k).ref + 1 }))
iget_slot (unused none) dev inum c = panics "iget: no inodes"
iget_slot (unused (some k)) dev inum c = returns (k, update c k (fresh_inode dev inum (c k)))

unfoldable pub iget : ℕ → ℕ → Icache → Outcome (ℕ × Icache)
iget dev inum c = iget_slot (iget_loop 0 num_slots none dev inum c) dev inum c

pub idup : ℕ → Icache → Icache
idup k c = update c k (record (c k) { ref = (c k).ref + 1 })

-- The part of `ilock` behind the wait. A pointer to no inode is `none`.
unfoldable pub ilock_read : ℕ → Icache → Disk → Outcome Icache
ilock_read k c d =
    if (c k).valid
    then returns c
    else (let ip = load_inode (c k) d in
        if ip.type == 0 then panics "ilock: no type" else returns (update c k ip))

-- `ilock`: `none` where it sleeps until the inode is not busy, and tries again.
unfoldable pub ilock : Option ℕ → Icache → Disk → Outcome (Option Icache)
ilock none c d = panics "ilock"
ilock (some k) c d =
    if ltb (c k).ref 1
    then panics "ilock"
    else (if (c k).busy
        then returns none
        else ilock_read k (update c k (record (c k) { busy = true })) d >>= λ c'. returns (some c'))

unfoldable pub iunlock : Option ℕ → Icache → Outcome Icache
iunlock none c = panics "iunlock"
iunlock (some k) c =
    if not (c k).busy || ltb (c k).ref 1
    then panics "iunlock"
    else returns (update c k (record (c k) { busy = false }))

-- `iput` of the last reference to a file with no name: the file is emptied, and its inode is free.
pub free_inode : Inode → Disk → Outcome (Inode × Disk)
free_inode ip d = itrunc (record ip { busy = true }) d >>= λ (ip', d').
    let ip'' = record ip' { type = 0 } in returns (record ip'' { busy = false }, iupdate ip'' d')

pub iput : ℕ → Icache → Disk → Outcome (Icache × Disk)
iput k c d =
    if (c k).ref == 1 && (c k).valid && (c k).nlink == 0
    then (if (c k).busy
        then panics "iput busy"
        else free_inode (c k) d >>= λ (ip, d').
            returns (update c k (record ip { ref = ip.ref - 1 }), d'))
    else returns (update c k (record (c k) { ref = (c k).ref - 1 }), d)

pub iunlockput : ℕ → Icache → Disk → Outcome (Icache × Disk)
iunlockput k c d = iunlock (some k) c >>= λ c'. iput k c' d

-- `memset(dip, 0, sizeof(*dip)); dip->type = type;`
pub clear_dinode : ℕ → ℕ → Disk → Disk
clear_dinode inum type d b o =
    if b == inode_block inum && (leb (inode_base inum) o && ltb o (inode_base inum + 64))
    then (if ltb (o - inode_base inum) 2 then byte_of type (o - inode_base inum) else 0)
    else d b o

-- The loop of `ialloc` with `n` inodes left.
pub find_free_inode : ℕ → ℕ → Disk → Option ℕ
find_free_inode inum zero d = none
find_free_inode inum (suc n) d =
    let rest = find_free_inode (inum + 1) n d in
    if get_half (inode_block inum) (inode_base inum) d == 0 then some inum else rest

pub ialloc : ℕ → ℕ → Icache → Disk → Outcome (ℕ × Icache × Disk)
ialloc dev type c d = elim (find_free_inode 1 ((read_sb d).ninodes - 1) d) [
  | none ↦ panics "ialloc: no inodes"
  | some inum ↦ iget dev inum c >>= λ (k, c'). returns (k, c', clear_dinode inum type d)
]
