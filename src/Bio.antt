-- ===== src/Bio.antt =====
-- xv6/bio.c, and what xv6/ide.c does to one buffer: the cache of disk blocks.
-- The list holds the buffers from `bufhead.next`, the most recently used, to `bufhead.prev`; the
-- doubly linked pointers are not modelled. A call holds `buf_table_lock` until it returns or
-- sleeps, and is one step; where `bget` sleeps, it starts again when it is woken.
pub mod Order
pub mod Lookup
pub mod Evict
pub mod Release
pub mod Cache
pub mod Coherent
pub mod WriteBack
mod Tests
use tom_cs.Base.{
  ℕ, zero, suc, ◌+◌, Bool, true, false, ◌&&◌, ◌||◌, not, List, [], ◌∷◌, Option, none, some, ◌==◌,
  if◌then◌else◌, Outcome, returns, panics, ◌>>=◌,
}

-- `struct buf`: `id` is its place in the array `buf`, and the flags are three Booleans.
pub record Buf : Type 0 where
  pub id : ℕ
  pub busy : Bool
  pub valid : Bool
  pub dirty : Bool
  pub dev : ℕ
  pub sector : ℕ
  pub bytes : List ℕ

-- NBUF
abbrev pub max_buf : ℕ
max_buf = 10

-- A buffer of static storage.
abbrev pub fresh_buf : ℕ → Buf
fresh_buf i = record {
  id = i;
  busy = false;
  valid = false;
  dirty = false;
  dev = 0;
  sector = 0;
  bytes = [];
}

-- The loop of `binit` for the first `n` buffers of the array: each goes to the front.
pub binit_loop : ℕ → List Buf
binit_loop zero = []
binit_loop (suc n) = fresh_buf n ∷ binit_loop n

pub binit : List Buf
unfolding binit_loop
binit = binit_loop max_buf

-- `(b->flags & (B_BUSY|B_VALID)) && b->dev == dev && b->sector == sector`
abbrev pub holds : ℕ → ℕ → Buf → Bool
holds dev sector b = (b.busy || b.valid) && (b.dev == dev && b.sector == sector)

-- How the first loop of `bget` ends: no buffer has the sector, one has it and is busy, or one has it
-- and is taken; then the list is given with that buffer's flag set.
pub data Found : Type 0 where
  absent : Found
  in_use : Found
  hit : Buf → List Buf → Found

pub lookup_loop : ℕ → ℕ → List Buf → Found
lookup_loop dev sector [] = absent
lookup_loop dev sector (b ∷ bs) =
    let rest = lookup_loop dev sector bs in
    if holds dev sector b
    then (if b.busy then in_use else hit (record b { busy = true }) (record b { busy = true } ∷ bs))
    else (elim rest [ absent ↦ absent | in_use ↦ in_use | hit x l ↦ hit x (b ∷ l) ])

-- `b->flags = B_BUSY; b->dev = dev; b->sector = sector;`
abbrev pub reuse : ℕ → ℕ → Buf → Buf
reuse dev sector b = record b {
  busy = true;
  valid = false;
  dirty = false;
  dev = dev;
  sector = sector;
}

-- The second loop of `bget`, from the back of the list: the buffer taken and the new list.
pub evict_loop : ℕ → ℕ → List Buf → Option (Buf × List Buf)
evict_loop dev sector [] = none
evict_loop dev sector (b ∷ bs) =
    let rest = evict_loop dev sector bs in
    elim rest [
      | some (x, l) ↦ some (x, b ∷ l)
      | none ↦ if b.busy then none else some (reuse dev sector b, reuse dev sector b ∷ bs)
    ]

pub data Got : Type 0 where
  sleeps : Got
  got : Buf → List Buf → Got

pub bget : ℕ → ℕ → List Buf → Outcome Got
bget dev sector bs = elim (lookup_loop dev sector bs) [
  | in_use ↦ returns sleeps
  | hit x l ↦ returns (got x l)
  | absent ↦ elim (evict_loop dev sector bs) [
    | none ↦ panics "bget: no buffers"
    | some (x, l) ↦ returns (got x l)
  ]
]

-- The buffer `id`, and the list without it.
pub unlink : ℕ → List Buf → Option (Buf × List Buf)
unlink id [] = none
unlink id (b ∷ bs) =
    let rest = unlink id bs in
    if b.id == id then some (b, bs) else (elim rest [ none ↦ none | some (x, l) ↦ some (x, b ∷ l) ])

-- `brelse` puts the buffer in front, and wakes all that sleep on `buf`. A pointer to no buffer is
-- left aside: the list stays.
pub brelse : ℕ → List Buf → Outcome (List Buf)
brelse id bs = elim (unlink id bs) [
  | none ↦ returns bs
  | some (x, l) ↦ if not x.busy then panics "brelse" else returns (record x { busy = false } ∷ l)
]

-- The disks: the block in each sector of each device.
abbrev pub Disk : Type 0
Disk = ℕ → ℕ → List ℕ

-- The driver passes on the low bit of `dev` and the low 28 bits of `sector`. Both are whole here: the
-- same for devices 0 and 1 and for sectors below 2 ^ 28.
abbrev pub store : Disk → ℕ → ℕ → List ℕ → Disk
store d dev sector bytes i j = if i == dev && j == sector then bytes else d i j

-- The request for `b`: a dirty buffer is written by `ide_start_request`; else `ide_intr` reads, if
-- the drive reports no error. In either case the buffer is then marked valid and clean.
unfoldable pub transfer : Bool → Buf → Disk → Buf × Disk
transfer ok b d =
    if b.dirty
    then (record b { valid = true; dirty = false }, store d b.dev b.sector b.bytes)
    else (
      record b { valid = true; dirty = false; bytes = if ok then d b.dev b.sector else b.bytes },
      d,
    )

-- `ide_rw`, from its checks to the end of its wait for the request.
unfoldable pub ide_rw : Bool → Bool → Buf → Disk → Outcome (Buf × Disk)
ide_rw disk_1 ok b d =
    if not b.busy
    then panics "ide_rw: buf not busy"
    else (if b.valid && not b.dirty
        then panics "ide_rw: nothing to do"
        else (if not (b.dev == 0) && not disk_1
            then panics "ide disk 1 not present"
            else returns (transfer ok b d)))

-- The buffer `y` in its place, after a change through its pointer.
pub update_buf : Buf → List Buf → List Buf
update_buf y [] = []
update_buf y (b ∷ bs) = let rest = update_buf y bs in if b.id == y.id then y ∷ bs else b ∷ rest

-- `bread`: `none` where `bget` sleeps.
pub bread : Bool → Bool → ℕ → ℕ → List Buf → Disk → Outcome (Option (Buf × List Buf × Disk))
bread disk_1 ok dev sector bs d = do
  g ← bget dev sector bs
  elim g [
    | sleeps ↦ returns none
    | got x l ↦
        if not x.valid
        then (ide_rw disk_1 ok x d >>= λ (y, d'). returns (some (y, update_buf y l, d')))
        else returns (some (x, l, d))
  ]

-- `bwrite` of the buffer `x` of the list.
pub bwrite : Bool → Bool → Buf → List Buf → Disk → Outcome (Buf × List Buf × Disk)
bwrite disk_1 ok x bs d =
    if not x.busy
    then panics "bwrite"
    else (ide_rw disk_1 ok (record x { dirty = true }) d >>= λ (y, d').
        returns (y, update_buf y bs, d'))
