-- ===== src/Fs/Path.antt =====
-- Paths of xv6/fs.c: skipelem and _namei. A path is the list of its bytes, without the NUL.
pub mod Elements
use tom_cs.Base.{
  ℕ, zero, suc, ◌+◌, Bool, true, false, not, ◌&&◌, List, [], ◌∷◌, ◌++◌, Option, none, some, ◌==◌,
  if◌then◌else◌, length, take, Outcome, returns, panics, ◌>>=◌,
}
use tom_cs.Fs.Disk.{Disk}
use tom_cs.Fs.Inode.{Inode, type_dir}
use tom_cs.Fs.Icache.{Icache, iget, idup, ilock, iunlock, iput, iunlockput}
use tom_cs.Fs.Dir.{dirlookup, name_size}

-- '/'
abbrev pub slash : ℕ
slash = 47

unfoldable pub skip_slashes : List ℕ → List ℕ
skip_slashes [] = []
skip_slashes (x ∷ xs) = let rest = skip_slashes xs in if x == slash then rest else x ∷ xs

-- The bytes before the next slash, and those from it on.
pub split_elem : List ℕ → List ℕ × List ℕ
split_elem [] = ([], [])
split_elem (x ∷ xs) =
    let rest = split_elem xs in if x == slash then ([], x ∷ xs) else (x ∷ rest.0, rest.1)

-- `skipelem`: the next element and the path behind it; `none` where there is no element.
unfoldable pub cut_elem : List ℕ → Option (List ℕ × List ℕ)
cut_elem [] = none
cut_elem (x ∷ xs) = let p = split_elem (x ∷ xs) in some (take name_size p.0, skip_slashes p.1)

unfoldable pub skipelem : List ℕ → Option (List ℕ × List ℕ)
skipelem path = cut_elem (skip_slashes path)

-- The bytes of a name, and NUL behind them.
pub name_byte : List ℕ → ℕ → ℕ
name_byte [] j = 0
name_byte (x ∷ xs) zero = x
name_byte (x ∷ xs) (suc j) = name_byte xs j

-- What `_namei` comes to: the slot of the inode, or `none` for 0, and the last element of the path.
-- The outer `none` stands for a run that stops where `ilock` sleeps.
abbrev pub Walk : Type 0
Walk = Outcome (Option (Option ℕ × List ℕ × Icache × Disk))

abbrev pub walk_end : Option ℕ → List ℕ → Outcome (Icache × Disk) → Walk
walk_end k name r = r >>= λ (c, d). returns (some (k, name, c, d))

-- A round behind the lock, in the directory `k`; `next` is the rest of the loop.
pub walk_dir : Bool → ℕ → List ℕ → List ℕ → (ℕ → Icache → Disk → Walk) → Icache → Disk → Walk
walk_dir parent k name path next c d =
    if not ((c k).type == type_dir)
    then walk_end none name (iunlockput k c d)
    else (if parent && length path == 0
        then walk_end (some k) name (iunlock (some k) c >>= λ c'. returns (c', d))
        else dirlookup (c k) (name_byte name) c d >>= λ (found, c'). elim found [
          | none ↦ walk_end none name (iunlockput k c' d)
          | some (off, j) ↦ iunlockput k c' d >>= λ (c'', d'). next j c'' d'
        ])

-- A round behind `ilock`.
pub walk_locked :
    Bool → ℕ → List ℕ → List ℕ → (ℕ → Icache → Disk → Walk) → Disk → Option Icache → Walk
walk_locked parent k name path next d none = returns none
walk_locked parent k name path next d (some c) = walk_dir parent k name path next c d

-- A round behind `skipelem`; `next` is the rest of the loop, for a path and the element before it.
unfoldable pub walk_cut :
    Bool
    → ℕ
    → List ℕ
    → (List ℕ → List ℕ → ℕ → Icache → Disk → Walk)
    → Icache
    → Disk
    → Option (List ℕ × List ℕ)
    → Walk
walk_cut parent k name next c d none =
    if parent then walk_end none name (iput k c d) else returns (some (some k, name, c, d))
walk_cut parent k name next c d (some (name', path)) =
    ilock (some k) c d >>= walk_locked parent k name' path (next path name') d

-- The loop of `_namei` from the inode `k` on, with `f` rounds to spare.
unfoldable pub walk : ℕ → Bool → ℕ → List ℕ → List ℕ → Icache → Disk → Walk
walk zero parent k path name c d = returns none
walk (suc f) parent k path name c d =
    walk_cut parent k name (λ path' name' j c' d'. walk f parent j path' name' c' d') c d
      (skipelem path)

-- `*path == '/'`
unfoldable pub is_absolute : List ℕ → Bool
is_absolute [] = false
is_absolute (x ∷ xs) = x == slash

-- ROOTDEV, and the inode of the root
abbrev pub root_dev : ℕ
root_dev = 1

-- `_namei`; `cwd` is the slot of the directory of the process. Each round takes an element of the path.
unfoldable pub namei_from : List ℕ → Bool → ℕ → Icache → Disk → Walk
namei_from path parent cwd c d =
    if is_absolute path
    then (iget root_dev 1 c >>= λ (k, c'). walk (suc (length path)) parent k path [] c' d)
    else walk (suc (length path)) parent cwd path [] (idup cwd c) d

unfoldable pub namei : List ℕ → ℕ → Icache → Disk → Walk
namei path cwd c d = namei_from path false cwd c d

pub nameiparent : List ℕ → ℕ → Icache → Disk → Walk
nameiparent path cwd c d = namei_from path true cwd c d
