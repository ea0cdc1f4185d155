-- ===== src/Calls.antt =====
-- xv6/sysfile.c and the inode files of xv6/file.c, on Fs and Files: link, unlink, create, open, mknod,
-- mkdir and chdir behind the fetch of their arguments, filestat, fileread and filewrite. A call is one
-- run, which stops where `ilock` would sleep.
pub mod Create
pub mod Transfer
pub mod Empty
pub mod Full
pub mod Reread
mod Tests
use Prim.Native.String.{String}
use tom_cs.Base.{
  ℕ, zero, suc, ◌+◌, ◌-◌, ◌*◌, ◌/◌, ◌%◌, ◌^◌, Bool, true, false, not, ◌&&◌, ◌||◌, List, [], Option,
  none, some, leb, ltb, ◌==◌, if◌then◌else◌, length, update, Outcome, returns, panics,
}
use tom_cs.Base.Int.{pos}
use tom_cs.Files.{File, fd_inode, filealloc, fdalloc, fileclose}
use tom_cs.Fs.Disk.{Disk}
use tom_cs.Fs.Inode.{Inode, type_dir, type_dev, iupdate}
use tom_cs.Fs.File.{Devices, readi, writei}
use tom_cs.Fs.Icache.{Icache, ilock, iunlock, iput, iunlockput, ialloc}
use tom_cs.Fs.Dir.{
  namecmp, is_zero, dirlookup, dirlink, dirent_size, inum_of, dirent_empty, is_count,
}
use tom_cs.Fs.Path.{namei, nameiparent, name_byte}

-- What a call comes to: `none` where it sleeps on a lock.
abbrev pub Run {ℓ} : Type ℓ → Type ℓ
Run A = Outcome (Option A)

infixl 5 ◌>>=◌
abbrev pub ◌>>=◌ {ℓ κ} : {A : Type ℓ} {B : Type κ} → Run A → (A → Run B) → Run B
returns (some a) >>= f = f a
returns none >>= f = returns none
panics e >>= f = panics e

abbrev pub done {ℓ} : {A : Type ℓ} → A → Run A
done a = returns (some a)

-- A routine that does not sleep.
abbrev pub run {ℓ} : {A : Type ℓ} → Outcome A → Run A
run (returns a) = returns (some a)
run (panics e) = panics e

-- The inode cache and the disk.
abbrev pub Store : Type 0
Store = Icache × Disk

abbrev pub lock : ℕ → Store → Run Store
lock k (c, d) = ilock (some k) c d >>= λ c'. done (c', d)

abbrev pub unlock : ℕ → Store → Run Store
unlock k (c, d) = run (iunlock (some k) c) >>= λ c'. done (c', d)

abbrev pub unlock_put : ℕ → Store → Run Store
unlock_put k (c, d) = run (iunlockput k c d)

abbrev pub put : ℕ → Store → Run Store
put k (c, d) = run (iput k c d)

-- `ip->nlink = n; iupdate(ip);`, where `nlink` is a short.
abbrev pub set_nlink : ℕ → ℕ → Store → Store
set_nlink k n (c, d) = let ip = record (c k) { nlink = n % 2 ^ 16 } in (update c k ip, iupdate ip d)

abbrev pub link_up : ℕ → Store → Store
link_up k s = set_nlink k ((s.0 k).nlink + 1) s

abbrev pub link_down : ℕ → Store → Store
link_down k s = set_nlink k ((s.0 k).nlink + 2 ^ 16 - 1) s

-- From `bad` on, with the directory if it was found.
pub link_bad : ℕ → Option ℕ → Store → Run (Bool × Store)
link_bad k none s = lock k s >>= λ s1. unlock_put k (link_down k s1) >>= λ s2. done (false, s2)
link_bad k (some j) s = unlock_put j s >>= λ s0.
    lock k s0 >>= λ s1. unlock_put k (link_down k s1) >>= λ s2. done (false, s2)

-- `sys_link` behind `nameiparent`, for the inode in the slot `k`.
pub link_in : Devices → ℕ → Option ℕ → List ℕ → Store → Run (Bool × Store)
link_in devs k none name s = link_bad k none s
link_in devs k (some j) name s = lock j s >>= λ (c, d).
    if not ((c j).dev == (c k).dev)
    then link_bad k (some j) (c, d)
    else run (dirlink devs j (name_byte name) (c k).inum c d) >>= λ (ok, c1, d1).
        if ok
        then (unlock_put j (c1, d1) >>= λ s2. put k s2 >>= λ s3. done (true, s3))
        else link_bad k (some j) (c1, d1)

-- `sys_link` behind `namei`.
pub link_from : Devices → List ℕ → ℕ → Option ℕ → Store → Run (Bool × Store)
link_from devs new cwd none s = done (false, s)
link_from devs new cwd (some k) s = lock k s >>= λ s1.
    if (s1.0 k).type == type_dir
    then (unlock_put k s1 >>= λ s2. done (false, s2))
    else unlock k (link_up k s1) >>= λ (c, d).
        nameiparent new cwd c d >>= λ (o, name, c', d'). link_in devs k o name (c', d')

-- `true` is 0, and `false` is -1.
pub sys_link : Devices → List ℕ → List ℕ → ℕ → Store → Run (Bool × Store)
sys_link devs old new cwd (c, d) =
    namei old cwd c d >>= λ (o, name, c', d'). link_from devs new cwd o (c', d')

-- What `isdirempty` does with an entry that it has read.
pub no_entry : Outcome Bool → Outcome (Option (List ℕ)) → Outcome Bool
no_entry rest (panics e) = panics e
no_entry rest (returns none) = panics "isdirempty: readi"
no_entry rest (returns (some bs)) =
    if length bs == dirent_size
    then (if inum_of bs == 0 then rest else returns false)
    else panics "isdirempty: readi"

-- The loop of `isdirempty` from `off` on.
pub isdirempty_loop : ℕ → Devices → Inode → ℕ → Disk → Outcome Bool
isdirempty_loop zero devs ip off d = returns true
isdirempty_loop (suc f) devs ip off d =
    let rest = isdirempty_loop f devs ip (off + dirent_size) d in
    if ltb off ip.size then no_entry rest (readi devs ip off dirent_size d) else returns true

-- A directory with no entry but the first two, "." and "..".
pub isdirempty : Devices → Inode → Disk → Outcome Bool
isdirempty devs ip d = isdirempty_loop (ip.size / dirent_size + 1) devs ip (2 * dirent_size) d

-- ".", and ".."
abbrev pub dot : ℕ → ℕ
dot j = if j == 0 then 46 else 0

abbrev pub dot_dot : ℕ → ℕ
dot_dot j = if ltb j 2 then 46 else 0

-- `ip->nlink < 1`, of a short.
abbrev pub is_unlinked : Inode → Bool
is_unlinked ip = ip.nlink == 0 || leb (2 ^ 15) ip.nlink

-- The end of `sys_unlink`: the entry at `off` is cleared, and the inode has a link less.
pub clear_entry : Devices → ℕ → ℕ → ℕ → Store → Run (Bool × Store)
clear_entry devs j k off (c, d) =
    run (writei devs (c j) off dirent_size (λ i. 0) d) >>= λ (n, ip, d').
    if not (is_count n)
    then panics "unlink: writei"
    else unlock_put j (update c j ip, d') >>= λ s1.
        unlock_put k (link_down k s1) >>= λ s2. done (true, s2)

-- `sys_unlink` behind `dirlookup`, in the directory `j`.
pub unlink_entry : Devices → ℕ → Option (ℕ × ℕ) → Store → Run (Bool × Store)
unlink_entry devs j none s = unlock_put j s >>= λ s1. done (false, s1)
unlink_entry devs j (some (off, k)) s = lock k s >>= λ (c, d).
    if is_unlinked (c k)
    then panics "unlink: nlink < 1"
    else run (if (c k).type == type_dir then isdirempty devs (c k) d else returns true) >>= λ empty.
        if empty
        then clear_entry devs j k off (c, d)
        else unlock_put k (c, d) >>= λ s1. unlock_put j s1 >>= λ s2. done (false, s2)

pub unlink_in : Devices → Option ℕ → List ℕ → Store → Run (Bool × Store)
unlink_in devs none name s = done (false, s)
unlink_in devs (some j) name s = lock j s >>= λ (c, d).
    if is_zero (namecmp (name_byte name) dot) || is_zero (namecmp (name_byte name) dot_dot)
    then (unlock_put j (c, d) >>= λ s1. done (false, s1))
    else run (dirlookup (c j) (name_byte name) c d) >>= λ (found, c').
        unlink_entry devs j found (c', d)

pub sys_unlink : Devices → List ℕ → ℕ → Store → Run (Bool × Store)
sys_unlink devs path cwd (c, d) =
    nameiparent path cwd c d >>= λ (o, name, c', d'). unlink_in devs o name (c', d')
