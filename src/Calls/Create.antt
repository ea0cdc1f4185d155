-- ===== src/Calls/Create.antt =====
-- create of xv6/sysfile.c, and the calls that make or open a file.
use Prim.Native.Nat.{bit_and}
use tom_cs.Base.{
  ℕ, ◌%◌, ◌^◌, Bool, true, false, not, ◌&&◌, ◌||◌, List, Option, none, some, ◌==◌, if◌then◌else◌,
  update, panics,
}
use tom_cs.Files.{File, fd_inode, filealloc, fdalloc, fileclose}
use tom_cs.Fs.Inode.{type_dir, type_dev, iupdate}
use tom_cs.Fs.File.{Devices}
use tom_cs.Fs.Icache.{ialloc}
use tom_cs.Fs.Dir.{dirlookup, dirlink}
use tom_cs.Fs.Path.{namei, nameiparent, name_byte}
use tom_cs.Calls.{
  Run, ◌>>=◌, done, run, Store, lock, unlock, unlock_put, put, link_up, dot, dot_dot,
}

-- T_FILE
abbrev pub type_file : ℕ
type_file = 2

-- A new file: its type and, for a device, its numbers.
pub record Kind : Type 0 where
  pub type : ℕ
  pub major : ℕ
  pub minor : ℕ

abbrev pub Created : Type 0
Created = Run (Option ℕ × Store)

-- `create` of a name that is there, in the slot `k`.
pub create_found : Kind → ℕ → Store → Created
create_found t k s = lock k s >>= λ (c, d).
    if not ((c k).type == t.type) || not ((c k).major == t.major) || not ((c k).minor == t.minor)
    then (unlock_put k (c, d) >>= λ s1. done (none, s1))
    else done (some k, (c, d))

-- The entries "." and ".." of a new directory.
pub create_dots : Devices → ℕ → ℕ → Store → Created
create_dots devs j k s =
    let s1 = link_up j s in
    run (dirlink devs k dot (s1.0 k).inum s1.0 s1.1) >>= λ (ok, c2, d2).
    if not ok
    then panics "create dots"
    else run (dirlink devs k dot_dot (c2 j).inum c2 d2) >>= λ (ok', c3, d3).
        if not ok' then panics "create dots" else done (some k, (c3, d3))

-- `create` behind `ialloc` and `ilock`.
pub create_new : Devices → Kind → ℕ → List ℕ → ℕ → Store → Created
create_new devs t j name k (c, d) =
    let ip = record (c k) { major = t.major; minor = t.minor; nlink = 1 } in
    run (dirlink devs j (name_byte name) ip.inum (update c k ip) (iupdate ip d)) >>= λ (ok, c1, d1).
    if not ok
    then (unlock_put k (update c1 k (record (c1 k) { nlink = 0 }), d1) >>= λ s2.
        unlock_put j s2 >>= λ s3. done (none, s3))
    else (if t.type == type_dir then create_dots devs j k (c1, d1) else done (some k, (c1, d1)))
      >>= λ (o, s2). unlock_put j s2 >>= λ s3. done (o, s3)

pub create_alloc : Devices → Kind → ℕ → List ℕ → Store → Created
create_alloc devs t j name (c, d) = run (ialloc (c j).dev t.type c d) >>= λ (k, c1, d1).
    lock k (c1, d1) >>= λ s2. create_new devs t j name k s2

-- `create` behind `dirlookup`, which is called only if the file may exist.
pub create_in : Devices → Kind → ℕ → List ℕ → Option (ℕ × ℕ) → Store → Created
create_in devs t j name none s = create_alloc devs t j name s
create_in devs t j name (some (off, k)) s = unlock_put j s >>= λ s1. create_found t k s1

pub create_from : Devices → Kind → Bool → Option ℕ → List ℕ → Store → Created
create_from devs t may_exist none name s = done (none, s)
create_from devs t may_exist (some j) name s = lock j s >>= λ (c, d).
    if may_exist
    then (run (dirlookup (c j) (name_byte name) c d) >>= λ (found, c1).
        create_in devs t j name found (c1, d))
    else create_in devs t j name none (c, d)

pub create : Devices → List ℕ → Bool → Kind → ℕ → Store → Created
create devs path may_exist t cwd (c, d) =
    nameiparent path cwd c d >>= λ (o, name, c1, d1). create_from devs t may_exist o name (c1, d1)

-- The end of `sys_mknod` and `sys_mkdir`.
pub create_end : Option ℕ × Store → Run (Bool × Store)
create_end (none, s) = done (false, s)
create_end (some k, s) = unlock_put k s >>= λ s1. done (true, s1)

pub sys_mknod : Devices → List ℕ → ℕ → ℕ → ℕ → Store → Run (Bool × Store)
sys_mknod devs path major minor cwd s =
    create devs path false
      (record { type = type_dev; major = major % 2 ^ 16; minor = minor % 2 ^ 16 }) cwd s
    >>= create_end

pub sys_mkdir : Devices → List ℕ → ℕ → Store → Run (Bool × Store)
sys_mkdir devs path cwd s =
    create devs path false (record { type = type_dir; major = 0; minor = 0 }) cwd s >>= create_end

-- `sys_chdir`: the new slot of the current directory.
pub chdir_to : ℕ → Option ℕ → Store → Run (Bool × ℕ × Store)
chdir_to cwd none s = done (false, cwd, s)
chdir_to cwd (some k) s = lock k s >>= λ (c, d).
    if not ((c k).type == type_dir)
    then (unlock_put k (c, d) >>= λ s1. done (false, cwd, s1))
    else unlock k (c, d) >>= λ s1. put cwd s1 >>= λ s2. done (true, k, s2)

pub sys_chdir : List ℕ → ℕ → Store → Run (Bool × ℕ × Store)
sys_chdir path cwd (c, d) = namei path cwd c d >>= λ (o, name, c1, d1). chdir_to cwd o (c1, d1)

-- O_WRONLY, O_RDWR and O_CREATE
abbrev pub has_flag : ℕ → ℕ → Bool
has_flag flag mode = not (bit_and mode flag == 0)

abbrev pub for_write : ℕ → Bool
for_write mode = has_flag 1 mode || has_flag 2 mode

-- The inode that `sys_open` opens, locked.
unfoldable pub open_found : ℕ → Option ℕ → Store → Created
open_found mode none s = done (none, s)
open_found mode (some k) s = lock k s >>= λ (c, d).
    if (c k).type == type_dir && for_write mode
    then (unlock_put k (c, d) >>= λ s1. done (none, s1))
    else done (some k, (c, d))

unfoldable pub open_inode : Devices → List ℕ → ℕ → ℕ → Store → Created
open_inode devs path mode cwd (c, d) =
    if has_flag 512 mode
    then create devs path true (record { type = type_file; major = 0; minor = 0 }) cwd (c, d)
    else namei path cwd c d >>= λ (o, name, c1, d1). open_found mode o (c1, d1)

-- The table of open files and the descriptors of the process.
abbrev pub Opened : Type 0
Opened = Run (Option ℕ × (ℕ → File) × List (Option ℕ) × Store)

-- A file with its descriptor: `f->type = FD_INODE` and the fields behind it.
abbrev pub open_file : ℕ → ℕ → ℕ → (ℕ → File) → ℕ → File
open_file mode k i t = update t i (record (t i) {
  type = fd_inode;
  ip = k;
  off = 0;
  readable = not (has_flag 1 mode);
  writable = for_write mode;
})

unfoldable pub open_fd :
    ℕ → ℕ → ℕ → List (Option ℕ) → Option (ℕ × List (Option ℕ)) → (ℕ → File) → Store → Opened
open_fd mode k i fds none t s =
    run (fileclose i t) >>= λ (given, t'). unlock_put k s >>= λ s1. done (none, t', fds, s1)
open_fd mode k i fds (some (fd, fds')) t s =
    unlock k s >>= λ s1. done (some fd, open_file mode k i t, fds', s1)

unfoldable pub open_alloc : ℕ → ℕ → List (Option ℕ) → Option ℕ × (ℕ → File) → Store → Opened
open_alloc mode k fds (none, t) s = unlock_put k s >>= λ s1. done (none, t, fds, s1)
open_alloc mode k fds (some i, t) s = open_fd mode k i fds (fdalloc i 0 fds) t s

unfoldable pub open_end : ℕ → (ℕ → File) → List (Option ℕ) → Option ℕ × Store → Opened
open_end mode t fds (none, s) = done (none, t, fds, s)
open_end mode t fds (some k, s) = open_alloc mode k fds (filealloc t) s

unfoldable pub sys_open : Devices → List ℕ → ℕ → ℕ → (ℕ → File) → List (Option ℕ) → Store → Opened
sys_open devs path mode cwd t fds s = open_inode devs path mode cwd s >>= open_end mode t fds
