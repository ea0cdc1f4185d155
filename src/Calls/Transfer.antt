-- ===== src/Calls/Transfer.antt =====
-- stati of xv6/fs.c, and filestat, fileread and filewrite of xv6/file.c for the file of an inode; for
-- the end of a pipe, fileread and filewrite call piperead and pipewrite, which are in Pipe.
use tom_cs.Base.{ℕ, ◌+◌, List, Option, none, some, length, update}
use tom_cs.Files.{File, fd_inode}
use tom_cs.Fs.Inode.{Inode}
use tom_cs.Fs.File.{Devices, readi, writei}
use tom_cs.Calls.{Run, ◌>>=◌, done, run, Store, lock, unlock}

-- `struct stat`
pub record Stat : Type 0 where
  pub dev : ℕ
  pub ino : ℕ
  pub type : ℕ
  pub nlink : ℕ
  pub size : ℕ

pub stati : Inode → Stat
stati ip = record { dev = ip.dev; ino = ip.inum; type = ip.type; nlink = ip.nlink; size = ip.size }

-- `none` is -1.
pub filestat : File → Store → Run (Option Stat × Store)
filestat f s = elim f.type [
  | fd_inode ↦ lock f.ip s >>= λ s1. unlock f.ip s1 >>= λ s2. done (some (stati (s1.0 f.ip)), s2)
  | _ ↦ done (none, s)
]

-- `if(r > 0) f->off += r`
unfoldable pub read_off : File → Option (List ℕ) → File
read_off f none = f
read_off f (some bs) = record f { off = f.off + length bs }

-- The branch of `fileread` for the file of an inode.
unfoldable pub read_inode : Devices → File → ℕ → Store → Run (Option (List ℕ) × File × Store)
read_inode devs f n s = lock f.ip s >>= λ (c, d). run (readi devs (c f.ip) f.off n d) >>= λ r.
    unlock f.ip (c, d) >>= λ s1. done (r, read_off f r, s1)

unfoldable pub write_off : File → Option ℕ → File
write_off f none = f
write_off f (some n) = record f { off = f.off + n }

-- The branch of `filewrite`.
unfoldable pub write_inode : Devices → File → (ℕ → ℕ) → ℕ → Store → Run (Option ℕ × File × Store)
write_inode devs f src n s = lock f.ip s >>= λ (c, d).
    run (writei devs (c f.ip) f.off n src d) >>= λ (r, ip, d').
    unlock f.ip (update c f.ip ip, d') >>= λ s1. done (r, write_off f r, s1)
