-- ===== src/Calls/Full.antt =====
-- sys_open of xv6/sysfile.c in a process that has all its descriptors in use.
use tom_cs.Base.{
  ℕ, ◌≡◌, ◌≢◌, ap, refl, true, List, Option, none, some, ◌==◌, arith, update, get_elem?, panics,
}
use tom_cs.Files.{File, fd_none, filealloc, filealloc_loop, fdalloc, fileclose, max_file}
use tom_cs.Files.Descriptors.{fdalloc-FdAllocs, FdAllocs}
use tom_cs.Fs.File.{Devices}
use tom_cs.Calls.{Store, done}
use tom_cs.Calls.Create.{open_fd, open_alloc, open_end, open_inode, sys_open}

-- No descriptor is left.
abbrev pub AllInUse : List (Option ℕ) → Type 0
AllInUse fds = (i : ℕ) → get_elem? fds i ≢ some none

no_fd :
    (f : ℕ) (fds : List (Option ℕ)) (r : Option (ℕ × List (Option ℕ)))
    → AllInUse fds
    → FdAllocs f 0 fds r
    → r ≡ none
no_fd f fds none full w = refl
no_fd f fds (some (fd, l)) full (n, at, same, (low, before)) = absurd (full n low)

-- A file that has just been allocated cannot be closed.
close_new :
    (i : ℕ) (t : ℕ → File)
    → fileclose i (update t i (record (t i) { type = fd_none; ref = 1 })) ≡ panics "fileclose"
unfolding fileclose
close_new i t = let here : (i == i) ≡ true = ground arith in rw here refl

alloc_at :
    (i : ℕ) (t : ℕ → File)
    → filealloc_loop 0 max_file t ≡ some i
    → filealloc t ≡ (some i, update t i (record (t i) { type = fd_none; ref = 1 }))
unfolding filealloc
alloc_at i t e =
    ap
      (λ o. elim o [
        | none ↦ (none, t)
        | some j ↦ (some j, update t j (record (t j) { type = fd_none; ref = 1 }))
      ])
      e

end_full :
    (mode k : ℕ) (t : ℕ → File) (fds : List (Option ℕ)) (s : Store) (i : ℕ)
    → AllInUse fds
    → filealloc_loop 0 max_file t ≡ some i
    → open_end mode t fds (some k, s) ≡ panics "fileclose"
unfolding open_end open_alloc open_fd
end_full mode k t fds s i full free =
    let none_left : fdalloc i 0 fds ≡ none =
      no_fd i fds (fdalloc i 0 fds) full (fdalloc-FdAllocs i 0 fds) in
    rw (alloc_at i t free, none_left, close_new i t) refl

-- If all descriptors of the process are in use, an open file can be allocated, and the inode behind
-- the path is found and may be opened in this mode, sys_open panics with "fileclose".
pub open_full :
    (devs : Devices) (path : List ℕ) (mode cwd k : ℕ) (t : ℕ → File) (fds : List (Option ℕ))
    (s s' : Store) (i : ℕ)
    → AllInUse fds
    → filealloc_loop 0 max_file t ≡ some i
    → open_inode devs path mode cwd s ≡ done (some k, s')
    → sys_open devs path mode cwd t fds s ≡ panics "fileclose"
unfolding sys_open
open_full devs path mode cwd k t fds s s' i full free found =
    rw (sys_open, found) (end_full mode k t fds s' i full free)
