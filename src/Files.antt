-- ===== src/Files.antt =====
-- xv6/file.c, pipealloc of xv6/pipe.c and the descriptors of xv6/sysfile.c: the table of open files
-- with their reference counts. A file pointer is an index into `file`, a pipe is its page and an
-- inode a number. Each call holds `file_table_lock` from first to last and is one step.
pub mod Scan
pub mod Refs
pub mod Pipes
pub mod Descriptors
mod Tests
use tom_cs.Base.{
  ℕ, zero, suc, ◌+◌, ◌-◌, ◌<◌, Bool, true, false, ◌&&◌, ◌||◌, not, List, [], ◌∷◌, Option, none,
  some, ◌==◌, ltb, if◌then◌else◌, Outcome, returns, panics, ◌>>=◌, update, get_elem?, set,
}
use tom_cs.Base.Int.{ℤ, pos, negsuc}
use tom_cs.Kalloc.{page, Kmem, kalloc, kfree}

-- NFILE
abbrev pub max_file : ℕ
max_file = 100

pub data FileType : Type 0 where
  fd_closed fd_none fd_pipe fd_inode : FileType

-- `struct file`
pub record File : Type 0 where
  pub type : FileType
  pub ref : ℕ
  pub readable : Bool
  pub writable : Bool
  pub pipe : ℕ
  pub ip : ℕ
  pub off : ℕ

abbrev pub is_closed : File → Bool
is_closed f = elim f.type [ fd_closed ↦ true | _ ↦ false ]

-- The loop of `filealloc` from the index `i` on, with `n` rounds left.
unfoldable pub filealloc_loop : ℕ → ℕ → (ℕ → File) → Option ℕ
filealloc_loop i zero t = none
filealloc_loop i (suc n) t =
    let rest = filealloc_loop (i + 1) n t in if is_closed (t i) then some i else rest

unfoldable pub filealloc : (ℕ → File) → Option ℕ × (ℕ → File)
filealloc t = elim (filealloc_loop 0 max_file t) [
  | none ↦ (none, t)
  | some i ↦ (some i, update t i (record (t i) { type = fd_none; ref = 1 }))
]

pub filedup : ℕ → (ℕ → File) → Outcome (ℕ → File)
filedup i t =
    if ltb (t i).ref 1 || is_closed (t i)
    then panics "filedup"
    else returns (update t i (record (t i) { ref = (t i).ref + 1 }))

-- What a call of `fileclose` gives up: nothing, an end of a pipe, or an inode.
pub data Given : Type 0 where
  nothing : Given
  pipe_end : ℕ → Bool → Given
  inode : ℕ → Given

-- `fileclose` after the last reference, for `ff`.
abbrev pub give_up : File → Outcome Given
give_up ff = elim ff.type [
  | fd_pipe ↦ returns (pipe_end ff.pipe ff.writable)
  | fd_inode ↦ returns (inode ff.ip)
  | _ ↦ panics "fileclose"
]

-- `fileclose`; `pipeclose` and `iput` are what it then calls.
unfoldable pub fileclose : ℕ → (ℕ → File) → Outcome (Given × (ℕ → File))
fileclose i t =
    if ltb (t i).ref 1 || is_closed (t i)
    then panics "fileclose"
    else (if ltb 0 ((t i).ref - 1)
        then returns (nothing, update t i (record (t i) { ref = (t i).ref - 1 }))
        else (give_up (t i) >>= λ g.
            returns (g, update t i (record (t i) { ref = 0; type = fd_closed }))))

-- `pipealloc` with both files: the ends of the pipe at `p`.
abbrev pub open_ends : ℕ → ℕ → ℕ → (ℕ → File) → ℕ → File
open_ends i j p t =
    let t' =
      update t i (record (t i) { type = fd_pipe; readable = true; writable = false; pipe = p }) in
    update t' j (record (t' j) { type = fd_pipe; readable = false; writable = true; pipe = p })

-- `(*f)->type = FD_NONE; fileclose(*f);` if there is a file
pub discard : Option ℕ → (ℕ → File) → Outcome (ℕ → File)
discard none t = returns t
discard (some i) t =
    fileclose i (update t i (record (t i) { type = fd_none })) >>= λ (g, t'). returns t'

-- The part of `pipealloc` from `bad` on, where no page was allocated.
abbrev pub bad : Option ℕ → Option ℕ → (ℕ → File) → Outcome (ℕ → File)
bad f0 f1 t = discard f0 t >>= discard f1

abbrev pub NewPipe : Type 0
NewPipe = Option (ℕ × ℕ × ℕ) × (ℕ → File) × Kmem

-- `pipealloc` behind the call of `kalloc`, behind the second call of `filealloc`, and behind the first:
-- the two files and the page of the pipe, or -1.
pub with_page : ℕ → ℕ → (ℕ → File) → Option ℕ × Kmem → Outcome NewPipe
with_page i j t (none, m) = bad (some i) (some j) t >>= λ t'. returns (none, t', m)
with_page i j t (some a, m) = returns (some (i, j, a), open_ends i j a t, m)

pub with_second : Kmem → ℕ → Option ℕ × (ℕ → File) → Outcome NewPipe
with_second m i (none, t) = bad (some i) none t >>= λ t'. returns (none, t', m)
with_second m i (some j, t) = kalloc (pos page) m >>= with_page i j t

pub with_first : Kmem → Option ℕ × (ℕ → File) → Outcome NewPipe
with_first m (none, t) = bad none none t >>= λ t'. returns (none, t', m)
with_first m (some i, t) = with_second m i (filealloc t)

pub pipealloc : (ℕ → File) → Kmem → Outcome NewPipe
pipealloc t m = with_first m (filealloc t)

-- `fdalloc`, over the descriptors from `fd` on.
unfoldable pub fdalloc : ℕ → ℕ → List (Option ℕ) → Option (ℕ × List (Option ℕ))
fdalloc f fd [] = none
fdalloc f fd (o ∷ os) =
    let rest = fdalloc f (fd + 1) os in
    elim o [
      | none ↦ some (fd, some f ∷ os)
      | some g ↦ (elim rest [ none ↦ none | some (d, l) ↦ some (d, some g ∷ l) ])
    ]

-- `argfd`: the file of a descriptor; a number below 0 or from NOFILE on is none.
pub argfd : ℕ → List (Option ℕ) → Option ℕ
argfd fd ofile = elim (get_elem? ofile fd) [ none ↦ none | some f ↦ f ]

pub sys_dup : ℕ → List (Option ℕ) → (ℕ → File) → Outcome (ℤ × List (Option ℕ) × (ℕ → File))
sys_dup fd ofile t = elim (argfd fd ofile) [
  | none ↦ returns (negsuc 0, ofile, t)
  | some f ↦ elim (fdalloc f 0 ofile) [
    | none ↦ returns (negsuc 0, ofile, t)
    | some (d, l) ↦ filedup f t >>= λ t'. returns (pos d, l, t')
  ]
]

pub sys_close :
    ℕ → List (Option ℕ) → (ℕ → File) → Outcome (ℤ × List (Option ℕ) × Given × (ℕ → File))
sys_close fd ofile t = elim (argfd fd ofile) [
  | none ↦ returns (negsuc 0, ofile, nothing, t)
  | some f ↦ fileclose f t >>= λ (g, t'). returns (pos 0, set ofile fd none, g, t')
]
