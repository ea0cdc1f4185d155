-- ===== src/Files/Tests.antt =====
-- Runs of the models of xv6/file.c at concrete tables.
use tom_cs.Base.{ℕ, ◌≡◌, ◌≢◌, refl, true, false, [], ◌∷◌, none, some, update, arith, returns}
use tom_cs.Kalloc.{run, Kmem}
use tom_cs.Files.{fd_closed, fd_inode, File, fileclose, inode, pipealloc, sys_dup, argfd}
use tom_cs.Files.Refs.{Counts, fileclose-Counts}
use tom_cs.Files.Pipes.{Pipes, pipealloc-Pipes}
use tom_cs.Files.Descriptors.{Dups, sys_dup-Dups}

abbrev shut : File
shut = record {
  type = fd_closed;
  ref = 0;
  readable = false;
  writable = false;
  pipe = 0;
  ip = 0;
  off = 0;
}

-- One file is open, and one reference to it is held.
abbrev one_open : ℕ → File
one_open = update (λ i. shut) 0 (record shut { type = fd_inode; ref = 1; readable = true; ip = 5 })

abbrev one_held : ℕ → ℕ
one_held = update (λ i. 0) 0 1

one_open-Counts : Counts one_held one_open
one_open-Counts i lt = (ground arith, ground arith)

abbrev memory : Kmem
memory = record { freelist = run 28672 8192 ∷ []; byte = λ x. x }

fileclose-Counts_example :
    (t' : ℕ → File) × (fileclose 0 one_open ≡ returns (inode 5, t'))
    × Counts (update one_held 0 0) t'
    × ((j : ℕ) → j ≢ 0 → t' j ≡ one_open j)
fileclose-Counts_example =
    fileclose-Counts one_held one_open one_open-Counts 0 (omega arith) (omega arith) cc

pipealloc-Pipes_example : Pipes one_held one_open memory (pipealloc one_open memory)
pipealloc-Pipes_example = pipealloc-Pipes one_held one_open memory (omega arith) one_open-Counts

sys_dup-Dups_example :
    Dups one_held one_open (some 0 ∷ none ∷ []) 0 (sys_dup 0 (some 0 ∷ none ∷ []) one_open)
unfolding argfd
sys_dup-Dups_example =
    sys_dup-Dups one_held one_open one_open-Counts 0 (omega arith) (omega arith) 0
      (some 0 ∷ none ∷ []) refl
