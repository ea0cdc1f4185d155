-- ===== src/Files/Scan.antt =====
-- The loop of `filealloc` in xv6/file.c.
use tom_cs.Base.{ℕ, zero, suc, ◌+◌, Finds, Finds-zero, Finds-suc}
use tom_cs.Files.{File, is_closed, filealloc_loop}

-- The index found is the first of a closed file, and if there is none, no file is closed.
pub filealloc_loop-Finds :
    (t : ℕ → File) (i n : ℕ) → Finds (λ j. is_closed (t j)) i n (filealloc_loop i n t)
unfolding filealloc_loop
filealloc_loop-Finds t i zero = Finds-zero (λ j. is_closed (t j)) i
filealloc_loop-Finds t i (suc n) =
    Finds-suc (λ j. is_closed (t j)) i n (filealloc_loop (i + 1) n t)
      (filealloc_loop-Finds t (i + 1) n)
