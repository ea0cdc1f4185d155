-- ===== src/Files/Pipes.antt =====
-- `pipealloc` of xv6/pipe.c on the table of open files.
use tom_cs.Base.{
  ℕ, ◌<◌, ◌≡◌, ◌≢◌, ◌⊎◌, inl, inr, refl, ap, ◌∙◌, true, false, Option, none, some, arith, update,
  Outcome, returns, panics, ◌>>=◌,
}
use tom_cs.Base.Int.{pos}
use tom_cs.Kalloc.{page, Kmem, kalloc}
use tom_cs.Kalloc.Order.{IsValid}
use tom_cs.Kalloc.Safety.{Allocates, kalloc-Allocates}
use tom_cs.Files.{
  max_file, fd_pipe, File, filealloc, fileclose, discard, NewPipe, with_page, with_second,
  with_first, pipealloc,
}
use tom_cs.Files.Refs.{Counts, Allocs, filealloc-Allocs}

-- The ends of a new pipe at `i` and `j`.
pub record Ends (held : ℕ → ℕ) (t : ℕ → File) (i j a : ℕ) (t' : ℕ → File) : Type 0 where
  pub apart : i ≢ j
  pub first_free : held i ≡ 0
  pub second_free : held j ≡ 0
  pub first_type : (t' i).type ≡ fd_pipe
  pub second_type : (t' j).type ≡ fd_pipe
  pub first_pipe : (t' i).pipe ≡ a
  pub second_pipe : (t' j).pipe ≡ a
  pub reads : ((t' i).readable ≡ true) × ((t' i).writable ≡ false)
  pub writes : ((t' j).readable ≡ false) × ((t' j).writable ≡ true)
  pub counts : Counts (update (update held i 1) j 1) t'
  pub else_same : (k : ℕ) → k ≢ i → k ≢ j → t' k ≡ t k

abbrev pub Pipes : (ℕ → ℕ) → (ℕ → File) → Kmem → Outcome NewPipe → Type 0
Pipes held t m (returns (none, t', m')) =
    ((i : ℕ) → i < max_file → 0 < held i) × (t' ≡ t) × (m' ≡ m)
Pipes held t m (returns (some (i, j, a), t', m')) =
    Ends held t i j a t' × (kalloc (pos page) m ≡ returns (some a, m'))
Pipes held t m (panics e) =
    (e ≡ "fileclose")
    × (i : ℕ) × (i < max_file)
    × (held i ≡ 0)
    × (((j : ℕ) → j < max_file → j ≢ i → 0 < held j) ⊎ (kalloc (pos page) m ≡ returns (none, m)))

-- A new file without anything behind it cannot be closed.
discard_panics : (t : ℕ → File) (i : ℕ) → (t i).ref ≡ 1 → discard (some i) t ≡ panics "fileclose"
unfolding discard fileclose
discard_panics t i e = ground arith

module _ (held : ℕ → ℕ) (t : ℕ → File) (m : Kmem) (v : IsValid m) where
  page-Pipes :
      (i j : ℕ) (u : ℕ → File)
      → i < max_file
      → held i ≡ 0
      → i ≢ j
      → j < max_file
      → held j ≡ 0
      → Counts (update (update held i 1) j 1) u
      → ((k : ℕ) → k ≢ i → k ≢ j → u k ≡ t k)
      → (o : Outcome (Option ℕ × Kmem)) → kalloc (pos page) m ≡ o
      → Pipes held t m (o >>= with_page i j u)
  unfolding with_page
  page-Pipes i j u lt free apart ltj freej c same (panics e) k =
      let a = kalloc-Allocates page m refl (omega arith) v in absurd (rw k at a)
  page-Pipes i j u lt free apart ltj freej c same (returns (none, m')) k =
      let a = kalloc-Allocates page m refl (omega arith) v in
      let b : Allocates page m (returns (none, m')) = rw k at a in
      rw (discard_panics u i (ground (arith, c i lt)))
        (refl, i, lt, free, inr (k ∙ ap (λ x. returns (none, x)) b.1))
  page-Pipes i j u lt free apart ltj freej c same (returns (some a, m')) k = (
    record {
      apart = apart;
      first_free = free;
      second_free = freej;
      first_type = ground (arith, apart);
      second_type = ground (arith, apart);
      first_pipe = ground (arith, apart);
      second_pipe = ground (arith, apart);
      reads = (ground (arith, apart), ground (arith, apart));
      writes = (ground (arith, apart), ground (arith, apart));
      counts = λ x l. (ground (arith, c x l, apart), ground (arith, c x l, apart));
      else_same = λ x di dj. ground (arith, same x di dj);
    },
    k,
  )

  second-Pipes :
      (i : ℕ) (u : ℕ → File) (r : Option ℕ × (ℕ → File))
      → i < max_file
      → held i ≡ 0
      → Counts (update held i 1) u
      → ((k : ℕ) → k ≢ i → u k ≡ t k)
      → Allocs (update held i 1) u r
      → Pipes held t m (with_second m i r)
  unfolding with_second
  second-Pipes i u (none, u') lt free c same (full, e) =
      rw (discard_panics u' i (ground (arith, c i lt, e)))
        (refl, i, lt, free, inl (λ j l d. ground (arith, full j l)))
  second-Pipes i u (some j, u') lt free c same (ltj, freej, before, type, cj, samej) =
      (page-Pipes i j u' lt free (λ e. ground arith) ltj (ground arith) cj
        (λ k di dj. same_both k di dj) (kalloc (pos page) m) refl)
    where
      same_both : (k : ℕ) → k ≢ i → k ≢ j → u' k ≡ t k
      same_both k di dj = samej k dj ∙ same k di

  first-Pipes : (r : Option ℕ × (ℕ → File)) → Allocs held t r → Pipes held t m (with_first m r)
  unfolding with_first discard
  first-Pipes (none, u) (full, e) = rw e (full, refl, refl)
  first-Pipes (some i, u) (lt, free, before, type, c, same) =
      second-Pipes i u (filealloc u) lt free c same (filealloc-Allocs (update held i 1) u c)

  -- On a table whose counts are right and a valid free list, `pipealloc` gives the ends of a new pipe,
  -- or fails if every file has a reference; if only one has none or there is no page, it panics.
  pub pipealloc-Pipes : Counts held t → Pipes held t m (pipealloc t m)
  unfolding pipealloc
  pipealloc-Pipes c = first-Pipes (filealloc t) (filealloc-Allocs held t c)
