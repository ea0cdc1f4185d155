-- ===== src/Proc/Fork.antt =====
-- `fork`: the ways that `copyproc` of xv6/proc.c can end.
use tom_cs.Base.{
  Finds, ℕ, ◌+◌, ◌<◌, ◌≡◌, ◌≢◌, inl, inr, refl, true, false, Option, none, some, update, arith,
  Option-cases, Outcome, returns, panics, ◌>>=◌, Outcome-cases,
}
use Prim.Native.String.{String}
use tom_cs.Base.Int.{ℤ, pos, negsuc, to_int}
use tom_cs.CString.{memmove}
use tom_cs.Kalloc.{page, Kmem, kalloc, kfree}
use tom_cs.Proc.State.{max_proc, embryo, runnable, Proc, is_unused, first, Table}
use tom_cs.Proc.Loops.{first-Finds}
use tom_cs.Proc.{
  allocproc, copy_files, with_memory, with_stack, with_slot, copyproc, start_child, fork,
}

-- The table once `allocproc` has taken the slot `i`, and the process there with a stack.
abbrev pub taken : ℕ → Table → Table
taken i t = record {
  proc = update t.proc i (record (t.proc i) { state = embryo; pid = t.nextpid });
  nextpid = t.nextpid + 1;
}

abbrev pub stacked : ℕ → ℕ → ℕ → Table → Table
stacked cp i k t =
    let u = taken i t in
    record u {
      proc =
          update u.proc i (record (u.proc i) { kstack = k; parent = some cp; sz = (t.proc cp).sz });
    }

abbrev pub Takes : ℕ → Table → Type 0
Takes i t =
    (i < max_proc)
    × (is_unused (t.proc i) ≡ true)
    × ((j : ℕ) → j < i → is_unused (t.proc j) ≡ false)

-- The process that `fork` makes of the process `p` in the slot of `q`, with its stack and memory.
pub record Child (cp nextpid : ℕ) (p q : Proc) (k a : ℕ) (np : Proc) : Type 0 where
  pub is_runnable : np.state ≡ runnable
  pub parent : np.parent ≡ some cp
  pub pid : np.pid ≡ nextpid
  pub sz : np.sz ≡ p.sz
  pub mem : np.mem ≡ a
  pub kstack : np.kstack ≡ k
  pub cwd : np.cwd ≡ p.cwd
  pub ofile : np.ofile ≡ copy_files p.ofile q.ofile
  pub killed : np.killed ≡ q.killed

-- Each end with what it made of the table and the memory.
pub data Forks (cp : ℕ) (t : Table) (m : Kmem) : Outcome (ℤ × Table × Kmem) → Type 0 where
  no_slot :
      ((j : ℕ) → j < max_proc → is_unused (t.proc j) ≡ false)
      → Forks cp t m (returns (negsuc 0, t, m))
  no_stack :
      (i : ℕ) (m' : Kmem) (t' : Table)
      → Takes i t
      → kalloc (pos page) m ≡ returns (none, m')
      → is_unused (t'.proc i) ≡ true
      → ((j : ℕ) → j ≢ i → t'.proc j ≡ t.proc j)
      → Forks cp t m (returns (negsuc 0, t', m'))
  no_memory :
      (i k : ℕ) (m1 m2 m' : Kmem) (t' : Table)
      → Takes i t
      → kalloc (pos page) m ≡ returns (some k, m1)
      → kalloc (to_int (t.proc cp).sz) m1 ≡ returns (none, m2)
      → kfree k (pos page) m2 ≡ returns m'
      → is_unused (t'.proc i) ≡ true
      → ((j : ℕ) → j ≢ i → t'.proc j ≡ t.proc j)
      → Forks cp t m (returns (negsuc 0, t', m'))
  born :
      (i k a pid : ℕ) (m1 m2 : Kmem) (t' : Table)
      → Takes i t
      → kalloc (pos page) m ≡ returns (some k, m1)
      → kalloc (to_int (t.proc cp).sz) m1 ≡ returns (some a, m2)
      → pid ≡ t.nextpid
      → Child cp t.nextpid (t.proc cp) (t.proc i) k a (t'.proc i)
      → ((j : ℕ) → j ≢ i → t'.proc j ≡ t.proc j)
      → Forks cp t m (
          returns
            (pos pid, t', record m2 { byte = memmove a (t.proc cp).mem (t.proc cp).sz m2.byte }))
  stack_panics : (e : String) → kalloc (pos page) m ≡ panics e → Forks cp t m (panics e)
  memory_panics :
      (e : String) (k : ℕ) (m1 : Kmem)
      → kalloc (pos page) m ≡ returns (some k, m1)
      → kalloc (to_int (t.proc cp).sz) m1 ≡ panics e
      → Forks cp t m (panics e)
  free_panics :
      (e : String) (k : ℕ) (m1 m2 : Kmem)
      → kalloc (pos page) m ≡ returns (some k, m1)
      → kalloc (to_int (t.proc cp).sz) m1 ≡ returns (none, m2)
      → kfree k (pos page) m2 ≡ panics e
      → Forks cp t m (panics e)

module _ (cp : ℕ) (t : Table) (m : Kmem) (used : is_unused (t.proc cp) ≡ false) where
  allocproc-none : first is_unused 0 max_proc t.proc ≡ none → allocproc t ≡ (none, t)
  unfolding allocproc
  allocproc-none e = rw (allocproc, e) refl

  allocproc-some :
      (i : ℕ) → first is_unused 0 max_proc t.proc ≡ some i → allocproc t ≡ (some i, taken i t)
  unfolding allocproc
  allocproc-some i e = rw (allocproc, e) refl

  fork-no_slot : first is_unused 0 max_proc t.proc ≡ none → fork cp t m ≡ returns (negsuc 0, t, m)
  unfolding fork copyproc with_slot start_child
  fork-no_slot e = rw (fork, copyproc, allocproc-none e) refl

  fork-slot :
      (i : ℕ)
      → first is_unused 0 max_proc t.proc ≡ some i
      → fork cp t m ≡ ((kalloc (pos page) m >>= with_stack cp i (taken i t)) >>= start_child)
  unfolding fork copyproc with_slot
  fork-slot i e = rw (fork, copyproc, allocproc-some i e) refl

  module _ (i : ℕ) (s : Takes i t) where
    apart : cp ≢ i
    apart e = ground arith

    taken-cp : (taken i t).proc cp ≡ t.proc cp
    taken-cp = ground (arith, apart)

    stacked-cp : (k : ℕ) → (stacked cp i k t).proc cp ≡ t.proc cp
    stacked-cp k = ground (arith, apart)

    module _ (k : ℕ) (m1 : Kmem) (e : kalloc (pos page) m ≡ returns (some k, m1)) where
      fork-memory :
          (r : Option ℕ) (m2 : Kmem)
          → kalloc (to_int (t.proc cp).sz) m1 ≡ returns (r, m2)
          → Forks cp t m (with_memory cp i k (stacked cp i k t) (r, m2) >>= start_child)
      unfolding with_memory start_child
      fork-memory none m2 f = elim (Outcome-cases (kfree k (pos page) m2)) [
        | inr (x, g) ↦ rw g (free_panics x k m1 m2 e f g)
        | inl (m', g) ↦ rw g (no_memory i k m1 m2 m' _ s e f g (ground arith) (λ j d. ground arith))
      ]
      fork-memory (some a) m2 f = rw (stacked-cp k) (
          born i k a _ m1 m2 _ s e f (ground arith)
            (record {
              is_runnable = ground arith;
              parent = ground arith;
              pid = ground arith;
              sz = ground (arith, apart);
              mem = ground arith;
              kstack = ground arith;
              cwd = ground arith;
              ofile = ground arith;
              killed = ground arith;
            })
            (λ j d. ground arith))

      fork-stack : Forks cp t m (with_stack cp i (taken i t) (some k, m1) >>= start_child)
      unfolding with_stack
      fork-stack = elim (Outcome-cases (kalloc (to_int (t.proc cp).sz) m1)) [
        | inr (x, g) ↦ rw (taken-cp, g) (memory_panics x k m1 e g)
        | inl ((r, m2), g) ↦ rw (taken-cp, g) (fork-memory r m2 g)
      ]

    fork-taken :
        Forks cp t m ((kalloc (pos page) m >>= with_stack cp i (taken i t)) >>= start_child)
    unfolding with_stack start_child
    fork-taken = elim (Outcome-cases (kalloc (pos page) m)) [
      | inr (x, g) ↦ rw g (stack_panics x g)
      | inl ((none, m'), g) ↦ rw g (no_stack i m' _ s g (ground arith) (λ j d. ground arith))
      | inl ((some k, m1), g) ↦ rw g (fork-stack k m1 g)
    ]

  pub fork-Forks : Forks cp t m (fork cp t m)
  fork-Forks =
      let finds = first-Finds is_unused t.proc 0 max_proc in
      elim (Option-cases (first is_unused 0 max_proc t.proc)) [
        | inl e ↦
            let f : Finds (λ j. is_unused (t.proc j)) 0 max_proc none = rw e at finds in
            rw (fork-no_slot e) (no_slot (λ j lt. f j (omega arith) lt))
        | inr (i, e) ↦
            let f : Finds (λ j. is_unused (t.proc j)) 0 max_proc (some i) = rw e at finds in
            rw (fork-slot i e) (fork-taken i (f.1, f.2, λ j lt. f.3 j (omega arith) lt))
      ]
