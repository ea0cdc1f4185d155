-- ===== src/Proc.antt =====
-- xv6/proc.c: the process table and its operations. A call holds `proc_table_lock` from its first
-- look at the table to its last, or until it sleeps, and is one step. A process pointer is an index
-- into `proc`; the current process `cp` is an argument. Of a process, the name, the trap frame
-- and the saved registers are left out.
pub mod State
pub mod Loops
pub mod System
pub mod Life
pub mod Adopt
pub mod Kill
pub mod Tree
pub mod Exit
pub mod Reap
pub mod Fork
pub mod Memory
pub mod Grow
pub mod Invariant
mod Tests
use mathlib.Core.Option.{or_else}
use tom_cs.Base.{
  ℕ, zero, suc, ◌+◌, ◌-◌, ◌%◌, ◌^◌, ◌<◌, Bool, true, false, ◌&&◌, ◌||◌, not, List, [], ◌∷◌, map,
  Option, none, some, ◌==◌, if◌then◌else◌, Outcome, returns, panics, ◌>>=◌, update,
}
use tom_cs.Base.Int.{ℤ, pos, negsuc, ◌+ℤ◌, to_int}
use tom_cs.CString.{memset, memmove}
use tom_cs.Kalloc.{page, Kmem, kalloc, kfree}
use tom_cs.Proc.State.{
  max_proc, ProcState, unused, embryo, sleeping, runnable, running, zombie, Channel, null,
  proc_chan, Proc, is_unused, is_sleeping, is_zombie, is_child, on_chan, first, each, Table,
}

-- `allocproc`
pub allocproc : Table → Option ℕ × Table
allocproc t = elim (first is_unused 0 max_proc t.proc) [
  | none ↦ (none, t)
  | some i ↦ (
    some i,
    record {
      proc = update t.proc i (record (t.proc i) { state = embryo; pid = t.nextpid });
      nextpid = t.nextpid + 1;
    },
  )
]

abbrev pub wake_up : Channel → Proc → Proc
wake_up chan p = if is_sleeping p && on_chan chan p then record p { state = runnable } else p

-- `wakeup1`, and `wakeup` around it
pub wakeup1 : Channel → (ℕ → Proc) → ℕ → Proc
wakeup1 chan = each (wake_up chan) 0 max_proc

-- `p->killed = 1`, and a sleeper is made runnable.
abbrev pub mark_killed : Proc → Proc
mark_killed p = record p { killed = true; state = if is_sleeping p then runnable else p.state }

pub kill : ℕ → Table → ℤ × Table
kill pid t = elim (first (λ p. p.pid == pid) 0 max_proc t.proc) [
  | none ↦ (negsuc 0, t)
  | some i ↦ (pos 0, record t { proc = update t.proc i (mark_killed (t.proc i)) })
]

-- The part of `sleep` before `sched`, and the part behind it.
pub fall_asleep : ℕ → Channel → Table → Table
fall_asleep cp chan t = record t {
  proc = update t.proc cp (record (t.proc cp) { chan = chan; state = sleeping });
}

pub tidy_up : ℕ → Table → Table
tidy_up cp t = record t { proc = update t.proc cp (record (t.proc cp) { chan = null }) }

-- `yield` before `sched`
pub yield : ℕ → Table → Table
yield cp t = record t { proc = update t.proc cp (record (t.proc cp) { state = runnable }) }

-- The choice of `scheduler` at the index `i`.
pub schedule : ℕ → Table → Option Table
schedule i t = elim (t.proc i).state [
  | runnable ↦ some (record t { proc = update t.proc i (record (t.proc i) { state = running }) })
  | _ ↦ none
]

-- The body of the loop of `exit` that passes children of `cp` on to `initproc`.
abbrev pub adopt : ℕ → ℕ → ℕ → (ℕ → Proc) → ℕ → Proc
adopt cp init i t =
    if is_child cp (t i)
    then (let t' = update t i (record (t i) { parent = some init }) in
        if is_zombie (t i) then wakeup1 (proc_chan init) t' else t')
    else t

pub adopt_loop : ℕ → ℕ → ℕ → ℕ → (ℕ → Proc) → ℕ → Proc
adopt_loop cp init i zero t = t
adopt_loop cp init i (suc n) t = adopt_loop cp init (i + 1) n (adopt cp init i t)

abbrev pub parent_chan : Proc → Channel
parent_chan p = elim p.parent [ none ↦ null | some j ↦ proc_chan j ]

-- `exit` up to `sched`, which does not come back. The files and the directory that the process
-- gives up are the second part of the result.
pub exit : ℕ → ℕ → Table → Outcome (Table × List (Option ℕ) × Option ℕ)
exit cp init t =
    if cp == init
    then panics "init exiting"
    else (let p = t.proc cp in
        let t1 = update t.proc cp (record p { ofile = map (λ f. none) p.ofile; cwd = none }) in
        let t2 = wakeup1 (parent_chan p) t1 in
        let t3 = adopt_loop cp init 0 max_proc t2 in
        returns (
          record t { proc = update t3 cp (record (t3 cp) { killed = false; state = zombie }) },
          p.ofile,
          p.cwd,
        ))

-- How the scan of `wait` ends: at a zombie child, or at the end, with or without a child seen.
pub data Scan : Type 0 where
  dead_child : ℕ → Scan
  scanned : Bool → Scan

pub wait_scan : ℕ → ℕ → ℕ → Bool → (ℕ → Proc) → Scan
wait_scan cp i zero havekids t = scanned havekids
wait_scan cp i (suc n) havekids t =
    let rest =
      wait_scan cp (i + 1) n ((not (is_unused (t i)) && is_child cp (t i)) || havekids) t in
    if not (is_unused (t i)) && (is_child cp (t i) && is_zombie (t i)) then dead_child i else rest

pub data WaitEnd : Type 0 where
  reaped : ℕ → WaitEnd
  wait_failed : WaitEnd
  wait_sleeps : WaitEnd

-- The block behind "Found one", for the child `i`.
pub reap : ℕ → Table → Kmem → Outcome (WaitEnd × Table × Kmem)
reap i t m = do
  let p = t.proc i
  m1 ← kfree p.mem (to_int p.sz) m
  m2 ← kfree p.kstack (pos page) m1
  returns (
    reaped p.pid,
    record t { proc = update t.proc i (record p { state = unused; pid = 0; parent = none }) },
    m2,
  )

-- `wait` up to its return or to `sleep(cp, &proc_table_lock)`, from which it starts again.
pub wait : ℕ → Table → Kmem → Outcome (WaitEnd × Table × Kmem)
wait cp t m = elim (wait_scan cp 0 max_proc false t.proc) [
  | dead_child i ↦ reap i t m
  | scanned havekids ↦
      if not havekids || (t.proc cp).killed
      then returns (wait_failed, t, m)
      else returns (wait_sleeps, fall_asleep cp (proc_chan cp) t, m)
]

abbrev pub put_back : ℕ → Table → Table
put_back i t = record t {
  proc = update t.proc i (record (t.proc i) { kstack = 0; state = unused });
}

-- The copy of the parent's open files: a descriptor that the parent has open.
pub copy_files : List (Option ℕ) → List (Option ℕ) → List (Option ℕ)
copy_files [] old = old
copy_files (f ∷ fs) [] = f ∷ copy_files fs []
copy_files (f ∷ fs) (o ∷ old) = or_else f o ∷ copy_files fs old

-- `copyproc` with the stack `k` of the new process `i`, after the call of `kalloc` for its memory.
pub with_memory : ℕ → ℕ → ℕ → Table → Option ℕ × Kmem → Outcome (Option ℕ × Table × Kmem)
with_memory cp i k t (none, m) = do
  m' ← kfree k (pos page) m
  returns (
    none,
    record t {
      proc =
          update t.proc i
            (record (t.proc i) { mem = 0; kstack = 0; state = unused; parent = none });
    },
    m',
  )
with_memory cp i k t (some a, m) =
    let p = t.proc cp in
    let np = t.proc i in
    returns (
      some i,
      record t {
        proc =
            update t.proc i
              (record np { mem = a; ofile = copy_files p.ofile np.ofile; cwd = p.cwd });
      },
      record m { byte = memmove a p.mem p.sz m.byte },
    )

-- `copyproc` after the call of `kalloc` for the stack of the new process `i`.
pub with_stack : ℕ → ℕ → Table → Option ℕ × Kmem → Outcome (Option ℕ × Table × Kmem)
with_stack cp i t (none, m) = returns (none, put_back i t, m)
with_stack cp i t (some k, m) =
    let np = record (t.proc i) { kstack = k; parent = some cp; sz = (t.proc cp).sz } in
    kalloc (to_int (t.proc cp).sz) m >>= with_memory cp i k (record t { proc = update t.proc i np })

-- `copyproc` after the call of `allocproc`.
pub with_slot : ℕ → Kmem → Option ℕ × Table → Outcome (Option ℕ × Table × Kmem)
with_slot cp m (none, t) = returns (none, t, m)
with_slot cp m (some i, t) = kalloc (pos page) m >>= with_stack cp i t

-- `copyproc(p)` for the process `cp`; `filedup` and `idup` of what is shared, the trap frame and the
-- context of the new process are left out.
pub copyproc : ℕ → Table → Kmem → Outcome (Option ℕ × Table × Kmem)
copyproc cp t m = with_slot cp m (allocproc t)

-- `sys_fork`: the child is made runnable, and its pid is returned.
pub start_child : Option ℕ × Table × Kmem → Outcome (ℤ × Table × Kmem)
start_child (none, t, m) = returns (negsuc 0, t, m)
start_child (some i, t, m) = returns (
  pos (t.proc i).pid,
  record t { proc = update t.proc i (record (t.proc i) { state = runnable }) },
  m,
)

pub fork : ℕ → Table → Kmem → Outcome (ℤ × Table × Kmem)
fork cp t m = copyproc cp t m >>= start_child
