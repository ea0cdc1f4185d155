-- ===== src/Proc/Invariant.antt =====
-- Every step of the process table keeps the tree of processes (xv6/proc.c) in order.
use tom_cs.Base.{
  ℕ, ◌<◌, ◌≡◌, true, inl, inr, refl, false, ◌&&◌, List, Option, some, ◌==◌, update, arith,
  Bool-cases, Option-cases, Outcome, returns,
}
use tom_cs.Base.Int.{ℤ}
use tom_cs.Kalloc.{Kmem}
use tom_cs.Proc.State.{
  max_proc, ProcState, unused, embryo, sleeping, runnable, running, zombie, Channel, proc_chan,
  other_chan, Proc, is_unused, is_zombie, is_child, first, Table,
}
use tom_cs.Proc.{
  wakeup1, kill, mark_killed, fall_asleep, tidy_up, yield, schedule, exit, WaitEnd, reaped,
  wait_failed, wait_sleeps, fork,
}
use tom_cs.Proc.System.{
  Runs, Step, sleep_step, resume_step, wakeup_step, kill_step, yield_step, schedule_step, exit_step,
  wait_step, fork_step, Reach, start, later,
}
use tom_cs.Proc.Life.{waits, wakeup1-Quiet, parent-wakeup1}
use tom_cs.Proc.Tree.{Family, Family-Quiet, Family-born, Family-vacated}
use tom_cs.Proc.Exit.{
  passed_on, passed_on-Quiet, parent-passed_on, parent-wakes, init-wakes, dead_end, exit-Family,
}
use tom_cs.Proc.Reap.{Waits, wait-Waits}
use tom_cs.Proc.Fork.{
  Forks, no_slot, no_stack, no_memory, born, stack_panics, memory_panics, free_panics, fork-Forks,
}

module _ (init : ℕ) (t : Table) (inv : Family init t.proc) where
  -- One process is changed, and it is neither born nor dies nor falls asleep in `wait`.
  update-Family :
      (i : ℕ) (q : Proc)
      → is_unused q ≡ is_unused (t.proc i)
      → is_zombie q ≡ is_zombie (t.proc i)
      → (waits i q ≡ true → waits i (t.proc i) ≡ true)
      → q.parent ≡ (t.proc i).parent
      → Family init (update t.proc i q)
  update-Family i q unused_kept zombie_kept asleep same =
      Family-Quiet inv (update t.proc i q)
        (λ j. record {
          unused_kept = ground (arith, unused_kept);
          zombie_kept = ground (arith, zombie_kept);
          asleep = λ h. ground (arith, asleep);
        })
        (λ j. ground arith)

  wakeup-Family : (c : Channel) → Family init (wakeup1 c t.proc)
  wakeup-Family c =
      Family-Quiet inv (wakeup1 c t.proc) (wakeup1-Quiet c t.proc) (parent-wakeup1 c t.proc)

  kill-Family : (pid : ℕ) → Family init (kill pid t).1.proc
  unfolding kill
  kill-Family pid = elim (Option-cases (first (λ p. p.pid == pid) 0 max_proc t.proc)) [
    | inl e ↦ rw (kill, e) inv
    | inr (i, e) ↦
        rw (kill, e)
          (update-Family i (mark_killed (t.proc i)) (ground arith) (ground arith)
            (λ h. ground arith) refl)
  ]

  schedule-Family :
      (i : ℕ) (t' : Table) (state : ProcState)
      → (t.proc i).state ≡ state
      → schedule i t ≡ some t'
      → Family init t'.proc
  unfolding schedule
  schedule-Family i t' runnable s e =
      let same : record t { proc = update t.proc i (record (t.proc i) { state = running }) } ≡ t' =
        ground arith in
      rw (← same) (update-Family i _ (ground arith) (ground arith) (λ h. ground arith) refl)
  schedule-Family i t' unused s e = absurd (ground arith)
  schedule-Family i t' embryo s e = absurd (ground arith)
  schedule-Family i t' sleeping s e = absurd (ground arith)
  schedule-Family i t' running s e = absurd (ground arith)
  schedule-Family i t' zombie s e = absurd (ground arith)

  module _ (cp : ℕ) (runs : Runs cp t) where
    sleep-Family : (a : ℕ) → Family init (fall_asleep cp (other_chan a) t).proc
    unfolding fall_asleep
    sleep-Family a = update-Family cp _ (ground arith) (ground arith) (λ h. ground arith) refl

    resume-Family : Family init (tidy_up cp t).proc
    unfolding tidy_up
    resume-Family = update-Family cp _ (ground arith) (ground arith) (λ h. ground arith) refl

    yield-Family : Family init (yield cp t).proc
    unfolding yield
    yield-Family = update-Family cp _ (ground arith) (ground arith) (λ h. ground arith) refl

    exit_Step-Family :
        (r : Table × List (Option ℕ) × Option ℕ) → exit cp init t ≡ returns r → Family init r.0.proc
    unfolding exit
    exit_Step-Family r e = elim (Bool-cases (cp == init)) [
      | inl same ↦ absurd (ground arith)
      | inr other ↦
          let same : r.0.proc ≡ dead_end cp (passed_on cp init t.proc) = ground arith in
          rw same (
            exit-Family cp init t.proc (passed_on cp init t.proc) inv
              (passed_on-Quiet cp init t.proc) (parent-passed_on cp init t.proc) (ground arith)
              (ground (arith, runs.1)) runs.0 (parent-wakes cp init t.proc)
              (λ c. init-wakes cp init t.proc c inv.init_bound))
    ]

    -- The process falls asleep in `wait`, with no zombie child.
    asleep-Family :
        ((j : ℕ) → j < max_proc → is_child cp (t.proc j) && is_zombie (t.proc j) ≡ false)
        → Family init (fall_asleep cp (proc_chan cp) t).proc
    unfolding fall_asleep
    asleep-Family alive = record {
      init_bound = inv.init_bound;
      init_lives = ground (arith, inv.init_lives, runs.1);
      has_parent = λ i lt other used.
          let (j, f, b, d, l) = inv.has_parent i lt other (ground (arith, runs.1)) in
          (j, ground arith, b, d, ground arith);
      no_zombie = λ i c li lc w z. ground (arith, inv.no_zombie i c li lc, alive c lc, runs.1);
    }

    wait-Family :
        (r : WaitEnd × Table × Kmem) (m : Kmem) → Waits cp t m (returns r) → Family init r.1.proc
    wait-Family (reaped pid, t', m') m (k, lt, d, rest, same, free, pid0, else_same, mem) =
        Family-vacated inv t'.proc k else_same (ground arith) free
    wait-Family (wait_failed, t', m') m (d, c, same, mem) = rw same inv
    wait-Family (wait_sleeps, t', m') m (d, k, c, w, same, mem) = rw same (asleep-Family d)

    fork-Family :
        (o : Outcome (ℤ × Table × Kmem)) (m : Kmem) (r : ℤ × Table × Kmem)
        → Forks cp t m o
        → o ≡ returns r
        → Family init r.1.proc
    fork-Family o m r (no_slot h) e = let same : t ≡ r.1 = ground arith in rw (← same) inv
    fork-Family o m r (no_stack i m' t' s k free else_same) e =
        let same : t' ≡ r.1 = ground arith in
        rw (← same) (Family-vacated inv t'.proc i else_same (ground (arith, s.1)) free)
    fork-Family o m r (no_memory i k m1 m2 m' t' s a b c free else_same) e =
        let same : t' ≡ r.1 = ground arith in
        rw (← same) (Family-vacated inv t'.proc i else_same (ground (arith, s.1)) free)
    fork-Family o m r (born i k a pid m1 m2 t' s x y same_pid child else_same) e =
        let same : t' ≡ r.1 = ground arith in
        rw (← same) (
          Family-born inv t'.proc i cp else_same s.1 child.parent
            (ground (arith, child.is_runnable)) (ground (arith, child.is_runnable)) runs.0
            (ground (arith, runs.1)))
    fork-Family o m r (stack_panics x a) e = absurd (ground arith)
    fork-Family o m r (memory_panics x k m1 a b) e = absurd (ground arith)
    fork-Family o m r (free_panics x k m1 m2 a b c) e = absurd (ground arith)

Step-Family : (init : ℕ) {t u : Table} → Family init t.proc → Step init t u → Family init u.proc
Step-Family init {t} inv (sleep_step cp a runs) = sleep-Family init t inv cp runs a
Step-Family init {t} inv (resume_step cp runs) = resume-Family init t inv cp runs
Step-Family init {t} inv (wakeup_step chan) = wakeup-Family init t inv chan
Step-Family init {t} inv (kill_step pid) = kill-Family init t inv pid
Step-Family init {t} inv (yield_step cp runs) = yield-Family init t inv cp runs
Step-Family init {t} inv (schedule_step i u e) =
    schedule-Family init t inv i u (t.proc i).state refl e
Step-Family init {t} inv (exit_step cp r runs e) = exit_Step-Family init t inv cp runs r e
Step-Family init {t} inv (wait_step cp m r runs e) =
    wait-Family init t inv cp runs r m (let w = wait-Waits cp t m in rw e at w)
Step-Family init {t} inv (fork_step cp m r runs e) =
    fork-Family init t inv cp runs (fork cp t m) m r (fork-Forks cp t m (ground (arith, runs.1))) e

-- In every table that is reached from one in order, by calls of running processes in any order, the
-- first process lives, each other process in use has a living parent, and a process that sleeps in
-- `wait` has no zombie child: it has missed no exit.
pub Reach-Family :
    (init : ℕ) {t u : Table} → Family init t.proc → Reach init t u → Family init u.proc
Reach-Family init inv start = inv
Reach-Family init inv (later r s) = Step-Family init (Reach-Family init inv r) s
