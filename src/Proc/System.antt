-- ===== src/Proc/System.antt =====
-- The calls of xv6/proc.c as the steps of a system: what running processes and the schedulers of the
-- CPUs do to the process table, in any order. A call that changes processes of others is one step.
-- So is `fork`, although `copyproc` holds the lock of the table only in `allocproc`: a table in which
-- the new process is an embryo without a parent is no state here.
use tom_cs.Base.{ℕ, ◌<◌, ◌≡◌, List, Option, some, returns}
use tom_cs.Base.Int.{ℤ}
use tom_cs.Kalloc.{Kmem}
use tom_cs.Proc.State.{max_proc, running, Channel, other_chan, Table}
use tom_cs.Proc.{wakeup1, kill, fall_asleep, tidy_up, yield, schedule, exit, WaitEnd, wait, fork}

abbrev pub Runs : ℕ → Table → Type 0
Runs cp t = (cp < max_proc) × ((t.proc cp).state ≡ running)

-- Nothing but `wait` sleeps on a process. The memory that `wait` and `fork` use is any.
pub data Step (init : ℕ) (t : Table) : Table → Type 0 where
  sleep_step : (cp a : ℕ) → Runs cp t → Step init t (fall_asleep cp (other_chan a) t)
  resume_step : (cp : ℕ) → Runs cp t → Step init t (tidy_up cp t)
  wakeup_step : (chan : Channel) → Step init t (record t { proc = wakeup1 chan t.proc })
  kill_step : (pid : ℕ) → Step init t (kill pid t).1
  yield_step : (cp : ℕ) → Runs cp t → Step init t (yield cp t)
  schedule_step : (i : ℕ) (t' : Table) → schedule i t ≡ some t' → Step init t t'
  exit_step :
      (cp : ℕ) (r : Table × List (Option ℕ) × Option ℕ)
      → Runs cp t
      → exit cp init t ≡ returns r
      → Step init t r.0
  wait_step :
      (cp : ℕ) (m : Kmem) (r : WaitEnd × Table × Kmem)
      → Runs cp t
      → wait cp t m ≡ returns r
      → Step init t r.1
  fork_step :
      (cp : ℕ) (m : Kmem) (r : ℤ × Table × Kmem)
      → Runs cp t
      → fork cp t m ≡ returns r
      → Step init t r.1

pub data Reach (init : ℕ) (t : Table) : Table → Type 0 where
  start : Reach init t t
  later : {u v : Table} → Reach init t u → Step init u v → Reach init t v
