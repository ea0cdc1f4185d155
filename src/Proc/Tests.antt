-- ===== src/Proc/Tests.antt =====
-- Runs of the models of xv6/proc.c at concrete tables.
use tom_cs.Base.{
  ◌≡◌, refl, true, false, [], ◌∷◌, none, some, ◌==◌, update, arith, inl, inr, Bool-cases,
}
use tom_cs.Base.Int.{pos}
use tom_cs.Kalloc.{run, Kmem}
use tom_cs.Proc.State.{unused, running, zombie, null, Proc, Table, first}
use tom_cs.Proc.{kill, allocproc, wait, dead_child, wait_scan, exit}
use tom_cs.Proc.System.{start, later, exit_step}
use tom_cs.Proc.Tree.{Family}
use tom_cs.Proc.Exit.{dead_end, passed_on}
use tom_cs.Proc.Reap.{Waits, wait-Waits}
use tom_cs.Proc.Kill.{killed_before_birth}
use tom_cs.Proc.Invariant.{Reach-Family}

abbrev blank : Proc
blank = record {
  mem = 0;
  sz = 0;
  kstack = 0;
  state = unused;
  pid = 0;
  parent = none;
  chan = null;
  killed = false;
  ofile = [];
  cwd = none;
}

abbrev first_process : Proc
first_process = record blank { mem = 4096; sz = 4096; kstack = 8192; state = running; pid = 1 }

abbrev shell : Proc
shell = record blank {
  mem = 12288;
  sz = 4096;
  kstack = 20480;
  state = running;
  pid = 2;
  parent = some 0;
}

-- The first process and its child.
abbrev two : Table
two = record { proc = update (update (λ i. blank) 1 shell) 0 first_process; nextpid = 3 }

two-Family : Family 0 two.proc
two-Family = record {
  init_bound = omega arith;
  init_lives = refl;
  has_parent = λ i lt other used. elim (Bool-cases (1 == i)) [
    | inl e ↦ (0, ground arith, omega arith, ground arith, refl)
    | inr e ↦ absurd (ground arith)
  ];
  no_zombie = λ i c li lc w z. ground arith;
}

Reach-Family_example : Family 0 (dead_end 1 (passed_on 1 0 two.proc))
unfolding exit
Reach-Family_example =
    Reach-Family 0 {t = two} two-Family (later start (exit_step 1 _ (omega arith, refl) refl))

-- The child is dead.
abbrev bereft : Table
bereft = record two { proc = update two.proc 1 (record shell { state = zombie }) }

abbrev memory : Kmem
memory = record { freelist = run 28672 8192 ∷ []; byte = λ x. x }

wait_reaps : wait_scan 0 0 64 false bereft.proc ≡ dead_child 1
unfolding wait_scan
wait_reaps = refl

wait-Waits_example : Waits 0 bereft memory (wait 0 bereft memory)
wait-Waits_example = wait-Waits 0 bereft memory

kill_marks : (kill 2 two).0 ≡ pos 0
unfolding kill first
kill_marks = refl

killed_before_birth_example :
    ((kill 0 two).0 ≡ pos 0)
    × ((allocproc (kill 0 two).1).0 ≡ some 2)
    × (((allocproc (kill 0 two).1).1.proc 2).killed ≡ true)
killed_before_birth_example =
    killed_before_birth two 2 (omega arith) refl refl (λ j lt. (ground arith, ground arith))
