-- ===== src/Proc/State.antt =====
-- The process table of xv6/proc.c and xv6/proc.h, and the loops over it.
use tom_cs.Base.{
  ℕ, zero, suc, ◌+◌, Bool, true, false, List, Option, none, some, ◌==◌, if◌then◌else◌, update,
}

-- NPROC
abbrev pub max_proc : ℕ
max_proc = 64

pub data ProcState : Type 0 where
  unused embryo sleeping runnable running zombie : ProcState

-- What processes sleep on: nothing, the address of a process, or another address.
pub data Channel : Type 0 where
  null : Channel
  proc_chan : ℕ → Channel
  other_chan : ℕ → Channel

-- `struct proc`
pub record Proc : Type 0 where
  pub mem : ℕ
  pub sz : ℕ
  pub kstack : ℕ
  pub state : ProcState
  pub pid : ℕ
  pub parent : Option ℕ
  pub chan : Channel
  pub killed : Bool
  pub ofile : List (Option ℕ)
  pub cwd : Option ℕ

abbrev pub is_unused : Proc → Bool
is_unused p = elim p.state [ unused ↦ true | _ ↦ false ]

abbrev pub is_sleeping : Proc → Bool
is_sleeping p = elim p.state [ sleeping ↦ true | _ ↦ false ]

abbrev pub is_zombie : Proc → Bool
is_zombie p = elim p.state [ zombie ↦ true | _ ↦ false ]

abbrev pub is_child : ℕ → Proc → Bool
is_child cp p = elim p.parent [ none ↦ false | some j ↦ j == cp ]

abbrev pub same_chan : Channel → Channel → Bool
same_chan null null = true
same_chan (proc_chan i) (proc_chan j) = i == j
same_chan (other_chan i) (other_chan j) = i == j
same_chan c d = false

abbrev pub on_chan : Channel → Proc → Bool
on_chan c p = same_chan p.chan c

pub record Table : Type 0 where
  pub proc : ℕ → Proc
  pub nextpid : ℕ

-- `for(i = 0; i < NPROC; i++)` up to the first process that meets a test, with `n` rounds left.
unfoldable pub first : (Proc → Bool) → ℕ → ℕ → (ℕ → Proc) → Option ℕ
first test i zero t = none
first test i (suc n) t = let rest = first test (i + 1) n t in if test (t i) then some i else rest

-- The same loop over all, with an assignment to each.
unfoldable pub each : (Proc → Proc) → ℕ → ℕ → (ℕ → Proc) → ℕ → Proc
each f i zero t = t
each f i (suc n) t = each f (i + 1) n (update t i (f (t i)))
