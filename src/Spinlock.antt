-- ===== src/Spinlock.antt =====
-- xv6/spinlock.c: nested interrupt disabling on a CPU, and a lock that several CPUs contend for.
-- The program counters in `pcs`, which are for debugging, and the lock's name are left out.
pub mod Nesting
pub mod System
pub mod Exclusion
mod Tests
use tom_cs.Base.{
  ℕ, zero, suc, ◌+◌, ◌-◌, Bool, true, false, ◌&&◌, not, ◌==◌, if◌then◌else◌, Outcome, returns,
  panics, ◌>>=◌,
}

-- The part of a CPU that `pushcli` and `popcli` use: the flag FL_IF of its eflags, and two fields of
-- `struct cpu`.
pub record Cpu : Type 0 where
  pub flag : Bool
  pub ncli : ℕ
  pub intena : Bool

unfoldable pub pushcli : Cpu → Cpu
pushcli c = record {
  flag = false;
  ncli = c.ncli + 1;
  intena = if c.ncli == 0 then c.flag else c.intena;
}

unfoldable pub popcli : Cpu → Outcome Cpu
popcli c =
    if c.flag
    then panics "popcli - interruptible"
    else (if c.ncli == 0
        then panics "popcli"
        else returns
            (record { flag = c.ncli == 1 && c.intena; ncli = c.ncli - 1; intena = c.intena }))

-- `struct spinlock`; `cpu` is 10 more than the number of the CPU that holds it.
pub record Spinlock : Type 0 where
  pub locked : ℕ
  pub cpu : ℕ

abbrev pub no_cpu : ℕ
no_cpu = 0xffff_ffff

unfoldable pub initlock : Spinlock
initlock = record { locked = 0; cpu = no_cpu }

abbrev pub holding : ℕ → Spinlock → Bool
holding me l = not (l.locked == 0) && l.cpu == me + 10
