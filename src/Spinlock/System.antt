-- ===== src/Spinlock/System.antt =====
-- CPUs that acquire and release one lock, one access to shared memory at a time.
use tom_cs.Base.{ℕ, ◌+◌, ◌<◌, ◌≡◌, ◌≢◌, update, returns, panics}
use Prim.Native.String.{String}
use tom_cs.Spinlock.{Cpu, pushcli, popcli, Spinlock, initlock, no_cpu}
use tom_cs.Spinlock.Nesting.{IsValid}

-- NCPU
abbrev pub max_cpu : ℕ
max_cpu = 8

-- Where a CPU stands in `acquire`, between the two, and in `release`.
pub data Pc : Type 0 where
  outside : Pc
  entered : Pc  -- behind `pushcli`, before `holding` reads `locked`
  checking : Pc  -- `locked` was set; before `holding` reads `cpu`
  spinning : Pc  -- before an `xchg(&lock->locked, 1)`
  won : Pc  -- the `xchg` returned 0; `cpu` is not yet written
  critical : Pc  -- `acquire` has returned
  testing : Pc  -- `holding` in `release` has read `locked`
  clearing : Pc  -- before `lock->cpu = 0xffffffff`
  unlocking : Pc  -- before `xchg(&lock->locked, 0)`
  leaving : Pc  -- before `popcli`
  panicked : Pc

-- A step of CPU `me`. `xchg` writes 1 also where it fails. `acquire` starts only outside and `release`
-- only in the critical part, where the CPU's interrupt state does not change.
pub data Move (me : ℕ) (l : Spinlock) (c : Cpu) : Pc → Spinlock → Cpu → Pc → Type 0 where
  enter : Move me l c outside l (pushcli c) entered
  seen_free : l.locked ≡ 0 → Move me l c entered l c spinning
  seen_held : l.locked ≢ 0 → Move me l c entered l c checking
  held_by_me : l.cpu ≡ me + 10 → Move me l c checking l c panicked
  held_by_other : l.cpu ≢ me + 10 → Move me l c checking l c spinning
  xchg_lost : l.locked ≡ 1 → Move me l c spinning (record l { locked = 1 }) c spinning
  xchg_won : l.locked ≢ 1 → Move me l c spinning (record l { locked = 1 }) c won
  take_name : Move me l c won (record l { cpu = me + 10 }) c critical
  not_locked : l.locked ≡ 0 → Move me l c critical l c panicked
  is_locked : l.locked ≢ 0 → Move me l c critical l c testing
  not_mine : l.cpu ≢ me + 10 → Move me l c testing l c panicked
  is_mine : l.cpu ≡ me + 10 → Move me l c testing l c clearing
  clear_name : Move me l c clearing (record l { cpu = no_cpu }) c unlocking
  unlock : Move me l c unlocking (record l { locked = 0 }) c leaving
  leave : {d : Cpu} → popcli c ≡ returns d → Move me l c leaving l d outside
  leave_badly : {e : String} → popcli c ≡ panics e → Move me l c leaving l c panicked
  -- Code outside the lock changes the CPU's interrupt state, by `sti`, `cli` or other locks.
  elsewhere : (d : Cpu) → IsValid d → Move me l c outside l d outside

pub record System : Type 0 where
  pub lock : Spinlock
  pub cpu : ℕ → Cpu
  pub pc : ℕ → Pc

pub data Step (s : System) : System → Type 0 where
  pick :
      (i : ℕ) {l : Spinlock} {c : Cpu} {p : Pc}
      → i < max_cpu
      → Move i s.lock (s.cpu i) (s.pc i) l c p
      → Step s (record { lock = l; cpu = update s.cpu i c; pc = update s.pc i p })

abbrev pub init : (ℕ → Cpu) → System
init cpus = record { lock = initlock; cpu = cpus; pc = λ i. outside }

pub data Reach (cpus : ℕ → Cpu) : System → Type 0 where
  start : Reach cpus (init cpus)
  later : {s t : System} → Reach cpus s → Step s t → Reach cpus t
