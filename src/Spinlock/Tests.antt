-- ===== src/Spinlock/Tests.antt =====
-- Two CPUs on one lock, and the theorems there.
use tom_cs.Base.{ℕ, ◌<◌, ◌≡◌, ◌≢◌, inl, refl, true, false, arith, returns}
use tom_cs.Spinlock.{Cpu, pushcli, popcli, initlock, holding}
use tom_cs.Spinlock.Nesting.{pushes, pops}
use tom_cs.Spinlock.System.{
  max_cpu, critical, panicked, enter, seen_free, xchg_won, take_name, System, pick, Reach, start,
  later,
}
use tom_cs.Spinlock.Exclusion.{named, inside, mutual_exclusion, acquire_release_safe}

abbrev idle : Cpu
idle = record { flag = true; ncli = 0; intena = false }

pushcli_twice :
    (popcli (pushcli idle) ≡ returns (record idle { intena = true }))
    × (pops 1 (pushes 2 idle) ≡ returns (pushes 1 idle))
unfolding popcli pushcli pops pushes
pushcli_twice = (refl, refl)

-- CPU 0 takes the free lock.
taken_run : (s : System) × Reach (λ i. idle) s × (s.pc 0 ≡ critical) × (holding 0 s.lock ≡ true)
unfolding initlock
taken_run = (
  _,
  later
      (later
        (later (later start (pick 0 (omega arith) enter)) (pick 0 (omega arith) (seen_free refl)))
        (pick 0 (omega arith) (xchg_won (omega arith))))
      (pick 0 (omega arith) take_name),
  refl,
  refl,
)

mutual_exclusion_example : ◌≡◌ {A = ℕ} 0 0
unfolding taken_run
mutual_exclusion_example = mutual_exclusion (λ i. inl refl) taken_run.1 0 0 refl refl

acquire_release_safe_example :
    (taken_run.0.pc 0 ≢ panicked)
    × (inside (taken_run.0.pc 0) ≡ true → (taken_run.0.cpu 0).flag ≡ false)
    × (taken_run.0.pc 0 ≡ critical → holding 0 taken_run.0.lock ≡ true)
    × (0 < max_cpu → holding 0 taken_run.0.lock ≡ true → named (taken_run.0.pc 0) ≡ true)
acquire_release_safe_example = acquire_release_safe (λ i. inl refl) taken_run.1 0
