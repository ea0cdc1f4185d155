-- ===== src/Spinlock/Exclusion.antt =====
-- At most one CPU has the lock, `holding` knows which, and nobody panics.
use tom_cs.Base.{ℕ, ◌+◌, ◌<◌, ◌≡◌, ◌≢◌, refl, Bool, true, false, update, arith, returns, panics}
use tom_cs.Spinlock.{Cpu, pushcli, popcli, Spinlock, initlock, holding}
use tom_cs.Spinlock.Nesting.{IsValid}
use tom_cs.Spinlock.System.{
  max_cpu, Pc, outside, won, critical, testing, clearing, unlocking, panicked, Move, enter,
  seen_free, held_by_me, xchg_lost, xchg_won, not_locked, not_mine, leave, leave_badly, elsewhere,
  System, Step, pick, Reach, start, later,
}

-- Between the `xchg` that wins and the one that unlocks.
abbrev pub owns : Pc → Bool
owns won = true
owns critical = true
owns testing = true
owns clearing = true
owns unlocking = true
owns p = false

-- The lock carries the CPU's number.
abbrev pub named : Pc → Bool
named critical = true
named testing = true
named clearing = true
named p = false

abbrev pub inside : Pc → Bool
inside outside = false
inside panicked = false
inside p = true

pub record Inv (s : System) : Type 0 where
  pub alone : (i j : ℕ) → owns (s.pc i) ≡ true → owns (s.pc j) ≡ true → i ≡ j
  pub locked : (i : ℕ) → owns (s.pc i) ≡ true → s.lock.locked ≡ 1
  pub own_name : (i : ℕ) → named (s.pc i) ≡ true → s.lock.cpu ≡ i + 10
  pub name_owns : (i : ℕ) → i < max_cpu → s.lock.cpu ≡ i + 10 → named (s.pc i) ≡ true
  pub off : (i : ℕ) → inside (s.pc i) ≡ true → ((s.cpu i).flag ≡ false) × (0 < (s.cpu i).ncli)
  pub even : (i : ℕ) → IsValid (s.cpu i)
  pub quiet : (i : ℕ) → s.pc i ≢ panicked

-- The premise of a move, for the catch-all clauses below.
abbrev Guard :
    {me : ℕ} {l : Spinlock} {c : Cpu} {p : Pc} {l' : Spinlock} {c' : Cpu} {p' : Pc}
    → Move me l c p l' c' p'
    → Type 0
Guard {l} (seen_free g) = l.locked ≡ 0
Guard {me} {l} (held_by_me g) = l.cpu ≡ me + 10
Guard {l} (xchg_lost g) = l.locked ≡ 1
Guard {l} (xchg_won g) = l.locked ≢ 1
Guard {l} (not_locked g) = l.locked ≡ 0
Guard {me} {l} (not_mine g) = l.cpu ≢ me + 10
Guard {c} (leave {d} g) = popcli c ≡ returns d
Guard {c} (leave_badly {e} g) = popcli c ≡ panics e
Guard (elsewhere d v) = IsValid d
Guard mv = Unit

guard :
    {me : ℕ} {l : Spinlock} {c : Cpu} {p : Pc} {l' : Spinlock} {c' : Cpu} {p' : Pc}
    (mv : Move me l c p l' c' p')
    → Guard mv
guard (seen_free g) = g
guard (held_by_me g) = g
guard (xchg_lost g) = g
guard (xchg_won g) = g
guard (not_locked g) = g
guard (not_mine g) = g
guard (leave g) = g
guard (leave_badly g) = g
guard (elsewhere d v) = v
guard mv = tt

module _ {s : System} (inv : Inv s) (i : ℕ) (few : i < max_cpu) where
  open inv use {alone, locked, own_name, name_owns, off, even, quiet}

  Move-alone :
      {p q : Pc} {l : Spinlock} {c : Cpu}
      → Move i s.lock (s.cpu i) p l c q
      → s.pc i ≡ p
      → (a b : ℕ) → owns (update s.pc i q a) ≡ true
      → owns (update s.pc i q b) ≡ true
      → a ≡ b
  Move-alone enter e a b ha hb = ground (arith, alone a b)
  Move-alone mv e a b ha hb =
      ground (arith, guard mv, alone a b, locked a, locked b, alone i a, alone i b)

  Move-locked :
      {p q : Pc} {l : Spinlock} {c : Cpu}
      → Move i s.lock (s.cpu i) p l c q
      → s.pc i ≡ p
      → (a : ℕ) → owns (update s.pc i q a) ≡ true
      → l.locked ≡ 1
  Move-locked enter e a h = ground (arith, locked a)
  Move-locked mv e a h = ground (arith, guard mv, locked a, alone i a)

  Move-own_name :
      {p q : Pc} {l : Spinlock} {c : Cpu}
      → Move i s.lock (s.cpu i) p l c q
      → s.pc i ≡ p
      → (a : ℕ) → named (update s.pc i q a) ≡ true
      → l.cpu ≡ a + 10
  Move-own_name enter e a h = ground (arith, own_name a)
  Move-own_name mv e a h = ground (arith, guard mv, own_name a, own_name i, alone i a)

  Move-name_owns :
      {p q : Pc} {l : Spinlock} {c : Cpu}
      → Move i s.lock (s.cpu i) p l c q
      → s.pc i ≡ p
      → (a : ℕ) → a < max_cpu
      → l.cpu ≡ a + 10
      → named (update s.pc i q a) ≡ true
  Move-name_owns enter e a lt h = ground (arith, name_owns a)
  Move-name_owns mv e a lt h = ground (arith, guard mv, name_owns a, own_name i, locked i)

  Move-off :
      {p q : Pc} {l : Spinlock} {c : Cpu}
      → Move i s.lock (s.cpu i) p l c q
      → s.pc i ≡ p
      → (a : ℕ) → inside (update s.pc i q a) ≡ true
      → ((update s.cpu i c a).flag ≡ false) × (0 < (update s.cpu i c a).ncli)
  unfolding pushcli
  Move-off enter e a h = ground (arith, off a)
  Move-off mv e a h = ground (arith, off a, off i)

  Move-even :
      {p q : Pc} {l : Spinlock} {c : Cpu}
      → Move i s.lock (s.cpu i) p l c q
      → s.pc i ≡ p
      → (a : ℕ) → IsValid (update s.cpu i c a)
  unfolding pushcli popcli
  Move-even enter e a = ground (arith, even a)
  Move-even mv e a = ground (arith, guard mv, even a, off i)

  Move-quiet :
      {p q : Pc} {l : Spinlock} {c : Cpu}
      → Move i s.lock (s.cpu i) p l c q
      → s.pc i ≡ p
      → (a : ℕ) → update s.pc i q a ≢ panicked
  unfolding popcli
  Move-quiet enter e a h = ground (arith, quiet a)
  Move-quiet mv e a h = ground (arith, guard mv, quiet a, locked i, own_name i, name_owns i, off i)

  Move-Inv :
      {q : Pc} {l : Spinlock} {c : Cpu}
      → Move i s.lock (s.cpu i) (s.pc i) l c q
      → Inv (record { lock = l; cpu = update s.cpu i c; pc = update s.pc i q })
  Move-Inv mv = record {
    alone = Move-alone mv refl;
    locked = Move-locked mv refl;
    own_name = Move-own_name mv refl;
    name_owns = Move-name_owns mv refl;
    off = Move-off mv refl;
    even = Move-even mv refl;
    quiet = Move-quiet mv refl;
  }

Step-Inv : {s t : System} → Step s t → Inv s → Inv t
Step-Inv (pick i few mv) inv = Move-Inv inv i few mv

Reach-Inv : {cpus : ℕ → Cpu} {s : System} → ((i : ℕ) → IsValid (cpus i)) → Reach cpus s → Inv s
unfolding initlock
Reach-Inv even start = record {
  alone = λ i j h k. cc;
  locked = λ i h. cc;
  own_name = λ i h. cc;
  name_owns = λ i lt h. absurd (omega arith);
  off = λ i h. cc;
  even = even;
  quiet = λ i h. cc;
}
Reach-Inv even (later r st) = Step-Inv st (Reach-Inv even r)

module _ {cpus : ℕ → Cpu} {s : System} (even : (i : ℕ) → IsValid (cpus i)) (r : Reach cpus s) where
  -- However the CPUs' accesses interleave, two of them never both have the lock.
  pub mutual_exclusion : (i j : ℕ) → owns (s.pc i) ≡ true → owns (s.pc j) ≡ true → i ≡ j
  mutual_exclusion = (Reach-Inv even r).alone

  -- However the CPUs' accesses interleave, no `acquire` or `release` panics, a CPU inside either or
  -- between them runs with interrupts off, and a CPU between them is the one that `holding` finds.
  pub acquire_release_safe :
      (i : ℕ)
      → (s.pc i ≢ panicked)
        × (inside (s.pc i) ≡ true → (s.cpu i).flag ≡ false)
        × (s.pc i ≡ critical → holding i s.lock ≡ true)
        × (i < max_cpu → holding i s.lock ≡ true → named (s.pc i) ≡ true)
  acquire_release_safe i = (
    quiet i,
    λ h. (off i h).0,
    λ h. ground (arith, locked i, own_name i),
    λ lt h. name_owns i lt (ground arith),
  )
    where
      open (Reach-Inv even r) use {quiet, off, locked, own_name, name_owns}
