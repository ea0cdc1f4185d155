-- ===== src/Proc/Kill.antt =====
-- `kill` of xv6/proc.c, and what its mark does to a process that is not born.
use tom_cs.Base.{
  Finds, ℕ, ◌<◌, ◌≡◌, ◌≢◌, inl, inr, refl, Bool, true, false, none, some, ◌==◌, update, arith,
  Option-cases,
}
use tom_cs.Base.Int.{ℤ, pos, negsuc}
use tom_cs.Proc.State.{max_proc, Proc, is_unused, is_sleeping, first, Table}
use tom_cs.Proc.Loops.{first-Finds}
use tom_cs.Proc.{mark_killed, kill, allocproc}

-- `kill` returns -1 only if no slot has the pid, and then changes nothing; otherwise the first slot
-- that has it is marked and does not sleep.
abbrev pub Kills : ℕ → Table → ℤ × Table → Type 0
Kills pid t (negsuc n, t') = (n ≡ 0) × (t' ≡ t) × ((j : ℕ) → j < max_proc → (t.proc j).pid ≢ pid)
Kills pid t (pos r, t') =
    (r ≡ 0)
    × (i : ℕ) × (i < max_proc)
    × ((t.proc i).pid ≡ pid)
    × ((j : ℕ) → j < i → (t.proc j).pid ≢ pid)
    × ((t'.proc i).killed ≡ true)
    × (is_sleeping (t'.proc i) ≡ false)
    × ((j : ℕ) → j ≢ i → t'.proc j ≡ t.proc j)

pub kill-Kills : (pid : ℕ) (t : Table) → Kills pid t (kill pid t)
unfolding kill
kill-Kills pid t =
    let finds = first-Finds (λ p. p.pid == pid) t.proc 0 max_proc in
    elim (Option-cases (first (λ p. p.pid == pid) 0 max_proc t.proc)) [
      | inl e ↦
          let f : Finds (λ j. (t.proc j).pid == pid) 0 max_proc none = rw e at finds in
          rw (kill, e) (refl, refl, λ j lt. ground (arith, f j (omega arith) lt))
      | inr (i, e) ↦
          let f : Finds (λ j. (t.proc j).pid == pid) 0 max_proc (some i) = rw e at finds in
          rw (kill, e)
            (
              refl,
              i,
              f.1,
              ground (arith, f.2),
              λ j lt. ground (arith, f.3 j (omega arith) lt),
              ground arith,
              ground arith,
              λ j d. ground arith,
            )
    ]

first-at :
    (test : Proc → Bool) (t : ℕ → Proc) (i : ℕ)
    → i < max_proc
    → test (t i) ≡ true
    → ((j : ℕ) → j < i → test (t j) ≡ false)
    → first test 0 max_proc t ≡ some i
first-at test t i lt found before =
    let finds = first-Finds test t 0 max_proc in
    elim (Option-cases (first test 0 max_proc t)) [
      | inl e ↦
          let f : Finds (λ j. test (t j)) 0 max_proc none = rw e at finds in
          absurd (ground (arith, f i (omega arith) lt))
      | inr (k, e) ↦
          let f : Finds (λ j. test (t j)) 0 max_proc (some k) = rw e at finds in
          ground (arith, f.2, f.3 i (omega arith), before k)
    ]

kill-at :
    (pid : ℕ) (t : Table) (i : ℕ)
    → first (λ p. p.pid == pid) 0 max_proc t.proc ≡ some i
    → kill pid t ≡ (pos 0, record t { proc = update t.proc i (mark_killed (t.proc i)) })
unfolding kill
kill-at pid t i e = rw (kill, e) refl

allocproc-at :
    (t : Table) (i : ℕ)
    → first is_unused 0 max_proc t.proc ≡ some i
    → ((allocproc t).0 ≡ some i) × (((allocproc t).1.proc i).killed ≡ (t.proc i).killed)
unfolding allocproc
allocproc-at t i e = rw (allocproc, e) (refl, ground arith)

-- If the first slot that is not in use is the first with pid 0, `kill` of pid 0 succeeds, and the
-- next process that is created is marked as killed.
pub killed_before_birth :
    (t : Table) (i : ℕ)
    → i < max_proc
    → is_unused (t.proc i) ≡ true
    → (t.proc i).pid ≡ 0
    → ((j : ℕ) → j < i → (is_unused (t.proc j) ≡ false) × ((t.proc j).pid ≢ 0))
    → ((kill 0 t).0 ≡ pos 0)
      × ((allocproc (kill 0 t).1).0 ≡ some i)
      × (((allocproc (kill 0 t).1).1.proc i).killed ≡ true)
killed_before_birth t i lt free pid before =
    let k =
      kill-at 0 t i (
        first-at (λ p. p.pid == 0) t.proc i lt (ground arith)
          (λ j l. ground (arith, before j l))) in
    let u = update t.proc i (mark_killed (t.proc i)) in
    let a =
      allocproc-at (record t { proc = u }) i
        (first-at is_unused u i lt (ground arith) (λ j l. ground (arith, before j l))) in
    rw k (refl, a.0, ground (arith, a.1))
