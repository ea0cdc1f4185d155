-- ===== src/Proc/Reap.antt =====
-- `wait` of xv6/proc.c: which child it finds, and what it leaves.
use tom_cs.Base.{
  ℕ, zero, suc, ◌+◌, ◌≤◌, ◌<◌, ◌≡◌, ◌≢◌, ◌⊎◌, inl, inr, refl, Bool, true, false, ◌&&◌, ◌||◌, not,
  ◌==◌, if◌then◌else◌, arith, Bool-cases, Outcome, returns, panics, ◌>>=◌, Outcome-cases,
}
use tom_cs.Proc.State.{max_proc, proc_chan, Proc, is_unused, is_zombie, is_child, Table}
use tom_cs.Kalloc.{page, Kmem, kfree}
use tom_cs.Base.Int.{pos, to_int}
use tom_cs.Proc.Life.{waits}
use tom_cs.Proc.{
  fall_asleep, Scan, dead_child, scanned, wait_scan, WaitEnd, reaped, wait_failed, wait_sleeps,
  reap, wait,
}

abbrev pub dead_of : ℕ → Proc → Bool
dead_of cp p = is_child cp p && is_zombie p

abbrev pub child_of : ℕ → Proc → Bool
child_of cp p = not (is_unused p) && is_child cp p

-- The first zombie child; if there is none, whether there is a child in use.
abbrev pub Scans : ℕ → ℕ → ℕ → Bool → (ℕ → Proc) → Scan → Type 0
Scans cp i n h t (dead_child k) =
    (i ≤ k)
    × (k < i + n)
    × (dead_of cp (t k) ≡ true)
    × ((j : ℕ) → i ≤ j → j < k → dead_of cp (t j) ≡ false)
Scans cp i n h t (scanned true) =
    ((h ≡ true) ⊎ ((k : ℕ) × (i ≤ k) × (k < i + n) × (child_of cp (t k) ≡ true)))
    × ((j : ℕ) → i ≤ j → j < i + n → dead_of cp (t j) ≡ false)
Scans cp i n h t (scanned false) =
    (h ≡ false) × ((j : ℕ) → i ≤ j → j < i + n → child_of cp (t j) ≡ false)

module _ (cp : ℕ) (t : ℕ → Proc) where
  Scans-suc :
      (i n : ℕ) (h : Bool) (s : Scan)
      → dead_of cp (t i) ≡ false
      → Scans cp (i + 1) n (child_of cp (t i) || h) t s
      → Scans cp i (suc n) h t s
  Scans-suc i n h (dead_child k) alive (lo, hi, d, rest) = (
    omega arith,
    omega arith,
    d,
    λ j jl jh. elim (Bool-cases (i == j)) [
      | inl e ↦ ground arith
      | inr e ↦ rest j (ground arith) jh
    ],
  )
  Scans-suc i n h (scanned true) alive (seen, rest) = (
    elim seen [
      | inr (k, lo, hi, c) ↦ inr (k, omega arith, omega arith, c)
      | inl e ↦ elim (Bool-cases h) [
        | inl e' ↦ inl e'
        | inr e' ↦ inr (i, omega arith, omega arith, ground arith)
      ]
    ],
    λ j jl jh. elim (Bool-cases (i == j)) [
      | inl e ↦ ground arith
      | inr e ↦ rest j (ground arith) (omega arith)
    ],
  )
  Scans-suc i n h (scanned false) alive (none_seen, rest) = (
    ground arith,
    λ j jl jh. elim (Bool-cases (i == j)) [
      | inl e ↦ ground arith
      | inr e ↦ rest j (ground arith) (omega arith)
    ],
  )

  pub wait_scan-Scans : (i n : ℕ) (h : Bool) → Scans cp i n h t (wait_scan cp i n h t)
  unfolding wait_scan
  wait_scan-Scans i zero true = (inl refl, λ j lo hi. absurd (omega arith))
  wait_scan-Scans i zero false = (refl, λ j lo hi. absurd (omega arith))
  wait_scan-Scans i (suc n) h = elim (Bool-cases (dead_of cp (t i))) [
    | inl d ↦ elim (Bool-cases (not (is_unused (t i)) && (is_child cp (t i) && is_zombie (t i)))) [
      | inl e ↦ rw e (omega arith, omega arith, d, λ j lo hi. absurd (omega arith))
      | inr e ↦ absurd (ground arith)
    ]
    | inr d ↦ elim (Bool-cases (not (is_unused (t i)) && (is_child cp (t i) && is_zombie (t i)))) [
      | inl e ↦ absurd (ground arith)
      | inr e ↦ rw e (Scans-suc i n h _ d (wait_scan-Scans (i + 1) n (child_of cp (t i) || h)))
    ]
  ]

abbrev pub NoneDead : ℕ → (ℕ → Proc) → Type 0
NoneDead cp t = (j : ℕ) → j < max_proc → dead_of cp (t j) ≡ false

-- What `wait` of the process `cp` may come to.
abbrev pub Waits : ℕ → Table → Kmem → Outcome (WaitEnd × Table × Kmem) → Type 0
Waits cp t m (panics e) =
    (k : ℕ) × (k < max_proc)
    × (dead_of cp (t.proc k) ≡ true)
    × ((j : ℕ) → j < k → dead_of cp (t.proc j) ≡ false)
    × ((kfree (t.proc k).mem (to_int (t.proc k).sz) m >>= kfree (t.proc k).kstack (pos page))
        ≡ panics e)
Waits cp t m (returns (reaped pid, t', m')) =
    (k : ℕ) × (k < max_proc)
    × (dead_of cp (t.proc k) ≡ true)
    × ((j : ℕ) → j < k → dead_of cp (t.proc j) ≡ false)
    × (pid ≡ (t.proc k).pid)
    × (is_unused (t'.proc k) ≡ true)
    × ((t'.proc k).pid ≡ 0)
    × ((j : ℕ) → j ≢ k → t'.proc j ≡ t.proc j)
    × ((kfree (t.proc k).mem (to_int (t.proc k).sz) m >>= kfree (t.proc k).kstack (pos page))
        ≡ returns m')
Waits cp t m (returns (wait_failed, t', m')) =
    NoneDead cp t.proc
    × ((t.proc cp).killed ≡ false → (j : ℕ) → j < max_proc → child_of cp (t.proc j) ≡ false)
    × (t' ≡ t)
    × (m' ≡ m)
Waits cp t m (returns (wait_sleeps, t', m')) =
    NoneDead cp t.proc
    × ((t.proc cp).killed ≡ false)
    × ((k : ℕ) × (k < max_proc) × (child_of cp (t.proc k) ≡ true))
    × (waits cp (t'.proc cp) ≡ true)
    × (t' ≡ fall_asleep cp (proc_chan cp) t)
    × (m' ≡ m)

module _ (cp : ℕ) (t : Table) (m : Kmem) where
  reap-Waits :
      (k : ℕ)
      → k < max_proc
      → dead_of cp (t.proc k) ≡ true
      → ((j : ℕ) → j < k → dead_of cp (t.proc j) ≡ false)
      → Waits cp t m (reap k t m)
  unfolding reap
  reap-Waits k lt d rest = elim (Outcome-cases (kfree (t.proc k).mem (to_int (t.proc k).sz) m)) [
    | inr (s, e) ↦ rw e (k, lt, d, rest, ground arith)
    | inl (m1, e) ↦ elim (Outcome-cases (kfree (t.proc k).kstack (pos page) m1)) [
      | inr (s, f) ↦ rw (e, f) (k, lt, d, rest, ground arith)
      | inl (m2, f) ↦
          rw (e, f)
            (
              k,
              lt,
              d,
              rest,
              refl,
              ground arith,
              ground arith,
              λ j other. ground arith,
              ground arith,
            )
    ]
  ]

  waits-fall_asleep : waits cp ((fall_asleep cp (proc_chan cp) t).proc cp) ≡ true
  unfolding fall_asleep
  waits-fall_asleep = ground arith

  ends-Waits :
      (h : Bool)
      → Scans cp 0 max_proc false t.proc (scanned h)
      → Waits cp t m (
          if not h || (t.proc cp).killed
          then returns (wait_failed, t, m)
          else returns (wait_sleeps, fall_asleep cp (proc_chan cp) t, m))
  ends-Waits false (seen, rest) =
      (λ j lt. ground (arith, rest j), λ alive j lt. rest j (omega arith) lt, refl, refl)
  ends-Waits true (inl seen, rest) = absurd cc
  ends-Waits true (inr (k, lo, hi, c), rest) = elim (Bool-cases (t.proc cp).killed) [
    | inl e ↦ rw e (λ j lt. rest j (omega arith) lt, λ alive. absurd cc, refl, refl)
    | inr e ↦ rw e (λ j lt. rest j (omega arith) lt, e, (k, hi, c), waits-fall_asleep, refl, refl)
  ]

  wait-dead_child :
      (k : ℕ) → wait_scan cp 0 max_proc false t.proc ≡ dead_child k → wait cp t m ≡ reap k t m
  unfolding wait
  wait-dead_child k e = rw (wait, e) refl

  wait-scanned :
      (h : Bool)
      → wait_scan cp 0 max_proc false t.proc ≡ scanned h
      → wait cp t m ≡ (
          if not h || (t.proc cp).killed
          then returns (wait_failed, t, m)
          else returns (wait_sleeps, fall_asleep cp (proc_chan cp) t, m))
  unfolding wait
  wait-scanned h e = rw (wait, e) refl

  Scans-Waits :
      (s : Scan)
      → Scans cp 0 max_proc false t.proc s
      → wait_scan cp 0 max_proc false t.proc ≡ s
      → Waits cp t m (wait cp t m)
  Scans-Waits (dead_child k) (lo, hi, d, rest) e =
      rw (wait-dead_child k e) (reap-Waits k hi d (λ j lt. rest j (omega arith) lt))
  Scans-Waits (scanned h) r e = rw (wait-scanned h e) (ends-Waits h r)

  -- wait returns the pid of the first zombie child, whose slot is then unused and whose memory and
  -- stack have gone through kfree; it panics only if one of these two calls of kfree panics, and
  -- with its message. It fails, and changes nothing,
  -- only if no child is a zombie and the process is killed or has no child in use; it sleeps only
  -- if no child is a zombie, one is in use and the process is not killed.
  pub wait-Waits : Waits cp t m (wait cp t m)
  wait-Waits =
      Scans-Waits (wait_scan cp 0 max_proc false t.proc)
        (wait_scan-Scans cp t.proc 0 max_proc false) refl
