-- ===== src/Proc/Exit.antt =====
-- `exit` of xv6/proc.c keeps the tree of processes in order.
use tom_cs.Base.{
  ℕ, ◌<◌, ◌≡◌, ◌≢◌, inl, inr, sym, true, false, map, none, some, ◌==◌, if◌then◌else◌, update, arith,
  Bool-cases,
}
use tom_cs.Proc.State.{max_proc, zombie, Proc, is_unused, is_zombie, is_child}
use tom_cs.Proc.{wakeup1, parent_chan, adopt_loop}
use tom_cs.Proc.Life.{
  is_live, waits, Quiet, Quiet-trans, wakeup1-Quiet, parent-wakeup1, wakeup1-wakes,
}
use tom_cs.Proc.Adopt.{adopt_loop-Quiet, parent-adopt_loop, adopt_loop-wakes}
use tom_cs.Proc.Tree.{HasParent, Family, live-Quiet}

module _ (cp init : ℕ) (t : ℕ → Proc) where
  -- The table with the files given up, with the parent woken, and with the children passed on.
  abbrev gave_up : ℕ → Proc
  gave_up = update t cp (record (t cp) { ofile = map (λ f. none) (t cp).ofile; cwd = none })

  abbrev woken : ℕ → Proc
  woken = wakeup1 (parent_chan (t cp)) gave_up

  abbrev pub passed_on : ℕ → Proc
  passed_on = adopt_loop cp init 0 max_proc woken

  gave_up-Quiet : (j : ℕ) → Quiet j (t j) (gave_up j)
  gave_up-Quiet j = record {
    unused_kept = ground arith;
    zombie_kept = ground arith;
    asleep = λ h. ground arith;
  }

  pub passed_on-Quiet : (j : ℕ) → Quiet j (t j) (passed_on j)
  passed_on-Quiet j =
      Quiet-trans j (t j) (woken j) (passed_on j)
        (Quiet-trans j (t j) (gave_up j) (woken j) (gave_up-Quiet j)
          (wakeup1-Quiet (parent_chan (t cp)) gave_up j))
        (adopt_loop-Quiet cp init 0 max_proc woken j)

  parent-woken : (j : ℕ) → (woken j).parent ≡ (t j).parent
  parent-woken j = ground (arith, parent-wakeup1 (parent_chan (t cp)) gave_up j)

  pub parent-passed_on :
      (j : ℕ)
      → j < max_proc
      → (passed_on j).parent ≡ (if is_child cp (t j) then some init else (t j).parent)
  parent-passed_on j lt =
      ground (arith, parent-adopt_loop cp init 0 max_proc woken j, parent-woken j)

  pub parent-wakes : (j : ℕ) → j < max_proc → (t cp).parent ≡ some j → waits j (passed_on j) ≡ false
  parent-wakes j lt e =
      ground
        (arith, (adopt_loop-Quiet cp init 0 max_proc woken j).asleep, wakeup1-wakes gave_up j lt)

  pub init-wakes :
      (c : ℕ)
      → init < max_proc
      → c < max_proc
      → is_child cp (t c) ≡ true
      → is_zombie (t c) ≡ true
      → waits init (passed_on init) ≡ false
  init-wakes c li lc e z =
      adopt_loop-wakes cp init 0 max_proc woken c li (omega arith) (omega arith)
        (ground (arith, parent-woken c))
        (ground (
          arith,
          (gave_up-Quiet c).zombie_kept,
          (wakeup1-Quiet (parent_chan (t cp)) gave_up c).zombie_kept,
        ))

abbrev pub dead_end : ℕ → (ℕ → Proc) → ℕ → Proc
dead_end cp u = update u cp (record (u cp) { killed = false; state = zombie })

-- The table `u` behind the loop of `exit`, and the process `cp` becomes a zombie.
module _ (cp init : ℕ) (t u : ℕ → Proc) (inv : Family init t)
    (quiet : (j : ℕ) → Quiet j (t j) (u j))
    (parents : (j : ℕ)
      → j < max_proc
      → (u j).parent ≡ (if is_child cp (t j) then some init else (t j).parent))
    (other : cp ≢ init) (alive : is_live (t cp) ≡ true) (bound : cp < max_proc) where
  stays_live : (j : ℕ) → j ≢ cp → is_live (t j) ≡ true → is_live (dead_end cp u j) ≡ true
  stays_live j d l = ground (arith, live-Quiet j (t j) (u j) (quiet j))

  parent-dead_end :
      (j : ℕ)
      → j < max_proc
      → (dead_end cp u j).parent ≡ (if is_child cp (t j) then some init else (t j).parent)
  parent-dead_end j lt = ground (arith, parents j lt)

  dead_end-HasParent :
      (i : ℕ) → i < max_proc → i ≢ init → is_unused (t i) ≡ false → HasParent (dead_end cp u) i
  dead_end-HasParent i lt not_init used = elim (Bool-cases (is_child cp (t i))) [
    | inl e ↦ (
      init,
      ground (arith, parent-dead_end i lt),
      inv.init_bound,
      λ f. not_init (sym f),
      stays_live init (λ f. other (sym f)) inv.init_lives,
    )
    | inr e ↦
        let (j, f, b, d, l) = inv.has_parent i lt not_init used in
        (j, ground (arith, parent-dead_end i lt), b, d, stays_live j (ground arith) l)
  ]

  pub exit-Family :
      ((j : ℕ) → j < max_proc → (t cp).parent ≡ some j → waits j (u j) ≡ false)
      → ((c : ℕ)
          → c < max_proc
          → is_child cp (t c) ≡ true
          → is_zombie (t c) ≡ true
          → waits init (u init) ≡ false)
      → Family init (dead_end cp u)
  exit-Family parent_wakes init_wakes = record {
    init_bound = inv.init_bound;
    init_lives = stays_live init (λ f. other (sym f)) inv.init_lives;
    has_parent = λ i lt not_init used.
        dead_end-HasParent i lt not_init (ground (arith, (quiet i).unused_kept));
    no_zombie = λ i c li lc w z.
        let w' : waits i (u i) ≡ true = ground arith in
        elim (Bool-cases (cp == c)) [
          | inl e ↦
              let (j, f, b, d, l) = inv.has_parent cp bound other (ground arith) in
              ground (arith, parent-dead_end c lc, parent_wakes j b f)
          | inr e ↦ elim (Bool-cases (is_child cp (t c))) [
            | inl f ↦ ground (arith, parent-dead_end c lc, init_wakes c lc f, (quiet c).zombie_kept)
            | inr f ↦ ground (
              arith,
              parent-dead_end c lc,
              inv.no_zombie i c li lc,
              (quiet i).asleep w',
              (quiet c).zombie_kept,
            )
          ]
        ];
  }
