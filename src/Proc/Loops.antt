-- ===== src/Proc/Loops.antt =====
-- What the loops over the process table come to, process by process.
use tom_cs.Base.{
  Finds, Finds-zero, Finds-suc, ℕ, zero, suc, ◌+◌, ◌≡◌, Bool, ◌&&◌, ltb, leb, if◌then◌else◌, update,
  arith,
}
use tom_cs.Proc.State.{max_proc, Proc, first, each, Channel}
use tom_cs.Proc.{wake_up, wakeup1}

-- A process within the rounds left is changed, and no other.
pub each_lem :
    (f : Proc → Proc) (i n : ℕ) (t : ℕ → Proc) (j : ℕ)
    → each f i n t j ≡ (if leb i j && ltb j (i + n) then f (t j) else t j)
unfolding each
each_lem f i zero t j = ground arith
each_lem f i (suc n) t j = ground (arith, each_lem f (i + 1) n (update t i (f (t i))) j)

-- The index found is the first that meets the test, and if there is none, no process meets it.
pub first-Finds :
    (test : Proc → Bool) (t : ℕ → Proc) (i n : ℕ) → Finds (λ j. test (t j)) i n (first test i n t)
unfolding first
first-Finds test t i zero = Finds-zero (λ j. test (t j)) i
first-Finds test t i (suc n) =
    Finds-suc (λ j. test (t j)) i n (first test (i + 1) n t) (first-Finds test t (i + 1) n)

pub wakeup1_lem :
    (chan : Channel) (t : ℕ → Proc) (j : ℕ)
    → wakeup1 chan t j ≡ (if ltb j max_proc then wake_up chan (t j) else t j)
unfolding wakeup1
wakeup1_lem chan t j = ground (arith, each_lem (wake_up chan) 0 max_proc t j)
