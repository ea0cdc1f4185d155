-- ===== src/Proc/Life.antt =====
-- Which processes are alive, which wait for a child, and what the calls of xv6/proc.c leave of it.
use tom_cs.Base.{ℕ, ◌<◌, ◌≡◌, inl, inr, refl, Bool, true, false, ◌&&◌, ltb, arith, Bool-cases}
use tom_cs.Proc.State.{
  max_proc, unused, zombie, Channel, null, proc_chan, other_chan, Proc, is_unused, is_sleeping,
  is_zombie, on_chan, same_chan,
}
use tom_cs.Proc.{wake_up, wakeup1}
use tom_cs.Proc.Loops.{wakeup1_lem}

abbrev pub is_live : Proc → Bool
is_live p = elim p.state [ unused ↦ false | zombie ↦ false | _ ↦ true ]

-- The process at `i`, in state `p`, sleeps in `wait`.
abbrev pub waits : ℕ → Proc → Bool
waits i p = is_sleeping p && on_chan (proc_chan i) p

-- Neither born nor dead, and not asleep in `wait` unless it was.
pub record Quiet (i : ℕ) (p q : Proc) : Type 0 where
  pub unused_kept : is_unused q ≡ is_unused p
  pub zombie_kept : is_zombie q ≡ is_zombie p
  pub asleep : waits i q ≡ true → waits i p ≡ true

pub Quiet-refl : (i : ℕ) (p : Proc) → Quiet i p p
Quiet-refl i p = record { unused_kept = refl; zombie_kept = refl; asleep = λ h. h }

pub Quiet-trans : (i : ℕ) (p q r : Proc) → Quiet i p q → Quiet i q r → Quiet i p r
Quiet-trans i p q r a b = record {
  unused_kept = cc;
  zombie_kept = cc;
  asleep = λ h. a.asleep (b.asleep h);
}

wake_up-Quiet : (c : Channel) (i : ℕ) (p : Proc) → Quiet i p (wake_up c p)
wake_up-Quiet c i p = record {
  unused_kept = ground arith;
  zombie_kept = ground arith;
  asleep = λ h. ground arith;
}

pub wakeup1-Quiet : (c : Channel) (t : ℕ → Proc) (i : ℕ) → Quiet i (t i) (wakeup1 c t i)
wakeup1-Quiet c t i = elim (Bool-cases (ltb i max_proc)) [
  | inl e ↦ rw (wakeup1_lem c t i, e) (wake_up-Quiet c i (t i))
  | inr e ↦ rw (wakeup1_lem c t i, e) (Quiet-refl i (t i))
]

pub parent-wakeup1 : (c : Channel) (t : ℕ → Proc) (i : ℕ) → (wakeup1 c t i).parent ≡ (t i).parent
parent-wakeup1 c t i = ground (arith, wakeup1_lem c t i)

same_chan_refl : (c : Channel) → same_chan c c ≡ true
same_chan_refl null = refl
same_chan_refl (proc_chan i) = ground arith
same_chan_refl (other_chan i) = ground arith

pub wakeup1-wakes :
    (t : ℕ → Proc) (i : ℕ) → i < max_proc → waits i (wakeup1 (proc_chan i) t i) ≡ false
wakeup1-wakes t i lt = ground (arith, wakeup1_lem (proc_chan i) t i)
