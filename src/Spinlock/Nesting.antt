-- ===== src/Spinlock/Nesting.antt =====
-- `pushcli` and `popcli` are matched: as many of the second undo the first.
use tom_cs.Base.{
  ℕ, zero, suc, ◌+◌, ◌<◌, ◌≡◌, ◌⊎◌, inr, refl, ap, ◌∙◌, false, ◌==◌, if◌then◌else◌, Outcome,
  returns, ◌>>=◌, arith,
}
use tom_cs.Spinlock.{Cpu, pushcli, popcli}

-- Inside a `pushcli` interrupts are off.
abbrev pub IsValid : Cpu → Type 0
IsValid c = (c.ncli ≡ 0) ⊎ (c.flag ≡ false)

unfoldable pub pushes : ℕ → Cpu → Cpu
pushes zero c = c
pushes (suc n) c = pushcli (pushes n c)

unfoldable pub pops : ℕ → Cpu → Outcome Cpu
pops zero c = returns c
pops (suc n) c = popcli c >>= pops n

pushes-suc : (n : ℕ) (c : Cpu) → pushes (suc n) c ≡ pushcli (pushes n c)
unfolding pushes
pushes-suc n c = refl

pushcli-IsValid : (c : Cpu) → IsValid (pushcli c)
unfolding pushcli
pushcli-IsValid c = inr refl

-- Inside a `pushcli`, one more of each is undone to the last field.
popcli-pushcli_inner : (c : Cpu) → c.flag ≡ false → 0 < c.ncli → popcli (pushcli c) ≡ returns c
unfolding pushcli popcli
popcli-pushcli_inner c off deep = ground arith

popcli-pushcli_outer :
    (c : Cpu)
    → IsValid c
    → popcli (pushcli c) ≡ returns (record c { intena = if c.ncli == 0 then c.flag else c.intena })
unfolding pushcli popcli
popcli-pushcli_outer c v = ground arith

pushes_off : (n : ℕ) (c : Cpu) → ((pushes (suc n) c).flag ≡ false) × (0 < (pushes (suc n) c).ncli)
unfolding pushes pushcli
pushes_off n c = (refl, omega arith)

pops-pushes_inner : (n k : ℕ) (c : Cpu) → pops n (pushes (n + suc k) c) ≡ returns (pushes (suc k) c)
unfolding pops
pops-pushes_inner zero k c = ap (λ j. returns (pushes j c)) (omega arith)
pops-pushes_inner (suc n) k c =
    let off = pushes_off (n + k) c in
    rw (shape, popcli-pushcli_inner (pushes (suc (n + k)) c) off.0 off.1)
      (ap (λ j. pops n (pushes j c)) (omega arith) ∙ pops-pushes_inner n k c)
  where
    shape : pushes (suc n + suc k) c ≡ pushcli (pushes (suc (n + k)) c)
    shape = ap (λ j. pushes j c) (omega arith) ∙ pushes-suc (suc (n + k)) c

pops-pushes_outer :
    (n : ℕ) (c : Cpu)
    → IsValid c
    → pops (suc n) (pushes (suc n) c)
      ≡ returns (record c { intena = if c.ncli == 0 then c.flag else c.intena })
unfolding pops pushes
pops-pushes_outer zero c v = rw (popcli-pushcli_outer c v)
pops-pushes_outer (suc n) c v =
    let off = pushes_off n c in
    rw (popcli-pushcli_inner (pushcli (pushes n c)) off.0 off.1) (pops-pushes_outer n c v)

-- On a CPU where interrupts are off inside every `pushcli`, `n + 1` of them leave interrupts off;
-- up to `n` calls of `popcli` after them keep interrupts off and undo as many, and one more gives
-- back the flag and the count from before. None of the calls panics.
pub pops-pushes :
    (n k : ℕ) (c : Cpu)
    → IsValid c
    → ((pushes (suc k) c).flag ≡ false)
      × (pops n (pushes (n + suc k) c) ≡ returns (pushes (suc k) c))
      × (pops (suc n) (pushes (suc n) c)
          ≡ returns (record c { intena = if c.ncli == 0 then c.flag else c.intena }))
pops-pushes n k c v = ((pushes_off k c).0, pops-pushes_inner n k c, pops-pushes_outer n c v)
