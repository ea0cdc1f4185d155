-- ===== src/CString/Compare.antt =====
-- When `memcmp` and `strncmp` return 0, and what `strlen` counts.
use tom_cs.Base.{
  ℕ, zero, suc, ◌+◌, ◌<◌, ◌≡◌, ◌≢◌, ◌↔◌, inl, inr, refl, sym, ap, ◌∙◌, ◌==◌, some, Bool-cases,
  arith,
}
use tom_cs.Base.Int.{pos}
use tom_cs.CString.{Memory, strncmp, strlen}

-- No NUL among the `k` bytes from `p` on.
abbrev pub NoNul : ℕ → ℕ → Memory → Type 0
NoNul p k m = (j : ℕ) → j < k → m (p + j) ≢ 0

-- The strings agree up to their NULs, or up to `n` bytes.
abbrev pub SameString : ℕ → ℕ → ℕ → Memory → Type 0
SameString p q n m = (k : ℕ) → k < n → NoNul p k m → m (p + k) ≡ m (q + k)

module _ (m : Memory) where
  at_zero : (p : ℕ) → m (p + 0) ≡ m p
  at_zero p = ap m (omega arith)

  at_suc : (p k : ℕ) → m (p + suc k) ≡ m (p + 1 + k)
  at_suc p k = ap m (omega arith)

  NoNul-suc : (p k : ℕ) → m p ≢ 0 → NoNul (p + 1) k m → NoNul p (suc k) m
  NoNul-suc p k h rest zero lt = ground (arith, at_zero p)
  NoNul-suc p k h rest (suc j) lt = ground (arith, at_suc p j, rest j)

  NoNul-tail : (p k : ℕ) → NoNul p (suc k) m → NoNul (p + 1) k m
  NoNul-tail p k h j lt = ground (arith, at_suc p j, h (suc j))

  strncmp-zero : (p q n : ℕ) → strncmp p q n m ≡ pos 0 → SameString p q n m
  unfolding strncmp
  strncmp-zero p q zero e k lt nn = absurd (omega arith)
  strncmp-zero p q (suc n) e zero lt nn = ground (arith, at_zero p, at_zero q)
  strncmp-zero p q (suc n) e (suc k) lt nn =
      let rest : strncmp (p + 1) (q + 1) n m ≡ pos 0 = ground (arith, at_zero p, nn 0) in
      at_suc p k
      ∙ strncmp-zero (p + 1) (q + 1) n rest k (omega arith) (NoNul-tail p k nn)
      ∙ sym (at_suc q k)

  SameString-tail :
      (p q n : ℕ) → m p ≢ 0 → SameString p q (suc n) m → SameString (p + 1) (q + 1) n m
  SameString-tail p q n h same k lt nn =
      ground (arith, at_suc p k, at_suc q k, same (suc k) (omega arith) (NoNul-suc p k h nn))

  SameString-zero : (p q n : ℕ) → SameString p q n m → strncmp p q n m ≡ pos 0
  unfolding strncmp
  SameString-zero p q zero same = refl
  SameString-zero p q (suc n) same =
      let first : m (p + 0) ≡ m (q + 0) = same 0 (omega arith) (λ j lt. absurd (omega arith)) in
      let here : m p ≡ m q = cc (at_zero p, at_zero q) in
      elim (Bool-cases (m p == 0)) [
        | inl nul ↦ ground arith
        | inr more ↦
            ground
              (arith, SameString-zero (p + 1) (q + 1) n (SameString-tail p q n (ground arith) same))
      ]

-- `strncmp` returns 0 exactly for strings that agree, byte by byte, up to the first NUL or up to
-- `n` bytes.
pub strncmp_iff : (p q n : ℕ) (m : Memory) → (strncmp p q n m ≡ pos 0) ↔ SameString p q n m
strncmp_iff p q n m = (strncmp-zero m p q n, SameString-zero m p q n)

-- If the first NUL from `s` on is the byte `s + k`, then `strlen` returns `k` within `k + 1` rounds.
pub strlen_lem : (k s : ℕ) (m : Memory) → NoNul s k m → m (s + k) ≡ 0 → strlen (suc k) s m ≡ some k
unfolding strlen
strlen_lem zero s m nn e = ground (arith, at_zero m s)
strlen_lem (suc k) s m nn e =
    let rest : strlen (suc k) (s + 1) m ≡ some k =
      strlen_lem k (s + 1) m (NoNul-tail m s k nn) (sym (at_suc m s k) ∙ e) in
    ground (arith, at_zero m s, nn 0)
