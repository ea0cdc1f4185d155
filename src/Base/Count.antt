-- ===== src/Base/Count.antt =====
-- How many of the numbers below a bound meet a test.
use Prim.Native.Nat.{ℕ, zero, suc, ◌+◌, ◌≤◌, ◌<◌}
use mathlib.Core.Path.{◌≡◌, refl}
use mathlib.Core.Logic.{inl, inr, ◌⊎◌}
use mathlib.Core.Bool.{Bool, true, false}
use native.Mathlib.Omega.{arith}
use tom_cs.Base.Tests.{◌==◌, Bool-cases, ltb, if◌then◌else◌}

unfoldable pub count : (ℕ → Bool) → ℕ → ℕ
count p zero = 0
count p (suc n) = if p n then suc (count p n) else count p n

-- One test that differs from another at one number at most.
module _ (p q : ℕ → Bool) (c : ℕ) where
  count_bound :
      (n : ℕ)
      → ((a : ℕ) → a < n → p a ≡ true → (a ≡ c) ⊎ (q a ≡ true))
      → count p n ≤ count q n + (if ltb c n then 1 else 0)
  unfolding count
  count_bound zero but = ground arith
  count_bound (suc n) but =
      ground (arith, count_bound n (λ a lt. but a (omega arith)), but n (omega arith))

  pub count_but_one :
      (n : ℕ) → ((a : ℕ) → a < n → p a ≡ true → (a ≡ c) ⊎ (q a ≡ true)) → count p n ≤ count q n + 1
  count_but_one n but = ground (arith, count_bound n but)

pub count_mono :
    (p q : ℕ → Bool) (n : ℕ) → ((a : ℕ) → a < n → p a ≡ true → q a ≡ true) → count p n ≤ count q n
unfolding count
count_mono p q zero imp = omega arith
count_mono p q (suc n) imp =
    ground (arith, count_mono p q n (λ a lt. imp a (omega arith)), imp n (omega arith))

pub count_none : (p : ℕ → Bool) (n : ℕ) → ((a : ℕ) → a < n → p a ≡ false) → count p n ≡ 0
unfolding count
count_none p zero no_match = refl
count_none p (suc n) no_match =
    ground (arith, count_none p n (λ a lt. no_match a (omega arith)), no_match n (omega arith))

-- A count of 0 leaves no number below the bound that meets the test.
pub count_zero : (p : ℕ → Bool) (n : ℕ) → count p n ≡ 0 → (x : ℕ) → x < n → p x ≡ false
unfolding count
count_zero p zero none_counted x lt = absurd (omega arith)
count_zero p (suc n) none_counted x lt = elim (Bool-cases (p n)) [
  | inl e ↦ let more : suc (count p n) ≡ 0 = rw e at none_counted in absurd (omega arith)
  | inr e ↦
      let fewer : count p n ≡ 0 = rw e at none_counted in
      elim (Bool-cases (x == n)) [
        | inl last ↦ let here : x ≡ n = ground arith in rw here e
        | inr before ↦ count_zero p n fewer x (ground arith)
      ]
]
