-- ===== src/Print/Numbers.antt =====
-- A number that printint prints is the one that atoi reads.
use tom_cs.Base.{
  ℕ, zero, suc, ◌+◌, ◌*◌, ◌/◌, ◌%◌, ◌^◌, ◌≤◌, ◌<◌, ◌≡◌, inl, inr, refl, Bool, true, false, List, [],
  ◌∷◌, ◌==◌, arith, Bool-cases, length,
}
use tom_cs.Base.Int.{ℤ, pos, negsuc}
use native.Mathlib.Numerals.{unary_clauses}
use tom_cs.Print.{magnitude, digit, digits_loop, printint, atoi_loop, atoi}

half : (f x : ℕ) → x < 2 ^ suc f → x / 10 < 2 ^ f
half f x lt = let e : x < 2 ^ f * 2 = simp unary_clauses at lt in omega arith

atoi_loop-digit :
    (n d : ℕ) (cs : List ℕ)
    → d < 10
    → atoi_loop n (digit d ∷ cs) ≡ atoi_loop ((n * 10 + d) % 2 ^ 32) cs
unfolding atoi_loop
atoi_loop-digit n d cs lt = ground arith

-- Reading the digits of `x` in front of `cs` goes on behind them with `x`.
atoi_loop-digits_loop :
    (f x : ℕ) (cs : List ℕ)
    → x < 2 ^ f
    → x < 2 ^ 32
    → 0 < f
    → atoi_loop 0 (digits_loop f 10 x cs) ≡ atoi_loop x cs
unfolding digits_loop
atoi_loop-digits_loop zero x cs lt small some_fuel = absurd (omega arith)
atoi_loop-digits_loop (suc f) x cs lt small some_fuel = elim (Bool-cases (x / 10 == 0)) [
  | inl e ↦
      let same : (0 * 10 + x % 10) % 2 ^ 32 ≡ x = ground arith in
      rw (e, atoi_loop-digit 0 (x % 10) cs (omega arith), same) refl
  | inr e ↦
      let same : (x / 10 * 10 + x % 10) % 2 ^ 32 ≡ x = omega arith in
      let some_left : 0 < f = ground (arith, half f x lt) in
      rw
        (
          e,
          atoi_loop-digits_loop f (x / 10) (digit (x % 10) ∷ cs) (half f x lt) (omega arith)
              some_left,
          atoi_loop-digit (x / 10) (x % 10) cs (omega arith),
          same,
        )
        refl
]

-- What printint prints for a number below 2 ^ 31, atoi reads back.
pub atoi-printint : (x : ℕ) → x < 2 ^ 31 → atoi (printint (pos x) 10 true) ≡ x
unfolding atoi printint atoi_loop
atoi-printint x small =
    let bits : x % 2 ^ 32 ≡ x = omega arith in
    rw bits (atoi_loop-digits_loop 32 x [] (omega arith) (omega arith) (omega arith))

tenth : (k x : ℕ) → x < 10 ^ suc k → x / 10 < 10 ^ k
tenth k x lt = let e : x < 10 ^ k * 10 = simp unary_clauses at lt in omega arith

-- A number below 10 ^ (k + 1) has at most k + 1 digits, whatever rounds there are.
length-digits_loop :
    (f k x : ℕ) (buf : List ℕ)
    → x < 10 ^ suc k
    → length (digits_loop f 10 x buf) ≤ length buf + suc k
unfolding digits_loop
length-digits_loop zero k x buf lt = omega arith
length-digits_loop (suc f) zero x buf lt =
    let e : (x / 10 == 0) ≡ true = ground arith in rw e (omega arith)
length-digits_loop (suc f) (suc k) x buf lt =
    let h = length-digits_loop f k (x / 10) (digit (x % 10) ∷ buf) (tenth (suc k) x lt) in
    elim (Bool-cases (x / 10 == 0)) [ inl e ↦ rw e (omega arith) | inr e ↦ rw e (omega (arith, h)) ]

magnitude-below : (xx : ℤ) (sgn : Bool) → magnitude xx sgn < 10 ^ 10
magnitude-below (pos n) sgn = omega arith
magnitude-below (negsuc n) true = omega arith
magnitude-below (negsuc n) false = omega arith

-- In base 10, printint needs at most 11 of the 16 bytes of its buffer.
pub length-printint : (xx : ℤ) (sgn : Bool) → length (printint xx 10 sgn) ≤ 11
unfolding printint
length-printint xx sgn =
    let h = length-digits_loop 32 9 (magnitude xx sgn) [] (magnitude-below xx sgn) in
    ground (arith, h)
