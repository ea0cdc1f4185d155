-- ===== src/Print.antt =====
-- Numbers and text: printint of xv6/console.c and xv6/printf.c, printf of xv6/printf.c and atoi of
-- xv6/ulib.c. Output is the list of the characters for putc; a string is the list of its characters
-- before the NUL.
pub mod Numbers
mod Tests
use tom_cs.Base.{
  ℕ, zero, suc, ◌+◌, ◌-◌, ◌*◌, ◌/◌, ◌%◌, ◌^◌, Bool, true, false, ◌&&◌, ◌||◌, Option, none, some,
  List, [], ◌∷◌, ◌++◌, leb, ltb, ◌==◌, if◌then◌else◌,
}
use mathlib.Core.Option
use tom_cs.Base.Int.{ℤ, pos, negsuc}

-- `digits[d]`
abbrev pub digit : ℕ → ℕ
digit d = if ltb d 10 then d + 48 else d + 55

-- The `do` loop of `printint`, with rounds to spare; `buf` is the list of what it holds, last first.
pub digits_loop : ℕ → ℕ → ℕ → List ℕ → List ℕ
digits_loop zero base x buf = buf
digits_loop (suc n) base x buf =
    let rest = digits_loop n base (x / base) (digit (x % base) ∷ buf) in
    if x / base == 0 then digit (x % base) ∷ buf else rest

-- `x`: the 32 bits of `xx`, or of `-xx` for a negative one that is printed with a sign.
abbrev pub magnitude : ℤ → Bool → ℕ
magnitude (pos n) sgn = n % 2 ^ 32
magnitude (negsuc n) sgn = if sgn then (n + 1) % 2 ^ 32 else 2 ^ 32 - 1 - n % 2 ^ 32

abbrev pub is_negative : ℤ → Bool
is_negative (pos n) = false
is_negative (negsuc n) = true

-- `printint`; a `uint` has at most 32 digits in any base.
pub printint : ℤ → ℕ → Bool → List ℕ
printint xx base sgn =
    let ds = digits_loop 32 base (magnitude xx sgn) [] in
    if sgn && is_negative xx then 45 ∷ ds else ds

-- The loop of `atoi`, in 32 bits.
pub atoi_loop : ℕ → List ℕ → ℕ
atoi_loop n [] = n
atoi_loop n (c ∷ cs) =
    let rest = atoi_loop ((n * 10 + (c - 48)) % 2 ^ 32) cs in
    if leb 48 c && leb c 57 then rest else n

pub atoi : List ℕ → ℕ
atoi s = atoi_loop 0 s

-- An argument of `printf`: a word, the string that it points to, or a null pointer for a string.
pub data Arg : Type 0 where
  word : ℤ → Arg
  str : List ℕ → Arg
  null_str : Arg

-- `*ap` as a word, and as a string.
abbrev pub take_word : (ℤ → List ℕ) → List Arg → Option (List ℕ × List Arg)
take_word f (word w ∷ args) = some (f w, args)
take_word f args = none

abbrev pub take_str : List Arg → Option (List ℕ × List Arg)
take_str (str s ∷ args) = some (s, args)
take_str (null_str ∷ args) = some (40 ∷ 110 ∷ 117 ∷ 108 ∷ 108 ∷ 41 ∷ [], args)
take_str args = none

-- A conversion of `printf` behind a `%`, for the character `c`: what it prints, and the arguments that
-- are left; `none` where `ap` runs off the arguments or finds one of the other kind.
pub convert : ℕ → List Arg → Option (List ℕ × List Arg)
convert c args =
    if c == 100
    then take_word (λ w. printint w 10 true) args
    else (if c == 120 || c == 112
        then take_word (λ w. printint w 16 false) args
        else (if c == 115
            then take_str args
            else (if c == 99
                then take_word (λ w. magnitude w false % 256 ∷ []) args
                else (if c == 37 then some (c ∷ [], args) else some (37 ∷ c ∷ [], args)))))

-- The loop of `printf`: whether the last character was a `%`, and what of the format is left.
pub printf_loop : Bool → List ℕ → List Arg → Option (List ℕ)
printf_loop state [] args = some []
printf_loop false (c ∷ cs) args =
    let rest = printf_loop false cs args in
    let after_percent = printf_loop true cs args in
    if c == 37 then after_percent else Option.map (λ out. c ∷ out) rest
printf_loop true (c ∷ cs) args = elim (convert c args) [
  | none ↦ none
  | some (out, args') ↦ Option.map (λ more. out ++ more) (printf_loop false cs args')
]

pub printf : List ℕ → List Arg → Option (List ℕ)
printf fmt args = printf_loop false fmt args
