-- ===== src/Print/Tests.antt =====
-- Runs of the models of xv6/printf.c and xv6/ulib.c.
use tom_cs.Base.{◌≡◌, refl, true, false, [], ◌∷◌, some, arith}
use tom_cs.Base.Int.{pos, negsuc}
use tom_cs.Print.{printint, digits_loop, atoi, convert, printf_loop, printf, word}
use tom_cs.Print.Numbers.{atoi-printint}

printint_negative : printint (negsuc 41) 10 true ≡ 45 ∷ 52 ∷ 50 ∷ []
unfolding printint digits_loop
printint_negative = refl

printint_hex : printint (negsuc 0) 16 false ≡ 70 ∷ 70 ∷ 70 ∷ 70 ∷ 70 ∷ 70 ∷ 70 ∷ 70 ∷ []
unfolding printint digits_loop
printint_hex = refl

atoi-printint_example : atoi (printint (pos 1024) 10 true) ≡ 1024
atoi-printint_example = atoi-printint 1024 (omega arith)

printf_run :
    printf (120 ∷ 61 ∷ 37 ∷ 100 ∷ 37 ∷ 37 ∷ []) (word (pos 42) ∷ [])
    ≡ some (120 ∷ 61 ∷ 52 ∷ 50 ∷ 37 ∷ [])
unfolding printint digits_loop printf printf_loop convert
printf_run = refl
