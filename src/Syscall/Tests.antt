-- ===== src/Syscall/Tests.antt =====
-- Runs of the models of xv6/syscall.c on concrete memory.
use tom_cs.Base.{◌≡◌, refl, none, some, ◌==◌, ◌||◌, if◌then◌else◌, arith, ltb}
use tom_cs.CString.{Memory}
use tom_cs.Syscall.{Caller, fetchint, argptr, argint}
use tom_cs.Syscall.Bounds.{TakesPtr, argptr-TakesPtr}

abbrev caller : Caller
caller = record { mem = 4096; sz = 8192; esp = 8000 }

-- The first argument is 100, and a string ends at 4103; the other bytes before are 7.
abbrev memory : Memory
memory x = if x == 12100 then 100 else (if x == 4103 || ltb 12100 x then 0 else 7)

fetchint_outside : fetchint caller 8189 memory ≡ none
unfolding fetchint
fetchint_outside = refl

argptr_inside : argptr caller 0 8091 memory ≡ some 4196
unfolding argptr argint fetchint
argptr_inside = refl

-- A block that ends with the memory is refused.
argptr_at_end : argptr caller 0 8092 memory ≡ none
unfolding argptr argint fetchint
argptr_at_end = refl

argptr-TakesPtr_example : TakesPtr caller 0 512 memory (argptr caller 0 512 memory)
argptr-TakesPtr_example = argptr-TakesPtr caller memory 0 512 (omega arith) (omega arith)
