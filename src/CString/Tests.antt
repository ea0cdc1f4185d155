-- ===== src/CString/Tests.antt =====
-- The string routines on a small memory, and the theorems there.
use tom_cs.Base.{zero, suc, ◌+◌, ◌-◌, ◌≡◌, refl, [], ◌∷◌, if◌then◌else◌, get_or, some, arith}
use tom_cs.Base.Int.{pos, negsuc}
use tom_cs.CString.{
  Memory, memset, memcmp, copy_down, copy_up, memmove, strncmp, pad, strncpy, strlen,
}
use tom_cs.CString.Move.{within, memmove_lem}
use tom_cs.CString.Compare.{NoNul, strlen_lem}

-- "abc" at 1, "abd" at 5.
abbrev words : Memory
words x = get_or (0 ∷ 97 ∷ 98 ∷ 99 ∷ 0 ∷ 97 ∷ 98 ∷ 100 ∷ 0 ∷ []) x 0

compare_runs :
    (strncmp 1 5 2 words ≡ pos 0) × (strncmp 1 5 3 words ≡ negsuc 0) × (memcmp 5 1 3 words ≡ pos 1)
unfolding strncmp memcmp
compare_runs = (refl, refl, refl)

strlen_runs : strlen 10 1 words ≡ some 3
unfolding strlen
strlen_runs = refl

strncpy_pads :
    let r = strncpy 20 1 6 (memset 20 7 8 words) in
    (r 22 ≡ 99) × (r 23 ≡ 0) × (r 25 ≡ 0) × (r 26 ≡ 7)
unfolding strncpy pad memset
strncpy_pads = (refl, refl, refl, refl)

memmove_lem_example :
    memmove 2 1 3 words 3 ≡ (if within 2 3 3 then words (1 + (3 - 2)) else words 3)
memmove_lem_example = memmove_lem 2 1 3 words 3

memmove_overlaps : (memmove 2 1 3 words 2 ≡ 97) × (memmove 2 1 3 words 4 ≡ 99)
unfolding memmove copy_down copy_up
memmove_overlaps = (refl, refl)

abc-NoNul : NoNul 1 3 words
abc-NoNul zero lt = omega arith
abc-NoNul (suc zero) lt = omega arith
abc-NoNul (suc (suc zero)) lt = omega arith
abc-NoNul (suc (suc (suc j))) lt = absurd (omega arith)

strlen_lem_example : strlen 4 1 words ≡ some 3
strlen_lem_example = strlen_lem 3 1 words abc-NoNul refl
