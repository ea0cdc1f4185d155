-- ===== src/Grep.antt =====
-- xv6/grep.c: the regular-expression matcher. A string is the list of its bytes before the NUL.
pub mod Regex
mod Tests
use tom_cs.Base.{ℕ, Bool, true, false, ◌&&◌, ◌||◌, List, [], ◌∷◌, ◌==◌, if◌then◌else◌}

-- `re[0]=='.' || re[0]==*text`
abbrev pub fits : ℕ → ℕ → Bool
fits c x = c == b'.' || c == x

-- `matchhere(re+1, text+1)` behind a byte that fits; `here` is `matchhere(re+1, ·)`.
pub match_char : ℕ → (List ℕ → Bool) → List ℕ → Bool
match_char c here [] = false
match_char c here (x ∷ text) = if fits c x then here text else false

-- `matchstar`; `here` is `matchhere(re, ·)`.
pub matchstar : ℕ → (List ℕ → Bool) → List ℕ → Bool
matchstar c here [] = here []
matchstar c here (x ∷ text) =
    let rest = matchstar c here text in
    if here (x ∷ text) then true else (if x == c || c == b'.' then rest else false)

abbrev pub at_end : List ℕ → Bool
at_end [] = true
at_end (x ∷ text) = false

pub matchhere : List ℕ → List ℕ → Bool
matchhere [] text = true
matchhere (c ∷ []) text = if c == b'$' then at_end text else match_char c (λ t. true) text
matchhere (c ∷ d ∷ re) text =
    let here = matchhere re in
    let next = matchhere (d ∷ re) in
    if d == b'*' then matchstar c here text else match_char c next text

-- The `do` loop of `match`: also the empty string behind the text is tried.
pub match_loop : (List ℕ → Bool) → List ℕ → Bool
match_loop here [] = here []
match_loop here (x ∷ text) =
    let rest = match_loop here text in if here (x ∷ text) then true else rest

pub match : List ℕ → List ℕ → Bool
match [] text = match_loop (matchhere []) text
match (c ∷ re) text = if c == b'^' then matchhere re text else match_loop (matchhere (c ∷ re)) text
