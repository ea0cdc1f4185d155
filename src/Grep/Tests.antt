-- ===== src/Grep/Tests.antt =====
-- The matcher on concrete patterns.
use Prim.Native.Char.{code}
use Prim.Native.String.{String}
use tom_cs.Base.{ℕ, true, false, List, [], ◌∷◌, ◌≡◌, ◌↔◌, refl}
use tom_cs.Grep.{match_char, matchstar, matchhere, match_loop, match}
use tom_cs.Grep.Regex.{Means, match_iff}

abbrev bytes : String → List ℕ
bytes String.[] = []
bytes (String.◌∷◌ c s) = code c ∷ bytes s

star_runs :
    (match (bytes "ab*c$") (bytes "xabbbc") ≡ true) × (match (bytes "^b*c") (bytes "ac") ≡ false)
unfolding match matchhere matchstar match_char match_loop
star_runs = (refl, refl)

dollar_is_plain_inside :
    (match (bytes "a$b") (bytes "xa$by") ≡ true) × (match (bytes "^$") [] ≡ true)
unfolding match matchhere matchstar match_char match_loop
dollar_is_plain_inside = (refl, refl)

match_iff_example : (match (bytes "ab*") (bytes "xab") ≡ true) ↔ Means (bytes "ab*") (bytes "xab")
match_iff_example = match_iff (bytes "ab*") (bytes "xab")
