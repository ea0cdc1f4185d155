-- ===== src/Fs/Path/Elements.antt =====
-- The elements of a path, as skipelem of xv6/fs.c cuts them off, and the rounds of _namei.
use tom_cs.Base.{
  take, ℕ, zero, suc, ◌<◌, ◌≤◌, ◌≡◌, ◌≢◌, ap, refl, ◌∙◌, inl, inr, false, List, [], ◌∷◌, ◌++◌, map,
  Option, none, some, ◌==◌, length, length-append, arith, Bool-cases,
}
use tom_cs.Fs.Disk.{Disk}
use tom_cs.Fs.Icache.{Icache}
use tom_cs.Fs.Dir.{name_size}
use tom_cs.Fs.Path.{slash, skip_slashes, split_elem, cut_elem, skipelem}

skip_slashes_le : (p : List ℕ) → length (skip_slashes p) ≤ length p
unfolding skip_slashes
skip_slashes_le [] = omega arith
skip_slashes_le (x ∷ xs) = ground (arith, skip_slashes_le xs)

split_elem_le : (p : List ℕ) → length (split_elem p).1 ≤ length p
unfolding split_elem
split_elem_le [] = omega arith
split_elem_le (x ∷ xs) = ground (arith, split_elem_le xs)

-- The first byte behind the slashes is none.
skip_slashes_head :
    (p : List ℕ) (x : ℕ) (xs : List ℕ) → skip_slashes p ≡ x ∷ xs → (x == slash) ≡ false
unfolding skip_slashes
skip_slashes_head [] x xs e = absurd cc
skip_slashes_head (y ∷ ys) x xs e = elim (Bool-cases (y == slash)) [
  | inl s ↦ skip_slashes_head ys x xs (rw s at e)
  | inr s ↦ let e' = rw s at e in cc (s, e')
]

cut_elem_lt :
    (path name rest : List ℕ)
    → ((x : ℕ) (xs : List ℕ) → path ≡ x ∷ xs → (x == slash) ≡ false)
    → cut_elem path ≡ some (name, rest)
    → length rest < length path
unfolding cut_elem split_elem
cut_elem_lt [] name rest head e = absurd (cc e)
cut_elem_lt (x ∷ xs) name rest head e =
    let other = head x xs refl in
    let e' = rw other at e in
    let shorter = skip_slashes_le (split_elem xs).1 in
    let shorter' = split_elem_le xs in
    let same : skip_slashes (split_elem xs).1 ≡ rest = cc e' in
    let same' = ap length same in omega (arith, shorter, shorter', same')

-- An element is cut off, so that the path behind it is shorter.
pub skipelem_lt :
    (path name rest : List ℕ) → skipelem path ≡ some (name, rest) → length rest < length path
unfolding skipelem
skipelem_lt path name rest e = omega (
  arith,
  cut_elem_lt (skip_slashes path) name rest (skip_slashes_head path) e,
  skip_slashes_le path,
)

-- An element, and those of the path behind it.
cons_elem : (List ℕ → List (List ℕ)) → Option (List ℕ × List ℕ) → List (List ℕ)
cons_elem next none = []
cons_elem next (some (name, rest)) = name ∷ next rest

-- The elements that the rounds cut off, `n` at most.
pub elements : ℕ → List ℕ → List (List ℕ)
elements zero path = []
elements (suc n) path = cons_elem (elements n) (skipelem path)

-- A path with a slash before each name.
pub path_of : List (List ℕ) → List ℕ
path_of [] = []
path_of (name ∷ names) = slash ∷ (name ++ path_of names)

abbrev pub NoSlash : List ℕ → Type 0
NoSlash [] = Unit
NoSlash (x ∷ xs) = (x ≢ slash) × NoSlash xs

-- Names as they stand in a path.
abbrev pub IsName : List ℕ → Type 0
IsName [] = ⊥
IsName (x ∷ xs) = (x ≢ slash) × NoSlash xs

abbrev pub AllNames : List (List ℕ) → Type 0
AllNames [] = Unit
AllNames (name ∷ names) = IsName name × AllNames names

skip_slashes_twice : (p : List ℕ) → skip_slashes (skip_slashes p) ≡ skip_slashes p
unfolding skip_slashes
skip_slashes_twice [] = refl
skip_slashes_twice (x ∷ xs) = elim (Bool-cases (x == slash)) [
  | inl e ↦ rw e (skip_slashes_twice xs)
  | inr e ↦ rw (e, e) refl
]

elements-skip_slashes : (n : ℕ) (p : List ℕ) → elements n (skip_slashes p) ≡ elements n p
unfolding elements skipelem
elements-skip_slashes zero p = refl
elements-skip_slashes (suc n) p =
    ap (λ q. cons_elem (elements n) (cut_elem q)) (skip_slashes_twice p)

split_elem-append :
    (name : List ℕ) (names : List (List ℕ))
    → NoSlash name
    → split_elem (name ++ path_of names) ≡ (name, path_of names)
unfolding split_elem path_of
split_elem-append [] [] h = refl
split_elem-append [] (n ∷ ns) h = refl
split_elem-append (x ∷ xs) names (ne, h) =
    let other : (x == slash) ≡ false = ground arith in
    let rest = split_elem-append xs names h in rw (other, rest) refl

skipelem-path_of :
    (name : List ℕ) (names : List (List ℕ))
    → IsName name
    → skipelem (path_of (name ∷ names)) ≡ some (take name_size name, skip_slashes (path_of names))
unfolding skipelem cut_elem path_of skip_slashes
skipelem-path_of [] names h = absurd h
skipelem-path_of (x ∷ xs) names h =
    let other : (x == slash) ≡ false = ground (arith, h.0) in
    let rest = split_elem-append (x ∷ xs) names h in rw (other, rest) refl

skipelem-none : skipelem (path_of []) ≡ none
unfolding skipelem cut_elem skip_slashes path_of
skipelem-none = refl

elements-names :
    (n : ℕ) (names : List (List ℕ))
    → length names < n
    → AllNames names
    → elements n (path_of names) ≡ map (take name_size) names
unfolding elements cons_elem
elements-names zero names lt h = absurd (omega arith)
elements-names (suc n) [] lt h = ap (cons_elem (elements n)) skipelem-none
elements-names (suc n) (name ∷ names) lt (h, hs) =
    ap (cons_elem (elements n)) (skipelem-path_of name names h)
    ∙ ap (λ rest. take name_size name ∷ rest)
        (elements-skip_slashes n (path_of names) ∙ elements-names n names (omega arith) hs)

length-path_of : (names : List (List ℕ)) → length names ≤ length (path_of names)
unfolding path_of
length-path_of [] = omega arith
length-path_of (name ∷ names) =
    omega (arith, length-append name (path_of names), length-path_of names)

-- From a path made of names, each after a slash and none empty or with a slash in it, skipelem
-- cuts off in turn those names, of each the first 14 bytes at most, and then nothing.
pub elements-path_of :
    (names : List (List ℕ))
    → AllNames names
    → elements (suc (length (path_of names))) (path_of names) ≡ map (take name_size) names
elements-path_of names h =
    elements-names (suc (length (path_of names))) names (omega (arith, length-path_of names)) h
