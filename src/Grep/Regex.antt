-- ===== src/Grep/Regex.antt =====
-- What a pattern means, apart from how the matcher searches: `match` decides that meaning.
use mathlib.Core.Path.{subst}
use tom_cs.Base.{
  ℕ, Bool, true, List, [], ◌∷◌, ◌++◌, ◌==◌, if◌then◌else◌, ◌≡◌, ◌↔◌, ◌⊎◌, inl, inr, refl, sym, ap,
  Bool-cases, drop, arith,
}
use tom_cs.Grep.{fits, match_char, matchstar, at_end, matchhere, match_loop, match}

-- A byte, a byte any number of times, or the end of the line.
pub data Item : Type 0 where
  one : ℕ → Item
  many : ℕ → Item
  line_end : Item

-- `*` behind a byte binds to it, and `$` stands for the end in last place only.
pub parse : List ℕ → List Item
parse [] = []
parse (c ∷ []) = (if c == b'$' then line_end else one c) ∷ []
parse (c ∷ d ∷ re) =
    let starred = parse re in
    let plain = parse (d ∷ re) in if d == b'*' then many c ∷ starred else one c ∷ plain

-- The items match a front part of the text.
pub data Matches : List Item → List ℕ → Type 0 where
  done : {t : List ℕ} → Matches [] t
  end_here : Matches (line_end ∷ []) []
  char :
      {c x : ℕ} {is : List Item} {t : List ℕ}
      → fits c x ≡ true
      → Matches is t
      → Matches (one c ∷ is) (x ∷ t)
  enough : {c : ℕ} {is : List Item} {t : List ℕ} → Matches is t → Matches (many c ∷ is) t
  again :
      {c x : ℕ} {is : List Item} {t : List ℕ}
      → fits c x ≡ true
      → Matches (many c ∷ is) t
      → Matches (many c ∷ is) (x ∷ t)

-- `here` decides the items.
abbrev Decides : (List ℕ → Bool) → List Item → Type 0
Decides here is = (t : List ℕ) → (here t ≡ true) ↔ Matches is t

at_end-Decides : Decides at_end (line_end ∷ [])
at_end-Decides [] = (λ h. end_here, λ m. refl)
at_end-Decides (x ∷ t) = (λ h. cc, λ m. elim m [ ])

one-nil : {c : ℕ} {is : List Item} → ¬ Matches (one c ∷ is) []
one-nil m = elim m [ ]

one-cons :
    {c x : ℕ} {is : List Item} {t : List ℕ}
    → Matches (one c ∷ is) (x ∷ t)
    → (fits c x ≡ true) × Matches is t
one-cons (char f m) = (f, m)

many-nil : {c : ℕ} {is : List Item} → Matches (many c ∷ is) [] → Matches is []
many-nil (enough m) = m

many-cons :
    {c x : ℕ} {is : List Item} {t : List ℕ}
    → Matches (many c ∷ is) (x ∷ t)
    → Matches is (x ∷ t) ⊎ (fits c x ≡ true) × Matches (many c ∷ is) t
many-cons (enough m) = inl m
many-cons (again f m) = inr (f, m)

module _ (c : ℕ) (here : List ℕ → Bool) (is : List Item) (d : Decides here is) where
  match_char-Decides : Decides (match_char c here) (one c ∷ is)
  unfolding match_char
  match_char-Decides [] = (λ h. cc, λ m. absurd (one-nil m))
  match_char-Decides (x ∷ t) = (
    λ h. char (ground arith) ((d t).0 (ground arith)),
    λ m. let (f, rest) = one-cons m in rw f ((d t).1 rest),
  )

  matchstar-Decides : Decides (matchstar c here) (many c ∷ is)
  unfolding matchstar
  matchstar-Decides [] = (λ h. enough ((d []).0 h), λ m. (d []).1 (many-nil m))
  matchstar-Decides (x ∷ t) = (
    λ h. elim (Bool-cases (here (x ∷ t))) [
      | inl now ↦ enough ((d (x ∷ t)).0 now)
      | inr later ↦ again (ground arith) ((matchstar-Decides t).0 (ground arith))
    ],
    λ m. elim (many-cons m) [
      | inl now ↦ rw ((d (x ∷ t)).1 now)
      | inr (f, rest) ↦ ground (arith, (matchstar-Decides t).1 rest)
    ],
  )

-- `matchhere` decides whether the items of the pattern match a front part of the text.
pub matchhere-Decides : (re : List ℕ) → Decides (matchhere re) (parse re)
unfolding matchhere parse
matchhere-Decides [] t = (λ h. done, λ m. refl)
matchhere-Decides (c ∷ []) t = elim (Bool-cases (c == b'$')) [
  | inl dollar ↦ rw dollar (at_end-Decides t)
  | inr other ↦ rw other (match_char-Decides c (λ t. true) [] (λ t. (λ h. done, λ m. refl)) t)
]
matchhere-Decides (c ∷ d ∷ re) t = elim (Bool-cases (d == b'*')) [
  | inl star ↦ rw star (matchstar-Decides c (matchhere re) (parse re) (matchhere-Decides re) t)
  | inr plain ↦
      rw plain
        (match_char-Decides c (matchhere (d ∷ re)) (parse (d ∷ re)) (matchhere-Decides (d ∷ re)) t)
]

-- The items match somewhere in the text.
abbrev pub MatchesWithin : List Item → List ℕ → Type 0
MatchesWithin is t = (u : List ℕ) × (v : List ℕ) × (t ≡ u ++ v) × Matches is v

within-cons : {is : List Item} {t : List ℕ} (x : ℕ) → MatchesWithin is t → MatchesWithin is (x ∷ t)
within-cons x (u, v, e, m) = (x ∷ u, v, ap (λ l. x ∷ l) e, m)

within-cases :
    {is : List Item} {x : ℕ} {t : List ℕ}
    → MatchesWithin is (x ∷ t)
    → Matches is (x ∷ t) ⊎ MatchesWithin is t
within-cases {is} ([], v, e, m) = inl (subst (Matches is) (sym e) m)
within-cases (y ∷ u, v, e, m) = inr (u, v, ap (drop 1) e, m)

within-nil : {is : List Item} → MatchesWithin is [] → Matches is []
within-nil {is} ([], v, e, m) = subst (Matches is) (sym e) m
within-nil (y ∷ u, v, e, m) = cc

match_loop-Decides :
    (here : List ℕ → Bool) (is : List Item)
    → Decides here is
    → (t : List ℕ) → (match_loop here t ≡ true) ↔ MatchesWithin is t
unfolding match_loop
match_loop-Decides here is d [] = (λ h. ([], [], refl, (d []).0 h), λ w. (d []).1 (within-nil w))
match_loop-Decides here is d (x ∷ t) = (
  λ h. elim (Bool-cases (here (x ∷ t))) [
    | inl now ↦ ([], x ∷ t, refl, (d (x ∷ t)).0 now)
    | inr later ↦ within-cons x ((match_loop-Decides here is d t).0 (ground arith))
  ],
  λ w. elim (within-cases w) [
    | inl now ↦ rw ((d (x ∷ t)).1 now)
    | inr later ↦ ground (arith, (match_loop-Decides here is d t).1 later)
  ],
)

-- The meaning of a whole pattern: `^` in first place binds it to the start of the text.
pub Means : List ℕ → List ℕ → Type 0
Means [] t = MatchesWithin (parse []) t
Means (c ∷ re) t = if c == b'^' then Matches (parse re) t else MatchesWithin (parse (c ∷ re)) t

-- `match` returns true exactly when the items of the pattern (bytes, `.`, starred bytes, a last `$`)
-- match some part of the text, and with a first `^` a part at its start.
pub match_iff : (re t : List ℕ) → (match re t ≡ true) ↔ Means re t
unfolding match Means
match_iff [] t = match_loop-Decides (matchhere []) (parse []) (matchhere-Decides []) t
match_iff (c ∷ re) t = elim (Bool-cases (c == b'^')) [
  | inl start ↦ rw start (matchhere-Decides re t)
  | inr free ↦
      rw free
        (match_loop-Decides (matchhere (c ∷ re)) (parse (c ∷ re)) (matchhere-Decides (c ∷ re)) t)
]
