-- ===== src/Files/Descriptors.antt =====
-- The descriptors of a process in xv6/sysfile.c: dup and close.
use mathlib.Core.Path.{fun_ext}
use tom_cs.Base.{
  ℕ, zero, suc, ◌+◌, ◌-◌, ◌<◌, ◌≡◌, ◌≢◌, inl, inr, refl, ap, ◌∙◌, List, [], ◌∷◌, Option, none, some,
  ◌==◌, arith, Bool-cases, update, Outcome, returns, panics, ◌>>=◌, get_elem?, set,
}
use tom_cs.Base.Int.{ℤ, pos, negsuc}
use tom_cs.Files.{max_file, File, filedup, nothing, fileclose, fdalloc, argfd, sys_dup, sys_close}
use tom_cs.Files.Refs.{Counts}

-- The lowest descriptor that is not in use.
abbrev pub Lowest : List (Option ℕ) → ℕ → Type 0
Lowest os n = (get_elem? os n ≡ some none) × ((i : ℕ) → i < n → get_elem? os i ≢ some none)

abbrev pub FdAllocs : ℕ → ℕ → List (Option ℕ) → Option (ℕ × List (Option ℕ)) → Type 0
FdAllocs f k os none = (i : ℕ) → get_elem? os i ≢ some none
FdAllocs f k os (some (d, l)) = (n : ℕ) × (d ≡ k + n) × (l ≡ set os n (some f)) × Lowest os n

below-cons :
    (g : ℕ) (os : List (Option ℕ)) (n : ℕ)
    → ((i : ℕ) → i < n → get_elem? os i ≢ some none)
    → (i : ℕ) → i < suc n
    → get_elem? (some g ∷ os) i ≢ some none
below-cons g os n before zero lt = cc
below-cons g os n before (suc i) lt = before i (omega arith)

taken-cons :
    (g : ℕ) (os : List (Option ℕ))
    → ((i : ℕ) → get_elem? os i ≢ some none)
    → (i : ℕ) → get_elem? (some g ∷ os) i ≢ some none
taken-cons g os all zero = cc
taken-cons g os all (suc i) = all i

FdAllocs-cons :
    (f k g : ℕ) (os : List (Option ℕ)) (r : Option (ℕ × List (Option ℕ)))
    → FdAllocs f (k + 1) os r
    → FdAllocs f k (some g ∷ os) (elim r [ none ↦ none | some (d, l) ↦ some (d, some g ∷ l) ])
FdAllocs-cons f k g os none all = taken-cons g os all
FdAllocs-cons f k g os (some (d, l)) (n, e, s, (low, before)) =
    (suc n, omega arith, ap (λ x. some g ∷ x) s, (low, below-cons g os n before))

pub fdalloc-FdAllocs : (f k : ℕ) (os : List (Option ℕ)) → FdAllocs f k os (fdalloc f k os)
unfolding fdalloc
fdalloc-FdAllocs f k [] = λ i. cc
fdalloc-FdAllocs f k (none ∷ os) = (0, omega arith, refl, (refl, λ i lt. absurd (omega arith)))
fdalloc-FdAllocs f k (some g ∷ os) =
    FdAllocs-cons f k g os (fdalloc f (k + 1) os) (fdalloc-FdAllocs f (k + 1) os)

set-back :
    (os : List (Option ℕ)) (n f : ℕ)
    → get_elem? os n ≡ some none
    → set (set os n (some f)) n none ≡ os
set-back [] n f e = refl
set-back (o ∷ os) zero f e = let same : none ≡ o = cc in ap (λ x. x ∷ os) same
set-back (o ∷ os) (suc n) f e = ap (λ x. o ∷ x) (set-back os n f e)

get-set :
    (os : List (Option ℕ)) (n f : ℕ)
    → get_elem? os n ≡ some none
    → get_elem? (set os n (some f)) n ≡ some (some f)
get-set [] n f e = absurd cc
get-set (o ∷ os) zero f e = refl
get-set (o ∷ os) (suc n) f e = get-set os n f e

-- What `dup` of the descriptor of `f` may come to.
abbrev pub Dups :
    (ℕ → ℕ) → (ℕ → File) → List (Option ℕ) → ℕ → Outcome (ℤ × List (Option ℕ) × (ℕ → File)) → Type 0
Dups held t ofile f (panics e) = ⊥
Dups held t ofile f (returns (negsuc n, l, t')) =
    (n ≡ 0) × ((i : ℕ) → get_elem? ofile i ≢ some none) × (l ≡ ofile) × (t' ≡ t)
Dups held t ofile f (returns (pos d, l, t')) =
    Lowest ofile d
    × (l ≡ set ofile d (some f))
    × Counts (update held f (held f + 1)) t'
    × (sys_close d l t' ≡ returns (pos 0, ofile, nothing, t))

module _ (held : ℕ → ℕ) (t : ℕ → File) (c : Counts held t) (f : ℕ) (lt : f < max_file)
    (has : 0 < held f) where
  more : ℕ → File
  more = update t f (record (t f) { ref = (t f).ref + 1 })

  filedup-more : filedup f t ≡ returns more
  unfolding filedup more
  filedup-more = ground (arith, c f lt)

  more-Counts : Counts (update held f (held f + 1)) more
  unfolding more
  more-Counts j l = (ground (arith, c j l), ground (arith, c j l))

  less : ℕ → File
  unfolding more
  less = update more f (record (more f) { ref = (more f).ref - 1 })

  fileclose-less : fileclose f more ≡ returns (nothing, less)
  unfolding fileclose more less
  fileclose-less = ground (arith, c f lt)

  less_at : (j : ℕ) → less j ≡ t j
  unfolding more less
  less_at j = elim (Bool-cases (f == j)) [
    | inr e ↦ ground arith
    | inl e ↦
        let same : (t f).ref + 1 - 1 ≡ (t f).ref = omega arith in
        ground (arith, ap (λ r. record (t f) { ref = r }) same)
  ]

  fileclose-more : fileclose f more ≡ returns (nothing, t)
  fileclose-more = fileclose-less ∙ ap (λ u. returns (nothing, u)) (fun_ext less_at)

  close-dup :
      (os : List (Option ℕ)) (d : ℕ)
      → get_elem? os d ≡ some none
      → sys_close d (set os d (some f)) more ≡ returns (pos 0, os, nothing, t)
  unfolding sys_close argfd
  close-dup os d e = rw (sys_close, argfd, get-set os d f e, fileclose-more, set-back os d f e) refl

  FdAllocs-Dups :
      (os : List (Option ℕ)) (r : Option (ℕ × List (Option ℕ)))
      → FdAllocs f 0 os r
      → Dups held t os f (elim r [
        | none ↦ returns (negsuc 0, os, t)
        | some (d, l) ↦ filedup f t >>= λ t'. returns (pos d, l, t')
      ])
  FdAllocs-Dups os none all = (refl, all, refl, refl)
  FdAllocs-Dups os (some (d, l)) (n, e, s, low) =
      let same : d ≡ n = omega arith in
      rw (filedup-more, s, same) (low, refl, more-Counts, close-dup os n low.0)

  -- On a table whose counts are right, `dup` of a descriptor of a file with a reference fails only if
  -- no descriptor is free. Otherwise it is the lowest free one, and closing it undoes the call.
  pub sys_dup-Dups :
      (fd : ℕ) (os : List (Option ℕ)) → argfd fd os ≡ some f → Dups held t os f (sys_dup fd os t)
  unfolding sys_dup
  sys_dup-Dups fd os e =
      rw (sys_dup, e) (FdAllocs-Dups os (fdalloc f 0 os) (fdalloc-FdAllocs f 0 os))
