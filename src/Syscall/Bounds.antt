-- ===== src/Syscall/Bounds.antt =====
-- What the functions of xv6/syscall.c accept lies in the memory of the process.
use tom_cs.Base.{
  ℕ, zero, suc, ◌+◌, ◌^◌, ◌-◌, ◌<◌, ◌≤◌, ◌≡◌, ◌≢◌, inl, inr, refl, ◌||◌, Option, none, some, leb,
  ltb, ◌==◌, if◌then◌else◌, arith, Bool-cases, Option-cases,
}
use tom_cs.CString.{Memory}
use tom_cs.Syscall.{uint, Caller, int_at, fetchint, fetchstr_loop, fetchstr, argint, argptr}

-- The four bytes at `addr` lie in the memory, and the result is their value; or they do not.
abbrev pub FetchesInt : Caller → ℕ → Memory → Option ℕ → Type 0
FetchesInt p addr m none = p.sz < addr + 4
FetchesInt p addr m (some i) = (addr + 4 ≤ p.sz) × (i ≡ int_at (p.mem + addr) m)

-- The bytes are none of them 0, or the first 0 stands behind `len` bytes.
abbrev pub FindsEnd : ℕ → ℕ → ℕ → Memory → Option ℕ → Type 0
FindsEnd s len n m none = (i : ℕ) → i < n → m (s + i) ≢ 0
FindsEnd s len n m (some l) =
    (k : ℕ) × (l ≡ len + k) × (k < n) × (m (s + k) ≡ 0) × ((i : ℕ) → i < k → m (s + i) ≢ 0)

module _ (m : Memory) where
  no_zero-suc :
      (s n : ℕ)
      → m s ≢ 0
      → ((i : ℕ) → i < n → m (s + 1 + i) ≢ 0)
      → (i : ℕ) → i < suc n
      → m (s + i) ≢ 0
  no_zero-suc s n here f zero lt = let same : s + 0 ≡ s = omega arith in rw same here
  no_zero-suc s n here f (suc j) lt =
      let same : s + suc j ≡ s + 1 + j = omega arith in rw same (f j (omega arith))

  FindsEnd-suc :
      (s len n : ℕ) (r : Option ℕ)
      → m s ≢ 0
      → FindsEnd (s + 1) (len + 1) n m r
      → FindsEnd s len (suc n) m r
  FindsEnd-suc s len n none here f = no_zero-suc s n here f
  FindsEnd-suc s len n (some l) here (k, e, lt, z, before) =
      let same : s + suc k ≡ s + 1 + k = omega arith in
      (suc k, omega arith, omega arith, rw same z, no_zero-suc s k here before)

  fetchstr_loop-FindsEnd : (s len n : ℕ) → FindsEnd s len n m (fetchstr_loop s len n m)
  unfolding fetchstr_loop
  fetchstr_loop-FindsEnd s len zero = λ i lt. absurd (omega arith)
  fetchstr_loop-FindsEnd s len (suc n) = elim (Bool-cases (m s == 0)) [
    | inl e ↦ rw e (0, omega arith, omega arith, ground arith, λ i lt. absurd (omega arith))
    | inr e ↦ rw e (
        FindsEnd-suc s len n (fetchstr_loop (s + 1) (len + 1) n m) (ground arith)
          (fetchstr_loop-FindsEnd (s + 1) (len + 1) n))
  ]

-- `fetchint` reads the `int` exactly if its four bytes lie in the memory of the process.
pub fetchint-FetchesInt :
    (p : Caller) (m : Memory) (addr : ℕ)
    → p.sz + 4 ≤ 2 ^ 32
    → FetchesInt p addr m (fetchint p addr m)
unfolding fetchint
fetchint-FetchesInt p m addr small = elim (Bool-cases (leb p.sz addr)) [
  | inl e ↦ rw e (ground arith)
  | inr e ↦
      let same : uint (addr + 4) ≡ addr + 4 = ground arith in
      elim (Bool-cases (ltb p.sz (addr + 4))) [
        | inl f ↦ rw (e, same, f) (ground arith)
        | inr f ↦ rw (e, same, f) (ground arith, refl)
      ]
]

-- The string at `addr` ends in the memory of the process, and is of the length given; or it does not
-- end there.
abbrev pub FetchesStr : Caller → ℕ → Memory → Option (ℕ × ℕ) → Type 0
FetchesStr p addr m none = (i : ℕ) → addr + i < p.sz → m (p.mem + addr + i) ≢ 0
FetchesStr p addr m (some (a, len)) =
    (a ≡ p.mem + addr)
    × (addr + len < p.sz)
    × (m (a + len) ≡ 0)
    × ((i : ℕ) → i < len → m (a + i) ≢ 0)

pub fetchstr-FetchesStr :
    (p : Caller) (m : Memory) (addr : ℕ) → FetchesStr p addr m (fetchstr p addr m)
unfolding fetchstr
fetchstr-FetchesStr p m addr = elim (Bool-cases (leb p.sz addr)) [
  | inl e ↦ rw e (λ i lt. absurd (ground arith))
  | inr e ↦
      let ends = fetchstr_loop-FindsEnd m (p.mem + addr) 0 (p.sz - addr) in
      elim (Option-cases (fetchstr_loop (p.mem + addr) 0 (p.sz - addr) m)) [
        | inl f ↦
            let g : FindsEnd (p.mem + addr) 0 (p.sz - addr) m none = rw f at ends in
            rw (e, f) (λ i lt. g i (omega arith))
        | inr (len, f) ↦
            let g : FindsEnd (p.mem + addr) 0 (p.sz - addr) m (some len) = rw f at ends in
            let same : len ≡ g.0 = omega (arith, g.1) in
            rw (e, f, same) (refl, ground (arith, g.2), g.3, g.4)
      ]
]

-- The block of `size` bytes lies in the memory of the process and ends before its last byte; or not.
abbrev pub TakesPtr : Caller → ℕ → ℕ → Memory → Option ℕ → Type 0
TakesPtr p n size m none = (i : ℕ) → argint p n m ≡ some i → p.sz ≤ i + size
TakesPtr p n size m (some a) =
    (i : ℕ) × (argint p n m ≡ some i) × (a ≡ p.mem + i) × (i + size < p.sz)

argptr-none :
    (p : Caller) (m : Memory) (n size : ℕ) → argint p n m ≡ none → argptr p n size m ≡ none
unfolding argptr
argptr-none p m n size e = rw (argptr, e) refl

argptr-some :
    (p : Caller) (m : Memory) (n size i : ℕ)
    → argint p n m ≡ some i
    → argptr p n size m
      ≡ (if leb p.sz i || leb p.sz (uint (i + size)) then none else some (p.mem + i))
unfolding argptr
argptr-some p m n size i e = rw (argptr, e) refl

-- For a process of at most 2 ^ 31 bytes and a size that is not negative, argptr returns a pointer
-- only to a block that lies in the memory of the process and ends before its last byte, and fails
-- only if the argument cannot be fetched or the block does not end there.
pub argptr-TakesPtr :
    (p : Caller) (m : Memory) (n size : ℕ)
    → p.sz ≤ 2 ^ 31
    → size < 2 ^ 31
    → TakesPtr p n size m (argptr p n size m)
argptr-TakesPtr p m n size small nonneg = elim (Option-cases (argint p n m)) [
  | inl e ↦ rw (argptr-none p m n size e) (λ i f. cc)
  | inr (i, e) ↦ elim (Bool-cases (leb p.sz i)) [
    | inl f ↦ rw (argptr-some p m n size i e, f) (λ j g. let same : i ≡ j = cc in ground arith)
    | inr f ↦
        let same : uint (i + size) ≡ i + size = ground arith in
        elim (Bool-cases (leb p.sz (i + size))) [
          | inl h ↦
              rw (argptr-some p m n size i e, f, same, h)
                (λ j g. let same' : i ≡ j = cc in ground arith)
          | inr h ↦ rw (argptr-some p m n size i e, f, same, h) (i, e, refl, ground arith)
        ]
  ]
]
