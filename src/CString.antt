-- ===== src/CString.antt =====
-- xv6/string.c: memory and strings by address. A memory is a function from addresses to bytes.
pub mod Move
pub mod Compare
pub mod Copy
mod Tests
use tom_cs.Base.{
  ℕ, zero, suc, ◌+◌, ◌-◌, ◌%◌, Bool, ◌&&◌, not, Option, none, some, ltb, ◌==◌, if◌then◌else◌,
  update,
}
use tom_cs.Base.Int.{ℤ, pos, sub_ℕ}

abbrev pub Memory : Type 0
Memory = ℕ → ℕ

-- `while(n-- > 0) *d++ = c;`
unfoldable pub memset : ℕ → ℕ → ℕ → Memory → Memory
memset d c zero m = m
memset d c (suc n) m = memset (d + 1) c n (update m d (c % 256))

-- The difference of the first bytes that differ.
pub memcmp : ℕ → ℕ → ℕ → Memory → ℤ
memcmp p q zero m = pos 0
memcmp p q (suc n) m =
    let rest = memcmp (p + 1) (q + 1) n m in if m p == m q then rest else sub_ℕ (m p) (m q)

-- `*--d = *--s` for `n` bytes, from `d + n` and `s + n` down.
pub copy_down : ℕ → ℕ → ℕ → Memory → Memory
copy_down d s zero m = m
copy_down d s (suc n) m = copy_down d s n (update m (d + n) (m (s + n)))

-- `*d++ = *s++` for `n` bytes.
pub copy_up : ℕ → ℕ → ℕ → Memory → Memory
copy_up d s zero m = m
copy_up d s (suc n) m = copy_up (d + 1) (s + 1) n (update m d (m s))

pub memmove : ℕ → ℕ → ℕ → Memory → Memory
memmove d s n m = if ltb s d && ltb d (s + n) then copy_down d s n m else copy_up d s n m

pub strncmp : ℕ → ℕ → ℕ → Memory → ℤ
strncmp p q zero m = pos 0
strncmp p q (suc n) m =
    let rest = strncmp (p + 1) (q + 1) n m in
    if not (m p == 0) && m p == m q then rest else sub_ℕ (m p) (m q)

-- `while(n-- > 0) *s++ = 0;`
pub pad : ℕ → ℕ → Memory → Memory
pad s zero m = m
pad s (suc n) m = pad (s + 1) n (update m s 0)

-- The bytes up to the NUL, which `pad` follows, or `n` bytes with no NUL.
pub strncpy : ℕ → ℕ → ℕ → Memory → Memory
strncpy s t zero m = m
strncpy s t (suc n) m =
    let m' = update m s (m t) in
    let rest = strncpy (s + 1) (t + 1) n m' in if m t == 0 then pad (s + 1) n m' else rest

-- The loop of `safestrcpy` with `--n` rounds left, and the NUL behind it. Where the loop stops at a
-- NUL, `s` stands one past it, and the NUL written is a second one.
safe_loop : ℕ → ℕ → ℕ → Memory → Memory
safe_loop s t zero m = update m s 0
safe_loop s t (suc n) m =
    let m' = update m s (m t) in
    let rest = safe_loop (s + 1) (t + 1) n m' in if m t == 0 then update m' (s + 1) 0 else rest

pub safestrcpy : ℕ → ℕ → ℕ → Memory → Memory
safestrcpy s t zero m = m
safestrcpy s t (suc n) m = safe_loop s t n m

-- `for(n = 0; s[n]; n++)`, with fuel: `none` if no NUL is met.
pub strlen : ℕ → ℕ → Memory → Option ℕ
strlen zero s m = none
strlen (suc fuel) s m =
    let rest = strlen fuel (s + 1) m in
    if m s == 0 then some 0 else (elim rest [ none ↦ none | some n ↦ some (n + 1) ])
