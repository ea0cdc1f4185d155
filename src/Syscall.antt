-- ===== src/Syscall.antt =====
-- xv6/syscall.c: how a system call gets its arguments from the memory of the process. An `int` is
-- kept as its 32 bits, a number below 2 ^ 32, and addresses and sizes are `uint`.
pub mod Bounds
mod Tests
use tom_cs.Base.{
  ℕ, zero, suc, ◌+◌, ◌-◌, ◌*◌, ◌%◌, ◌^◌, Bool, ◌||◌, Option, none, some, leb, ltb, ◌==◌,
  if◌then◌else◌,
}
use tom_cs.CString.{Memory}

abbrev pub uint : ℕ → ℕ
uint n = n % 2 ^ 32

-- What the calls use of the process `cp`: its memory, and the `esp` of its trap frame.
pub record Caller : Type 0 where
  pub mem : ℕ
  pub sz : ℕ
  pub esp : ℕ

-- `*(int*)a`, on x86
abbrev pub int_at : ℕ → Memory → ℕ
int_at a m = m a + 256 * m (a + 1) + 65536 * m (a + 2) + 16777216 * m (a + 3)

pub fetchint : Caller → ℕ → Memory → Option ℕ
fetchint p addr m =
    if leb p.sz addr || ltb p.sz (uint (addr + 4)) then none else some (int_at (p.mem + addr) m)

-- The loop of `fetchstr` from `s` on, with `n` bytes left up to `ep`; `len` is `s - *pp`.
pub fetchstr_loop : ℕ → ℕ → ℕ → Memory → Option ℕ
fetchstr_loop s len zero m = none
fetchstr_loop s len (suc n) m =
    let rest = fetchstr_loop (s + 1) (len + 1) n m in if m s == 0 then some len else rest

-- `fetchstr`: the string's address and length.
pub fetchstr : Caller → ℕ → Memory → Option (ℕ × ℕ)
fetchstr p addr m =
    if leb p.sz addr then none else (elim (fetchstr_loop (p.mem + addr) 0 (p.sz - addr) m) [
      | none ↦ none
      | some len ↦ some (p.mem + addr, len)
    ])

pub argint : Caller → ℕ → Memory → Option ℕ
argint cp n m = fetchint cp (uint (cp.esp + 4 + 4 * n)) m

-- `argptr`, where `size` are the bits of an `int`.
pub argptr : Caller → ℕ → ℕ → Memory → Option ℕ
argptr cp n size m = elim (argint cp n m) [
  | none ↦ none
  | some i ↦ if leb cp.sz i || leb cp.sz (uint (i + size)) then none else some (cp.mem + i)
]

pub argstr : Caller → ℕ → Memory → Option (ℕ × ℕ)
argstr cp n m = elim (argint cp n m) [ none ↦ none | some addr ↦ fetchstr cp addr m ]
