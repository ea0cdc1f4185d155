-- ===== src/Pipe.antt =====
-- xv6/pipe.c: the circular buffer of a pipe, and what a reader or a writer does to it between
-- taking `p->lock` and letting go of it, by returning or by going to sleep.
-- `cp->killed` is an argument, and the wakeups of a routine are listed in its result.
pub mod Buffer
pub mod Turns
pub mod System
pub mod Wakeup
pub mod Killed
mod Tests
use tom_cs.Base.{
  ℕ, zero, suc, ◌+◌, ◌-◌, ◌%◌, ◌^◌, Bool, true, false, ◌&&◌, ◌||◌, not, List, [], ◌∷◌, ◌++◌, ◌==◌,
  if◌then◌else◌, get_or, set, replicate,
}

abbrev pub pipe_size : ℕ
pipe_size = 512

-- `uint` arithmetic
abbrev pub u32 : ℕ → ℕ
u32 n = n % 2 ^ 32

-- `struct pipe`, less its lock
pub record Pipe : Type 0 where
  pub readopen : Bool
  pub writeopen : Bool
  pub writep : ℕ
  pub readp : ℕ
  pub bytes : List ℕ

-- The channels that processes sleep on: `&p->readp` for readers, `&p->writep` for writers.
pub data Chan : Type 0 where
  readers writers : Chan

-- The fields that `pipealloc` sets; the bytes of the fresh page are whatever they were.
pub pipe_init : List ℕ → Pipe
pipe_init page = record { readopen = true; writeopen = true; writep = 0; readp = 0; bytes = page }

-- `p->writep == p->readp + PIPESIZE`, `p->readp == p->writep`
abbrev pub is_full : Pipe → Bool
is_full p = p.writep == u32 (p.readp + pipe_size)

abbrev pub is_empty : Pipe → Bool
is_empty p = p.readp == p.writep

-- `p->data[p->writep++ % PIPESIZE] = c`
abbrev pub put_byte : ℕ → Pipe → Pipe
put_byte c p = record p {
  writep = u32 (p.writep + 1);
  bytes = set p.bytes (p.writep % pipe_size) c;
}

-- `p->data[p->readp++ % PIPESIZE]`
abbrev pub front_byte : Pipe → ℕ
front_byte p = get_or p.bytes (p.readp % pipe_size) 0

abbrev pub drop_byte : Pipe → Pipe
drop_byte p = record p { readp = u32 (p.readp + 1) }

-- How a turn of `pipewrite` under the lock ends: all of `addr` is written (the value is `i`), it
-- gives up with -1, or it goes to sleep on `&p->writep` with the bytes that are left and `i`.
pub data WriteEnd : Type 0 where
  wrote : ℕ → WriteEnd
  write_failed : WriteEnd
  write_sleeps : List ℕ → ℕ → WriteEnd

-- The loop of `pipewrite` from `addr + i` on, with the lock held; a process that wakes up in `sleep`
-- comes back to the test for a full pipe, which is the head of this loop.
pub write_turn : Bool → List ℕ → ℕ → Pipe → WriteEnd × Pipe × List Chan
write_turn killed [] i p = (wrote i, p, Chan.readers ∷ [])
write_turn killed (c ∷ cs) i p =
    let rest = write_turn killed cs (i + 1) (put_byte c p) in
    if is_full p
    then (if not p.readopen || killed
        then (write_failed, p, [])
        else (write_sleeps (c ∷ cs) i, p, Chan.readers ∷ []))
    else rest

pub data ReadEnd : Type 0 where
  got : List ℕ → ReadEnd
  read_failed : ReadEnd
  read_sleeps : ReadEnd

-- The second loop of `piperead`: up to `n` bytes into `addr`.
pub read_loop : ℕ → Pipe → List ℕ × Pipe
read_loop zero p = ([], p)
read_loop (suc n) p =
    let (cs, q) = read_loop n (drop_byte p) in
    if is_empty p then ([], p) else (front_byte p ∷ cs, q)

-- `piperead` from the test for an empty pipe on, with the lock held.
pub read_turn : Bool → ℕ → Pipe → ReadEnd × Pipe × List Chan
read_turn killed n p =
    if is_empty p && p.writeopen
    then (if killed then (read_failed, p, []) else (read_sleeps, p, []))
    else (let (cs, q) = read_loop n p in (got cs, q, Chan.writers ∷ []))

-- `pipeclose`; the last value says that both ends are closed, and the page is freed.
pub pipeclose : Bool → Pipe → Pipe × List Chan × Bool
pipeclose writable p =
    if writable
    then (record p { writeopen = false }, Chan.readers ∷ [], not p.readopen)
    else (record p { readopen = false }, Chan.writers ∷ [], not p.writeopen)
