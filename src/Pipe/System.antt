-- ===== src/Pipe/System.antt =====
-- Processes that read and write one pipe, in any order. A step is a turn under `p->lock`; `sleep`
-- gives the lock up in the same step in which the process falls asleep, and `wakeup` wakes all that
-- sleep on a channel (xv6/proc.c).
use tom_cs.Base.{ℕ, ◌≡◌, Bool, true, false, List, [], ◌∷◌, ◌++◌, length, take, min, update, ◌-◌}
use tom_cs.Pipe.{
  pipe_size, Pipe, Chan, readers, writers, pipe_init, WriteEnd, write_sleeps, write_turn, ReadEnd,
  got, read_sleeps, read_turn, pipeclose,
}
use tom_cs.Pipe.Buffer.{count}

-- Where a process stands: outside the pipe's code, about to take a turn, or in `sleep`.
pub data Thread : Type 0 where
  outside : Thread
  reading : ℕ → Thread
  read_asleep : ℕ → Thread
  writing : List ℕ → ℕ → Thread
  write_asleep : List ℕ → ℕ → Thread

-- `sent` and `received` record the bytes that went in and out, in order.
pub record System : Type 0 where
  pub pipe : Pipe
  pub thread : ℕ → Thread
  pub sent : List ℕ
  pub received : List ℕ

abbrev pub wake : Chan → Thread → Thread
wake readers (read_asleep n) = reading n
wake writers (write_asleep cs i) = writing cs i
wake c t = t

abbrev pub wake_all : List Chan → Thread → Thread
wake_all [] t = t
wake_all (c ∷ cs) t = wake_all cs (wake c t)

abbrev pub rouse : Thread → Thread
rouse (read_asleep n) = reading n
rouse (write_asleep cs i) = writing cs i
rouse t = t

abbrev pub reader_next : ℕ → ReadEnd → Thread
reader_next n read_sleeps = read_asleep n
reader_next n e = outside

abbrev pub writer_next : WriteEnd → Thread
writer_next (write_sleeps cs i) = write_asleep cs i
writer_next e = outside

abbrev pub got_bytes : ReadEnd → List ℕ
got_bytes (got cs) = cs
got_bytes e = []

unfoldable pub after_read : ℕ → ℕ → ReadEnd × Pipe × List Chan → System → System
after_read i n (e, q, wakes) s = record {
  pipe = q;
  thread = update (λ j. wake_all wakes (s.thread j)) i (reader_next n e);
  sent = s.sent;
  received = s.received ++ got_bytes e;
}

unfoldable pub after_write : ℕ → List ℕ → WriteEnd × Pipe × List Chan → System → System
after_write i cs (e, q, wakes) s = record {
  pipe = q;
  thread = update (λ j. wake_all wakes (s.thread j)) i (writer_next e);
  sent = s.sent ++ take (min (length cs) (pipe_size - count s.pipe)) cs;
  received = s.received;
}

unfoldable pub after_close : Pipe × List Chan × Bool → System → System
after_close (q, wakes, freed) s = record s { pipe = q; thread = λ j. wake_all wakes (s.thread j) }

abbrev pub in_read : Thread → Bool
in_read (reading n) = true
in_read (read_asleep n) = true
in_read t = false

abbrev pub in_write : Thread → Bool
in_write (writing cs i) = true
in_write (write_asleep cs i) = true
in_write t = false

-- A process reads or writes through an open file, and an end is closed with its last file
-- (xv6/file.c): no process is inside that end then. A reader may be killed at any time, and
-- `kill` rouses a sleeper; no writer is killed here.
pub data Step (s : System) : System → Type 0 where
  start_read :
      (i n : ℕ)
      → s.thread i ≡ outside
      → s.pipe.readopen ≡ true
      → Step s (record s { thread = update s.thread i (reading n) })
  start_write :
      (i : ℕ) (cs : List ℕ)
      → s.thread i ≡ outside
      → s.pipe.writeopen ≡ true
      → Step s (record s { thread = update s.thread i (writing cs 0) })
  read_step :
      (killed : Bool) (i n : ℕ)
      → s.thread i ≡ reading n
      → Step s (after_read i n (read_turn killed n s.pipe) s)
  write_step :
      (i : ℕ) (cs : List ℕ) (k : ℕ)
      → s.thread i ≡ writing cs k
      → Step s (after_write i cs (write_turn false cs k s.pipe) s)
  rouse_step : (i : ℕ) → Step s (record s { thread = update s.thread i (rouse (s.thread i)) })
  close_read :
      ((i : ℕ) → in_read (s.thread i) ≡ false) → Step s (after_close (pipeclose false s.pipe) s)
  close_write :
      ((i : ℕ) → in_write (s.thread i) ≡ false) → Step s (after_close (pipeclose true s.pipe) s)

abbrev pub init : List ℕ → System
init page = record { pipe = pipe_init page; thread = λ i. outside; sent = []; received = [] }

pub data Reach (page : List ℕ) : System → Type 0 where
  start : Reach page (init page)
  later : {s t : System} → Reach page s → Step s t → Reach page t
