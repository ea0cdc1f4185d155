-- ===== src/Pipe/Wakeup.antt =====
-- No wakeup of a pipe is lost, and its bytes arrive in order: an invariant of every step.
use mathlib.Core.List.{append_assoc, append-nil}
use tom_cs.Base.{
  ℕ, ◌+◌, ◌-◌, ◌≡◌, ◌≢◌, refl, sym, ap, Bool, true, false, List, [], ◌∷◌, ◌++◌, arith, length, take,
  min, update, length-append,
}
use tom_cs.Pipe.{
  pipe_size, Pipe, Chan, is_full, is_empty, WriteEnd, write_turn, ReadEnd, read_turn, pipe_init,
  pipeclose, wrote, write_failed, write_sleeps, got, read_failed, read_sleeps,
}
use tom_cs.Pipe.Buffer.{count, IsValid, contents, full-count, length-window}
use tom_cs.Pipe.Turns.{Writes, write_turn-Writes, Reads, read_turn-Reads}
use tom_cs.Pipe.System.{
  Thread, outside, reading, read_asleep, writing, write_asleep, System, after_read, after_write,
  after_close, rouse, in_read, Step, start_read, start_write, read_step, write_step, rouse_step,
  close_read, close_write, Reach, start, later,
}

-- Whoever sleeps has reason to: a reader's pipe is empty and has a writer, a writer's is full and
-- has a reader.
pub record Inv (s : System) : Type 0 where
  pub valid : IsValid s.pipe
  pub fifo : s.sent ≡ s.received ++ contents s.pipe
  pub reader_waits :
      (i n : ℕ) → s.thread i ≡ read_asleep n → (is_empty s.pipe ≡ true) × (s.pipe.writeopen ≡ true)
  pub writer_waits :
      (i : ℕ) (cs : List ℕ) (k : ℕ)
      → s.thread i ≡ write_asleep cs k
      → (is_full s.pipe ≡ true) × (s.pipe.readopen ≡ true)
  pub reader_in : (i : ℕ) → in_read (s.thread i) ≡ true → s.pipe.readopen ≡ true

take-taken : (xs ys : List ℕ) → take (length xs) (xs ++ ys) ≡ xs
take-taken [] ys = refl
take-taken (x ∷ xs) ys = ap (λ l. x ∷ l) (take-taken xs ys)

take-amount :
    (cs taken left : List ℕ) (n : ℕ) → cs ≡ taken ++ left → length taken ≡ n → take n cs ≡ taken
take-amount cs taken left n e h = rw (e, ← h) (take-taken taken left)

-- A turn of a writer adds what it takes to the number of bytes.
count-Writes :
    {killed : Bool} {cs : List ℕ} {k : ℕ} {p : Pipe} {r : WriteEnd × Pipe × List Chan}
    (w : Writes killed cs k p r)
    → count r.1 ≡ count p + length w.taken
count-Writes {p} {r} w = omega (
  arith,
  ap length w.stored,
  length-append (contents p) w.taken,
  length-window r.1.bytes r.1.readp (count r.1),
  length-window p.bytes p.readp (count p),
)

full_stays :
    {killed : Bool} {cs : List ℕ} {k : ℕ} {p : Pipe} {r : WriteEnd × Pipe × List Chan}
    (w : Writes killed cs k p r)
    → IsValid p
    → is_full p ≡ true
    → is_full r.1 ≡ true
full_stays {p} {r} w v h =
    ground (arith, count-Writes w, (full-count v).0 h, (full-count w.valid).1, w.valid.bounded)

module _ {s : System} (inv : Inv s) where
  open inv use {valid, fifo, reader_waits, writer_waits, reader_in}

  write-fifo :
      {cs : List ℕ} {k : ℕ} {r : WriteEnd × Pipe × List Chan}
      → Writes false cs k s.pipe r
      → s.sent ++ take (min (length cs) (pipe_size - count s.pipe)) cs ≡ s.received ++ contents r.1
  write-fifo {cs} {r} w =
      rw (take-amount cs w.taken w.left _ w.split w.amount, fifo, w.stored)
        (append_assoc s.received (contents s.pipe) w.taken)

  write-Inv :
      (i : ℕ) (cs : List ℕ) (k : ℕ) (r : WriteEnd × Pipe × List Chan)
      → s.thread i ≡ writing cs k
      → Writes false cs k s.pipe r
      → Inv (after_write i cs r s)
  unfolding after_write
  write-Inv i cs k (wrote j, q, wakes) e w = record {
    valid = w.valid;
    fifo = write-fifo w;
    reader_waits = λ a n h. ground (arith, w.ending);
    writer_waits = λ a ds l h.
        ground (arith, w.ending, writer_waits a ds l, w.reader_kept, full_stays w valid);
    reader_in = λ a h. ground (arith, reader_in a, w.reader_kept, w.ending);
  }
  write-Inv i cs k (write_failed, q, wakes) e w = record {
    valid = w.valid;
    fifo = write-fifo w;
    reader_waits = λ a n h. ground (arith, w.ending, reader_in a, w.reader_kept);
    writer_waits = λ a ds l h. ground (arith, w.ending, writer_waits a ds l, w.reader_kept);
    reader_in = λ a h. ground (arith, reader_in a, w.reader_kept, w.ending);
  }
  write-Inv i cs k (write_sleeps l j, q, wakes) e w = record {
    valid = w.valid;
    fifo = write-fifo w;
    reader_waits = λ a n h. ground (arith, w.ending);
    writer_waits = λ a ds l h. ground (arith, w.ending, writer_waits a ds l, w.reader_kept);
    reader_in = λ a h. ground (arith, reader_in a, w.reader_kept, w.ending);
  }

  read-Inv :
      (killed : Bool) (i n : ℕ) (r : ReadEnd × Pipe × List Chan)
      → s.thread i ≡ reading n
      → Reads killed n s.pipe r
      → Inv (after_read i n r s)
  unfolding after_read
  read-Inv killed i n (got cs, q, wakes) e (v, split, amount, why, rk, wk, woke) = record {
    valid = v;
    fifo = rw (fifo, split) (sym (append_assoc s.received cs (contents q)));
    reader_waits = λ a l h. ground (arith, reader_waits a l);
    writer_waits = λ a ds l h. ground arith;
    reader_in = λ a h. ground (arith, reader_in a);
  }
  read-Inv killed i n (read_failed, q, wakes) e (k, empty, open_end, same, woke) = record {
    valid = rw same valid;
    fifo = rw (same, append-nil s.received) fifo;
    reader_waits = λ a l h. ground (arith, reader_waits a l);
    writer_waits = λ a ds l h. ground (arith, writer_waits a ds l);
    reader_in = λ a h. ground (arith, reader_in a);
  }
  read-Inv killed i n (read_sleeps, q, wakes) e (k, empty, open_end, same, woke) = record {
    valid = rw same valid;
    fifo = rw (same, append-nil s.received) fifo;
    reader_waits = λ a l h. ground (arith, reader_waits a l);
    writer_waits = λ a ds l h. ground (arith, writer_waits a ds l);
    reader_in = λ a h. ground (arith, reader_in a, reader_in i);
  }

  -- A change of threads that lets nobody fall asleep and nobody into a closed read end.
  thread-Inv :
      (i : ℕ) (t : Thread)
      → ((n : ℕ) → t ≢ read_asleep n)
      → ((cs : List ℕ) (k : ℕ) → t ≢ write_asleep cs k)
      → (in_read t ≡ true → s.pipe.readopen ≡ true)
      → Inv (record s { thread = update s.thread i t })
  thread-Inv i t r w o = record {
    valid = valid;
    fifo = fifo;
    reader_waits = λ a n h. ground (arith, r n, reader_waits a n);
    writer_waits = λ a cs k h. ground (arith, w cs k, writer_waits a cs k);
    reader_in = λ a h. ground (arith, reader_in a, o);
  }

  rouse-Inv :
      (i : ℕ) (t : Thread)
      → s.thread i ≡ t
      → Inv (record s { thread = update s.thread i (rouse t) })
  rouse-Inv i (read_asleep n) e =
      thread-Inv i (reading n) (λ n. cc) (λ cs k. cc) (λ h. ground (arith, reader_in i))
  rouse-Inv i outside e = thread-Inv i outside (λ n. cc) (λ cs k. cc) (λ h. cc)
  rouse-Inv i (reading n) e =
      thread-Inv i (reading n) (λ n. cc) (λ cs k. cc) (λ h. ground (arith, reader_in i))
  rouse-Inv i (writing cs k) e = thread-Inv i (writing cs k) (λ n. cc) (λ cs k. cc) (λ h. cc)
  rouse-Inv i (write_asleep cs k) e = thread-Inv i (writing cs k) (λ n. cc) (λ cs k. cc) (λ h. cc)

  close_read-Inv :
      ((i : ℕ) → in_read (s.thread i) ≡ false) → Inv (after_close (pipeclose false s.pipe) s)
  unfolding after_close pipeclose
  close_read-Inv none_in = record {
    valid = omega (arith, valid);
    fifo = fifo;
    reader_waits = λ a n h. ground (arith, none_in a);
    writer_waits = λ a cs k h. ground arith;
    reader_in = λ a h. ground (arith, none_in a);
  }

  close_write-Inv : Inv (after_close (pipeclose true s.pipe) s)
  unfolding after_close pipeclose
  close_write-Inv = record {
    valid = omega (arith, valid);
    fifo = fifo;
    reader_waits = λ a n h. ground arith;
    writer_waits = λ a cs k h. ground (arith, writer_waits a cs k);
    reader_in = λ a h. ground (arith, reader_in a);
  }

pub Step-Inv : {s t : System} → Step s t → Inv s → Inv t
Step-Inv {s} (start_read i n e o) inv = thread-Inv inv i (reading n) (λ m. cc) (λ cs k. cc) (λ h. o)
Step-Inv {s} (start_write i cs e o) inv =
    thread-Inv inv i (writing cs 0) (λ n. cc) (λ ds k. cc) (λ h. cc)
Step-Inv {s} (read_step killed i n e) inv =
    read-Inv inv killed i n (read_turn killed n s.pipe) e
      (read_turn-Reads killed n s.pipe inv.valid)
Step-Inv {s} (write_step i cs k e) inv =
    write-Inv inv i cs k (write_turn false cs k s.pipe) e
      (write_turn-Writes false cs k s.pipe inv.valid)
Step-Inv {s} (rouse_step i) inv = rouse-Inv inv i (s.thread i) refl
Step-Inv {s} (close_read none_in) inv = close_read-Inv inv none_in
Step-Inv {s} (close_write none_in) inv = close_write-Inv inv

-- In every state that the processes on a pipe can reach, whatever the order of their turns and
-- while no writer is killed, the bytes that went in are those that came out followed by those in the pipe; a process that sleeps
-- in `piperead` finds the pipe empty with its write end open, and one that sleeps in `pipewrite`
-- finds it full with its read end open.
pub Reach-Inv : {page : List ℕ} {s : System} → length page ≡ pipe_size → Reach page s → Inv s
unfolding pipe_init
Reach-Inv size start = record {
  valid = omega arith;
  fifo = refl;
  reader_waits = λ i n h. cc;
  writer_waits = λ i cs k h. cc;
  reader_in = λ i h. refl;
}
Reach-Inv size (later r st) = Step-Inv st (Reach-Inv size r)
