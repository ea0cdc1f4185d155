-- ===== src/Pipe/Tests.antt =====
-- A pipe at work, and the theorems at concrete states.
use tom_cs.Base.{
  ℕ, zero, ◌-◌, ◌^◌, ◌≡◌, refl, true, false, List, [], ◌∷◌, arith, replicate, length-replicate,
  update,
}
use tom_cs.Pipe.{Pipe, is_full, pipe_init, wrote, write_turn, got, read_turn, read_loop}
use tom_cs.Pipe.Buffer.{IsValid, contents}
use tom_cs.Pipe.Turns.{Writes, write_turn-Writes, Reads, read_turn-Reads}
use tom_cs.Pipe.System.{
  outside, reading, read_asleep, writing, System, after_write, after_read, start_read, start_write,
  read_step, write_step, init, Reach, start, later,
}
use tom_cs.Pipe.Wakeup.{Inv, Reach-Inv}
use tom_cs.Pipe.Killed.{killed_writer_strands_reader}

abbrev page : List ℕ
page = replicate 512 0

-- Both indices are about to wrap; two bytes are in the pipe.
abbrev wrapping : Pipe
wrapping = record {
  readopen = true;
  writeopen = true;
  writep = 1;
  readp = 2 ^ 32 - 1;
  bytes = page;
}

wrapping-IsValid : IsValid wrapping
wrapping-IsValid = omega (arith, length-replicate 512 zero)

write_wraps :
    let (e, q, wakes) = write_turn false (7 ∷ 8 ∷ []) 0 wrapping in
    (e ≡ wrote 2) × (contents q ≡ 0 ∷ 0 ∷ 7 ∷ 8 ∷ [])
unfolding write_turn
write_wraps = (refl, refl)

read_takes_two : (read_turn false 5 wrapping).0 ≡ got (0 ∷ 0 ∷ [])
unfolding read_turn read_loop
read_takes_two = refl

write_turn-Writes_example :
    Writes false (7 ∷ 8 ∷ []) 0 wrapping (write_turn false (7 ∷ 8 ∷ []) 0 wrapping)
write_turn-Writes_example = write_turn-Writes false (7 ∷ 8 ∷ []) 0 wrapping wrapping-IsValid

read_turn-Reads_example : Reads false 5 wrapping (read_turn false 5 wrapping)
read_turn-Reads_example = read_turn-Reads false 5 wrapping wrapping-IsValid

-- Process 0 reads and goes to sleep on the empty pipe; then process 1 comes to write.
abbrev comes_to_read : System
comes_to_read = record (init page) { thread = update (λ i. outside) 0 (reading 5) }

abbrev reader_asleep : System
reader_asleep = after_read 0 5 (read_turn false 5 comes_to_read.pipe) comes_to_read

abbrev comes_to_write : List ℕ → System
comes_to_write cs = record reader_asleep { thread = update reader_asleep.thread 1 (writing cs 0) }

comes_to_write-Reach : (cs : List ℕ) → Reach page (comes_to_write cs)
unfolding after_read read_turn pipe_init
comes_to_write-Reach cs =
    later (later (later start (start_read 0 5 refl refl)) (read_step false 0 5 refl))
      (start_write 1 cs refl refl)

abbrev written : System
written =
    after_write 1 (9 ∷ []) (write_turn false (9 ∷ []) 0 (comes_to_write (9 ∷ [])).pipe)
      (comes_to_write (9 ∷ []))

-- The write wakes the reader.
reader_wakes : (written.thread 0 ≡ reading 5) × (contents written.pipe ≡ 9 ∷ [])
unfolding after_read after_write read_turn write_turn pipe_init
reader_wakes = (refl, refl)

Reach-Inv_example : Inv written
unfolding after_read read_turn pipe_init
Reach-Inv_example =
    Reach-Inv refl (later (comes_to_write-Reach (9 ∷ [])) (write_step 1 (9 ∷ []) 0 refl))

abbrev long : List ℕ
long = replicate 513 7

killed_writer_strands_reader_example :
    let s = comes_to_write long in
    let t = after_write 1 long (write_turn true long 0 s.pipe) s in
    (t.thread 0 ≡ read_asleep 5) × (is_full t.pipe ≡ true)
unfolding after_read read_turn pipe_init
killed_writer_strands_reader_example =
    killed_writer_strands_reader (comes_to_write long) 1 0 5 0 long
      (omega (arith, length-replicate 512 zero)) (omega arith) refl
      (omega (arith, length-replicate {A = ℕ} 513 7))
