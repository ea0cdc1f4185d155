-- ===== src/Pipe/Killed.antt =====
-- A writer that is killed gives up without a wakeup, also after it has put bytes into the pipe.
use tom_cs.Base.{ℕ, ◌+◌, ◌<◌, ◌≡◌, ◌≢◌, refl, ap, true, List, [], arith, length, length-append}
use tom_cs.Pipe.{
  pipe_size, Pipe, Chan, is_full, WriteEnd, wrote, write_failed, write_sleeps, write_turn,
}
use tom_cs.Pipe.Buffer.{count, IsValid}
use tom_cs.Pipe.Turns.{Writes, write_turn-Writes}
use tom_cs.Pipe.System.{read_asleep, System, after_write}

-- The failed end of a turn, its pipe full.
abbrev GivesUp : WriteEnd × Pipe × List Chan → Type 0
GivesUp (e, q, wakes) = (e ≡ write_failed) × (is_full q ≡ true) × (wakes ≡ [])

killed-GivesUp :
    {cs : List ℕ} {i : ℕ} {p : Pipe} (r : WriteEnd × Pipe × List Chan)
    → IsValid p
    → Writes true cs i p r
    → pipe_size < length cs + count p
    → GivesUp r
killed-GivesUp {cs} (wrote j, q, wakes) v w h =
    absurd (
      omega
        (arith, ap length w.split, length-append w.taken w.left, ap length w.ending.0, w.amount))
killed-GivesUp (write_failed, q, wakes) v w h = (refl, w.ending.1, w.ending.3)
killed-GivesUp (write_sleeps l j, q, wakes) v w h = cc w.ending.3

-- If a killed process writes more bytes than a pipe holds, every other process that sleeps in
-- `piperead` on that valid pipe is asleep afterwards too, though the pipe is full: its wakeup is lost.
pub killed_writer_strands_reader :
    (s : System) (i j n k : ℕ) (cs : List ℕ)
    → IsValid s.pipe
    → i ≢ j
    → s.thread j ≡ read_asleep n
    → pipe_size < length cs
    → let t = after_write i cs (write_turn true cs k s.pipe) s in
      (t.thread j ≡ read_asleep n) × (is_full t.pipe ≡ true)
unfolding after_write
killed_writer_strands_reader s i j n k cs v ne e h =
    let g = killed-GivesUp _ v (write_turn-Writes true cs k s.pipe v) (omega arith) in
    (ground (arith, g.2), g.1)
