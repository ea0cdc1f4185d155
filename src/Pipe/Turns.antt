-- ===== src/Pipe/Turns.antt =====
-- What one turn of a writer or of a reader does to the bytes of a valid pipe.
use mathlib.Core.List.{append-nil, append_assoc}
use mathlib.Core.Path.{subst}
use tom_cs.Base.{
  ℕ, zero, suc, ◌+◌, ◌-◌, ◌≡◌, ◌≢◌, ◌⊎◌, inl, inr, refl, sym, ap, not, ◌||◌, if◌then◌else◌, ◌∙◌,
  Bool, true, false, List, [], ◌∷◌, ◌++◌, arith, length, min, Bool-cases, ◌&&◌,
}
use tom_cs.Pipe.{
  pipe_size, Pipe, Chan, is_full, is_empty, put_byte, front_byte, drop_byte, WriteEnd, wrote,
  write_failed, write_sleeps, write_turn, ReadEnd, got, read_failed, read_sleeps, read_loop,
  read_turn,
}
use tom_cs.Pipe.Buffer.{
  count, IsValid, contents, full-count, empty-count, put_byte-IsValid, contents-put_byte,
  drop_byte-IsValid, contents-drop_byte,
}

-- Why a writer stopped with `left` still to write, after `k` bytes, and whom it woke.
abbrev pub WriteEnds : Bool → List ℕ → ℕ → WriteEnd × Pipe × List Chan → Type 0
WriteEnds killed left k (wrote j, q, wakes) = (left ≡ []) × (j ≡ k) × (wakes ≡ Chan.readers ∷ [])
WriteEnds killed left k (write_failed, q, wakes) =
    (left ≢ []) × (is_full q ≡ true) × ((q.readopen ≡ false) ⊎ (killed ≡ true)) × (wakes ≡ [])
WriteEnds killed left k (write_sleeps l j, q, wakes) =
    (left ≢ [])
    × (is_full q ≡ true)
    × (q.readopen ≡ true)
    × (killed ≡ false)
    × (l ≡ left)
    × (j ≡ k)
    × (wakes ≡ Chan.readers ∷ [])

-- `taken` went into the pipe, behind what was there, and `left` did not.
pub record Writes (killed : Bool) (cs : List ℕ) (i : ℕ) (p : Pipe) (r : WriteEnd × Pipe × List Chan)
    : Type 0 where
  pub taken : List ℕ
  pub left : List ℕ
  pub split : cs ≡ taken ++ left
  pub valid : IsValid r.1
  pub amount : length taken ≡ min (length cs) (pipe_size - count p)
  pub stored : contents r.1 ≡ contents p ++ taken
  pub reader_kept : r.1.readopen ≡ p.readopen
  pub writer_kept : r.1.writeopen ≡ p.writeopen
  pub ending : WriteEnds killed left (i + length taken) r

module _ (killed : Bool) where
  write_turn_step :
      (c : ℕ) (cs : List ℕ) (i : ℕ) (p : Pipe)
      → IsValid p
      → is_full p ≡ false
      → Writes killed cs (i + 1) (put_byte c p) (write_turn killed cs (i + 1) (put_byte c p))
      → Writes killed (c ∷ cs) i p (write_turn killed cs (i + 1) (put_byte c p))
  write_turn_step c cs i p v h w = record {
    taken = c ∷ w.taken;
    left = w.left;
    split = ap (λ xs. c ∷ xs) w.split;
    amount = omega (arith, w.amount, (full-count v).1 h);
    valid = w.valid;
    stored =
        w.stored
        ∙ ap (λ xs. xs ++ w.taken) (contents-put_byte v c ((full-count v).1 h))
        ∙ append_assoc (contents p) (c ∷ []) w.taken;
    reader_kept = w.reader_kept;
    writer_kept = w.writer_kept;
    ending =
        subst (λ k. WriteEnds killed w.left k (write_turn killed cs (i + 1) (put_byte c p)))
          (omega arith) w.ending;
  }

  full-Writes :
      (c : ℕ) (cs : List ℕ) (i : ℕ) (p : Pipe)
      → IsValid p
      → is_full p ≡ true
      → Writes killed (c ∷ cs) i p (
          if not p.readopen || killed
          then (write_failed, p, [])
          else (write_sleeps (c ∷ cs) i, p, Chan.readers ∷ []))
  full-Writes c cs i p v full = elim (Bool-cases (not p.readopen || killed)) [
    | inl gives_up ↦ rw gives_up (none_taken ((λ e. cc), full, ground arith, refl))
    | inr waits ↦
        rw waits (none_taken ((λ e. cc), full, ground arith, ground arith, refl, omega arith, refl))
  ]
    where
      none_taken :
          {e : WriteEnd} {wakes : List Chan}
          → WriteEnds killed (c ∷ cs) (i + 0) (e, p, wakes)
          → Writes killed (c ∷ cs) i p (e, p, wakes)
      none_taken h = record {
        taken = [];
        left = c ∷ cs;
        split = refl;
        amount = omega (arith, (full-count v).0 full);
        valid = v;
        stored = sym (append-nil (contents p));
        reader_kept = refl;
        writer_kept = refl;
        ending = h;
      }

  -- A turn of `pipewrite` on a valid pipe puts as many of the bytes as there is room for behind
  -- those in the pipe, and leaves the pipe valid and its ends as they were. It returns the full count if all bytes
  -- are in; otherwise the pipe is full, and it fails if no reader is left or the process is killed,
  -- without a wakeup, and else sleeps with the rest, having woken the readers.
  pub write_turn-Writes :
      (cs : List ℕ) (i : ℕ) (p : Pipe) → IsValid p → Writes killed cs i p (write_turn killed cs i p)
  unfolding write_turn
  write_turn-Writes [] i p v = record {
    taken = [];
    left = [];
    split = refl;
    amount = omega arith;
    valid = v;
    stored = sym (append-nil (contents p));
    reader_kept = refl;
    writer_kept = refl;
    ending = (refl, omega arith, refl);
  }
  write_turn-Writes (c ∷ cs) i p v = elim (Bool-cases (is_full p)) [
    | inl full ↦ rw full (full-Writes c cs i p v full)
    | inr room ↦ rw room (
        write_turn_step c cs i p v room (
          write_turn-Writes cs (i + 1) (put_byte c p)
            (put_byte-IsValid v c ((full-count v).1 room))))
  ]

abbrev pub Reads : Bool → ℕ → Pipe → ReadEnd × Pipe × List Chan → Type 0
Reads killed n p (got cs, q, wakes) =
    IsValid q
    × (contents p ≡ cs ++ contents q)
    × (length cs ≡ min n (count p))
    × ((is_empty p ≡ false) ⊎ (p.writeopen ≡ false))
    × (q.readopen ≡ p.readopen)
    × (q.writeopen ≡ p.writeopen)
    × (wakes ≡ Chan.writers ∷ [])
Reads killed n p (read_failed, q, wakes) =
    (killed ≡ true) × (is_empty p ≡ true) × (p.writeopen ≡ true) × (q ≡ p) × (wakes ≡ [])
Reads killed n p (read_sleeps, q, wakes) =
    (killed ≡ false) × (is_empty p ≡ true) × (p.writeopen ≡ true) × (q ≡ p) × (wakes ≡ [])

abbrev Loops : ℕ → Pipe → List ℕ × Pipe → Type 0
Loops n p (cs, q) =
    IsValid q
    × (contents p ≡ cs ++ contents q)
    × (length cs ≡ min n (count p))
    × (q.readopen ≡ p.readopen)
    × (q.writeopen ≡ p.writeopen)

read_loop-Loops : (n : ℕ) (p : Pipe) → IsValid p → Loops n p (read_loop n p)
unfolding read_loop
read_loop-Loops zero p v = (v, refl, omega arith, refl, refl)
read_loop-Loops (suc n) p v = elim (Bool-cases (is_empty p)) [
  | inl empty ↦ rw empty (v, refl, omega (arith, (empty-count v).0 empty), refl, refl)
  | inr some_bytes ↦
      let h = (empty-count v).1 some_bytes in
      let ih = read_loop-Loops n (drop_byte p) (drop_byte-IsValid v h) in
      rw some_bytes (
        ih.0,
        contents-drop_byte v h ∙ ap (λ xs. front_byte p ∷ xs) ih.1,
        omega (arith, ih.2),
        ih.3,
        ih.4,
      )
]

-- A turn of `piperead` on a valid pipe that is empty and has a writer sleeps, or fails if the
-- process is killed, and changes nothing. Otherwise it takes the first `n` bytes, or all if there
-- are fewer, leaves the pipe valid with the others, and wakes the writers.
pub read_turn-Reads :
    (killed : Bool) (n : ℕ) (p : Pipe) → IsValid p → Reads killed n p (read_turn killed n p)
unfolding read_turn
read_turn-Reads killed n p v = elim (Bool-cases (is_empty p && p.writeopen)) [
  | inl waits ↦ rw waits (elim (Bool-cases killed) [
    | inl k ↦ rw k (refl, ground arith, ground arith, refl, refl)
    | inr k ↦ rw k (refl, ground arith, ground arith, refl, refl)
  ])
  | inr goes ↦
      let l = read_loop-Loops n p v in rw goes (l.0, l.1, l.2, ground arith, l.3, l.4, refl)
]
