-- ===== src/Proc/Tree.antt =====
-- The tree of processes of xv6/proc.c: parents, zombies, and who waits for them.
use tom_cs.Base.{ℕ, ◌<◌, ◌≡◌, ◌≢◌, inl, inr, true, false, some, ◌==◌, arith, Bool-cases}
use tom_cs.Proc.State.{max_proc, Proc, is_unused, is_sleeping, is_zombie, is_child}
use tom_cs.Proc.Life.{is_live, waits, Quiet}

-- The parent of `i` lives, and is not `i`.
abbrev pub HasParent : (ℕ → Proc) → ℕ → Type 0
HasParent t i =
    (j : ℕ) × ((t i).parent ≡ some j) × (j < max_proc) × (j ≢ i) × (is_live (t j) ≡ true)

-- The first process lives, each other process that is in use has a living parent, and a process
-- that sleeps in `wait` has no zombie to wait for.
pub record Family (init : ℕ) (t : ℕ → Proc) : Type 0 where
  pub init_bound : init < max_proc
  pub init_lives : is_live (t init) ≡ true
  pub has_parent : (i : ℕ) → i < max_proc → i ≢ init → is_unused (t i) ≡ false → HasParent t i
  pub no_zombie :
      (i c : ℕ)
      → i < max_proc
      → c < max_proc
      → waits i (t i) ≡ true
      → is_zombie (t c) ≡ true
      → is_child i (t c) ≡ false

pub live-Quiet : (i : ℕ) (p q : Proc) → Quiet i p q → is_live q ≡ is_live p
live-Quiet i p q k = ground (arith, k.unused_kept, k.zombie_kept)

module _ {init : ℕ} {t : ℕ → Proc} (inv : Family init t) where
  -- Nobody is born, dies, or falls asleep in `wait`.
  pub Family-Quiet :
      (u : ℕ → Proc)
      → ((i : ℕ) → Quiet i (t i) (u i))
      → ((i : ℕ) → (u i).parent ≡ (t i).parent)
      → Family init u
  Family-Quiet u quiet same = record {
    init_bound = inv.init_bound;
    init_lives = ground (arith, inv.init_lives, live-Quiet init (t init) (u init) (quiet init));
    has_parent = λ i lt other used.
        let (j, e, b, d, l) = inv.has_parent i lt other (ground (arith, (quiet i).unused_kept)) in
        (j, ground (arith, same i), b, d, ground (arith, live-Quiet j (t j) (u j) (quiet j)));
    no_zombie = λ i c li lc w z.
        ground (arith, same c, (quiet i).asleep, (quiet c).zombie_kept, inv.no_zombie i c li lc);
  }

  -- A slot that was not in use gets a process with a living parent, not asleep.
  pub Family-born :
      (u : ℕ → Proc) (i cp : ℕ)
      → ((j : ℕ) → j ≢ i → u j ≡ t j)
      → is_unused (t i) ≡ true
      → (u i).parent ≡ some cp
      → is_live (u i) ≡ true
      → is_sleeping (u i) ≡ false
      → cp < max_proc
      → is_live (t cp) ≡ true
      → Family init u
  Family-born u i cp else_same free child lives awake bound parent_lives =
      let away : (j : ℕ) → is_live (t j) ≡ true → j ≢ i = λ j l e. ground arith in
      record {
        init_bound = inv.init_bound;
        init_lives = rw (else_same init (away init inv.init_lives)) inv.init_lives;
        has_parent = λ j lt other used. elim (Bool-cases (j == i)) [
          | inl e ↦ (
            cp,
            ground arith,
            bound,
            ground (arith, away cp parent_lives),
            rw (else_same cp (away cp parent_lives)) parent_lives,
          )
          | inr e ↦
              let (k, f, b, d, l) = inv.has_parent j lt other (ground (arith, else_same j)) in
              (k, ground (arith, else_same j), b, d, rw (else_same k (away k l)) l)
        ];
        no_zombie =
            λ j c lj lc w z. ground (arith, else_same j, else_same c, inv.no_zombie j c lj lc);
      }

  -- A slot with no living process is left not in use.
  pub Family-vacated :
      (u : ℕ → Proc) (i : ℕ)
      → ((j : ℕ) → j ≢ i → u j ≡ t j)
      → is_live (t i) ≡ false
      → is_unused (u i) ≡ true
      → Family init u
  Family-vacated u i else_same dead free = record {
    init_bound = inv.init_bound;
    init_lives = ground (arith, else_same init, inv.init_lives);
    has_parent = λ j lt other used.
        let (k, f, b, d, l) = inv.has_parent j lt other (ground (arith, else_same j)) in
        (k, ground (arith, else_same j), b, d, ground (arith, else_same k));
    no_zombie = λ j c lj lc w z. ground (arith, else_same j, else_same c, inv.no_zombie j c lj lc);
  }
