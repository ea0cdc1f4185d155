-- ===== src/Files/Refs.antt =====
-- Reference counts of xv6/file.c: a count is the number of references that are held.
use tom_cs.Base.{
  Finds, ℕ, ◌+◌, ◌-◌, ◌<◌, ◌≡◌, ◌≢◌, inl, inr, refl, true, false, Option, none, some, ◌==◌,
  if◌then◌else◌, arith, Bool-cases, Option-cases, update, returns,
}
use tom_cs.Files.{
  max_file, FileType, fd_closed, fd_none, fd_pipe, fd_inode, File, is_closed, filealloc_loop,
  filealloc, filedup, Given, nothing, pipe_end, inode, give_up, fileclose,
}
use tom_cs.Files.Scan.{filealloc_loop-Finds}

-- A file has the count of the references held, and is closed if there are none.
abbrev pub Counts : (ℕ → ℕ) → (ℕ → File) → Type 0
Counts held t = (i : ℕ) → i < max_file → ((t i).ref ≡ held i) × (is_closed (t i) ≡ (held i == 0))

abbrev pub Allocs : (ℕ → ℕ) → (ℕ → File) → Option ℕ × (ℕ → File) → Type 0
Allocs held t (none, t') = ((i : ℕ) → i < max_file → 0 < held i) × (t' ≡ t)
Allocs held t (some i, t') =
    (i < max_file)
    × (held i ≡ 0)
    × ((j : ℕ) → j < i → 0 < held j)
    × ((t' i).type ≡ fd_none)
    × Counts (update held i 1) t'
    × ((j : ℕ) → j ≢ i → t' j ≡ t j)

-- What the last reference gives up.
abbrev pub behind : File → Given
behind f = elim f.type [
  | fd_pipe ↦ pipe_end f.pipe f.writable
  | fd_inode ↦ inode f.ip
  | _ ↦ nothing
]

give_up_lem :
    (f : File) (type : FileType)
    → f.type ≡ type
    → is_closed f ≡ false
    → type ≢ fd_none
    → give_up f ≡ returns (behind f)
give_up_lem f fd_closed e o n = absurd (ground arith)
give_up_lem f fd_none e o n = absurd (n refl)
give_up_lem f fd_pipe e o n = rw e refl
give_up_lem f fd_inode e o n = rw e refl

module _ (held : ℕ → ℕ) (t : ℕ → File) (c : Counts held t) where
  -- On a table whose counts are right, `filealloc` fails only if every file has a reference.
  -- Otherwise it takes the first file without one, whose count is then 1.
  pub filealloc-Allocs : Allocs held t (filealloc t)
  unfolding filealloc
  filealloc-Allocs =
      let finds = filealloc_loop-Finds t 0 max_file in
      elim (Option-cases (filealloc_loop 0 max_file t)) [
        | inl e ↦
            let f : Finds (λ j. is_closed (t j)) 0 max_file none = rw e at finds in
            rw (filealloc, e) (λ i lt. ground (arith, f i (omega arith) lt, c i lt), refl)
        | inr (i, e) ↦
            let f : Finds (λ j. is_closed (t j)) 0 max_file (some i) = rw e at finds in
            rw (filealloc, e)
              (
                f.1,
                ground (arith, f.2, c i f.1),
                λ j lt. ground (arith, f.3 j (omega arith) lt, c j (omega (arith, f.1))),
                ground arith,
                λ j lt. (ground (arith, c j lt), ground (arith, c j lt)),
                λ j d. ground arith,
              )
      ]

  module _ (i : ℕ) (lt : i < max_file) (has : 0 < held i) where
    -- `filedup` of a file with a reference returns, with one more.
    pub filedup-Counts :
        (t' : ℕ → File) × (filedup i t ≡ returns t')
        × Counts (update held i (held i + 1)) t'
        × ((j : ℕ) → j ≢ i → t' j ≡ t j)
    unfolding filedup
    filedup-Counts = (
      update t i (record (t i) { ref = (t i).ref + 1 }),
      ground (arith, c i lt),
      λ j l. (ground (arith, c j l), ground (arith, c j l)),
      λ j d. ground arith,
    )

    close_last :
        (t i).type ≢ fd_none
        → (held i == 1) ≡ true
        → fileclose i t
          ≡ returns (behind (t i), update t i (record (t i) { ref = 0; type = fd_closed }))
    unfolding fileclose
    close_last thing last =
        let g = give_up_lem (t i) (t i).type refl (ground (arith, c i lt)) thing in
        ground (arith, c i lt, g)

    -- `fileclose` of a file with a reference and something behind it returns, with one reference less;
    -- the last one, and no other, gives up what is behind the file.
    pub fileclose-Counts :
        (t i).type ≢ fd_none
        → (t' : ℕ → File) × (fileclose i t
            ≡ returns (if held i == 1 then behind (t i) else nothing, t'))
          × Counts (update held i (held i - 1)) t'
          × ((j : ℕ) → j ≢ i → t' j ≡ t j)
    unfolding fileclose
    fileclose-Counts thing = elim (Bool-cases (held i == 1)) [
      | inl last ↦ (
        update t i (record (t i) { ref = 0; type = fd_closed }),
        rw last (close_last thing last),
        λ j l. (ground (arith, c j l), ground (arith, c j l)),
        λ j d. ground arith,
      )
      | inr more ↦ (
        update t i (record (t i) { ref = (t i).ref - 1 }),
        rw more (ground (arith, c i lt)),
        λ j l. (ground (arith, c j l), ground (arith, c j l)),
        λ j d. ground arith,
      )
    ]
