-- ===== src/Fs/Truncate/Loops.antt =====
-- itrunc of xv6/fs.c: the blocks of the file are free afterwards, and nothing else is.
use tom_cs.Base.{
  ℕ, zero, suc, ◌+◌, ◌-◌, ◌*◌, ◌<◌, ◌≤◌, ◌≡◌, ◌≢◌, refl, sym, ◌∙◌, inl, inr, true, false, ltb, ◌==◌,
  arith, Bool-cases, Outcome, returns, panics, ◌>>=◌,
}
use tom_cs.Fs.Disk.{Disk, max_blocks, num_direct, indirect, num_indirect, get_word, get_word_cong}
use tom_cs.Fs.Bitmap.{bfree}
use tom_cs.Fs.Bitmap.Blocks.{IsData}
use tom_cs.Fs.Bitmap.Healthy.{Healthy}
use tom_cs.Fs.Inode.{Inode, set_addr}
use tom_cs.Fs.File.Bytes.{eq_of, ne_of}
use tom_cs.Fs.Map.Slots.{slot, Maps}
use tom_cs.Fs.Truncate.{free_addr, free_direct, free_word, free_list, free_indirect}
use tom_cs.Fs.Truncate.Freed.{Freed, Freed-zero, Freed-none, bfree-Freed}

module _ (ip : Inode) (d : Disk) (maps : Maps ip d) where
  -- The inode between the rounds: the addresses below `n` are cleared.
  pub record Cleared (n : ℕ) (ip' : Inode) : Type 0 where
    pub before : (k : ℕ) → k < n → ip'.addrs k ≡ 0
    pub behind : (k : ℕ) → n ≤ k → ip'.addrs k ≡ ip.addrs k
    pub rest : ip' ≡ record ip { addrs = ip'.addrs }

  abbrev Direct : ℕ → Outcome (Inode × Disk) → Type 0
  Direct n (panics e) = ⊥
  Direct n (returns (ip', d')) = Cleared n ip' × Freed ip d n d'

  free_addr-Direct :
      (i : ℕ) (ip1 : Inode) (d1 : Disk)
      → i < num_direct
      → Cleared i ip1
      → Freed ip d i d1
      → Direct (i + 1) (free_addr i ip1 d1)
  unfolding free_addr
  free_addr-Direct i ip1 d1 lt c f =
      let low : ltb i num_direct ≡ true = ground arith in
      let here : slot ip d i ≡ ip1.addrs i = rw low (sym (c.behind i (omega arith))) in
      elim (Bool-cases (ip1.addrs i == 0)) [
        | inl e ↦
            let absent : ip1.addrs i ≡ 0 = eq_of (ip1.addrs i) 0 e in
            rw e (
              record {
                before = λ k l. elim (Bool-cases (k == i)) [
                  | inl g ↦ rw (eq_of k i g) absent
                  | inr g ↦ c.before k (ground arith)
                ];
                behind = λ k l. c.behind k (omega arith);
                rest = c.rest;
              },
              Freed-none ip d maps i d1 f (here ∙ absent),
            )
        | inr e ↦
            let there : slot ip d i ≢ 0 = λ z. ne_of (ip1.addrs i) 0 e (sym here ∙ z) in
            let freed = bfree-Freed ip d maps i (omega arith) there d1 f in
            let done : bfree (ip1.addrs i) d1 ≡ returns freed.0 = rw here at freed.1 in
            rw (e, done)
              (
                record {
                  before = λ k l. ground (arith, c.before k);
                  behind = λ k l. ground (arith, c.behind k);
                  rest = cc c.rest;
                },
                freed.2,
              )
      ]

  -- A loop goes on behind a round.
  then_Direct :
      (i n : ℕ) (next : Inode × Disk → Outcome (Inode × Disk)) (r : Outcome (Inode × Disk))
      → Direct i r
      → ((ip' : Inode) (d' : Disk) → Cleared i ip' → Freed ip d i d' → Direct n (next (ip', d')))
      → Direct n (r >>= next)
  then_Direct i n next (panics e) w f = absurd w
  then_Direct i n next (returns (ip', d')) w f = f ip' d' w.0 w.1

  free_direct-Direct :
      (n i : ℕ) (ip1 : Inode) (d1 : Disk)
      → i + n ≡ num_direct
      → Cleared i ip1
      → Freed ip d i d1
      → Direct num_direct (free_direct i n ip1 d1)
  unfolding free_direct
  free_direct-Direct zero i ip1 d1 sum c f =
      let e : i ≡ num_direct = omega arith in
      let both : Cleared i ip1 × Freed ip d i d1 = (c, f) in rw e at both
  free_direct-Direct (suc n) i ip1 d1 sum c f =
      then_Direct (i + 1) num_direct _ (free_addr i ip1 d1)
        (free_addr-Direct i ip1 d1 (omega arith) c f)
        (λ ip' d' c' f'. free_direct-Direct n (i + 1) ip' d' (omega arith) c' f')

  abbrev Listed : ℕ → Outcome Disk → Type 0
  Listed n (panics e) = ⊥
  Listed n (returns d') = Freed ip d n d'

  then_Listed :
      (i n : ℕ) (next : Disk → Outcome Disk) (r : Outcome Disk)
      → Listed i r
      → ((d' : Disk) → Freed ip d i d' → Listed n (next d'))
      → Listed n (r >>= next)
  then_Listed i n next (panics e) w f = absurd w
  then_Listed i n next (returns d') w f = f d' w

  -- The file has an indirect block.
  module _ (some_list : ip.addrs indirect ≢ 0) where
    list_word :
        (j : ℕ) (d1 : Disk)
        → j < num_indirect
        → Freed ip d (num_direct + j) d1
        → get_word (ip.addrs indirect) (4 * j) d1 ≡ slot ip d (num_direct + j)
    list_word j d1 lt f =
        let b = ip.addrs indirect in
        let db : IsData d b = maps.data_block max_blocks (omega arith) some_list in
        let alone : (k : ℕ) → k < num_direct + j → slot ip d k ≢ b = λ k l e.
          absurd (
            omega (arith, maps.apart max_blocks k (omega arith) (omega arith) some_list (sym e))) in
        let low : ltb (num_direct + j) num_direct ≡ false = ground arith in
        let last : (num_direct + j == max_blocks) ≡ false = ground arith in
        let absent : (b == 0) ≡ false = ground arith in
        let back : num_direct + j - num_direct ≡ j = omega arith in
        get_word_cong b (4 * j) d d1 (λ o. f.kept b o db alone) ∙ rw (low, last, absent, back) refl

    free_word-Listed :
        (j : ℕ) (d1 : Disk)
        → j < num_indirect
        → Freed ip d (num_direct + j) d1
        → Listed (num_direct + j + 1) (free_word (ip.addrs indirect) j d1)
    unfolding free_word
    free_word-Listed j d1 lt f = elim (Bool-cases (slot ip d (num_direct + j) == 0)) [
      | inl e ↦
          rw (list_word j d1 lt f, e)
            (Freed-none ip d maps (num_direct + j) d1 f (eq_of (slot ip d (num_direct + j)) 0 e))
      | inr e ↦
          let there = ne_of (slot ip d (num_direct + j)) 0 e in
          let freed = bfree-Freed ip d maps (num_direct + j) (omega arith) there d1 f in
          rw (list_word j d1 lt f, e, freed.1) freed.2
    ]

    free_list-Listed :
        (n j : ℕ) (d1 : Disk)
        → j + n ≡ num_indirect
        → Freed ip d (num_direct + j) d1
        → Listed max_blocks (free_list (ip.addrs indirect) j n d1)
    unfolding free_list
    free_list-Listed zero j d1 sum f =
        let e : num_direct + j ≡ max_blocks = omega arith in rw e at f
    free_list-Listed (suc n) j d1 sum f =
        let e : num_direct + j + 1 ≡ num_direct + (j + 1) = omega arith in
        then_Listed (num_direct + (j + 1)) max_blocks (free_list (ip.addrs indirect) (j + 1) n)
          (free_word (ip.addrs indirect) j d1) (rw e at (free_word-Listed j d1 (omega arith) f))
          (λ d' f'. free_list-Listed n (j + 1) d' (omega arith) f')

  -- It has none.
  no_list :
      (n : ℕ) (d1 : Disk)
      → ip.addrs indirect ≡ 0
      → n ≤ num_indirect
      → Freed ip d num_direct d1
      → Freed ip d (num_direct + n) d1
  no_list zero d1 absent le f = f
  no_list (suc n) d1 absent le f =
      let e : num_direct + n + 1 ≡ num_direct + suc n = omega arith in
      rw e at (
        Freed-none ip d maps (num_direct + n) d1 (no_list n d1 absent (omega arith) f)
          (ground arith))

  abbrev pub Emptied : Outcome (Inode × Disk) → Type 0
  Emptied (panics e) = ⊥
  Emptied (returns (ip', d')) =
      ((k : ℕ) → k ≤ indirect → ip'.addrs k ≡ 0)
      × (ip' ≡ record ip { addrs = ip'.addrs })
      × Freed ip d max_blocks d'

  Listed-Emptied :
      (ip1 : Inode) (r : Outcome Disk)
      → Cleared num_direct ip1
      → Listed max_blocks r
      → Emptied (r >>= λ d'. returns (set_addr indirect 0 ip1, d'))
  Listed-Emptied ip1 (panics e) c w = absurd w
  Listed-Emptied ip1 (returns d') c w = (λ k le. ground (arith, c.before k), cc c.rest, w)

  free_indirect-Emptied :
      (ip1 : Inode) (d1 : Disk)
      → Cleared num_direct ip1
      → Freed ip d num_direct d1
      → Emptied (free_indirect (ip1, d1))
  unfolding free_indirect
  free_indirect-Emptied ip1 d1 c f =
      let same : ip1.addrs indirect ≡ ip.addrs indirect = c.behind indirect (omega arith) in
      elim (Bool-cases (ip.addrs indirect == 0)) [
        | inl e ↦
            let absent = eq_of (ip.addrs indirect) 0 e in
            rw (same, e)
              (
                λ k le. elim (Bool-cases (k == indirect)) [
                  | inl g ↦ rw (eq_of k indirect g) (same ∙ absent)
                  | inr g ↦ c.before k (ground arith)
                ],
                c.rest,
                no_list num_indirect d1 absent (omega arith) f,
              )
        | inr e ↦
            rw (same, e)
              (Listed-Emptied ip1 (free_list (ip.addrs indirect) 0 num_indirect d1) c (
                free_list-Listed (ne_of (ip.addrs indirect) 0 e) num_indirect 0 d1 (omega arith) f))
      ]

  then_Emptied : (r : Outcome (Inode × Disk)) → Direct num_direct r → Emptied (r >>= free_indirect)
  then_Emptied (panics e) w = absurd w
  then_Emptied (returns (ip1, d1)) w = free_indirect-Emptied ip1 d1 w.0 w.1

  pub free_all-Emptied : Healthy d → Emptied (free_direct 0 num_direct ip d >>= free_indirect)
  free_all-Emptied h =
      let start : Cleared 0 ip = record {
        before = λ k lt. absurd (omega arith);
        behind = λ k le. refl;
        rest = refl;
      } in
      then_Emptied (free_direct 0 num_direct ip d)
        (free_direct-Direct num_direct 0 ip d (omega arith) start (Freed-zero ip d maps h))
