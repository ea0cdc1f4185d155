-- ===== src/Fs/File/Write.antt =====
-- The loop of writei of xv6/fs.c: with room enough, every byte is written.
use tom_cs.Base.{
  ℕ, zero, suc, ◌+◌, ◌-◌, ◌/◌, ◌%◌, ◌<◌, ◌≤◌, ◌≡◌, ap, refl, sym, ◌∙◌, inl, inr, true, Option, none,
  some, ltb, ◌==◌, if◌then◌else◌, arith, Bool-cases, Outcome, returns, panics, ◌>>=◌,
}
use tom_cs.Fs.Disk.{Disk, block_size, max_blocks}
use tom_cs.Fs.Bitmap.Data.{room}
use tom_cs.Fs.Bitmap.Healthy.{Healthy}
use tom_cs.Fs.Inode.{Inode}
use tom_cs.Fs.Map.{bmap}
use tom_cs.Fs.Map.Slots.{Maps}
use tom_cs.Fs.Map.Mapped.{Mapped, lists}
use tom_cs.Fs.Map.Alloc.{Bmaps, IsFull, bmap-Bmaps}
use tom_cs.Fs.File.{chunk, max_bytes, write_loop}
use tom_cs.Fs.File.Content.{byte_at, HasBlocks}
use tom_cs.Fs.File.Block.{Writes}
use tom_cs.Fs.File.Round.{put, round-Writes, round_room}

-- How many blocks `n` bytes from `x` on lie in.
abbrev pub span : ℕ → ℕ → ℕ
span x n = if n == 0 then 0 else (x % block_size + n + 511) / block_size

none-Writes :
    (ip : Inode) (d : Disk) (x at : ℕ) (src : ℕ → ℕ)
    → Maps ip d
    → Healthy d
    → Writes ip d x at 0 src ip d
none-Writes ip d x at src maps h = record {
  inside = λ y lo hi. absurd (omega arith);
  outside = λ y lt out. refl;
  there = λ y lo hi. absurd (omega arith);
  stays = λ k lt was. refl;
  others = λ b r. (r, λ o. refl);
  maps = maps;
  healthy = h;
  sb = refl;
  rest = refl;
}

module _ (x at m n : ℕ) (src : ℕ → ℕ) (ip ip1 ip' : Inode) (d d1 d' : Disk)
    (fits : x + (m + n) ≤ max_bytes) (first : Writes ip d x at m src ip1 d1)
    (next : Writes ip1 d1 (x + m) (at + m) n src ip' d') where
  both_inside : (y : ℕ) → x ≤ y → y < x + (m + n) → byte_at ip' d' y ≡ src (at + (y - x))
  both_inside y lo hi = elim (Bool-cases (ltb y (x + m))) [
    | inl e ↦ next.outside y (omega arith) (inl (ground arith)) ∙ first.inside y lo (ground arith)
    | inr e ↦
        let same : at + m + (y - (x + m)) ≡ at + (y - x) = ground arith in
        rw same at (next.inside y (ground arith) (omega arith))
  ]

  both_there : HasBlocks ip' d' x (m + n)
  both_there y lo hi = elim (Bool-cases (ltb y (x + m))) [
    | inl e ↦
        let was = first.there y lo (ground arith) in
        λ z. was (sym (next.stays (y / block_size) (omega arith) was) ∙ z)
    | inr e ↦ next.there y (ground arith) (omega arith)
  ]

  add-Writes : Writes ip d x at (m + n) src ip' d'
  add-Writes = record {
    inside = both_inside;
    outside = λ y lt out. next.outside y lt (ground arith) ∙ first.outside y lt (ground arith);
    there = both_there;
    stays = λ k lt was.
        let one = first.stays k lt was in next.stays k lt (λ z. was (sym one ∙ z)) ∙ one;
    others = λ b r.
        let one = first.others b r in
        let two = next.others b one.0 in (two.0, λ o. two.1 o ∙ one.1 o);
    maps = next.maps;
    healthy = next.healthy;
    sb = next.sb ∙ first.sb;
    rest = cc (next.rest, first.rest);
  }

-- What the loop comes to: it does not panic, and leaves the size to its end.
abbrev pub WritesTo : Inode → Disk → ℕ → ℕ → ℕ → (ℕ → ℕ) → Outcome (Inode × Disk) → Type 0
WritesTo ip d x at n src (panics e) = ⊥
WritesTo ip d x at n src (returns (ip', d')) = (ip'.size ≡ ip.size) × Writes ip d x at n src ip' d'

module _ (src : ℕ → ℕ) (small : (j : ℕ) → src j < 256) where
  after_round :
      (ip ip1 : Inode) (d d1 : Disk) (x at m n total : ℕ)
      → m + n ≡ total
      → x + total ≤ max_bytes
      → ip1.size ≡ ip.size
      → Writes ip d x at m src ip1 d1
      → (r : Outcome (Inode × Disk)) → WritesTo ip1 d1 (x + m) (at + m) n src r
      → WritesTo ip d x at total src r
  after_round ip ip1 d d1 x at m n total sum fits size first (panics e) w = absurd w
  after_round ip ip1 d d1 x at m n total sum fits size first (returns (ip', d')) (size', w) =
      (size' ∙ size, rw sum at (add-Writes x at m n src ip ip1 ip' d d1 d' (omega arith) first w))

  -- The loop behind its bmap.
  after_bmap :
      (ip : Inode) (d : Disk) (bn at x n : ℕ)
      → 2 ≤ room d + lists ip d
      → (next : Option ℕ × Inode × Disk → Outcome (Inode × Disk))
      → ((a : ℕ) (ip1 : Inode) (d1 : Disk)
          → Mapped ip d bn a ip1 d1
          → WritesTo ip d x at n src (next (some a, ip1, d1)))
      → (r : Outcome (Option ℕ × Inode × Disk)) → Bmaps (IsFull ip d) ip d bn r
      → WritesTo ip d x at n src (r >>= next)
  unfolding IsFull
  after_bmap ip d bn at x n space next f (panics e) full = absurd (omega arith)
  after_bmap ip d bn at x n space next f (returns (none, ip1, d1)) b = absurd b
  after_bmap ip d bn at x n space next f (returns (some a, ip1, d1)) b = f a ip1 d1 b

  pub write_loop_lem :
      (f : ℕ) (ip : Inode) (d : Disk) (x at left : ℕ)
      → left ≤ f
      → x + left ≤ max_bytes
      → Maps ip d
      → Healthy d
      → span x left + 1 ≤ room d + lists ip d
      → WritesTo ip d x at left src (write_loop f ip x at left src d)
  unfolding write_loop put
  write_loop_lem zero ip d x at left le fits maps h space =
      let e : left ≡ 0 = omega arith in rw e (refl, none-Writes ip d x at src maps h)
  write_loop_lem (suc f) ip d x at left le fits maps h space = elim (Bool-cases (left == 0)) [
    | inl e ↦ let z : left ≡ 0 = ground arith in rw z (refl, none-Writes ip d x at src maps h)
    | inr e ↦
        let m = chunk x left in
        let bound : (m ≤ left) × (1 ≤ m) = ground arith in
        let low : x / block_size < max_blocks = ground arith in
        let whole : m + (left - m) ≡ left = omega arith in
        rw e (
          after_bmap ip d (x / block_size) at x left (ground arith) _
            (λ a ip1 d1 mapped.
              let d2 = put ip d x at left src small low a ip1 d1 mapped in
              let done = round-Writes ip d x at left src small low a ip1 d1 mapped in
              let space' = round_room ip d x at left src small low a ip1 d1 mapped in
              after_round ip ip1 d d2 x at m (left - m) left whole fits
                (ap (λ q. q.size) mapped.rest) done
                (write_loop f ip1 (x + m) (at + m) (left - m) src d2)
                (write_loop_lem f ip1 d2 (x + m) (at + m) (left - m) (omega arith) (omega arith)
                  done.maps done.healthy (ground (arith, space'))))
            (bmap true ip (x / block_size) d) (bmap-Bmaps ip d (x / block_size) maps h low))
  ]
