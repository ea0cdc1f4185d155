-- ===== src/Fs/Icache/Put.antt =====
-- iput of xv6/fs.c: a reference is dropped, and with the last one a file without a name.
use tom_cs.Base.{
  ℕ, ◌+◌, ◌-◌, ◌<◌, ◌≤◌, ◌≡◌, ◌≢◌, ap, refl, ◌∙◌, inl, inr, Bool, true, false, ◌&&◌, ◌==◌, arith,
  Bool-cases, update, Outcome, returns, panics, ◌>>=◌,
}
use tom_cs.Fs.Disk.{Disk, read_sb, max_blocks}
use tom_cs.Fs.Bitmap.Healthy.{Healthy}
use tom_cs.Fs.Inode.{Inode, iupdate, load_inode}
use tom_cs.Fs.Inode.Layout.{Fits, load-iupdate}
use tom_cs.Fs.Map.Slots.{Maps}
use tom_cs.Fs.Truncate.{itrunc}
use tom_cs.Fs.Truncate.Freed.{Freed}
use tom_cs.Fs.Truncate.Truncs.{Truncs, itrunc-Truncs, iupdate-Freed}
use tom_cs.Fs.Icache.{Icache, idup, free_inode, iput}

-- `ip->ref == 1 && (ip->flags & I_VALID) && ip->nlink == 0`
abbrev pub is_last : Inode → Bool
is_last ip = ip.ref == 1 && ip.valid && ip.nlink == 0

-- A busy inode has the same blocks.
abbrev pub busy_inode : Inode → Inode
busy_inode ip = record ip { busy = true }

pub busy-Maps : (ip : Inode) (d : Disk) → Maps ip d → Maps (busy_inode ip) d
busy-Maps ip d m = record {
  used = m.used;
  data_block = m.data_block;
  in_range = m.in_range;
  apart = m.apart;
}

pub busy-Fits : (ip : Inode) → Fits ip → Fits (busy_inode ip)
busy-Fits ip f = record {
  type = f.type;
  major = f.major;
  minor = f.minor;
  nlink = f.nlink;
  size = f.size;
  addrs = f.addrs;
}

busy-Freed :
    (ip : Inode) (d : Disk) (n : ℕ) (d' : Disk) → Freed (busy_inode ip) d n d' → Freed ip d n d'
busy-Freed ip d n d' f = record {
  healthy = f.healthy;
  sb = f.sb;
  gone = f.gone;
  stays = f.stays;
  kept = f.kept;
}

-- The file is gone: its blocks are free, and its inode on the disk is.
pub record Gone (ip : Inode) (d : Disk) (ip' : Inode) (d' : Disk) : Type 0 where
  pub freed : Freed ip d max_blocks d'
  pub not_busy : ip'.busy ≡ false
  pub type : (load_inode ip' d').type ≡ 0
  pub empty : (load_inode ip' d').size ≡ 0
  pub same :
      ip' ≡ record ip { type = 0; busy = false; ref = ip'.ref; addrs = ip'.addrs; size = ip'.size }

abbrev Frees : Inode → Disk → Outcome (Inode × Disk) → Type 0
Frees ip d (panics e) = ⊥
Frees ip d (returns (ip', d')) = (ip'.ref ≡ ip.ref) × Gone ip d ip' d'

module _ (ip : Inode) (d : Disk) (maps : Maps ip d) (h : Healthy d)
    (some_inode : ip.inum ≤ (read_sb d).ninodes) (fits : Fits ip) where
  clear_type : Inode × Disk → Outcome (Inode × Disk)
  clear_type (ip', d') =
      let ip'' = record ip' { type = 0 } in returns (record ip'' { busy = false }, iupdate ip'' d')

  cleared-Frees :
      (r : Outcome (Inode × Disk)) → Truncs (busy_inode ip) d r → Frees ip d (r >>= clear_type)
  unfolding clear_type
  cleared-Frees (panics e) t = t
  cleared-Frees (returns (ip1, d1)) t =
      let q = record ip1 { type = 0 } in
      let inum : q.inum ≡ ip.inum = ap (λ p. p.inum) t.rest in
      let major : ip1.major ≡ ip.major = ap (λ p. p.major) t.rest in
      let minor : ip1.minor ≡ ip.minor = ap (λ p. p.minor) t.rest in
      let nlink : ip1.nlink ≡ ip.nlink = ap (λ p. p.nlink) t.rest in
      let fits' : Fits q = record {
        type = omega arith;
        major = rw major fits.major;
        minor = rw minor fits.minor;
        nlink = rw nlink fits.nlink;
        size = omega (arith, t.empty);
        addrs = λ k le. omega (arith, t.addrs k le);
      } in
      let loads = load-iupdate q d1 (record q { busy = false }) fits' refl in
      (
        ap (λ p. p.ref) t.rest,
        record {
          freed =
              iupdate-Freed ip d maps some_inode fits q max_blocks d1 inum
                (busy-Freed ip d max_blocks d1 t.freed);
          not_busy = refl;
          type = loads.type;
          empty = loads.size ∙ t.empty;
          same = cc t.rest;
        },
      )

  free_inode-Frees : Frees ip d (free_inode ip d)
  unfolding free_inode clear_type
  free_inode-Frees =
      cleared-Frees (itrunc (busy_inode ip) d)
        (itrunc-Truncs (busy_inode ip) d (busy-Maps ip d maps) some_inode (busy-Fits ip fits) h)

-- What iput of the slot `k` comes to: it does not panic.
abbrev pub Puts : ℕ → Icache → Disk → Outcome (Icache × Disk) → Type 0
Puts k c d (panics e) = ⊥
Puts k c d (returns (c', d')) =
    ((c' k).ref ≡ (c k).ref - 1)
    × ((j : ℕ) → j ≢ k → c' j ≡ c j)
    × (is_last (c k) ≡ true → Gone (c k) d (c' k) d')
    × (is_last (c k) ≡ false → (d' ≡ d) × (c' k ≡ record (c k) { ref = (c k).ref - 1 }))

module _ (k : ℕ) (c : Icache) (d : Disk) where
  last-Puts :
      (r : Outcome (Inode × Disk))
      → is_last (c k) ≡ true
      → Frees (c k) d r
      → Puts k c d (r >>= λ (ip, d'). returns (update c k (record ip { ref = ip.ref - 1 }), d'))
  unfolding load_inode
  last-Puts (panics e) last f = f
  last-Puts (returns (ip, d')) last f =
      let here : (k == k) ≡ true = ground arith in
      let g = f.1 in
      (
        rw (here, f.0) refl,
        λ j ne. ground arith,
        λ t. rw here (record {
          freed = g.freed;
          not_busy = g.not_busy;
          type = g.type;
          empty = g.empty;
          same = cc g.same;
        }),
        λ t. absurd (cc (t, last)),
      )

  -- On a disk in order, iput of a file that is not busy does not panic. It drops one reference in
  -- its slot and changes no other slot. If that was the last one of a valid inode without a name,
  -- the blocks of the file are free and its inode on the disk has type 0; if not, the disk does
  -- not change.
  pub iput-Puts :
      Maps (c k) d
      → Healthy d
      → (c k).inum ≤ (read_sb d).ninodes
      → Fits (c k)
      → (is_last (c k) ≡ true → (c k).busy ≡ false)
      → Puts k c d (iput k c d)
  unfolding iput free_inode
  iput-Puts maps h some_inode fits idle = elim (Bool-cases (is_last (c k))) [
    | inl e ↦
        rw (e, idle e)
          (last-Puts (free_inode (c k) d) e (free_inode-Frees (c k) d maps h some_inode fits))
    | inr e ↦
        rw e (ground arith, λ j ne. ground arith, λ t. absurd (cc t), λ f. (refl, ground arith))
  ]

  -- A reference that `idup` takes, `iput` drops, and all is as before.
  pub iput-idup : 0 < (c k).ref → iput k (idup k c) d ≡ returns (c, d)
  unfolding iput idup
  iput-idup held =
      let here : (k == k) ≡ true = ground arith in
      let two : ((c k).ref + 1 == 1) ≡ false = ground arith in
      rw (here, two) (ap (λ c'. returns (c', d)) (λ i j. back j i))
    where
      back : (j : ℕ) → update (idup k c) k (record (c k) { ref = (c k).ref + 1 - 1 }) j ≡ c j
      back j = elim (Bool-cases (k == j)) [
        | inl e ↦
            let same : k ≡ j = ground arith in
            let count : (c k).ref + 1 - 1 ≡ (c k).ref = omega arith in rw (e, count) (ap c same)
        | inr e ↦ rw e refl
      ]
