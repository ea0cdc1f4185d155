-- ===== src/Fs/Map/Mapped.antt =====
-- What bmap of xv6/fs.c comes to where it gives a file a block.
use tom_cs.Base.{
  ℕ, ◌+◌, ◌<◌, ◌≤◌, ◌≡◌, ◌≢◌, ◌⊎◌, refl, sym, ◌∙◌, inl, inr, true, false, ◌==◌, if◌then◌else◌,
  arith, Bool-cases,
}
use tom_cs.Fs.Disk.{Disk, max_blocks, read_sb, block_size}
use tom_cs.Fs.Bitmap.Used.{block_free}
use tom_cs.Fs.Bitmap.Blocks.{InRange, IsData}
use tom_cs.Fs.Bitmap.Data.{room}
use tom_cs.Fs.Bitmap.Healthy.{Healthy}
use tom_cs.Fs.Inode.{Inode}
use tom_cs.Fs.Map.Slots.{slot, Maps}
use tom_cs.Fs.Map.Steps.{Grown}

-- 1 if the file has an indirect block.
abbrev pub lists : Inode → Disk → ℕ
lists ip d = if slot ip d max_blocks == 0 then 0 else 1

-- The block `bn` of the file is at `a`, new and full of zeros if it was not there; the other blocks
-- of the file are where they were, and no data changes but for the list in the indirect block.
pub record Mapped (ip : Inode) (d : Disk) (bn a : ℕ) (ip' : Inode) (d' : Disk) : Type 0 where
  pub some_block : a ≢ 0
  pub own : slot ip' d' bn ≡ a
  pub others : (k : ℕ) → k < max_blocks → k ≢ bn → slot ip' d' k ≡ slot ip d k
  pub was : slot ip d bn ≢ 0 → slot ip d bn ≡ a
  pub zeros : slot ip d bn ≡ 0 → (o : ℕ) → o < block_size → d' a o ≡ 0
  pub kept : (b o : ℕ) → IsData d b → b ≢ slot ip' d' max_blocks → d' b o ≡ d b o
  pub list_stays : slot ip d max_blocks ≢ 0 → slot ip' d' max_blocks ≡ slot ip d max_blocks
  pub owned :
      (k : ℕ)
      → k ≤ max_blocks
      → slot ip' d' k ≢ 0
      → (slot ip' d' k ≡ slot ip d k) ⊎ (block_free (read_sb d).ninodes (slot ip' d' k) d ≡ true)
  pub used_stays :
      (b : ℕ)
      → InRange d b
      → block_free (read_sb d).ninodes b d ≡ false
      → block_free (read_sb d).ninodes b d' ≡ false
  pub maps : Maps ip' d'
  pub healthy : Healthy d'
  pub sb : read_sb d' ≡ read_sb d
  pub room_left : room d + lists ip d ≤ room d' + lists ip' d' + 1
  pub rest : ip' ≡ record ip { addrs = ip'.addrs }

module _ (ip : Inode) (d : Disk) (maps : Maps ip d) (h : Healthy d) where
  pub same-Mapped : (bn a : ℕ) → slot ip d bn ≡ a → a ≢ 0 → Mapped ip d bn a ip d
  same-Mapped bn a e ne = record {
    some_block = ne;
    own = e;
    others = λ k lt o. refl;
    was = λ b. e;
    zeros = λ z. absurd (ne (sym e ∙ z));
    kept = λ b o db o'. refl;
    list_stays = λ b. refl;
    owned = λ k le b. inl refl;
    used_stays = λ b r u. u;
    maps = maps;
    healthy = h;
    sb = refl;
    room_left = omega arith;
    rest = refl;
  }

  Grown-owned :
      (n a : ℕ) (ip' : Inode) (d' : Disk)
      → Grown ip d n a ip' d'
      → (k : ℕ) → k ≤ max_blocks
      → (slot ip' d' k ≡ slot ip d k) ⊎ (block_free (read_sb d).ninodes (slot ip' d' k) d ≡ true)
  Grown-owned n a ip' d' g k le = elim (Bool-cases (k == n)) [
    | inl e ↦
        let same : slot ip' d' k ≡ a = ground (arith, g.slots k le) in inr (rw same g.was_free)
    | inr e ↦ inl (ground (arith, g.slots k le))
  ]

  -- What is free when one block has been taken was free before.
  twice_free :
      (b : ℕ) (ip1 : Inode) (d1 : Disk)
      → Grown ip d max_blocks b ip1 d1
      → (x : ℕ) → InRange d x
      → block_free (read_sb d1).ninodes x d1 ≡ true
      → block_free (read_sb d).ninodes x d ≡ true
  twice_free b ip1 d1 g x r f = elim (Bool-cases (block_free (read_sb d).ninodes x d)) [
    | inl e ↦ e
    | inr e ↦
        let f' : block_free (read_sb d).ninodes x d1 ≡ true = rw g.sb at f in
        cc (g.used_stays x r e)
  ]

  pub Grown-Mapped :
      (bn a : ℕ) (ip' : Inode) (d' : Disk)
      → bn < max_blocks
      → slot ip d bn ≡ 0
      → Grown ip d bn a ip' d'
      → Mapped ip d bn a ip' d'
  Grown-Mapped bn a ip' d' lt absent g = record {
    some_block = g.some_block;
    own = ground (arith, g.slots bn (omega arith));
    others = λ k l ne. ground (arith, g.slots k (omega arith));
    was = λ b. absurd (b absent);
    zeros = λ z. g.zeros;
    kept = g.kept;
    list_stays = λ b. ground (arith, g.slots max_blocks (omega arith));
    owned = λ k le b. Grown-owned bn a ip' d' g k le;
    used_stays = g.used_stays;
    maps = g.maps;
    healthy = g.healthy;
    sb = g.sb;
    room_left =
        let same : slot ip' d' max_blocks ≡ slot ip d max_blocks =
          ground (arith, g.slots max_blocks (omega arith)) in
        ground (arith, g.room_left);
    rest = g.rest;
  }

  -- First the indirect block is new, then the block that it lists.
  pub twice-Mapped :
      (bn a b : ℕ) (ip1 ip' : Inode) (d1 d' : Disk)
      → bn < max_blocks
      → slot ip d max_blocks ≡ 0
      → slot ip d bn ≡ 0
      → Grown ip d max_blocks b ip1 d1
      → Mapped ip1 d1 bn a ip' d'
      → Mapped ip d bn a ip' d'
  twice-Mapped bn a b ip1 ip' d1 d' lt no_list absent g m =
      let was : slot ip1 d1 bn ≡ slot ip d bn = ground (arith, g.slots bn (omega arith)) in
      let list : slot ip1 d1 max_blocks ≡ b = ground (arith, g.slots max_blocks (omega arith)) in
      let stays : slot ip' d' max_blocks ≡ slot ip1 d1 max_blocks =
        m.list_stays (λ e. g.some_block (sym list ∙ e)) in
      record {
        some_block = m.some_block;
        own = m.own;
        others = λ k l ne. m.others k l ne ∙ ground (arith, g.slots k (omega arith));
        was = λ c. absurd (c absent);
        zeros = λ z. m.zeros (was ∙ absent);
        kept = λ c o dc ne. m.kept c o (rw g.sb dc) ne ∙ g.kept c o dc (λ e. ne (e ∙ sym stays));
        list_stays = λ c. absurd (c no_list);
        owned = λ k le c. elim (m.owned k le c) [
          | inl e ↦ elim (Grown-owned max_blocks b ip1 d1 g k le) [
            | inl f ↦ inl (e ∙ f)
            | inr f ↦ inr (rw e f)
          ]
          | inr f ↦
              inr (
                twice_free b ip1 d1 g (slot ip' d' k) (rw (m.sb ∙ g.sb) at m.maps.in_range k le c)
                  f)
        ];
        used_stays = λ c r u.
            let r' : InRange d1 c = rw g.sb r in
            let u' : block_free (read_sb d1).ninodes c d1 ≡ false = rw g.sb (g.used_stays c r u) in
            let v = m.used_stays c r' u' in rw g.sb at v;
        maps = m.maps;
        healthy = m.healthy;
        sb = m.sb ∙ g.sb;
        room_left = ground (arith, m.room_left, g.room_left);
        rest = cc (m.rest, g.rest);
      }
