-- ===== src/Fs/File/Round.antt =====
-- What one round of writei of xv6/fs.c writes.
use tom_cs.Base.{
  ℕ, ◌+◌, ◌-◌, ◌/◌, ◌%◌, ◌<◌, ◌≤◌, ◌≡◌, ◌≢◌, ◌⊎◌, sym, ◌∙◌, inl, inr, Bool, true, false, ◌&&◌, leb,
  ltb, ◌==◌, if◌then◌else◌, arith, Bool-cases,
}
use tom_cs.Fs.Disk.{Disk, AllBytes, block_size, max_blocks}
use tom_cs.Fs.Bitmap.Data.{room}
use tom_cs.Fs.Inode.{Inode}
use tom_cs.Fs.Map.Slots.{slot}
use tom_cs.Fs.Map.Mapped.{Mapped, lists}
use tom_cs.Fs.File.{put_bytes, chunk, max_bytes}
use tom_cs.Fs.File.Content.{byte_at}
use tom_cs.Fs.File.Block.{
  IsOther, Writes, same_sb, same_slot, same-Maps, same-Healthy, same_room, IsOther-stays,
}
use tom_cs.Fs.File.Bytes.{
  put_bytes_kept, put_bytes_lem, put_bytes-AllBytes, eq_of, ne_of, at_slot, byte_at-at_slot,
  same_at_slot, new_at_slot, at_slot_lem,
}

module _ (ip : Inode) (d : Disk) (x at left : ℕ) (src : ℕ → ℕ) (small : (j : ℕ) → src j < 256)
    (low : x / block_size < max_blocks) (a : ℕ) (ip' : Inode) (d1 : Disk)
    (m : Mapped ip d (x / block_size) a ip' d1) where
  unfoldable pub put : Disk
  put = put_bytes a (x % block_size) (chunk x left) (λ j. src (at + j)) d1

  some_block : slot ip' d1 (x / block_size) ≢ 0
  some_block e = m.some_block (sym m.own ∙ e)

  put_kept : (i o : ℕ) → i ≢ slot ip' d1 (x / block_size) → put i o ≡ d1 i o
  unfolding put
  put_kept i o ne =
      put_bytes_kept a (x % block_size) (chunk x left) (λ j. src (at + j)) d1 i o
        (λ e. ne (e ∙ sym m.own))

  put-slot : (k : ℕ) → k ≤ max_blocks → slot ip' put k ≡ slot ip' d1 k
  put-slot = same_slot ip' d1 put (x / block_size) m.maps m.healthy low some_block put_kept

  kept_slot :
      (k j : ℕ)
      → k < max_blocks
      → slot ip' d1 k ≡ slot ip d k
      → at_slot (slot ip' d1 k) d1 j ≡ at_slot (slot ip d k) d j
  kept_slot k j lt same = rw same (
      same_at_slot (slot ip d k) j d d1 (λ there.
        let there' : slot ip' d1 k ≢ 0 = rw same there in
        let data_block = rw (m.sb, same) at (m.maps.data_block k (omega arith) there') in
        m.kept (slot ip d k) j data_block (λ e. absurd (
          omega (arith, m.maps.apart k max_blocks (omega arith) (omega arith) there' (same ∙ e))))))

  mapped_slot :
      (k j : ℕ)
      → k < max_blocks
      → j < block_size
      → at_slot (slot ip' d1 k) d1 j ≡ at_slot (slot ip d k) d j
  mapped_slot k j lt small = elim (Bool-cases (k == x / block_size)) [
    | inr e ↦ kept_slot k j lt (m.others k lt (ground arith))
    | inl e ↦
        let same : k ≡ x / block_size = ground arith in
        elim (Bool-cases (slot ip d k == 0)) [
          | inl f ↦
              let own : slot ip' d1 k ≡ a = rw same m.own in
              let absent : slot ip d k ≡ 0 = eq_of (slot ip d k) 0 f in
              rw own (
                new_at_slot (slot ip d k) a j d d1 m.some_block absent
                  (m.zeros (rw same at absent) j small))
          | inr f ↦
              let there : slot ip d k ≢ 0 = ne_of (slot ip d k) 0 f in
              kept_slot k j lt (rw same (m.own ∙ sym (m.was (rw same at there))))
        ]
  ]

  -- What `bmap` alone does to the bytes of the file.
  mapped_byte : (y : ℕ) → y < max_bytes → byte_at ip' d1 y ≡ byte_at ip d y
  mapped_byte y lt =
      rw (byte_at-at_slot ip' d1 y, byte_at-at_slot ip d y)
        (mapped_slot (y / block_size) (y % block_size) (omega arith) (omega arith))

  unfoldable in_range : ℕ → Bool
  in_range y = leb x y && ltb y (x + chunk x left)

  put_here :
      (y : ℕ)
      → y / block_size ≡ x / block_size
      → byte_at ip' put y ≡ (if in_range y then src (at + (y - x)) else byte_at ip' d1 y)
  unfolding put in_range
  put_here y same =
      let j = y % block_size in
      let o = x % block_size in
      let own : slot ip' put (y / block_size) ≡ a =
        rw same (put-slot (x / block_size) (omega arith) ∙ m.own) in
      let own1 : slot ip' d1 (y / block_size) ≡ a = rw same m.own in
      let tests : (leb x y && ltb y (x + chunk x left)) ≡ (leb o j && ltb j (o + chunk x left)) =
        ground arith in
      let offset : j - o ≡ y - x = omega arith in
      rw
        (
          byte_at-at_slot ip' put y,
          byte_at-at_slot ip' d1 y,
          own,
          own1,
          at_slot_lem a j put m.some_block,
          at_slot_lem a j d1 m.some_block,
          tests,
        )
        (rw offset at (put_bytes_lem a o (chunk x left) (λ i. src (at + i)) d1 j))

  put_there :
      (y : ℕ)
      → y < max_bytes
      → y / block_size ≢ x / block_size
      → byte_at ip' put y ≡ byte_at ip' d1 y
  put_there y lt other =
      let k = y / block_size in
      rw (byte_at-at_slot ip' put y, byte_at-at_slot ip' d1 y, put-slot k (omega arith))
        (same_at_slot (slot ip' d1 k) (y % block_size) d1 put (λ there.
          put_kept (slot ip' d1 k) (y % block_size)
            (λ e. other (m.maps.apart k (x / block_size) (omega arith) (omega arith) there e))))

  put-byte_at :
      (y : ℕ)
      → y < max_bytes
      → byte_at ip' put y ≡ (if in_range y then src (at + (y - x)) else byte_at ip d y)
  unfolding in_range
  put-byte_at y lt = elim (Bool-cases (y / block_size == x / block_size)) [
    | inl e ↦ rw (← mapped_byte y lt) (put_here y (eq_of (y / block_size) (x / block_size) e))
    | inr e ↦
        let out : (leb x y && ltb y (x + chunk x left)) ≡ false = ground arith in
        rw out (put_there y lt (ne_of (y / block_size) (x / block_size) e) ∙ mapped_byte y lt)
  ]

  put_inside : (y : ℕ) → x ≤ y → y < x + chunk x left → byte_at ip' put y ≡ src (at + (y - x))
  unfolding in_range
  put_inside y lo hi =
      let yes : in_range y ≡ true = ground arith in rw yes at (put-byte_at y (ground arith))

  put_outside :
      (y : ℕ)
      → y < max_bytes
      → (y < x) ⊎ (x + chunk x left ≤ y)
      → byte_at ip' put y ≡ byte_at ip d y
  unfolding in_range
  put_outside y lt out =
      let no_match : in_range y ≡ false = ground arith in rw no_match at (put-byte_at y lt)

  mapped_stays : (k : ℕ) → k < max_blocks → slot ip d k ≢ 0 → slot ip' d1 k ≡ slot ip d k
  mapped_stays k lt was = elim (Bool-cases (k == x / block_size)) [
    | inr e ↦ m.others k lt (ne_of k (x / block_size) e)
    | inl e ↦
        let same : k ≡ x / block_size = eq_of k (x / block_size) e in
        rw same (m.own ∙ sym (m.was (rw same at was)))
  ]

  mapped-IsOther : (b : ℕ) → IsOther ip d b → IsOther ip' d1 b × ((o : ℕ) → d1 b o ≡ d b o)
  mapped-IsOther b r =
      let apart : (k : ℕ) → k ≤ max_blocks → slot ip' d1 k ≢ b = λ k le e.
        let there : slot ip' d1 k ≢ 0 = λ z. absurd (omega (arith, r.data_block, z, e)) in
        elim (m.owned k le there) [ inl f ↦ r.apart k le (sym f ∙ e) | inr f ↦ cc r.used ] in
      (
        record {
          data_block = rw m.sb r.data_block;
          in_range = rw m.sb r.in_range;
          used = rw m.sb (m.used_stays b r.in_range r.used);
          apart = apart;
        },
        λ o. m.kept b o r.data_block (λ e. apart max_blocks (omega arith) (sym e)),
      )

  put-IsOther : (b : ℕ) → IsOther ip d b → IsOther ip' put b × ((o : ℕ) → put b o ≡ d b o)
  put-IsOther b r =
      let first = mapped-IsOther b r in
      let next =
        IsOther-stays ip' d1 put (x / block_size) m.maps m.healthy low some_block put_kept b
          first.0 in
      (next.0, λ o. next.1 o ∙ first.1 o)

  put-AllBytes : AllBytes put
  unfolding put
  put-AllBytes =
      put_bytes-AllBytes a (x % block_size) (chunk x left) (λ j. src (at + j)) d1 m.healthy.bytes
        (λ j. small (at + j))

  put_block : slot ip' put (x / block_size) ≢ 0
  put_block e = some_block (sym (put-slot (x / block_size) (omega arith)) ∙ e)

  pub round-Writes : Writes ip d x at (chunk x left) src ip' put
  round-Writes = record {
    inside = put_inside;
    outside = put_outside;
    there =
        λ y lo hi. let same : y / block_size ≡ x / block_size = ground arith in rw same put_block;
    stays = λ k lt was. put-slot k (omega arith) ∙ mapped_stays k lt was;
    others = put-IsOther;
    maps = same-Maps ip' d1 put (x / block_size) m.maps m.healthy low some_block put_kept;
    healthy =
        same-Healthy ip' d1 put (x / block_size) m.maps m.healthy low some_block put_kept
          put-AllBytes;
    sb = same_sb ip' d1 put (x / block_size) m.maps m.healthy low some_block put_kept ∙ m.sb;
    rest = cc m.rest;
  }

  pub round_room : room d + lists ip d ≤ room put + lists ip' put + 1
  round_room = omega (
    arith,
    m.room_left,
    same_room ip' d1 put (x / block_size) m.maps m.healthy low some_block put_kept,
  )
