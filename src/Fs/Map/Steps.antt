-- ===== src/Fs/Map/Steps.antt =====
-- The parts of bmap of xv6/fs.c: a direct block, the indirect block, and a block that it lists.
use tom_cs.Base.{
  ℕ, ◌+◌, ◌-◌, ◌*◌, ◌<◌, ◌≤◌, ◌≡◌, ◌≢◌, ◌⊎◌, refl, ◌∙◌, inl, inr, true, false, ltb, ◌==◌,
  if◌then◌else◌, arith, Bool-cases,
}
use tom_cs.Fs.Disk.{
  Disk, num_direct, indirect, num_indirect, max_blocks, AllBytes, get_word, put_word, get-put_word,
  get-put_word_ne, get_word_cong, get_word-zeros, put_word-AllBytes, put_word_kept, read_sb,
  block_size,
}
use tom_cs.Fs.Bitmap.Used.{block_free}
use tom_cs.Fs.Bitmap.Blocks.{InRange, IsData}
use tom_cs.Fs.Bitmap.Data.{
  room, room_but_one, written_sb, written_free, written-Healthy, written_room,
}
use tom_cs.Fs.Bitmap.Healthy.{Healthy, Fresh}
use tom_cs.Fs.Inode.{Inode, set_addr}
use tom_cs.Fs.Map.Slots.{slot, Maps, Maps-add}

-- The file has the fresh block `c` as its block `n` besides those it had; the disk `d'` is healthy,
-- and data changes in the indirect block only.
pub record Grown (ip : Inode) (d : Disk) (n c : ℕ) (ip' : Inode) (d' : Disk) : Type 0 where
  pub slots : (k : ℕ) → k ≤ max_blocks → slot ip' d' k ≡ (if k == n then c else slot ip d k)
  pub maps : Maps ip' d'
  pub healthy : Healthy d'
  pub some_block : c ≢ 0
  pub zeros : (o : ℕ) → o < block_size → d' c o ≡ 0
  pub kept : (b o : ℕ) → IsData d b → b ≢ slot ip' d' max_blocks → d' b o ≡ d b o
  pub sb : read_sb d' ≡ read_sb d
  pub was_free : block_free (read_sb d).ninodes c d ≡ true
  pub used_stays :
      (b : ℕ)
      → InRange d b
      → block_free (read_sb d).ninodes b d ≡ false
      → block_free (read_sb d).ninodes b d' ≡ false
  pub room_left : room d ≤ room d' + 1
  pub rest : ip' ≡ record ip { addrs = ip'.addrs }

module _ (ip : Inode) (d : Disk) (maps : Maps ip d) (c : ℕ) (d1 : Disk) (fresh : Fresh d c d1) where
  -- The words of the indirect block stay where a fresh block is taken.
  word_stays :
      (o : ℕ)
      → ip.addrs indirect ≢ 0
      → get_word (ip.addrs indirect) o d1 ≡ get_word (ip.addrs indirect) o d
  word_stays o some_block =
      get_word_cong (ip.addrs indirect) o d d1 (λ j.
        fresh.kept (ip.addrs indirect) j (maps.data_block max_blocks (omega arith) some_block))

  direct_slots :
      (n : ℕ)
      → n < num_direct
      → (k : ℕ) → k ≤ max_blocks
      → slot (set_addr n c ip) d1 k ≡ (if k == n then c else slot ip d k)
  direct_slots n lt k le = ground (arith, word_stays (4 * (k - num_direct)))

  indirect_slots :
      ip.addrs indirect ≡ 0
      → (k : ℕ) → k ≤ max_blocks
      → slot (set_addr indirect c ip) d1 k ≡ (if k == max_blocks then c else slot ip d k)
  indirect_slots absent k le = ground (
    arith,
    λ (a : k < max_blocks) (b : num_direct ≤ k).
        get_word-zeros c (4 * (k - num_direct)) d1 (omega arith) (λ j lt. zeros_of j lt),
  )
    where
      zeros_of : (j : ℕ) → j < block_size → d1 c j ≡ 0
      zeros_of j lt = fresh.zeros j lt

  pub fresh_room : room d ≤ room d1 + 1
  fresh_room = room_but_one c d d1 fresh.sb but
    where
      but :
          (a : ℕ)
          → InRange d a
          → block_free (read_sb d).ninodes a d ≡ true
          → (a ≡ c) ⊎ (block_free (read_sb d).ninodes a d1 ≡ true)
      but a r f = elim (Bool-cases (a == c)) [
        | inl e ↦ inl (ground arith)
        | inr e ↦ inr (ground (arith, fresh.free a))
      ]

  addr-Grown :
      (n : ℕ) (ip' : Inode)
      → n ≤ max_blocks
      → ip' ≡ record ip { addrs = ip'.addrs }
      → ((k : ℕ) → k ≤ max_blocks → slot ip' d1 k ≡ (if k == n then c else slot ip d k))
      → Grown ip d n c ip' d1
  addr-Grown n ip' low rest slots = record {
    slots = slots;
    maps = Maps-add ip d maps n c low ip' d1 d1 fresh refl (λ a r. refl) slots;
    healthy = fresh.healthy;
    some_block = omega (arith, fresh.data_block);
    zeros = fresh.zeros;
    kept = λ b o db ne. fresh.kept b o db;
    sb = fresh.sb;
    was_free = fresh.was_free;
    used_stays = λ b r u. ground (arith, fresh.free b);
    room_left = fresh_room;
    rest = rest;
  }

  pub direct-Grown : (n : ℕ) → n < num_direct → Grown ip d n c (set_addr n c ip) d1
  direct-Grown n lt = addr-Grown n (set_addr n c ip) (omega arith) refl (direct_slots n lt)

  pub indirect-Grown : ip.addrs indirect ≡ 0 → Grown ip d max_blocks c (set_addr indirect c ip) d1
  indirect-Grown absent =
      addr-Grown max_blocks (set_addr indirect c ip) (omega arith) refl (indirect_slots absent)

-- A block that the indirect block gets to list.
module _ (ip : Inode) (d : Disk) (maps : Maps ip d) (c : ℕ) (d1 : Disk) (fresh : Fresh d c d1)
    (bn : ℕ) (low : bn < num_indirect) (some_block : ip.addrs indirect ≢ 0) where
  unfoldable pub listed : Disk
  listed = put_word (ip.addrs indirect) (4 * bn) c d1

  list-IsData : IsData d (ip.addrs indirect)
  list-IsData = maps.data_block max_blocks (omega arith) some_block

  list_used : block_free (read_sb d1).ninodes (ip.addrs indirect) d1 ≡ false
  list_used = rw fresh.sb (
      ground (
        arith,
        fresh.free (ip.addrs indirect),
        maps.used max_blocks (omega arith) some_block,
        fresh.was_free,
      ))

  list_data1 : IsData d1 (ip.addrs indirect)
  list_data1 = rw fresh.sb list-IsData

  other_word :
      (k : ℕ)
      → num_direct ≤ k
      → k ≢ num_direct + bn
      → get_word (ip.addrs indirect) (4 * (k - num_direct)) listed
        ≡ get_word (ip.addrs indirect) (4 * (k - num_direct)) d
  unfolding listed
  other_word k lo ne =
      let b = ip.addrs indirect in
      let o = 4 * (k - num_direct) in
      elim (Bool-cases (ltb k (num_direct + bn))) [
        | inl e ↦
            get-put_word_ne b o b (4 * bn) c d1 (inr (inr (ground arith)))
            ∙ word_stays ip d maps c d1 fresh o some_block
        | inr e ↦
            get-put_word_ne b o b (4 * bn) c d1 (inr (inl (ground arith)))
            ∙ word_stays ip d maps c d1 fresh o some_block
      ]

  own_word : get_word (ip.addrs indirect) (4 * bn) listed ≡ c
  unfolding listed
  own_word = get-put_word (ip.addrs indirect) (4 * bn) c d1 fresh.word

  word_slots :
      (k : ℕ)
      → k ≤ max_blocks
      → slot ip listed k ≡ (if k == num_direct + bn then c else slot ip d k)
  word_slots k le = elim (Bool-cases (k == num_direct + bn)) [
    | inl e ↦ let same : k - num_direct ≡ bn = ground arith in ground (arith, own_word)
    | inr e ↦ ground (arith, other_word k)
  ]

  not_list : c ≢ ip.addrs indirect
  not_list e = cc (maps.used max_blocks (omega arith) some_block, fresh.was_free)

  list_kept : (i o : ℕ) → i ≢ ip.addrs indirect → listed i o ≡ d1 i o
  unfolding listed
  list_kept i o ne = put_word_kept (ip.addrs indirect) (4 * bn) c i o d1 (inl ne)

  listed_free :
      (a : ℕ)
      → InRange d a
      → block_free (read_sb d).ninodes a listed ≡ block_free (read_sb d).ninodes a d1
  listed_free a r =
      let same =
        written_free (ip.addrs indirect) d1 listed fresh.healthy list_data1 list_used list_kept a
          (rw fresh.sb r) in
      rw fresh.sb at same

  listed-AllBytes : AllBytes listed
  unfolding listed
  listed-AllBytes = put_word-AllBytes (ip.addrs indirect) (4 * bn) c d1 fresh.healthy.bytes

  listed_room : room d1 ≤ room listed
  listed_room =
      written_room (ip.addrs indirect) d1 listed fresh.healthy list_data1 list_used list_kept

  pub word-Grown : Grown ip d (num_direct + bn) c ip listed
  word-Grown =
      let sb =
        written_sb (ip.addrs indirect) d1 listed fresh.healthy list_data1 list_used list_kept in
      record {
        slots = word_slots;
        maps =
            Maps-add ip d maps (num_direct + bn) c (omega arith) ip d1 listed fresh sb listed_free
              word_slots;
        healthy =
            written-Healthy (ip.addrs indirect) d1 listed fresh.healthy list_data1 list_used
              list_kept listed-AllBytes;
        some_block = omega (arith, fresh.data_block);
        zeros = λ o lt. list_kept c o not_list ∙ fresh.zeros o lt;
        kept = λ a o db ne. list_kept a o ne ∙ fresh.kept a o db;
        sb = sb ∙ fresh.sb;
        was_free = fresh.was_free;
        used_stays = λ a r u. listed_free a r ∙ ground (arith, fresh.free a);
        room_left = omega (arith, fresh_room ip d maps c d1 fresh, listed_room);
        rest = refl;
      }
