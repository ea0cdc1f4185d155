-- ===== src/Fs/Bitmap/Bits.antt =====
-- The bits of a byte, for the bitmap of xv6/fs.c: what `|= m` and `&= ~m` do. The cases that go wrong,
-- over all bytes and bits, are counted, and there are none.
use Prim.Native.Nat.{bit_and, bit_or}
use tom_cs.Base.{
  ℕ, ◌-◌, ◌^◌, ◌<◌, ◌≡◌, refl, Bool, true, false, not, ◌||◌, leb, ltb, ◌==◌, if◌then◌else◌, arith,
  count, count_zero,
}

abbrev pub no_bit : ℕ → ℕ → Bool
no_bit b j = bit_and b (2 ^ j) == 0

abbrev differ : Bool → Bool → Bool
differ u v = if u then not v else v

-- The bit `k` of the byte `b` changes, and the result is no byte, or its bit `j` is not as it should be.
abbrev set_wrong : ℕ → ℕ → ℕ → Bool
set_wrong b k j =
    leb 256 (bit_or b (2 ^ k))
    || differ (no_bit (bit_or b (2 ^ k)) j) (if j == k then false else no_bit b j)

abbrev clear_wrong : ℕ → ℕ → ℕ → Bool
clear_wrong b k j =
    leb 256 (bit_and b (255 - 2 ^ k))
    || differ (no_bit (bit_and b (255 - 2 ^ k)) j) (if j == k then true else no_bit b j)

-- How many bytes have some bit `k`, and that some bit `j`, for which the test holds.
abbrev bad_bytes : (ℕ → ℕ → ℕ → Bool) → ℕ
bad_bytes wrong = count (λ b. ltb 0 (count (λ k. ltb 0 (count (λ j. wrong b k j) 8)) 8)) 256

zero_of : (n : ℕ) → ltb 0 n ≡ false → n ≡ 0
zero_of n e = ground arith

no_wrong :
    (wrong : ℕ → ℕ → ℕ → Bool) (b k j : ℕ)
    → bad_bytes wrong ≡ 0
    → b < 256
    → k < 8
    → j < 8
    → wrong b k j ≡ false
no_wrong wrong b k j none_bad lb lk lj =
    let in_byte = zero_of _ (count_zero _ 256 none_bad b lb) in
    let in_bit = zero_of _ (count_zero _ 8 in_byte k lk) in count_zero _ 8 in_bit j lj

set_table : bad_bytes set_wrong ≡ 0
unfolding count
set_table = refl

clear_table : bad_bytes clear_wrong ≡ 0
unfolding count
clear_table = refl

same_of : (u v : Bool) → differ u v ≡ false → u ≡ v
same_of u v e = ground arith

or_left : (u v : Bool) → (u || v) ≡ false → u ≡ false
or_left u v e = ground arith

or_right : (u v : Bool) → (u || v) ≡ false → v ≡ false
or_right u v e = ground arith

module _ (b k j : ℕ) (lb : b < 256) (lk : k < 8) (lj : j < 8) where
  pub set-lt : bit_or b (2 ^ k) < 256
  set-lt =
      let low : leb 256 (bit_or b (2 ^ k)) ≡ false =
        or_left _ _ (no_wrong set_wrong b k j set_table lb lk lj) in
      ground arith

  pub no_bit-set : no_bit (bit_or b (2 ^ k)) j ≡ (if j == k then false else no_bit b j)
  no_bit-set = same_of _ _ (or_right _ _ (no_wrong set_wrong b k j set_table lb lk lj))

  pub clear-lt : bit_and b (255 - 2 ^ k) < 256
  clear-lt =
      let low : leb 256 (bit_and b (255 - 2 ^ k)) ≡ false =
        or_left _ _ (no_wrong clear_wrong b k j clear_table lb lk lj) in
      ground arith

  pub no_bit-clear : no_bit (bit_and b (255 - 2 ^ k)) j ≡ (if j == k then true else no_bit b j)
  no_bit-clear = same_of _ _ (or_right _ _ (no_wrong clear_wrong b k j clear_table lb lk lj))
