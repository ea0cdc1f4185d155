-- ===== src/Pipe/Buffer.antt =====
-- The bytes that a pipe holds, oldest first, and what one put or one drop does to them.
use tom_cs.Base.{
  ℕ, zero, suc, ◌+◌, ◌-◌, ◌%◌, ◌^◌, ◌≤◌, ◌<◌, ◌≡◌, ◌≢◌, refl, sym, ap, ◌∙◌, true, false, List, [],
  ◌∷◌, ◌++◌, arith, length, get_or, set, length-set,
}
use mathlib.Core.Path.{ap₂}
use tom_cs.Pipe.{pipe_size, u32, Pipe, is_full, is_empty, put_byte, front_byte, drop_byte}

module _ {ℓ} {A : Type ℓ} where
  pub get_or-set_self :
      (xs : List A) (i : ℕ) (v d : A) → i < length xs → get_or (set xs i v) i d ≡ v
  get_or-set_self [] i v d h = absurd (omega arith)
  get_or-set_self (x ∷ xs) zero v d h = refl
  get_or-set_self (x ∷ xs) (suc i) v d h = get_or-set_self xs i v d (omega arith)

  pub get_or-set_ne :
      (xs : List A) (i j : ℕ) (v d : A) → i ≢ j → get_or (set xs i v) j d ≡ get_or xs j d
  get_or-set_ne [] i j v d h = refl
  get_or-set_ne (x ∷ xs) zero zero v d h = absurd (h refl)
  get_or-set_ne (x ∷ xs) zero (suc j) v d h = refl
  get_or-set_ne (x ∷ xs) (suc i) zero v d h = refl
  get_or-set_ne (x ∷ xs) (suc i) (suc j) v d h = get_or-set_ne xs i j v d (λ e. h (ap suc e))

-- The `n` bytes from the running index `r` on.
abbrev pub window : List ℕ → ℕ → ℕ → List ℕ
window bs r zero = []
window bs r (suc n) = get_or bs (r % pipe_size) 0 ∷ window bs (u32 (r + 1)) n

-- A byte written beyond the window leaves it alone.
window-set :
    (bs : List ℕ) (c r n i k : ℕ)
    → n ≤ k
    → k < pipe_size
    → i ≡ (r + k) % pipe_size
    → window (set bs i c) r n ≡ window bs r n
window-set bs c r zero i k h lt e = refl
window-set bs c r (suc n) i k h lt e =
    ap₂ (λ x xs. x ∷ xs) (get_or-set_ne bs i (r % pipe_size) c 0 (omega arith))
      (window-set bs c (u32 (r + 1)) n i (k - 1) (omega arith) (omega arith) (omega arith))

window-snoc :
    (bs : List ℕ) (r n : ℕ)
    → window bs r (suc n) ≡ window bs r n ++ get_or bs ((r + n) % pipe_size) 0 ∷ []
window-snoc bs r zero = ap (λ i. get_or bs i 0 ∷ []) (omega arith)
window-snoc bs r (suc n) =
    ap (λ xs. get_or bs (r % pipe_size) 0 ∷ xs)
      (window-snoc bs (u32 (r + 1)) n
        ∙ ap (λ i. window bs (u32 (r + 1)) n ++ get_or bs i 0 ∷ []) (omega arith))

pub length-window : (bs : List ℕ) (r n : ℕ) → length (window bs r n) ≡ n
length-window bs r zero = refl
length-window bs r (suc n) = ap suc (length-window bs (u32 (r + 1)) n)

-- How many bytes there are: the indices run freely and wrap at `2 ^ 32`.
abbrev pub count : Pipe → ℕ
count p = u32 (p.writep + 2 ^ 32 - p.readp)

pub record IsValid (p : Pipe) : Type 0 where
  pub room : length p.bytes ≡ pipe_size
  pub read_fits : p.readp < 2 ^ 32
  pub write_fits : p.writep < 2 ^ 32
  pub bounded : count p ≤ pipe_size

abbrev pub contents : Pipe → List ℕ
contents p = window p.bytes p.readp (count p)

module _ {p : Pipe} (v : IsValid p) where
  pub full-count :
      (is_full p ≡ true → count p ≡ pipe_size) × (is_full p ≡ false → count p < pipe_size)
  full-count = ground arith

  pub empty-count : (is_empty p ≡ true → count p ≡ 0) × (is_empty p ≡ false → 0 < count p)
  empty-count = ground arith

  pub put_byte-IsValid : (c : ℕ) → count p < pipe_size → IsValid (put_byte c p)
  put_byte-IsValid c h = record {
    room = length-set p.bytes (p.writep % pipe_size) c ∙ v.room;
    read_fits = v.read_fits;
    write_fits = omega arith;
    bounded = omega arith;
  }

  pub contents-put_byte :
      (c : ℕ) → count p < pipe_size → contents (put_byte c p) ≡ contents p ++ c ∷ []
  contents-put_byte c h =
      let i = p.writep % pipe_size in
      let bs = set p.bytes i c in
      let place : (p.readp + count p) % pipe_size ≡ i = omega arith in
      let grown : count (put_byte c p) ≡ suc (count p) = omega arith in
      let old : window bs p.readp (count p) ≡ contents p =
        window-set p.bytes c p.readp (count p) i (count p) (omega arith) h (sym place) in
      let new : get_or bs ((p.readp + count p) % pipe_size) 0 ≡ c =
        rw place (get_or-set_self p.bytes i c 0 (omega arith)) in
      ap (window bs p.readp) grown
      ∙ window-snoc bs p.readp (count p)
      ∙ ap₂ (λ xs x. xs ++ x ∷ []) old new

  pub drop_byte-IsValid : 0 < count p → IsValid (drop_byte p)
  drop_byte-IsValid h = omega arith

  pub contents-drop_byte : 0 < count p → contents p ≡ front_byte p ∷ contents (drop_byte p)
  contents-drop_byte h =
      let less : count p ≡ suc (count (drop_byte p)) = omega arith in
      ap (window p.bytes p.readp) less
