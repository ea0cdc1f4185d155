-- ===== src/Kalloc/Unique.antt =====
-- The free list is a canonical form: the bytes that are free determine it.
use tom_cs.Base.{ℕ, ◌≤◌, ◌≡◌, refl, sym, List, [], ◌∷◌, arith}
use tom_cs.Kalloc.{Run, stop}
use tom_cs.Kalloc.Order.{Above, covers, covers-below}

abbrev SameBytes : List Run → List Run → Type 0
SameBytes xs ys = (x : ℕ) → covers xs x ≡ covers ys x

module _ {a b : ℕ} (r q : Run) (rs qs : List Run) where
  start-le : Above a (r ∷ rs) → Above b (q ∷ qs) → SameBytes (r ∷ rs) (q ∷ qs) → r.addr ≤ q.addr
  start-le v w same = ground (arith, same q.addr, covers-below rs q.addr v.4)

  stop-le :
      Above a (r ∷ rs)
      → Above b (q ∷ qs)
      → r.addr ≡ q.addr
      → SameBytes (r ∷ rs) (q ∷ qs)
      → stop q ≤ stop r
  stop-le v w e same = ground (arith, same (stop r), covers-below rs (stop r) v.4)

  tail-SameBytes :
      Above a (r ∷ rs)
      → Above b (q ∷ qs)
      → r.addr ≡ q.addr
      → stop r ≡ stop q
      → SameBytes (r ∷ rs) (q ∷ qs)
      → SameBytes rs qs
  tail-SameBytes v w e f same x =
      ground (arith, same x, covers-below rs x v.4, covers-below qs x w.4)

pub eq_of_covers :
    (a b : ℕ) (xs ys : List Run)
    → Above a xs
    → Above b ys
    → ((x : ℕ) → covers xs x ≡ covers ys x)
    → xs ≡ ys
eq_of_covers a b [] [] v w same = refl
eq_of_covers a b [] (q ∷ qs) v w same = absurd (ground (arith, same q.addr))
eq_of_covers a b (r ∷ rs) [] v w same = absurd (ground (arith, same r.addr))
eq_of_covers a b (r ∷ rs) (q ∷ qs) v w same =
    let back = λ (x : ℕ). sym (same x) in
    let h = start-le {a = a} {b = b} r q rs qs v w same in
    let k = start-le {a = b} {b = a} q r qs rs w v back in
    let e : r.addr ≡ q.addr = omega arith in
    let m = stop-le {a = a} {b = b} r q rs qs v w e same in
    let n = stop-le {a = b} {b = a} q r qs rs w v (sym e) back in
    let f : stop r ≡ stop q = omega arith in
    let rest = tail-SameBytes {a = a} {b = b} r q rs qs v w e f same in
    ground (arith, eq_of_covers (stop r) (stop q) rs qs v.4 w.4 rest)
