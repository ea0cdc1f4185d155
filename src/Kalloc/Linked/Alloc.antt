-- ===== src/Kalloc/Linked/Alloc.antt =====
-- What `kalloc` of xv6/kalloc.c stores links the list that it leaves.
use tom_cs.Base.{
  ℕ, ◌+◌, ◌-◌, ◌<◌, ◌≡◌, ◌∙◌, false, List, [], ◌∷◌, Option, some, arith, ◌==◌, ltb, inl, inr,
  Bool-cases, Option-cases,
}
use tom_cs.CString.{Memory}
use tom_cs.CString.Move.{within}
use tom_cs.Kalloc.{Run, run, stop, alloc_loop, first_run, set_len, set_link, alloc_stores}
use tom_cs.Kalloc.Order.{Above}
use tom_cs.Kalloc.Header.{heads-alloc_loop, set_link-Spares, alloc_stores-outside}
use tom_cs.Kalloc.Linked.{
  Linked, Before, Leads, Small, get_put, get_int-same, Linked-frame, put_int-same, get_put-apart,
  heads-below, set_link-Leads, first-lt, heads-gt, Before-Spares, out_above, out_below, Leads-same,
}

pub alloc_stores-Linked :
    (n : ℕ) (rp : Option ℕ) (b p : ℕ) (rs l : List Run) (m : Memory)
    → Before rp b
    → Above b rs
    → Small rs
    → alloc_loop n rs ≡ some (p, l)
    → Linked rs m
    → Leads rp (first_run rs) m
    → Linked l (alloc_stores rp n rs m) × Leads rp (first_run l) (alloc_stores rp n rs m)
unfolding alloc_loop alloc_stores
alloc_stores-Linked n rp b p [] l m h v s e k i = cc
alloc_stores-Linked n rp b p (r ∷ rs) l m h v s e k i = elim (Bool-cases (r.len == n)) [
  | inl f ↦
      let same : rs ≡ l = ground arith in
      rw (f, ← same)
        (
          Linked-frame rs m (set_link rp (first_run rs) m)
              (λ x t.
                let lt : stop r < x = heads-gt (stop r) rs x v.4 t in
                set_link-Spares rp (first_run rs) m x (Before-Spares rp b x h (omega arith)))
              k.2,
          set_link-Leads rp (first_run rs) m (first-lt (stop r) rs v.4 s.1),
        )
  | inr f ↦ elim (Bool-cases (ltb n r.len)) [
    | inl g ↦
        let len = r.len - n in
        let m' = set_len r.addr len m in
        let same : run r.addr len ∷ rs ≡ l = ground arith in
        rw (f, g, ← same)
          (
            (
              get_put-apart (r.addr + 4) r.addr len m (omega arith) ∙ k.0,
              get_put (r.addr + 4) len m (omega arith),
              Linked-frame rs m m'
                  (λ x t.
                    let lt : stop r < x = heads-gt (stop r) rs x v.4 t in
                    put_int-same (r.addr + 4) len m x (omega arith))
                  k.2,
            ),
            Leads-same rp b r.addr m m' h (λ x lt. put_int-same (r.addr + 4) len m x (omega arith))
                i,
          )
    | inr g ↦ elim (Option-cases (alloc_loop n rs)) [
      | inl o ↦ absurd (ground arith)
      | inr ((q, l'), o) ↦
          let same : r ∷ l' ≡ l = ground arith in
          let m' = alloc_stores (some r.addr) n rs m in
          let kept : (x : ℕ) → x < stop r → within r.addr 4 x ≡ false → m' x ≡ m x = (λ x lt out.
            alloc_stores-outside (some r.addr) q n rs l' m x o
              (heads-alloc_loop q n rs l' x o (heads-below (stop r) rs x v.4 (omega arith))) out) in
          let (w, j) =
            alloc_stores-Linked n (some r.addr) (stop r) q rs l' m (omega arith) v.4 s.1 o k.2
              k.0 in
          rw (f, g, ← same)
            (
              (
                j,
                get_int-same (r.addr + 4) m m'
                      (λ x lo hi. kept x (omega arith) (out_above r.addr x lo))
                    ∙ k.1,
                w,
              ),
              Leads-same rp b r.addr m m' h
                  (λ x lt. kept x (omega arith) (out_below r.addr x (omega arith))) i,
            )
    ]
  ]
]
