-- ===== src/Kalloc/Linked/Free.antt =====
-- What `kfree` of xv6/kalloc.c stores links the list that it makes.
use tom_cs.Base.{
  ℕ, ◌+◌, ◌%◌, ◌^◌, ◌≤◌, ◌<◌, ◌≡◌, refl, ◌∙◌, false, List, [], ◌∷◌, Option, some, arith, ◌==◌, leb,
  inl, inr, Bool-cases, Option-cases,
}
use tom_cs.CString.{Memory}
use tom_cs.CString.Move.{within}
use tom_cs.Kalloc.{
  page, Run, run, stop, absorb, free_loop, first_run, set_next, set_len, set_link, absorb_stores,
  free_stores,
}
use tom_cs.Kalloc.Order.{Above}
use tom_cs.Kalloc.Free.{IsApart, place}
use tom_cs.Kalloc.Header.{
  heads, heads-free_loop, set_run, absorb_stores-outside, free_stores-outside,
}
use tom_cs.Kalloc.Linked.{
  Linked, Before, Leads, Small, get_put, get_int-same, Linked-frame, get_put-apart, heads-below,
  set_link-apart, set_link-Leads, first-lt, heads-gt, Before-Spares, out_above, out_below,
  Leads-same,
}

-- A new run before all others.
insert_run-Linked :
    (rp : Option ℕ) (p k c : ℕ) (rs : List Run) (m : Memory)
    → Before rp p
    → p + 8 ≤ c + 1
    → Above c rs
    → p < 2 ^ 32
    → k < 2 ^ 32
    → first_run rs < 2 ^ 32
    → Linked rs m
    → let m' = set_link rp p (set_next p (first_run rs) (set_len p k m)) in
      Linked (run p k ∷ rs) m' × Leads rp p m'
insert_run-Linked rp p k c rs m h le v ps ks fs l =
    let m1 = set_len p k m in
    let m2 = set_next p (first_run rs) m1 in
    (
      (
        set_link-apart rp p p p m2 h (omega arith) ∙ get_put p (first_run rs) m1 fs,
        set_link-apart rp p p (p + 4) m2 h (omega arith)
            ∙ get_put-apart p (p + 4) (first_run rs) m1 (omega arith)
            ∙ get_put (p + 4) k m ks,
        Linked-frame rs m (set_link rp p m2)
            (λ x i.
              let lt : c < x = heads-gt c rs x v i in
              set_run rp p (first_run rs) k m x (Before-Spares rp p x h (omega arith))
                (ground arith))
            l,
      ),
      set_link-Leads rp p m2 ps,
    )

-- A run that grows over the block behind it, and perhaps over the run behind that.
module _ (r : Run) (n pend : ℕ) (m : Memory) (e : pend ≡ stop r + n) (small : pend ≤ 2 ^ 32) where
  absorb-next :
      (b : ℕ) (rs : List Run)
      → Above b (r ∷ rs)
      → Small (r ∷ rs)
      → Linked (r ∷ rs) m
      → Linked (absorb r n pend rs) (absorb_stores r n pend rs m)
  absorb-next b [] v s l =
      let len = r.len + n in
      (
        get_put-apart (r.addr + 4) r.addr len m (omega arith) ∙ l.0,
        get_put (r.addr + 4) len m (omega arith),
        tt,
      )
  absorb-next b (q ∷ rs) v s l =
      let len = r.len + n in
      let all = r.len + n + q.len in
      let m1 = set_len r.addr len m in
      let m2 = set_len r.addr all m1 in
      let kept : (x : ℕ) → stop r < x → absorb_stores r n pend (q ∷ rs) m x ≡ m x =
        (λ x lt. absorb_stores-outside r n pend (q ∷ rs) m x (ground arith)) in
      let kept_q =
        Linked-frame (q ∷ rs) m (absorb_stores r n pend (q ∷ rs) m)
          (λ x i. kept x (heads-gt (stop r) (q ∷ rs) x v.4 i)) l.2 in
      elim (Bool-cases (pend == q.addr)) [
        | inl t ↦
            let rest : Linked (q ∷ rs) (set_next r.addr (first_run rs) m2) = rw t at kept_q in
            rw t (
              get_put r.addr (first_run rs) m2 (first-lt (stop q) rs v.4.4 s.1.1),
              get_put-apart r.addr (r.addr + 4) (first_run rs) m2 (omega arith)
                  ∙ get_put (r.addr + 4) all m1 (ground arith),
              rest.2,
            )
        | inr f ↦
            let rest : Linked (q ∷ rs) m1 = rw f at kept_q in
            rw f (
              get_put-apart (r.addr + 4) r.addr len m (omega arith) ∙ l.0,
              get_put (r.addr + 4) len m (omega arith),
              rest,
            )
      ]

  first-absorb : (rs : List Run) → first_run (absorb r n pend rs) ≡ r.addr
  first-absorb [] = refl
  first-absorb (q ∷ rs) = ground arith

  absorb-Leads :
      (rp : Option ℕ) (b : ℕ) (rs : List Run)
      → Before rp b
      → b < r.addr
      → Leads rp r.addr m
      → Leads rp (first_run (absorb r n pend rs)) (absorb_stores r n pend rs m)
  absorb-Leads rp b rs h lt k = rw (first-absorb rs) (
      Leads-same rp b r.addr m (absorb_stores r n pend rs m) h
        (λ x le. absorb_stores-outside r n pend rs m x (ground arith)) k)

module _ (p n : ℕ) (whole : n % page ≡ 0) (some_len : 0 < n) (aligned : p % page ≡ 0)
    (above : 0 < p) (small : p + n ≤ 2 ^ 32) where
  -- What `kfree` stores links the new list.
  pub free_stores-Linked :
      (rp : Option ℕ) (b : ℕ) (rs l : List Run) (m : Memory)
      → Before rp b
      → Before rp p
      → Above b rs
      → IsApart p n rs
      → Small rs
      → free_loop p n rs ≡ some l
      → Linked rs m
      → Leads rp (first_run rs) m
      → Linked l (free_stores rp p n rs m) × Leads rp (first_run l) (free_stores rp p n rs m)
  unfolding free_loop free_stores
  free_stores-Linked rp b [] l m h hp v apart s e k i =
      let same : run p n ∷ [] ≡ l = ground arith in
      rw (← same) (
        insert_run-Linked rp p n (p + 7) [] m hp (omega arith) tt (omega arith) (omega arith)
          (omega arith) tt)
  free_stores-Linked rp b (r ∷ rs) l m h hp v apart s e k i =
      elim (Bool-cases (leb r.addr (p + n))) [
        | inr f ↦
            let same : run p n ∷ r ∷ rs ≡ l = ground arith in
            rw (f, ← same)
              (insert_run-Linked rp p n (p + n) (r ∷ rs) m hp (omega arith)
                (ground arith, v.1, v.2, v.3, v.4) (omega arith) (omega arith) (omega arith) k)
        | inl f ↦ elim (Bool-cases (p + n == r.addr)) [
          | inl g ↦
              let same : run p (n + r.len) ∷ rs ≡ l =
                ground (arith, place p n whole some_len aligned r rs v.1 apart) in
              rw (f, g, ← same)
                (insert_run-Linked rp p (n + r.len) (stop r) rs m hp (ground arith) v.4
                  (ground arith) (ground arith) (first-lt (stop r) rs v.4 s.1) k.2)
          | inr g ↦ elim (Bool-cases (stop r == p)) [
            | inl c ↦
                let same : absorb r n (p + n) rs ≡ l = ground arith in
                let end : p + n ≡ stop r + n = ground arith in
                rw (f, g, c, ← same)
                  (
                    absorb-next r n (p + n) m end small b rs v s k,
                    absorb-Leads r n (p + n) m end small rp b rs h v.0 i,
                  )
            | inr c ↦ elim (Option-cases (free_loop p n rs)) [
              | inl o ↦ absurd (ground arith)
              | inr (l', o) ↦
                  let left : stop r ≤ p =
                    ground (arith, place p n whole some_len aligned r rs v.1 apart) in
                  let same : r ∷ l' ≡ l = ground arith in
                  let m' = free_stores (some r.addr) p n rs m in
                  let kept : (x : ℕ) → x < stop r → within r.addr 4 x ≡ false → m' x ≡ m x =
                    (λ x lt out.
                      let rest : heads rs x ≡ false = heads-below (stop r) rs x v.4 (omega arith) in
                      free_stores-outside (some r.addr) p n rs l' m x o
                        (heads-free_loop p n rs l' x o (ground arith) rest) out) in
                  let (w, j) =
                    free_stores-Linked (some r.addr) (stop r) rs l' m (omega arith) (omega arith)
                      v.4 (λ x t. ground (arith, apart x)) s.1 o k.2 k.0 in
                  rw (f, g, c, ← same)
                    (
                      (
                        j,
                        get_int-same (r.addr + 4) m m'
                              (λ x lo hi. kept x (omega arith) (out_above r.addr x lo))
                            ∙ k.1,
                        w,
                      ),
                      Leads-same rp b r.addr m m' h
                          (λ x lt. kept x (omega arith) (out_below r.addr x (omega arith))) i,
                    )
            ]
          ]
        ]
      ]
