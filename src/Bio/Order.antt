-- ===== src/Bio/Order.antt =====
-- No two buffers hold one sector.
use mathlib.Core.Path.{subst₂}
use tom_cs.Base.{ℕ, ◌≡◌, true, false, ◌||◌, List, [], ◌∷◌, arith}
use tom_cs.Bio.{Buf, holds}

abbrev pub Absent : ℕ → ℕ → List Buf → Type 0
Absent dev sector [] = Unit
Absent dev sector (b ∷ bs) = (holds dev sector b ≡ false) × Absent dev sector bs

abbrev pub Distinct : List Buf → Type 0
Distinct [] = Unit
Distinct (b ∷ bs) = ((b.busy || b.valid) ≡ true → Absent b.dev b.sector bs) × Distinct bs

-- `ys` is `xs` with the buffer `b` of it changed to `x`.
pub data Changed (b x : Buf) : List Buf → List Buf → Type 0 where
  here : {bs : List Buf} → Changed b x (b ∷ bs) (x ∷ bs)
  there : {c : Buf} {bs l : List Buf} → Changed b x bs l → Changed b x (c ∷ bs) (c ∷ l)

module _ {b x : Buf} where
  pub Changed-Absent :
      (dev sector : ℕ) {bs l : List Buf}
      → Changed b x bs l
      → holds dev sector x ≡ false
      → Absent dev sector bs
      → Absent dev sector l
  Changed-Absent dev sector here h a = (h, a.1)
  Changed-Absent dev sector (there c) h a = (a.0, Changed-Absent dev sector c h a.1)

  pub Changed-source :
      (dev sector : ℕ) {bs l : List Buf}
      → Changed b x bs l
      → Absent dev sector bs
      → holds dev sector b ≡ false
  Changed-source dev sector here a = a.0
  Changed-source dev sector (there w) a = Changed-source dev sector w a.1

  -- A buffer that keeps its sector, and is not in use where it was not before.
  pub Changed-Distinct :
      {bs l : List Buf}
      → Changed b x bs l
      → ((x.busy || x.valid) ≡ true → (b.busy || b.valid) ≡ true)
      → b.dev ≡ x.dev
      → b.sector ≡ x.sector
      → Distinct bs
      → Distinct l
  Changed-Distinct (here {bs}) h e f d = (λ u. subst₂ (λ i j. Absent i j bs) e f (d.0 (h u)), d.1)
  Changed-Distinct (there {c} w) h e f d = (
    λ u.
        let source = Changed-source c.dev c.sector w (d.0 u) in
        Changed-Absent c.dev c.sector w (ground (arith, h)) (d.0 u),
    Changed-Distinct w h e f d.1,
  )

  -- A buffer changed to hold a sector that none had.
  pub Changed-Distinct_new :
      {bs l : List Buf} → Changed b x bs l → Absent x.dev x.sector bs → Distinct bs → Distinct l
  Changed-Distinct_new here a d = (λ h. a.1, d.1)
  Changed-Distinct_new (there {c} {bs} w) a d =
      (λ h. Changed-Absent c.dev c.sector w (ground arith) (d.0 h), Changed-Distinct_new w a.1 d.1)
