-- ===== src/Bio/Tests.antt =====
-- The cache at work, and the theorems at concrete caches.
use tom_cs.Base.{ℕ, zero, suc, ◌≡◌, refl, true, false, List, [], ◌∷◌, inl, returns, panics}
use tom_cs.Bio.{
  Buf, fresh_buf, binit_loop, lookup_loop, evict_loop, reuse, sleeps, got, bget, unlink, brelse,
  Disk, store, bread,
}
use tom_cs.Bio.Order.{Distinct}
use tom_cs.Bio.Cache.{Gets, bget-Gets}
use tom_cs.Bio.Coherent.{Coherent, ReadsBlock, bread-ReadsBlock}
use tom_cs.Bio.WriteBack.{write_release, bwrite-brelse}

abbrev disk : Disk
disk i j = i ∷ j ∷ []

-- Three buffers: one in use with sector 5, one idle with sector 6, one never used.
abbrev in_five : Buf
in_five = record {
  id = 2;
  busy = true;
  valid = true;
  dirty = false;
  dev = 0;
  sector = 5;
  bytes = 0 ∷ 5 ∷ [];
}

abbrev idle_six : Buf
idle_six = record {
  id = 1;
  busy = false;
  valid = true;
  dirty = false;
  dev = 0;
  sector = 6;
  bytes = 0 ∷ 6 ∷ [];
}

abbrev cache : List Buf
cache = in_five ∷ idle_six ∷ fresh_buf 0 ∷ []

cache-Distinct : Distinct cache
cache-Distinct = ((λ u. (refl, (refl, tt))), ((λ u. (refl, tt)), ((λ u. tt), tt)))

cache-Coherent : Coherent disk cache
cache-Coherent = ((λ f v. refl), ((λ f v. refl), ((λ f v. cc), tt)))

-- The cache that `binit` sets up meets the theorems' conditions.
binit_loop-Distinct : (n : ℕ) → Distinct (binit_loop n) × Coherent disk (binit_loop n)
unfolding binit_loop
binit_loop-Distinct zero = (tt, tt)
binit_loop-Distinct (suc n) =
    let rest = binit_loop-Distinct n in ((λ u. cc, rest.0), ((λ f v. cc), rest.1))

bget_runs :
    (bget 0 5 cache ≡ returns sleeps)
    × (bget 0 6 cache
        ≡ returns (
            got
              (record idle_six { busy = true })
              (in_five ∷ record idle_six { busy = true } ∷ fresh_buf 0 ∷ [])))
    × (bget 0 7 cache
        ≡ returns
            (got (reuse 0 7 (fresh_buf 0)) (in_five ∷ idle_six ∷ reuse 0 7 (fresh_buf 0) ∷ [])))
    × (bget 0 7 (in_five ∷ []) ≡ panics "bget: no buffers")
unfolding bget lookup_loop evict_loop
bget_runs = (refl, refl, refl, refl)

brelse_runs :
    brelse 2 cache ≡ returns (record in_five { busy = false } ∷ idle_six ∷ fresh_buf 0 ∷ [])
unfolding brelse unlink
brelse_runs = refl

bget-Gets_example : Gets 0 7 cache (bget 0 7 cache)
bget-Gets_example = bget-Gets 0 7 cache cache-Distinct

bread-ReadsBlock_example : ReadsBlock 0 7 cache disk false (bread false true 0 7 cache disk)
bread-ReadsBlock_example = bread-ReadsBlock false 0 7 cache disk cache-Coherent cache-Distinct

bwrite-brelse_example :
    let d' = store disk 0 5 (9 ∷ []) in
    let l =
      record in_five { busy = false; valid = true; dirty = false; bytes = 9 ∷ [] }
      ∷ idle_six
      ∷ fresh_buf 0
      ∷ [] in
    (write_release false true 2 (record in_five { bytes = 9 ∷ [] }) cache disk ≡ returns (l, d'))
    × Coherent d' l
    × Distinct l
unfolding unlink
bwrite-brelse_example =
    bwrite-brelse false true 2 in_five (9 ∷ []) cache (idle_six ∷ fresh_buf 0 ∷ []) disk
      cache-Distinct cache-Coherent refl refl (inl refl)
