-- ===== src/Upload/Blocks/Heights.antt =====
-- The heights that an upload goes through.
use fractal_block_sync.Prelude.{
  ℕ, zero, suc, ◌+◌, ◌≤◌, ◌<◌, ◌≡◌, arith, ◌==◌, u64, max_u64, count, Bool-cases, inl, inr,
}
use fractal_block_sync.Upload.Windows.{heights, heights_between, sub64}

count-heights :
    (rounds h k : ℕ)
    → h ≤ k
    → k < h + rounds
    → h + rounds ≤ suc max_u64
    → 0 < count k (heights rounds h)
unfolding heights
count-heights zero h k a b c = absurd (omega arith)
count-heights (suc zero) h k a b c = ground arith
count-heights (suc (suc r)) h k a b c = elim (Bool-cases (h == k)) [
  | inl y ↦ ground arith
  | inr n ↦
      let next : u64 (h + 1) ≡ suc h = omega arith in
      let ih = count-heights (suc r) (u64 (h + 1)) k (ground arith) (omega arith) (omega arith) in
      ground (arith, ih)
]

pub count-heights_between :
    (from_height tip k : ℕ)
    → from_height ≤ k
    → k ≤ tip
    → tip ≤ max_u64
    → 0 < count k (heights_between from_height tip)
unfolding heights_between
count-heights_between from_height tip k a b c =
    let e : sub64 tip from_height + from_height ≡ tip = omega arith in
    count-heights (suc (sub64 tip from_height)) from_height k a (omega arith) (omega arith)
