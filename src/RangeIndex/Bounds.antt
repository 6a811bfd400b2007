-- ===== src/RangeIndex/Bounds.antt =====
-- Which range a height falls in.
use fractal_block_sync.Prelude.{ℕ, ◌+◌, ◌*◌, ◌/◌, ◌%◌, ◌≤◌, ◌<◌, ◌≡◌, ◌↔◌, arith}
use native.Mathlib.Nat.{div-add-mod', mod-lt, mul-mod_left}
use fractal_block_sync.Errors.{ok}
use fractal_block_sync.RangeIndex.{start_height}

-- a multiple of n within n below h is the one that division finds
multiple_unique : (h n s : ℕ) → 0 < n → s % n ≡ 0 → s ≤ h → h < s + n → h / n * n ≡ s
multiple_unique h n s p m a b = grind (arith, div-add-mod' s n, div-add-mod' h n, mod-lt h p)

-- The start of a height's range is the one multiple of the range size within that size below it.
pub start_height_iff :
    (h n s : ℕ) → (start_height h n ≡ ok s) ↔ ((0 < n) × (s % n ≡ 0) × (s ≤ h) × (h < s + n))
unfolding start_height
start_height_iff h n s = (to, from)
  where
    to : start_height h n ≡ ok s → (0 < n) × (s % n ≡ 0) × (s ≤ h) × (h < s + n)
    to e = ground (arith, div-add-mod' h n, mod-lt h {m = n}, mul-mod_left (h / n) n)

    from : (0 < n) × (s % n ≡ 0) × (s ≤ h) × (h < s + n) → start_height h n ≡ ok s
    from (p, m, a, b) = ground (arith, multiple_unique h n s p m a b)
