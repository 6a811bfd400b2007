-- ===== src/Upload/Windows.antt =====
-- The height arithmetic of uploads, in `uint64`.
use fractal_block_sync.Prelude.{
  ℕ, zero, suc, ◌+◌, ◌-◌, ◌^◌, ◌≤◌, ◌<◌, ◌≡◌, arith, Option, none, some, List, [], ◌∷◌, u64,
  max_u64, ltb, leb, if◌then◌else◌,
}

-- `a - b`, which wraps.
abbrev pub sub64 : ℕ → ℕ → ℕ
sub64 a b = u64 (a + 2 ^ 64 - b)

unfoldable pub end_of_range : ℕ → ℕ → ℕ
end_of_range start range_size =
    if ltb (u64 (sub64 max_u64 range_size + 1)) start
    then max_u64
    else sub64 (u64 (start + range_size)) 1

unfoldable pub next_range_start : ℕ → ℕ → Option ℕ
next_range_start start range_size =
    if ltb (sub64 max_u64 range_size) start then none else some (u64 (start + range_size))

unfoldable pub previous_upload_window_start : ℕ → ℕ → ℕ → ℕ
previous_upload_window_start from_height missing_height probe_step =
    if leb (sub64 missing_height from_height) probe_step
    then from_height
    else sub64 missing_height probe_step

unfoldable pub final_upload_window_start : ℕ → ℕ → ℕ → ℕ
final_upload_window_start from_height tip window =
    if ltb (sub64 tip from_height) window then from_height else u64 (sub64 tip window + 1)

-- The rounds of `for height := from; ; height++ { …; if height == tip { break } }`.
unfoldable pub heights : ℕ → ℕ → List ℕ
heights zero height = []
heights (suc rounds) height = height ∷ heights rounds (u64 (height + 1))

-- The loop leaves at the first height that equals `tip`, after wrapping if need be.
unfoldable pub heights_between : ℕ → ℕ → List ℕ
unfolding heights
heights_between from_height tip = heights (suc (sub64 tip from_height)) from_height

-- The loop of `uploadProbeHeights`. It ends with the first probe less than a step below the tip, so
-- that as many rounds as there are heights are enough.
unfoldable pub probes_from : ℕ → ℕ → ℕ → ℕ → List ℕ
probes_from zero height tip step = []
probes_from (suc fuel) height tip step =
    let rest = probes_from fuel (u64 (height + step)) tip step in
    if ltb (sub64 tip height) step then height ∷ [] else height ∷ rest

unfoldable pub upload_probe_heights : ℕ → ℕ → ℕ → List ℕ
unfolding probes_from
upload_probe_heights from_height tip step =
    probes_from (suc (sub64 tip from_height)) from_height tip step

-- For a range size above zero and a range whose end does not pass the largest uint64, endOfRange
-- gives the height one below the start of the next range, and nextRangeStart gives that start.
pub end_of_range_lem :
    (start n : ℕ)
    → 0 < n
    → start + n ≤ max_u64
    → (end_of_range start n + 1 ≡ start + n) × (next_range_start start n ≡ some (start + n))
unfolding end_of_range next_range_start
end_of_range_lem start n pos fits = ground arith
