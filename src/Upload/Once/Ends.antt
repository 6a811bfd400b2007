-- ===== src/Upload/Once/Ends.antt =====
-- The loop of `UploadOnce` ends within the rounds that it is given.
use fractal_block_sync.Prelude.{
  ℕ, zero, suc, ◌+◌, ◌≤◌, ◌<◌, ◌≡◌, refl, arith, true, some, ltb, max_u64, u64, Bool-cases,
  Option-cases, inl, inr,
}
use fractal_block_sync.Effects.Laws.{continue-same}
use fractal_block_sync.Upload.Services.{Provider}
use fractal_block_sync.Upload.Windows.{sub64, next_range_start}
use fractal_block_sync.Upload.Once.{range_round, ranges_from}

pub next_range_start_lem :
    (start n next : ℕ)
    → 0 < n
    → n ≤ max_u64
    → start ≤ max_u64
    → next_range_start start n ≡ some next
    → (next ≡ start + n) × (next ≤ max_u64)
unfolding next_range_start
next_range_start_lem start n next pos small fits e =
    elim (Bool-cases (ltb (sub64 max_u64 n) start)) [
      | inl y ↦ let h = rw y at e in cc
      | inr z ↦
          let h : some (u64 (start + n)) ≡ some next = rw z at e in
          let same : u64 (start + n) ≡ next = cc in
          let room : u64 (start + n) ≡ start + n = ground arith in (omega arith, ground arith)
    ]

-- For a range size from one to the largest uint64 and fuel that reaches past the last height,
-- the loop of UploadOnce has the same result with any more fuel.
pub ranges_from-enough :
    (E : Provider) (delay tip range_size end workers fuel more start : ℕ) (s : E.State)
    → 0 < range_size
    → range_size ≤ max_u64
    → start ≤ max_u64
    → end < start + fuel
    → fuel ≤ more
    → ranges_from E delay tip range_size end workers more start s
      ≡ ranges_from E delay tip range_size end workers fuel start s
unfolding ranges_from
ranges_from-enough E delay tip n end workers zero zero start s pos small fits enough le = refl
ranges_from-enough E delay tip n end workers zero (suc more) start s pos small fits enough le =
    let past : ltb end start ≡ true = ground arith in rw past refl
ranges_from-enough E delay tip n end workers (suc fuel) zero start s pos small fits enough le =
    absurd (omega arith)
ranges_from-enough E delay tip n end workers (suc fuel) (suc more) start s pos small fits enough
      le =
    elim (Bool-cases (ltb end start)) [
      | inl y ↦ rw y refl
      | inr z ↦ rw z (
          continue-same (range_round E delay tip n end workers start s) _ _ (λ _ t.
            elim (Option-cases (next_range_start start n)) [
              | inl last ↦ rw last refl
              | inr (next, e) ↦
                  let (above, room) = next_range_start_lem start n next pos small fits e in
                  rw e (
                    ranges_from-enough E delay tip n end workers fuel more next t pos small room
                      (omega arith) (omega arith))
            ]))
    ]
