-- ===== src/Upload/Once.antt =====
-- `UploadOnce`.
pub mod Guarded
pub mod Ends
use fractal_block_sync.Prelude.{
  ℕ, zero, suc, ◌-◌, Bool, true, false, ◌&&◌, Option, none, some, Text, codes, ltb, leb, ◌==◌,
  if◌then◌else◌,
}
use fractal_block_sync.Errors.{ok, at_text, wrapped}
use fractal_block_sync.Effects.{Effect, ◌>>=◌, ◌>>◌, pure, lift, wrapping}
use fractal_block_sync.RangeIndex.{start_height, object_key, default_range_size}
use fractal_block_sync.Upload.Services.{Provider, UploadConfig}
use fractal_block_sync.Upload.Windows.{end_of_range, next_range_start}
use fractal_block_sync.Upload.Probes.{upload_blocks}
use fractal_block_sync.Upload.Indexes.{upload_range_index_if_missing}

-- `const DefaultUploadWorkers`
abbrev pub default_upload_workers : ℕ
default_upload_workers = 4

abbrev pub or_default : ℕ → ℕ → ℕ
or_default given default = if given == 0 then default else given

-- The last height to upload, as in `UploadOnce` and `endHeight`.
unfoldable pub end_height : Option ℕ → ℕ → ℕ
end_height none tip = tip
end_height (some to) tip = if ltb to tip then to else tip

-- Whether the node's tip is far enough above the range's last height.
unfoldable pub is_stable : ℕ → ℕ → ℕ → Bool
is_stable tip stable_delay range_end = leb stable_delay tip && leb range_end (tip - stable_delay)

module _ (E : Provider) (delay tip range_size end workers : ℕ) where
  -- A range that has no index yet: its blocks up to the last height, and the index if it is stable.
  unfoldable pub upload_range : ℕ → Effect E.State (Unit {0})
  unfolding is_stable
  upload_range start =
      let range_end = end_of_range start range_size in
      upload_blocks E start (if ltb end range_end then end else range_end) workers >>= λ _.
      if leb range_end end && is_stable tip delay range_end
      then (upload_range_index_if_missing E start range_size >>= λ _. pure tt)
      else pure tt

  -- One round of the loop, less the step to the next range.
  unfoldable pub range_round : ℕ → Effect E.State (Unit {0})
  unfolding upload_range
  range_round start = do
    key ← lift (object_key start range_size)
    exists ← wrapping (at_text (codes "check range index") key) (E.object_exists key)
    if exists then pure tt else upload_range start

  unfoldable pub ranges_from : ℕ → ℕ → Effect E.State (Unit {0})
  unfolding range_round
  ranges_from zero start = pure tt
  ranges_from (suc fuel) start =
      if ltb end start
      then pure tt
      else (range_round start >> elim (next_range_start start range_size) [
        | none ↦ pure tt
        | some next ↦ ranges_from fuel next
      ])

abbrev pub range_size_of : UploadConfig → ℕ
range_size_of cfg = or_default cfg.range_size default_range_size

abbrev pub workers_of : UploadConfig → ℕ
workers_of cfg = or_default cfg.upload_workers default_upload_workers

module _ (E : Provider) (cfg : UploadConfig) where
  -- A range's start is above the one before, so that as many rounds as there are heights are enough.
  unfoldable pub upload_to : ℕ → Effect E.State (Unit {0})
  unfolding end_height ranges_from
  upload_to tip =
      let end = end_height cfg.to_height tip in
      if ltb end cfg.from_height then pure tt else do
        start ← lift (start_height cfg.from_height (range_size_of cfg))
        ranges_from E cfg.stable_delay tip (range_size_of cfg) end (workers_of cfg) (suc end) start

  unfoldable pub upload_once : Effect E.State (Unit {0})
  unfolding upload_to
  upload_once = do
    tip ← wrapping (wrapped (codes "get block count")) E.get_block_count
    upload_to tip
