-- ===== src/Upload/Follower/Publish.antt =====
-- `publishStableIndexes`, `findInitialUploadStart` and `initialize`.
use fractal_block_sync.Prelude.{
  ℕ, zero, suc, ◌+◌, ◌-◌, true, ◌||◌, none, some, [], codes, u64, ltb, leb, if◌then◌else◌,
}
use fractal_block_sync.Errors.{at_text}
use fractal_block_sync.Effects.{Effect, ◌>>=◌, ◌>>◌, pure, lift, wrapping}
use fractal_block_sync.RangeIndex.{object_key}
use fractal_block_sync.Upload.Services.{Provider}
use fractal_block_sync.Upload.Windows.{end_of_range, next_range_start}
use fractal_block_sync.Upload.Blocks.{upload_blocks_from}
use fractal_block_sync.Upload.Probes.{upload_blocks}
use fractal_block_sync.Upload.Indexes.{upload_range_index_if_missing}
use fractal_block_sync.Upload.Follower.{
  UploadFollower, FollowerStats, Live, outside, update, reading, remember, recent_cache_start,
  prune_recent_hashes, ensure_published_boundary_visible,
}
use fractal_block_sync.Upload.Follower.Recent.{hash_of, refresh_recent_hashes}

abbrev pub no_stats : FollowerStats
no_stats = record { uploaded_blocks = 0; published_indexes = 0 }

abbrev pub plus : FollowerStats → FollowerStats → FollowerStats
plus a b = record {
  uploaded_blocks = u64 (a.uploaded_blocks + b.uploaded_blocks);
  published_indexes = u64 (a.published_indexes + b.published_indexes);
}

module _ (E : Provider) where
  -- One round of `publishStableIndexes`, up to the step to the next range.
  unfoldable pub publish_range : UploadFollower → ℕ → Effect (Live E) FollowerStats
  unfolding hash_of remember
  publish_range f range_end = do
    uploaded ← outside (upload_blocks_from E f.next_index_start range_end f.upload_workers)
    published ← outside (upload_range_index_if_missing E f.next_index_start f.range_size)
    hash ← hash_of E range_end
    update (λ g. record g { recent_hashes = remember range_end hash g.recent_hashes })
    pure record { uploaded_blocks = uploaded; published_indexes = if published then 1 else 0 }

  unfoldable pub publish_from : ℕ → ℕ → ℕ → FollowerStats → Effect (Live E) FollowerStats
  unfolding publish_range
  publish_from zero stable_tip end stats = pure stats
  publish_from (suc fuel) stable_tip end stats = reading (λ f.
      let range_end = end_of_range f.next_index_start f.range_size in
      if ltb end f.next_index_start || (ltb end range_end || ltb stable_tip range_end)
      then pure stats
      else (publish_range f range_end >>= λ more.
          elim (next_range_start f.next_index_start f.range_size) [
            | none ↦ pure (plus stats more)
            | some next ↦
                update (λ g. prune_recent_hashes end (record g { next_index_start = next }))
                >> publish_from fuel stable_tip end (plus stats more)
          ]))

  -- The start of the next range grows with each round.
  unfoldable pub publish_stable_indexes : ℕ → ℕ → Effect (Live E) FollowerStats
  unfolding publish_from
  publish_stable_indexes local_tip end = reading (λ f.
      if ltb local_tip f.stable_delay
      then pure no_stats
      else publish_from (suc end) (local_tip - f.stable_delay) end no_stats)

  unfoldable pub initial_from : ℕ → ℕ → Effect (Live E) ℕ
  initial_from zero end = reading (λ f. pure f.next_index_start)
  initial_from (suc fuel) end = reading (λ f.
      if ltb end f.next_index_start
      then pure f.next_index_start
      else (lift (object_key f.next_index_start f.range_size) >>= λ key.
          outside (wrapping (at_text (codes "check range index") key) (E.object_exists key))
          >>= λ exists.
              if exists
              then elim (next_range_start f.next_index_start f.range_size) [
                | none ↦ pure f.next_index_start
                | some next ↦
                    (update (λ g. record g { next_index_start = next }) >> initial_from fuel end)
              ]
              else pure f.next_index_start))

  unfoldable pub find_initial_upload_start : ℕ → Effect (Live E) ℕ
  unfolding initial_from
  find_initial_upload_start end = initial_from (suc end) end

  unfoldable pub initialize : ℕ → ℕ → Effect (Live E) FollowerStats
  unfolding find_initial_upload_start publish_stable_indexes
  initialize local_tip end = do
    update (λ f. record f { next_index_start = f.managed_start; recent_hashes = [] })
    start ← find_initial_upload_start end
    reading (λ f. lift (ensure_published_boundary_visible f end))
    uploaded ← reading (λ f.
        if leb start end then outside (upload_blocks E start end f.upload_workers) else pure 0)
    stats ← publish_stable_indexes local_tip end
    reading (λ f. refresh_recent_hashes E (recent_cache_start f end) end)
    update (λ f. record f { last_tip = end; initialized = true })
    pure (plus record { uploaded_blocks = uploaded; published_indexes = 0 } stats)
