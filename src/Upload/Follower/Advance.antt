-- ===== src/Upload/Follower/Advance.antt =====
-- `uploadIncrement`, `uploadReorg` and the follower's `UploadOnce`.
use fractal_block_sync.Prelude.{
  ℕ, ◌+◌, Bool, Option, none, some, Text, codes, u64, max_u64, ltb, leb, ◌==◌, if◌then◌else◌,
  text_eq,
}
use fractal_block_sync.Errors.{Result, ok, err, wrapped, reorg_published, ancestor_overflow}
use fractal_block_sync.Effects.{Effect, ◌>>=◌, ◌>>◌, pure, fail, lift}
use fractal_block_sync.Upload.Services.{Provider}
use fractal_block_sync.Upload.Blocks.{upload_blocks_from}
use fractal_block_sync.Upload.Follower.{
  UploadFollower, FollowerStats, Live, outside, update, reading, recall, keep_heights, is_published,
  settle,
}
use fractal_block_sync.Upload.Follower.Recent.{hash_of, refresh_recent_hashes, find_common_ancestor}
use fractal_block_sync.Upload.Follower.Publish.{no_stats}

abbrev pub blocks_only : ℕ → FollowerStats
blocks_only uploaded = record { uploaded_blocks = uploaded; published_indexes = 0 }

-- Where the upload after a reorganisation starts. (The error of a search that found nothing names no
-- height; a zero stands in its place.)
unfoldable pub reorg_start : UploadFollower → Option ℕ × Bool → Result ℕ
reorg_start f (some ancestor, searched) =
    if ancestor == max_u64 then err (ancestor_overflow ancestor) else ok (ancestor + 1)
reorg_start f (none, searched) =
    if searched
    then err (wrapped (codes "no common ancestor") (reorg_published 0 f.next_index_start))
    else ok (if ltb f.next_index_start f.managed_start then f.managed_start else f.next_index_start)

module _ (E : Provider) where
  unfoldable pub upload_reorg_from : ℕ → ℕ → Effect (Live E) FollowerStats
  upload_reorg_from start end = reading (λ f.
      if is_published f start
      then fail (wrapped (codes "upload_start") (reorg_published start f.next_index_start))
      else do
        uploaded ←
            if leb start end
            then outside (upload_blocks_from E start end f.upload_workers)
            else pure 0
        update (λ g. record g { recent_hashes = keep_heights (λ h. ltb h start) g.recent_hashes })
        if leb start end then refresh_recent_hashes E start end else pure tt
        update (settle end)
        pure (blocks_only uploaded))

  unfoldable pub upload_reorg : ℕ → ℕ → Effect (Live E) FollowerStats
  unfolding reorg_start upload_reorg_from
  upload_reorg check end = reading (λ f.
      if is_published f check
      then fail (wrapped (codes "height") (reorg_published check f.next_index_start))
      else do
        found ← find_common_ancestor E check
        start ← lift (reorg_start f found)
        upload_reorg_from start end)

  -- The known block at the height is still the node's: only new heights are uploaded.
  unfoldable pub extend : ℕ → Effect (Live E) FollowerStats
  extend end = reading (λ f.
      let next = u64 (f.last_tip + 1) in
      let start = if ltb next f.managed_start then f.managed_start else next in
      do
        uploaded ←
            if ltb f.last_tip end
            then outside (upload_blocks_from E start end f.upload_workers)
            else pure 0
        if ltb f.last_tip end then refresh_recent_hashes E start end else pure tt
        update (settle end)
        pure (blocks_only uploaded))

  unfoldable pub compared : ℕ → ℕ → Text → Option Text → Effect (Live E) FollowerStats
  unfolding extend upload_reorg
  compared check end current (some known) =
      if text_eq known current then extend end else upload_reorg check end
  compared check end current none = reading (λ f.
      if is_published f check
      then fail (wrapped (codes "height") (reorg_published check f.next_index_start))
      else upload_reorg check end)

  unfoldable pub upload_increment : ℕ → Effect (Live E) FollowerStats
  unfolding compared
  upload_increment end = reading (λ f.
      let check = if ltb f.last_tip end then f.last_tip else end in
      if ltb check f.managed_start
      then (update (settle end) >> pure no_stats)
      else (hash_of E check >>= λ current.
          compared check end current (recall check f.recent_hashes)))
