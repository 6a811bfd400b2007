-- ===== src/Submit/Resolve.antt =====
-- `resolveTargetHash` and `resolveTargetHashFromRangeIndex`: the range index first, then the walk.
use fractal_block_sync.Prelude.{ℕ, not, Text, codes, if◌then◌else◌}
use fractal_block_sync.Errors.{Err, Result, ok, err, is_not_found, at_text}
use fractal_block_sync.Effects.{Effect, ◌>>=◌, lift, wrapping}
use fractal_block_sync.RangeIndex
use fractal_block_sync.Submit.Services.{Services}
use fractal_block_sync.Submit.Walk.{resolve_recent_hash}

-- A missing object keeps its error, so that the caller can tell; others are wrapped.
unfoldable pub download_error : Text → Err → Err
download_error key e = if is_not_found e then e else at_text (codes "download range index") key e

module _ (E : Services) where
  unfoldable pub resolve_target_hash_from_range_index : ℕ → ℕ → Effect E.State Text
  resolve_target_hash_from_range_index target range_size = do
    (key, start) ← lift (RangeIndex.object_key_for_height target range_size)
    bin ← wrapping (download_error key) (E.download_object key)
    wrapping (at_text (codes "read range index") key)
        (lift (RangeIndex.hash_at bin start target range_size))

  -- What `resolveTargetHash` does with the answer of the range index.
  unfoldable pub or_recent : ℕ → ℕ → Result Text × E.State → Result Text × E.State
  or_recent target limit (ok hash, s) = (ok hash, s)
  or_recent target limit (err e, s) =
      if not (is_not_found e) then (err e, s) else resolve_recent_hash E target limit s

  unfoldable pub resolve_target_hash : ℕ → ℕ → ℕ → Effect E.State Text
  resolve_target_hash target range_size limit s =
      or_recent target limit (resolve_target_hash_from_range_index target range_size s)
