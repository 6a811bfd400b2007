-- ===== src/Upload/Indexes.antt =====
-- `uploadRangeIndex`, `uploadRangeIndexIfMissing`.
pub mod Published
use fractal_block_sync.Prelude.{
  ℕ, zero, suc, ◌+◌, ◌-◌, ◌^◌, Bool, true, false, List, [], ◌∷◌, Text, codes, u64, ltb,
  if◌then◌else◌,
}
use fractal_block_sync.Errors.{Result, ok, err, panic, at_height, at_text, wrap}
use fractal_block_sync.Effects.{Effect, ◌>>=◌, ◌>>◌, pure, fail, lift, wrapping}
use fractal_block_sync.RangeIndex.{object_key, encode}
use fractal_block_sync.Upload.Services.{Provider}

-- `make` of a slice of strings, 16 bytes each, panics beyond the 2 ^ 48 bytes of the runtime's
-- address space.
abbrev pub max_strings : ℕ
max_strings = 2 ^ 44

module _ (E : Provider) where
  -- The loop of `uploadRangeIndex`, for its rounds.
  unfoldable pub range_hashes : ℕ → ℕ → Effect E.State (List Text)
  range_hashes zero height = pure []
  range_hashes (suc rounds) height = do
    hash ← wrapping (at_height (codes "get range hash") height) (E.get_block_hash height)
    hashes ← range_hashes rounds (u64 (height + 1))
    pure (hash ∷ hashes)

  -- After the loop.
  unfoldable pub publish_hashes : ℕ → ℕ → List Text → Effect E.State (Unit {0})
  publish_hashes start range_size hashes = do
    bin ←
        lift (wrap (at_height (codes "encode range index start") start) (encode hashes range_size))
    key ← lift (object_key start range_size)
    wrapping (at_text (codes "upload range index") key) (E.put_range_index key bin)

  -- The heights go from `start` up to `start+rangeSize`, which wraps.
  unfoldable pub upload_range_index : ℕ → ℕ → Effect E.State (Unit {0})
  unfolding range_hashes publish_hashes
  upload_range_index start range_size = if ltb max_strings range_size then fail panic else do
    hashes ← range_hashes (u64 (start + range_size) - start) start
    publish_hashes start range_size hashes

  unfoldable pub upload_range_index_if_missing : ℕ → ℕ → Effect E.State Bool
  unfolding upload_range_index
  upload_range_index_if_missing start range_size = do
    key ← lift (object_key start range_size)
    exists ← wrapping (at_text (codes "check range index") key) (E.object_exists key)
    if exists then pure false else (upload_range_index start range_size >> pure true)
