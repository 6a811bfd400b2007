-- ===== src/Upload/Follower/Recent.antt =====
-- `refreshRecentHashes` and `findCommonAncestor`.
use fractal_block_sync.Prelude.{
  ℕ, zero, suc, ◌-◌, Bool, ◌&&◌, Option, none, some, List, [], ◌∷◌, Text, codes, ltb, if◌then◌else◌,
  text_eq,
}
use fractal_block_sync.Errors.{at_height}
use fractal_block_sync.Effects.{Effect, ◌>>=◌, ◌>>◌, pure, wrapping}
use fractal_block_sync.Upload.Services.{Provider}
use fractal_block_sync.Upload.Windows.{heights_between}
use fractal_block_sync.Upload.Follower.{
  UploadFollower, Live, outside, update, reading, recall, remember, recent_cache_start,
  prune_recent_hashes,
}

unfoldable pub lower_bound : UploadFollower → ℕ → ℕ
unfolding recent_cache_start
lower_bound f start =
    let lower = recent_cache_start f f.last_tip in if ltb start lower then start else lower

module _ (E : Provider) where
  unfoldable pub hash_of : ℕ → Effect (Live E) Text
  hash_of height =
      outside (wrapping (at_height (codes "get block hash") height) (E.get_block_hash height))

  unfoldable pub remember_heights : List ℕ → Effect (Live E) (Unit {0})
  unfolding hash_of remember
  remember_heights [] = pure tt
  remember_heights (height ∷ rest) = do
    hash ← hash_of height
    update (λ f. record f { recent_hashes = remember height hash f.recent_hashes })
    remember_heights rest

  unfoldable pub refresh_recent_hashes : ℕ → ℕ → Effect (Live E) (Unit {0})
  unfolding remember_heights
  refresh_recent_hashes from_height to_height =
      if ltb to_height from_height
      then pure tt
      else (remember_heights (heights_between from_height to_height)
          >> update (prune_recent_hashes to_height))

  -- The loop of `findCommonAncestor`, by the heights left down to its lower bound.
  unfoldable pub ancestor_from : List (ℕ × Text) → ℕ → ℕ → Effect E.State (Option ℕ)
  ancestor_from known zero height = pure none
  ancestor_from known (suc rounds) height = elim (recall height known) [
    | none ↦ ancestor_from known rounds (height - 1)
    | some hash ↦
        wrapping (at_height (codes "get block hash") height) (E.get_block_hash height)
        >>= λ current.
            if text_eq current hash
            then pure (some height)
            else ancestor_from known rounds (height - 1)
  ]

  -- The ancestor, and whether the search that found none reached published heights.
  unfoldable pub find_common_ancestor : ℕ → Effect (Live E) (Option ℕ × Bool)
  unfolding ancestor_from lower_bound
  find_common_ancestor start = reading (λ f.
      let lower = lower_bound f start in
      outside (ancestor_from f.recent_hashes (suc (start - lower)) start) >>= λ found.
      pure (found, ltb f.managed_start f.next_index_start && ltb lower f.next_index_start))
