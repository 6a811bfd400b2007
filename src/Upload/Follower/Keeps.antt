-- ===== src/Upload/Follower/Keeps.antt =====
-- What every method of the follower keeps, when its single calls and updates keep it.
pub mod Publish
pub mod Start
pub mod Attempts
use fractal_block_sync.Prelude.{
  ℕ, zero, suc, ◌+◌, ◌*◌, ◌-◌, ◌≤◌, ◌<◌, ◌≡◌, refl, sym, subst, ◌∙◌, arith, Bool, true, false, ◌||◌,
  not, Option, none, some, List, [], ◌∷◌, Text, codes, u64, max_u64, ltb, leb, if◌then◌else◌,
  text_eq, Bytes, Bool-cases, Option-cases, inl, inr,
}
use fractal_block_sync.Errors.{Result, ok, err, at_text}
use fractal_block_sync.Effects.{Effect, pure, wrapping}
use fractal_block_sync.Effects.Laws.{continue-keeps, lifted-keeps}
use fractal_block_sync.RangeIndex.{object_key}
use fractal_block_sync.Upload.Services.{Provider}
use fractal_block_sync.Upload.Windows.{end_of_range, next_range_start, heights_between}
use fractal_block_sync.Upload.Blocks.{upload_blocks_from}
use fractal_block_sync.Upload.Probes.{upload_blocks}
use fractal_block_sync.Upload.Indexes.{upload_range_index_if_missing}
use fractal_block_sync.Upload.Once.Ends.{next_range_start_lem}
use fractal_block_sync.Upload.Follower.{
  UploadFollower, FollowerStats, Live, outside, settle, keep_heights, prune_recent_hashes, recall,
  is_published, ensure_published_boundary_visible, recent_cache_start,
}
use fractal_block_sync.Upload.Follower.Recent.{
  hash_of, remember_heights, refresh_recent_hashes, ancestor_from, lower_bound,
  find_common_ancestor,
}
use fractal_block_sync.Upload.Follower.Publish.{
  no_stats, plus, publish_range, publish_from, publish_stable_indexes, initial_from,
  find_initial_upload_start, initialize,
}
use fractal_block_sync.Upload.Follower.Advance.{
  reorg_start, upload_reorg_from, upload_reorg, extend, compared, upload_increment,
}
use fractal_block_sync.Upload.Follower.Attempt.{
  UploadFollowResult, attempt, attempted, counted, follow_once,
}
use fractal_block_sync.Upload.Once.{end_height}
use fractal_block_sync.Upload.Services.{Stable}
use fractal_block_sync.Upload.Once.Guarded.{IsPublishable, upload_range_index_if_missing-keeps}
use fractal_block_sync.Upload.Blocks.Pooled.{upload_blocks_from-keeps}
use fractal_block_sync.Upload.Probes.Covered.{upload_blocks-keeps}
use fractal_block_sync.Effects.Laws.{wrap_result-keeps}

-- Two followers that differ at most in their cache, their last tip and whether they are initialised.
pub record SameRanges (f g : UploadFollower) : Type 0 where
  pub same_managed : g.managed_start ≡ f.managed_start
  pub same_range : g.range_size ≡ f.range_size
  pub same_delay : g.stable_delay ≡ f.stable_delay
  pub same_next : g.next_index_start ≡ f.next_index_start

-- A property of the follower and the world that the calls of an attempt keep, and changes of the other
-- fields.
pub record Keeping (E : Provider) (Inv : Live E → Type 0) (tip end : ℕ) : Type 1 where
  pub by_call : (f : UploadFollower) → Stable E (λ s. Inv (f, s))
  pub by_fields : (f g : UploadFollower) (s : E.State) → SameRanges f g → Inv (f, s) → Inv (g, s)
  pub by_index :
      (f : UploadFollower) (key : Text) (d : Bytes) (s : E.State)
      → IsPublishable f.stable_delay tip f.range_size end key
      → Inv (f, s)
      → Inv (f, (E.put_range_index key d s).1)

-- The property is also kept where the next index moves on.
pub record Advancing (E : Provider) (Inv : Live E → Type 0) : Type 1 where
  pub by_next :
      (f : UploadFollower) (s : E.State) (next : ℕ)
      → next_range_start f.next_index_start f.range_size ≡ some next
      → Inv (f, s)
      → Inv (record f { next_index_start = next }, s)
  pub by_reset :
      (f : UploadFollower) (s : E.State)
      → Inv (f, s)
      → Inv (record f { next_index_start = f.managed_start; recent_hashes = [] }, s)

pub same : (f : UploadFollower) → SameRanges f f
same f = record { same_managed = refl; same_range = refl; same_delay = refl; same_next = refl }

module _ (E : Provider) (Inv : Live E → Type 0) (tip end : ℕ) (K : Keeping E Inv tip end) where
  pub outside-keeps :
      {A : Type 0} (m : Effect E.State A) (live : Live E)
      → ((s : E.State) → Inv (live.0, s) → Inv (live.0, (m s).1))
      → Inv live
      → Inv (outside m live).1
  outside-keeps m (f, s) k v = k s v

  pub either :
      {A : Type 0} (b : Bool) (m k : Effect (Live E) A) (live : Live E)
      → Inv (m live).1
      → Inv (k live).1
      → Inv (if◌then◌else◌ {A = Effect (Live E) A} b m k live).1
  either true m k live p q = p
  either false m k live p q = q

  -- What an attempt does to the other fields does not matter.
  pub alike :
      (g : UploadFollower) (live : Live E)
      → g.managed_start ≡ live.0.managed_start
      → g.range_size ≡ live.0.range_size
      → g.stable_delay ≡ live.0.stable_delay
      → g.next_index_start ≡ live.0.next_index_start
      → Inv live
      → Inv (g, live.1)
  alike g (f, s) a b c d v =
      K.by_fields f g s (record { same_managed = a; same_range = b; same_delay = c; same_next = d })
        v

  pub settle-keeps : (h : ℕ) (live : Live E) → Inv live → Inv (settle h live.0, live.1)
  unfolding settle prune_recent_hashes
  settle-keeps h live v = alike (settle h live.0) live refl refl refl refl v

  pub hash_of-keeps : (h : ℕ) (live : Live E) → Inv live → Inv (hash_of E h live).1
  unfolding hash_of
  hash_of-keeps h (f, s) v =
      wrap_result-keeps (λ t. Inv (f, t)) _ (E.get_block_hash h s)
        (Stable.by_hash (K.by_call f) h s v)

  remember_heights-keeps :
      (hs : List ℕ) (live : Live E) → Inv live → Inv (remember_heights E hs live).1
  unfolding remember_heights
  remember_heights-keeps [] live v = v
  remember_heights-keeps (h ∷ hs) live v =
      continue-keeps Inv (hash_of E h live) _ (hash_of-keeps h live v)
        (λ hash kept w. remember_heights-keeps hs _ (alike _ kept refl refl refl refl w))

  pub refresh_recent_hashes-keeps :
      (from_height to_height : ℕ) (live : Live E)
      → Inv live
      → Inv (refresh_recent_hashes E from_height to_height live).1
  unfolding refresh_recent_hashes prune_recent_hashes
  refresh_recent_hashes-keeps from_height to_height live v =
      elim (Bool-cases (ltb to_height from_height)) [
        | inl y ↦ rw y v
        | inr z ↦ rw z (
            continue-keeps Inv (remember_heights E (heights_between from_height to_height) live) _
              (remember_heights-keeps _ live v) (λ _ kept w. alike _ kept refl refl refl refl w))
      ]

  pub upload_from-keeps :
      (start last workers : ℕ) (live : Live E)
      → Inv live
      → Inv (outside (upload_blocks_from E start last workers) live).1
  upload_from-keeps start last workers (f, s) v =
      upload_blocks_from-keeps E (λ t. Inv (f, t)) (K.by_call f) start last workers s v

  pub upload_all-keeps :
      (start last workers : ℕ) (live : Live E)
      → Inv live
      → Inv (outside (upload_blocks E start last workers) live).1
  upload_all-keeps start last workers (f, s) v =
      upload_blocks-keeps E (λ t. Inv (f, t)) (K.by_call f) start last workers s v
