-- ===== src/Upload/Follower/Attempt.antt =====
-- The follower's `UploadOnce`.
use fractal_block_sync.Prelude.{
  ℕ, Bool, false, ◌||◌, not, Option, none, some, codes, ltb, ◌==◌, if◌then◌else◌,
}
use fractal_block_sync.Errors.{Err, Result, ok, err, wrapped}
use fractal_block_sync.Effects.{Effect, ◌>>=◌, ◌>>◌, pure, lift}
use fractal_block_sync.Upload.Services.{Provider}
use fractal_block_sync.Upload.Once.{end_height}
use fractal_block_sync.Upload.Follower.{
  UploadFollower, FollowerStats, Live, reading, ensure_published_boundary_visible,
}
use fractal_block_sync.Upload.Follower.Publish.{plus, publish_stable_indexes, initialize}
use fractal_block_sync.Upload.Follower.Advance.{upload_increment}

pub record UploadFollowResult : Type 0 where
  pub tip : ℕ
  pub last_tip : ℕ
  pub next_index_start : ℕ
  pub uploaded_blocks : ℕ
  pub published_indexes : ℕ
  pub waiting : Bool

unfoldable pub has_work : UploadFollowResult → Bool
has_work r = not (r.tip == r.last_tip) || (ltb 0 r.uploaded_blocks || ltb 0 r.published_indexes)

unfoldable pub finish_result : UploadFollower → UploadFollowResult → UploadFollowResult
unfolding has_work
finish_result f r =
    let told = record r { next_index_start = f.next_index_start } in
    record told { waiting = not (has_work told) }

-- The result that is returned, and the error beside it.
abbrev pub Told : Provider → Type 0
Told E = (UploadFollowResult × Option Err) × Live E

module _ (E : Provider) where
  unfoldable pub attempt : ℕ → ℕ → Effect (Live E) FollowerStats
  unfolding initialize upload_increment publish_stable_indexes ensure_published_boundary_visible
  attempt local_tip end = reading (λ f. if not f.initialized then initialize E local_tip end else do
    lift (ensure_published_boundary_visible f end)
    stats ← upload_increment E end
    indexes ← publish_stable_indexes E local_tip end
    pure (plus stats indexes))

  unfoldable pub attempted : UploadFollowResult → Result FollowerStats × Live E → Told E
  unfolding finish_result
  attempted r (ok stats, (f, s)) =
      let counts = record r {
        uploaded_blocks = stats.uploaded_blocks;
        published_indexes = stats.published_indexes;
      } in
      ((finish_result f counts, none), (f, s))
  attempted r (err e, live) = ((r, some e), live)

  unfoldable pub counted : UploadFollower → UploadFollowResult → Result ℕ × E.State → Told E
  unfolding attempt attempted
  counted f r (err e, s) = ((r, some (wrapped (codes "get block count") e)), (f, s))
  counted f r (ok local_tip, s) =
      let end = end_height f.cfg.to_height local_tip in
      let reached = record r { tip = end } in
      if ltb end f.cfg.from_height
      then ((finish_result f reached, none), (f, s))
      else attempted reached (attempt local_tip end (f, s))

  unfoldable pub follow_once : Live E → Told E
  unfolding counted
  follow_once (f, s) =
      counted f
        record {
          tip = 0;
          last_tip = f.last_tip;
          next_index_start = f.next_index_start;
          uploaded_blocks = 0;
          published_indexes = 0;
          waiting = false;
        }
        (E.get_block_count s)
