-- ===== src/Upload/Follower/Boundary.antt =====
-- A tip below the published ranges.
use fractal_block_sync.Prelude.{
  ℕ, suc, ◌-◌, ◌↔◌, ◌⊎◌, ◌≤◌, ◌<◌, ◌≡◌, refl, arith, true, false, some, codes, ltb, leb,
}
use fractal_block_sync.Errors.{ok, err, wrapped, reorg_published}
use fractal_block_sync.Upload.Services.{Provider}
use fractal_block_sync.Upload.Once.{end_height}
use fractal_block_sync.Upload.Follower.{
  UploadFollower, ensure_published_boundary_visible, published_boundary,
}
use fractal_block_sync.Upload.Follower.Attempt.{attempt, attempted, counted, follow_once}

-- The check of the published boundary passes exactly when nothing is published, or the last
-- published height is not above the last height to upload.
pub ensure_published_boundary_visible_iff :
    (f : UploadFollower) (end : ℕ)
    → (ensure_published_boundary_visible f end ≡ ok tt)
      ↔ ((f.next_index_start ≤ f.managed_start) ⊎ (f.next_index_start ≤ suc end))
unfolding ensure_published_boundary_visible published_boundary
ensure_published_boundary_visible_iff f end = ground arith

hidden :
    (f : UploadFollower) (end : ℕ)
    → f.managed_start < f.next_index_start
    → suc end < f.next_index_start
    → ensure_published_boundary_visible f end
      ≡ err (wrapped (codes "tip_height") (reorg_published end f.next_index_start))
unfolding ensure_published_boundary_visible published_boundary
hidden f end published above =
    let b : leb f.next_index_start f.managed_start ≡ false = ground arith in
    let c : leb (f.next_index_start - 1) end ≡ false = ground arith in
    rw (b, c, ensure_published_boundary_visible, published_boundary) refl

module _ (E : Provider) where
  -- When the last height to upload has fallen more than one below the next index of an
  -- initialised follower that has published ranges, and is not below the first height to upload,
  -- UploadOnce fails with the error of a published boundary, and neither the follower nor the
  -- world changes beyond the call that asked for the tip.
  pub follow_once-boundary :
      (f : UploadFollower) (local_tip : ℕ) (s t : E.State)
      → E.get_block_count s ≡ (ok local_tip, t)
      → f.initialized ≡ true
      → f.managed_start < f.next_index_start
      → f.cfg.from_height ≤ end_height f.cfg.to_height local_tip
      → suc (end_height f.cfg.to_height local_tip) < f.next_index_start
      → ((follow_once E (f, s)).0.1
          ≡ some (
              wrapped
                (codes "tip_height")
                (reorg_published (end_height f.cfg.to_height local_tip) f.next_index_start)))
        × ((follow_once E (f, s)).1 ≡ (f, t))
  unfolding follow_once counted attempt attempted
  follow_once-boundary f local_tip s t counts started published from_height above =
      let end = end_height f.cfg.to_height local_tip in
      let a : ltb end f.cfg.from_height ≡ false = ground arith in
      rw (counts, a, started, hidden f end published above) (refl, refl)
