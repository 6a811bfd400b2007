-- ===== src/Upload/Follower/Fresh.antt =====
-- A new follower.
use fractal_block_sync.Prelude.{◌≤◌, ◌≡◌, refl, false, [], subst, arith, max_u64, inl, inr}
use fractal_block_sync.Errors.{ok, Result-cases}
use fractal_block_sync.RangeIndex.{start_height}
use fractal_block_sync.RangeIndex.Bounds.{start_height_iff}
use fractal_block_sync.Upload.Services.{UploadConfig}
use fractal_block_sync.Upload.Once.{range_size_of, workers_of}
use fractal_block_sync.Upload.Follower.{UploadFollower, new_upload_follower}
use fractal_block_sync.Upload.Follower.Aligned.{IsAligned}

-- A new follower's next index starts at the first range that it manages.
pub new_upload_follower-IsAligned :
    (cfg : UploadConfig) {f : UploadFollower}
    → cfg.from_height ≤ max_u64
    → new_upload_follower cfg ≡ ok f
    → IsAligned f.managed_start (range_size_of cfg) f
unfolding new_upload_follower
new_upload_follower-IsAligned cfg {f} small e =
    elim (Result-cases (start_height cfg.from_height (range_size_of cfg))) [
      | inr (x, q) ↦ let h = rw q at e in cc
      | inl (start, q) ↦
          let below : start ≤ cfg.from_height =
            ((start_height_iff cfg.from_height (range_size_of cfg) start).0 q).2 in
          let fresh : UploadFollower = record {
            cfg = cfg;
            range_size = range_size_of cfg;
            stable_delay = cfg.stable_delay;
            upload_workers = workers_of cfg;
            managed_start = start;
            initialized = false;
            last_tip = 0;
            next_index_start = start;
            recent_hashes = [];
          } in
          let made : ok fresh ≡ ok f = rw q at e in
          let same : fresh ≡ f = cc in
          subst (λ g. IsAligned g.managed_start (range_size_of cfg) g) same
            (record {
              same_start = refl;
              same_size = refl;
              fits = omega arith;
              ranges = 0;
              at_range = omega arith;
            })
    ]
