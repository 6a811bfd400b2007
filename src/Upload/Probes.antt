-- ===== src/Upload/Probes.antt =====
-- `checkUploadProbes`, `findUploadStart` and `uploadBlocks`.
pub mod Calls
pub mod Ordered
pub mod Start
pub mod Covered
use fractal_block_sync.Prelude.{
  ℕ, zero, suc, ◌+◌, ◌*◌, Bool, true, false, ◌||◌, Option, none, some, List, [], ◌∷◌, Text, codes,
  if◌then◌else◌, ltb, leb, ◌==◌, length, get_or, int_sign,
}
use fractal_block_sync.Errors.{Err, Result, ok, err, never_returns, at_height, at_block}
use fractal_block_sync.Effects.{Effect, ◌>>=◌, pure, fail}
use fractal_block_sync.Pool
use fractal_block_sync.Pool.{Pool, Progress, again, done, Body}
use fractal_block_sync.Upload.Services.{Provider}
use fractal_block_sync.Upload.Windows.{
  upload_probe_heights, previous_upload_window_start, final_upload_window_start,
}
use fractal_block_sync.Upload.Blocks.{upload_blocks_from}

-- `const uploadMissingProbeStep`
abbrev pub upload_missing_probe_step : ℕ
upload_missing_probe_step = 100

-- A worker's probe of an index and its height, by the call that it makes next.
pub data Probe : Type 0 where
  asking : ℕ → ℕ → Probe
  testing : ℕ → ℕ → Text → Probe

-- `uploadProbeResult`, less its `err`, which is the other case of a `Result`, and the time that it took.
pub record UploadProbeResult : Type 0 where
  pub index : ℕ
  pub height : ℕ
  pub hash : Text
  pub exists : Bool

module _ {State : Type 0} where
  -- The calls of `getUploadBlockState`. A probe that fails sends its error as a result.
  unfoldable pub asked :
      ℕ → ℕ → Result Text × State → Progress Probe (Result UploadProbeResult) × State
  asked i h (ok hash, s) = (again (testing i h hash), s)
  asked i h (err e, s) = (done (err (at_height (codes "get block hash") h e)), s)

  unfoldable pub tested :
      ℕ → ℕ → Text → Result Bool × State → Progress Probe (Result UploadProbeResult) × State
  tested i h hash (ok exists, s) =
      (done (ok record { index = i; height = h; hash = hash; exists = exists }), s)
  tested i h hash (err e, s) = (done (err (at_block (codes "check block") hash h e)), s)

unfoldable pub worker_count : ℕ → ℕ → ℕ
worker_count workers probes =
    let n = if ltb workers 1 || leb int_sign workers then 1 else workers in
    if ltb probes n then probes else n

-- The error of the first result that has one, in the order in which the results came.
unfoldable pub first_error : {A : Type 0} → List (ℕ × Result A) → Option Err
first_error [] = none
first_error ((i, ok a) ∷ rs) = first_error rs
first_error ((i, err e) ∷ rs) = some e

-- `ordered[index]`: the last result that was sent for the index, and `d` without one.
unfoldable pub result_at :
    ℕ → List (ℕ × Result UploadProbeResult) → UploadProbeResult → UploadProbeResult
result_at i [] d = d
result_at i ((j, ok r) ∷ rs) d = result_at i rs (if j == i then r else d)
result_at i ((j, err e) ∷ rs) d = result_at i rs d

-- What `make` fills the slice with.
abbrev pub zero_result : UploadProbeResult
zero_result = record { index = 0; height = 0; hash = []; exists = false }

-- The results in the order of the probes, from an index on.
unfoldable pub ordered : List (ℕ × Result UploadProbeResult) → ℕ → List ℕ → List UploadProbeResult
unfolding result_at
ordered rs i [] = []
ordered rs i (height ∷ heights) = result_at i rs zero_result ∷ ordered rs (suc i) heights

unfoldable pub indexes : ℕ → List ℕ → List ℕ
indexes i [] = []
indexes i (height ∷ heights) = i ∷ indexes (suc i) heights

-- The first probe that found no block.
unfoldable pub first_missing : List UploadProbeResult → Option ℕ
first_missing [] = none
first_missing (r ∷ rs) = if r.exists then first_missing rs else some r.height

unfoldable pub window_start : ℕ → ℕ → ℕ → Option ℕ → ℕ
window_start from_height tip step none = final_upload_window_start from_height tip step
window_start from_height tip step (some missing) =
    previous_upload_window_start from_height missing step

module _ (E : Provider) where
  unfoldable pub probe : Probe → E.State → Progress Probe (Result UploadProbeResult) × E.State
  unfolding asked tested
  probe (asking i h) s = asked i h (E.get_block_hash h s)
  probe (testing i h hash) s = tested i h hash (E.block_exists hash s)

  unfoldable pub probers : List ℕ → Body E.State Probe (Result UploadProbeResult)
  unfolding probe
  probers probes = record {
    choose = E.choose;
    ctx_error = E.ctx_error;
    cancellable = false;
    start = λ i. asking i (get_or probes i 0);
    call = probe;
  }

  unfoldable pub probe_results :
      Option Err → List (ℕ × Result UploadProbeResult) → List ℕ → Result (List UploadProbeResult)
  unfolding ordered
  probe_results (some e) rs probes = err e
  probe_results none rs probes = ok (ordered rs 0 probes)

  -- Each index takes one step to be sent and at most two calls.
  unfoldable pub check_upload_probes : List ℕ → ℕ → Effect E.State (List UploadProbeResult)
  unfolding worker_count first_error indexes probers probe_results
  check_upload_probes [] workers s = (ok [], s)
  check_upload_probes (height ∷ heights) workers s =
      let probes = height ∷ heights in
      let (p, t) =
        Pool.run (probers probes) (suc (length probes * 3))
          (Pool.fresh_pool (indexes 0 probes) (worker_count workers (length probes))) s in
      (
        if Pool.has_returned p
            then probe_results (first_error p.results) p.results probes
            else err never_returns,
        t,
      )

  unfoldable pub find_upload_start : ℕ → ℕ → ℕ → ℕ → Effect E.State ℕ
  unfolding check_upload_probes first_missing window_start
  find_upload_start from_height tip probe_step workers =
      if probe_step == 0 then pure from_height else do
        results ← check_upload_probes (upload_probe_heights from_height tip probe_step) workers
        pure (window_start from_height tip probe_step (first_missing results))

  unfoldable pub upload_blocks : ℕ → ℕ → ℕ → Effect E.State ℕ
  unfolding find_upload_start
  upload_blocks from_height tip workers = if ltb tip from_height then pure 0 else do
    start ← find_upload_start from_height tip upload_missing_probe_step workers
    upload_blocks_from E start tip workers
