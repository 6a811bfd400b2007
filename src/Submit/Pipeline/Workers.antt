-- ===== src/Submit/Pipeline/Workers.antt =====
-- `downloadAndVerifySubmitBlock` and the steps of `runSubmitDownloadWorker`.
use fractal_block_sync.Prelude.{
  ℕ, zero, suc, Bool, true, false, not, Option, none, some, List, [], ◌∷◌, ◌++◌, Bytes, Text, codes,
  ltb, length, if◌then◌else◌, text_eq,
}
use fractal_block_sync.Errors.{Err, Result, ok, err, at_block, at_height, hash_mismatch_at}
use fractal_block_sync.BlockHash.{from_raw_block}
use fractal_block_sync.Submit.Services.{Services}
use fractal_block_sync.Submit.Pipeline.{
  DownloadJob, Download, Worker, idle, fetching, holding, gone, Pipeline, Phase, returned,
}

abbrev pub failed_download : DownloadJob → Err → Download
failed_download job e = record { height = job.height; hash = job.hash; raw = []; error = some e }

-- The hash of a block that came is compared with the hash of its job.
unfoldable pub check_download : DownloadJob → Bytes → Result Text → Download
check_download job raw (err e) =
    failed_download job (at_height (codes "calculate block hash at height") job.height e)
check_download job raw (ok got) =
    if not (text_eq got job.hash)
    then failed_download job (hash_mismatch_at job.height got job.hash)
    else record { height = job.height; hash = job.hash; raw = raw; error = none }

unfoldable pub downloaded : {S : Type 0} → DownloadJob → Result Bytes × S → Download × S
unfolding check_download
downloaded job (err e, s) =
    (failed_download job (at_block (codes "download block") job.hash job.height e), s)
downloaded job (ok raw, s) = (check_download job raw (from_raw_block raw), s)

-- Another worker in the place of one.
abbrev pub replace : {A : Type 0} → ℕ → A → List A → List A
replace i w [] = []
replace zero w (v ∷ vs) = w ∷ vs
replace (suc i) w (v ∷ vs) = v ∷ replace i w vs

-- `downloadCtx` is done with the caller's context, and once `run` returns.
abbrev pub is_cancelled : Option Err → Phase → Bool
is_cancelled (some e) phase = true
is_cancelled none (returned e) = true
is_cancelled none phase = false

module _ (E : Services) where
  unfoldable pub download_and_verify : DownloadJob → E.State → Download × E.State
  unfolding downloaded
  download_and_verify job s = downloaded job (E.download_block job.hash s)

  -- A worker takes the next job from the channel.
  unfoldable pub take_job :
      ℕ → Option Worker → List DownloadJob → Pipeline → E.State → Option (Pipeline × E.State)
  take_job i (some idle) (job ∷ jobs) p s =
      some (record p { jobs = jobs; workers = replace i (fetching job) p.workers }, s)
  take_job i w jobs p s = none

  unfoldable pub fetch : ℕ → Option Worker → Pipeline → E.State → Option (Pipeline × E.State)
  unfolding download_and_verify
  fetch i (some (fetching job)) p s =
      let (d, t) = download_and_verify job s in
      some (record p { workers = replace i (holding d) p.workers }, t)
  fetch i w p s = none

  -- A worker sends its result where the channel has room.
  unfoldable pub deliver : ℕ → Option Worker → Pipeline → E.State → Option (Pipeline × E.State)
  deliver i (some (holding d)) p s =
      if ltb (length p.results) p.prefetch_window
      then some
          (record p { results = p.results ++ (d ∷ []); workers = replace i idle p.workers }, s)
      else none
  deliver i w p s = none

  -- At either select a worker returns when its context is done.
  unfoldable pub quit : ℕ → Bool → Option Worker → Pipeline → E.State → Option (Pipeline × E.State)
  quit i true (some idle) p s = some (record p { workers = replace i gone p.workers }, s)
  quit i true (some (holding d)) p s = some (record p { workers = replace i gone p.workers }, s)
  quit i cancelled w p s = none
