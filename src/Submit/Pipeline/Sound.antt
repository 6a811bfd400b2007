-- ===== src/Submit/Pipeline/Sound.antt =====
-- What is known of each block on its way through the pipeline: its hash is the one that was resolved
-- for its height, and a block without an error has that hash.
pub mod Moves
pub mod Steps
use fractal_block_sync.Prelude.{
  ℕ, zero, suc, ◌≡◌, refl, ap, subst, ◌∙◌, Bool, true, false, not, Option, none, some, List, [],
  ◌∷◌, ◌++◌, Bytes, Text, max_u64, ltb, ◌==◌, length, get_elem?, text_eq, text_eq_iff, All,
  All-append, inl, inr, Bool-cases, if_both,
}
use fractal_block_sync.Submit.Pipeline.Invariant.{OnSome}
use fractal_block_sync.Errors.{Err, Result, ok, err, Result-cases}
use fractal_block_sync.Hex
use fractal_block_sync.BlockHash.{from_raw_block}
use fractal_block_sync.BtcRpc.{BlockchainInfo}
use fractal_block_sync.Submit.Services.{Services}
use fractal_block_sync.Submit.Cache.{RangeIndexCache}
use fractal_block_sync.Submit.Next.{is_accepted}
use fractal_block_sync.Submit.Pipeline.{
  DownloadJob, Download, PipelineResult, Worker, idle, fetching, holding, gone, Pipeline, Phase,
  filling, sending, looping, returned, lookup, without, put,
}
use fractal_block_sync.Submit.Pipeline.Workers.{
  check_download, downloaded, download_and_verify, replace, is_cancelled, take_job, fetch, deliver,
  quit,
}
use fractal_block_sync.Submit.Pipeline.Window.{
  Resolution, named, waits, failed, resolve_hash, scheduled, send_job, plan, has_room, fill,
}
use fractal_block_sync.Submit.Pipeline.Run.{
  PipelineMove, proceed, cancel, receive, take, download, send, quit_worker, advance, rest,
  is_resting, height_reached, submitted_height_accepted, answered, submit, loop, go_on,
  is_selecting, see_done, take_result, get_result, make_move, run_moves,
}

some-inj : {v w : Worker} → some v ≡ some w → v ≡ w
some-inj e = cc

module _ (P : Worker → Type 0) where
  pub All-replace :
      (i : ℕ) (w : Worker) (ws : List Worker) → P w → All P ws → All P (replace i w ws)
  All-replace i w [] pw h = tt
  All-replace zero w (v ∷ vs) pw (pv, h) = (pw, h)
  All-replace (suc i) w (v ∷ vs) pw (pv, h) = (pv, All-replace i w vs pw h)

  pub All-get : (i : ℕ) (ws : List Worker) {w : Worker} → get_elem? ws i ≡ some w → All P ws → P w
  All-get i [] e h = cc
  All-get zero (v ∷ vs) {w} e (pv, h) = subst P (some-inj e) pv
  All-get (suc i) (v ∷ vs) e (pv, h) = All-get i vs e h

module _ (P : Download → Type 0) where
  pub All-without : (height : ℕ) (ds : List Download) → All P ds → All P (without height ds)
  unfolding without
  All-without height [] h = tt
  All-without height (d ∷ ds) (pd, h) =
      let rest = All-without height ds h in if_both (All P) (d.height == height) rest (pd, rest)

  pub lookup-holds :
      (height : ℕ) (ds : List Download) → All P ds → OnSome (λ d. P d) (lookup height ds)
  unfolding lookup
  lookup-holds height [] h = tt
  lookup-holds height (d ∷ ds) (pd, h) =
      if_both (OnSome (λ d. P d)) (d.height == height) pd (lookup-holds height ds h)

-- What is known of the hash of a height, and of the cache.
module _ (Named : ℕ → Text → Type 0) where
  abbrev pub IsNamed : ℕ → Resolution → Type 0
  IsNamed height (named hash) = Named height hash
  IsNamed height (waits index) = Unit
  IsNamed height (failed e) = Unit

  pub record IsChecked (d : Download) : Type 0 where
    pub hash_named : Named d.height d.hash
    pub hash_checked : d.error ≡ none → from_raw_block d.raw ≡ ok d.hash

  -- A block that was given to the node.
  abbrev pub IsVerified : Download → Type 0
  IsVerified d = Named d.height d.hash × (from_raw_block d.raw ≡ ok d.hash)

  abbrev pub JobNamed : DownloadJob → Type 0
  JobNamed job = Named job.height job.hash

  abbrev pub WorkerHolds : Worker → Type 0
  WorkerHolds idle = Unit
  WorkerHolds (fetching job) = JobNamed job
  WorkerHolds (holding d) = IsChecked d
  WorkerHolds gone = Unit

  abbrev pub PhaseHolds : Phase → Type 0
  PhaseHolds (sending job) = JobNamed job
  PhaseHolds phase = Unit

  pub check_download-IsChecked :
      (job : DownloadJob) (raw : Bytes) (r : Result Text)
      → from_raw_block raw ≡ r
      → JobNamed job
      → IsChecked (check_download job raw r)
  unfolding check_download
  check_download-IsChecked job raw (err e) c h = record { hash_named = h; hash_checked = λ n. cc }
  check_download-IsChecked job raw (ok got) c h = elim (Bool-cases (text_eq got job.hash)) [
    | inl y ↦
        rw y (record {
          hash_named = h;
          hash_checked = λ n. c ∙ ap ok ((text_eq_iff got job.hash).0 y);
        })
    | inr n ↦ rw n (record { hash_named = h; hash_checked = λ n. cc })
  ]

  pub downloaded-IsChecked :
      {S : Type 0} (job : DownloadJob) (r : Result Bytes × S)
      → JobNamed job
      → IsChecked (downloaded job r).0
  unfolding downloaded
  downloaded-IsChecked job (err e, s) h = record { hash_named = h; hash_checked = λ n. cc }
  downloaded-IsChecked job (ok raw, s) h = check_download-IsChecked job raw _ refl h
