-- ===== src/Submit/Pipeline/Filled/Safe.antt =====
-- The window holds no more than its size, and its channels have room.
use fractal_block_sync.Prelude.{
  ℕ, zero, suc, ◌+◌, ◌≤◌, ◌<◌, ◌≡◌, refl, arith, true, Option, List, u64, length, count,
}
use fractal_block_sync.Errors.{Err, Result, ok, err}
use fractal_block_sync.BtcRpc.{BlockchainInfo}
use fractal_block_sync.Submit.Services.{Services, SubmitConfig}
use fractal_block_sync.Submit.Pipeline.{Worker, idle, Pipeline}
use fractal_block_sync.Submit.Pipeline.Run.{
  PipelineMove, crew, count_or_default, started, prepared, submit_pipeline, from_start,
  pipeline_after,
}
use fractal_block_sync.Submit.Pipeline.Invariant.{OnSome, OnSome-map, run-keeps}
use fractal_block_sync.Submit.Pipeline.Ordered.{is_live}
use fractal_block_sync.Submit.Pipeline.Counted.{total, busy_at, is_busy, downloads_at}
use fractal_block_sync.Submit.Pipeline.Filled.{within, on_way, IsFilled}
use fractal_block_sync.Submit.Pipeline.Filled.Steps.{perform-IsFilled}

pub total-crew : (f : Worker → ℕ) (n : ℕ) → f idle ≡ 0 → total f (crew n) ≡ 0
unfolding crew
total-crew f zero e = refl
total-crew f (suc n) e = omega (arith, total-crew f n e)

length-crew : (n : ℕ) → length (crew n) ≡ n
unfolding crew
length-crew zero = refl
length-crew (suc n) = omega (arith, length-crew n)

count_or_default-pos : (d n : ℕ) → 0 < d → 0 < count_or_default d n
unfolding count_or_default
count_or_default-pos d n h = ground arith

module _ (E : Services) (ctx_error : E.State → Option Err) (cfg : SubmitConfig) where
  pub started-IsFilled : (info : BlockchainInfo) → IsFilled (started E ctx_error cfg info)
  started-IsFilled info l =
      let workers = count_or_default 4 cfg.download_workers in
      let some_workers = count_or_default-pos 4 cfg.download_workers (omega arith) in
      (
        u64 (info.blocks + 1),
        record {
          wide = count_or_default-pos 16 cfg.prefetch_window (omega arith);
          staffed = omega (arith, length-crew workers, some_workers);
          scheduling = λ e. (refl, omega arith);
          in_range = omega arith;
          parted = λ k. ground arith;
          sized = omega arith;
          bounded = omega arith;
          in_flight = λ k. omega (arith, total-crew (busy_at k) workers refl);
          flow = omega (arith, total-crew is_busy workers refl);
          whole = λ g. omega (arith, total-crew is_busy workers refl);
          at_phase = tt;
        },
      )

  pub pipeline-IsFilled :
      (ms : List PipelineMove) (s : E.State)
      → OnSome (λ (x : Pipeline × E.State). IsFilled x.0) (pipeline_after E ctx_error cfg ms s)
  unfolding pipeline_after submit_pipeline prepared
  pipeline-IsFilled ms s = from_info (E.get_blockchain_info s)
    where
      from_info :
          (a : Result BlockchainInfo × E.State)
          → OnSome
              (λ (x : Pipeline × E.State). IsFilled x.0)
              (from_start E ctx_error ms (prepared E ctx_error cfg a))
      from_info (err e, t) = tt
      from_info (ok info, t) =
          run-keeps E ctx_error (λ (x : Pipeline × E.State). IsFilled x.0)
            (perform-IsFilled E ctx_error) ms (started E ctx_error cfg info) t
            (started-IsFilled info)

  -- What is on its way while `run` has not returned.
  abbrev pub IsBounded : Pipeline × E.State → Type 0
  IsBounded (p, s) =
      is_live p.phase ≡ true
      → (on_way p ≤ p.prefetch_window)
        × (length p.jobs + total is_busy p.workers + length p.results ≤ length p.pending)
        × (top : ℕ) × ((k : ℕ)
            → downloads_at k p.ready + count k p.pending ≡ within p.current_height top k)

  -- Whatever the services answer and whatever the schedule: while run has not returned, the
  -- heights that are ready or pending are no more than the prefetch window, they are the heights
  -- from the current one up to a top, each in one of the two maps and once, and the jobs and
  -- results in the channels and at the workers are no more than the pending heights, so that no
  -- channel overflows.
  pub pipeline-IsBounded :
      (ms : List PipelineMove) (s : E.State)
      → OnSome IsBounded (pipeline_after E ctx_error cfg ms s)
  pipeline-IsBounded ms s =
      OnSome-map (λ (x : Pipeline × E.State). IsFilled x.0) IsBounded
        (pipeline_after E ctx_error cfg ms s)
        (λ x v l. let (top, f) = v l in (f.bounded, f.flow, top, f.parted)) (pipeline-IsFilled ms s)
