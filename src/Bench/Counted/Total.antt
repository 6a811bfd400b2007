-- ===== src/Bench/Counted/Total.antt =====
-- The count holds under every schedule.
use fractal_block_sync.Prelude.{
  ℕ, zero, suc, ◌≤◌, ◌≡◌, refl, subst, arith, Option, none, some, List, max_u64, ltb, get_elem?,
  if◌then◌else◌, inl, inr, Bool-cases,
}
use fractal_block_sync.Errors.{Err}
use fractal_block_sync.Submit.Services.{Services}
use fractal_block_sync.Submit.Pipeline.Counted.{total}
use fractal_block_sync.Bench.{
  BenchWorker, waiting, loading, broken, finished, indexing, closed, Bench,
}
use fractal_block_sync.Bench.Enqueue.{is_beyond}
use fractal_block_sync.Bench.Run.{
  BenchMove, enqueue_more, enqueue_done, take_next, load, leave, load_block, bench_move,
}
use fractal_block_sync.Bench.Counted.{is_loading, is_broken, is_finished, PhaseCounts, IsCounted}
use fractal_block_sync.Bench.{BenchDownloadConfig}
use fractal_block_sync.Bench.Run.{
  bench_started, bench_crew, bench_download, default_bench_download_workers,
}
use fractal_block_sync.Submit.Pipeline.Run.{count_or_default}
use fractal_block_sync.Bench.Invariant.{Leaves, bench_run-keeps}
use fractal_block_sync.Bench.Counted.Queue.{enqueue-IsCounted, enqueue_cancelled-IsCounted}
use fractal_block_sync.Bench.Counted.Crew.{
  take_from-IsCounted, loaded_bench-IsCounted, leave_closed-IsCounted,
}

total-crew : (n : ℕ) (f : BenchWorker → ℕ) → f waiting ≡ 0 → total f (bench_crew n) ≡ 0
unfolding bench_crew
total-crew zero f e = refl
total-crew (suc n) f e = omega (arith, e, total-crew n f e)

module _ (E : Services) (ctx_error : E.State → Option Err) (from : ℕ) (to : Option ℕ) where
  load_block-IsCounted :
      (i : ℕ) (w : Option BenchWorker) (b : Bench) (s : E.State)
      → get_elem? b.workers i ≡ w
      → IsCounted from to b
      → Leaves (IsCounted from to) (load_block E ctx_error i w b s)
  unfolding load_block
  load_block-IsCounted i (some (loading job)) b s e v =
      let (r, t) = E.download_block job.hash s in
      loaded_bench-IsCounted from to i job r (ctx_error t) b e v
  load_block-IsCounted i (some waiting) b s e v = tt
  load_block-IsCounted i (some broken) b s e v = tt
  load_block-IsCounted i (some finished) b s e v = tt
  load_block-IsCounted i none b s e v = tt

  bench_move-IsCounted :
      (m : BenchMove) (b : Bench) (s : E.State)
      → IsCounted from to b
      → Leaves (IsCounted from to) (bench_move E ctx_error m b s)
  unfolding bench_move
  bench_move-IsCounted enqueue_more b s v = enqueue-IsCounted E from to b.phase b s refl v
  bench_move-IsCounted enqueue_done b s v =
      enqueue_cancelled-IsCounted E from to b.phase (ctx_error s) b s refl v
  bench_move-IsCounted (take_next i) b s v =
      take_from-IsCounted from to i (get_elem? b.workers i) b.jobs b s refl refl v
  bench_move-IsCounted (load i) b s v = load_block-IsCounted i (get_elem? b.workers i) b s refl v
  bench_move-IsCounted (leave i) b s v =
      leave_closed-IsCounted from to i (get_elem? b.workers i) b.phase b.jobs b s refl refl refl v

first_phase :
    (from : ℕ) (to : Option ℕ)
    → from ≤ max_u64
    → PhaseCounts from to from (if is_beyond from to then closed none else indexing from)
unfolding is_beyond
first_phase from none l = (refl, l, tt)
first_phase from (some t) l = elim (Bool-cases (ltb t from)) [
  | inl y ↦ rw y (λ wanted limit. absurd (ground (arith, y, wanted)))
  | inr m ↦ rw m (refl, l, ground (arith, m))
]

bench_started-IsCounted :
    (cfg : BenchDownloadConfig)
    → cfg.from_height ≤ max_u64
    → IsCounted cfg.from_height cfg.to_height (bench_started cfg)
unfolding bench_started
bench_started-IsCounted cfg l =
    let workers = count_or_default default_bench_download_workers cfg.workers in
    (
      0,
      0,
      record {
        wanted = refl;
        downloaded = refl;
        failures = refl;
        in_order = tt;
        summed =
            omega (arith, total-crew workers is_loading refl, total-crew workers is_broken refl);
        at_phase =
            subst
              (λ x. PhaseCounts cfg.from_height cfg.to_height x (
                if is_beyond cfg.from_height cfg.to_height
                then closed none
                else indexing cfg.from_height))
              (omega arith) (first_phase cfg.from_height cfg.to_height l);
        drained = λ n. absurd (omega (arith, n, total-crew workers is_finished refl));
      },
    )

module _ (E : Services) (ctx_error : E.State → Option Err) where
  -- Whatever the services answer and whatever the schedule, from a height that is a uint64: the
  -- jobs of the benchmark are those of consecutive heights from the first one on, each queued
  -- once; the counts of downloaded and failed blocks, modulo 2^64, the jobs in the channel and
  -- at workers, and the workers that left with a job as the context was done add up to the jobs
  -- that were queued; no height above the last one wanted is queued, and no worker finds the
  -- channel closed while a job is in it.
  pub bench_download-IsCounted :
      (cfg : BenchDownloadConfig) (ms : List BenchMove) (s : E.State)
      → cfg.from_height ≤ max_u64
      → Leaves (IsCounted cfg.from_height cfg.to_height) (bench_download E ctx_error cfg ms s)
  unfolding bench_download
  bench_download-IsCounted cfg ms s l =
      bench_run-keeps E ctx_error (IsCounted cfg.from_height cfg.to_height)
        (bench_move-IsCounted E ctx_error cfg.from_height cfg.to_height) ms (bench_started cfg) s
        (bench_started-IsCounted cfg l)
