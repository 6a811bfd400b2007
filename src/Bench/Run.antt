-- ===== src/Bench/Run.antt =====
-- `BenchDownload`: the enqueuer and the workers under any schedule.
use fractal_block_sync.Prelude.{
  ℕ, zero, suc, ◌*◌, Bool, true, false, not, ◌&&◌, Option, none, some, List, [], ◌∷◌, Bytes, ltb,
  length, get_elem?, if◌then◌else◌,
}
use fractal_block_sync.Errors.{Err, Result, ok, err, failed_blocks_left}
use fractal_block_sync.Submit.Services.{Services}
use fractal_block_sync.Submit.Next.{range_size_or_default}
use fractal_block_sync.Submit.Pipeline.Workers.{replace}
use fractal_block_sync.Submit.Pipeline.Run.{count_or_default}
use fractal_block_sync.Bench.{
  BenchDownloadConfig, BenchJob, BenchStats, record_success, record_failure, BenchWorker, waiting,
  loading, broken, finished, BenchPhase, indexing, offering, closed, Bench,
}
use fractal_block_sync.Bench.Enqueue.{is_beyond, enqueue}

abbrev pub default_bench_download_workers : ℕ
default_bench_download_workers = 32

unfoldable pub bench_crew : ℕ → List BenchWorker
bench_crew zero = []
bench_crew (suc n) = waiting ∷ bench_crew n

-- The enqueuer goes on or sees its context done; the worker of an index takes a job, downloads its
-- block, or returns from the closed channel.
pub data BenchMove : Type 0 where
  enqueue_more : BenchMove
  enqueue_done : BenchMove
  take_next : ℕ → BenchMove
  load : ℕ → BenchMove
  leave : ℕ → BenchMove

unfoldable pub enqueue_cancelled :
    {S : Type 0} → BenchPhase → Option Err → Bench → S → Option (Bench × S)
enqueue_cancelled (offering r job) (some e) b s = some (record b { phase = closed (some e) }, s)
enqueue_cancelled phase e b s = none

unfoldable pub take_from :
    {S : Type 0} → ℕ → Option BenchWorker → List BenchJob → Bench → S → Option (Bench × S)
take_from i (some waiting) (job ∷ jobs) b s =
    some (record b { jobs = jobs; workers = replace i (loading job) b.workers }, s)
take_from i w jobs b s = none

-- After a download: a failed one counts unless the context is done.
unfoldable pub loaded_bench : ℕ → BenchJob → Result Bytes → Option Err → Bench → Bench
unfolding record_success record_failure
loaded_bench i job (ok raw) e b = record b {
  stats = record_success job.height (length raw) b.stats;
  workers = replace i waiting b.workers;
}
loaded_bench i job (err x) none b = record b {
  stats = record_failure job.height b.stats;
  workers = replace i waiting b.workers;
}
loaded_bench i job (err x) (some e) b = record b { workers = replace i broken b.workers }

unfoldable pub leave_closed :
    {S : Type 0}
    → ℕ
    → Option BenchWorker
    → BenchPhase
    → List BenchJob
    → Bench
    → S
    → Option (Bench × S)
leave_closed i (some waiting) (closed e) [] b s =
    some (record b { workers = replace i finished b.workers }, s)
leave_closed i w phase jobs b s = none

abbrev pub after_bench :
    {S : Type 0} → Option (Bench × S) → (Bench → S → Option (Bench × S)) → Option (Bench × S)
after_bench none f = none
after_bench (some (b, s)) f = f b s

-- The error of `BenchDownload` once all have returned.
unfoldable pub bench_error : Option Err → BenchStats → Option Err
bench_error (some e) s = some e
bench_error none s =
    if ltb 0 s.failed_blocks then some (failed_blocks_left s.failed_blocks) else none

unfoldable pub bench_started : BenchDownloadConfig → Bench
unfolding is_beyond count_or_default bench_crew range_size_or_default
bench_started cfg =
    let workers = count_or_default default_bench_download_workers cfg.workers in
    record {
      to_height = cfg.to_height;
      range_size = range_size_or_default cfg.range_size;
      capacity = workers * 4;
      jobs = [];
      workers = bench_crew workers;
      stats = record {
        from_height = cfg.from_height;
        last_height = cfg.from_height;
        downloaded_blocks = 0;
        failed_blocks = 0;
        downloaded_bytes = 0;
      };
      phase =
          if is_beyond cfg.from_height cfg.to_height then closed none else indexing cfg.from_height;
      queued = [];
    }

abbrev pub is_at_work : BenchWorker → Bool
is_at_work waiting = true
is_at_work (loading job) = true
is_at_work broken = false
is_at_work finished = false

abbrev pub have_returned : List BenchWorker → Bool
have_returned [] = true
have_returned (w ∷ ws) = not (is_at_work w) && have_returned ws

-- What `BenchDownload` returns once the enqueuer and the workers have returned.
unfoldable pub bench_end : BenchPhase → Bench → Option (BenchStats × Option Err)
unfolding bench_error
bench_end (closed e) b =
    if have_returned b.workers then some (b.stats, bench_error e b.stats) else none
bench_end phase b = none

module _ (E : Services) (ctx_error : E.State → Option Err) where
  unfoldable pub load_block : ℕ → Option BenchWorker → Bench → E.State → Option (Bench × E.State)
  unfolding loaded_bench
  load_block i (some (loading job)) b s =
      let (r, t) = E.download_block job.hash s in some (loaded_bench i job r (ctx_error t) b, t)
  load_block i w b s = none

  unfoldable pub bench_move : BenchMove → Bench → E.State → Option (Bench × E.State)
  unfolding enqueue enqueue_cancelled take_from load_block leave_closed
  bench_move enqueue_more b s = enqueue E b.phase b s
  bench_move enqueue_done b s = enqueue_cancelled b.phase (ctx_error s) b s
  bench_move (take_next i) b s = take_from i (get_elem? b.workers i) b.jobs b s
  bench_move (load i) b s = load_block i (get_elem? b.workers i) b s
  bench_move (leave i) b s = leave_closed i (get_elem? b.workers i) b.phase b.jobs b s

  unfoldable pub bench_run : List BenchMove → Bench → E.State → Option (Bench × E.State)
  unfolding bench_move
  bench_run [] b s = some (b, s)
  bench_run (m ∷ ms) b s = after_bench (bench_move m b s) (bench_run ms)

  -- `BenchDownload` under a schedule.
  unfoldable pub bench_download :
      BenchDownloadConfig → List BenchMove → E.State → Option (Bench × E.State)
  unfolding bench_run bench_started
  bench_download cfg ms s = bench_run ms (bench_started cfg) s
