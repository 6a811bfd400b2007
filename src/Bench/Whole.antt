-- ===== src/Bench/Whole.antt =====
-- Where the context is never done, no worker leaves a job behind.
use fractal_block_sync.Prelude.{
  ℕ, zero, suc, ◌<◌, ◌≡◌, refl, arith, Option, none, some, List, [], ◌∷◌, Bytes, Text, max_u64, ltb,
  ◌==◌, length, get_elem?, if_both,
}
use fractal_block_sync.Errors.{Err, Result, ok, err}
use fractal_block_sync.RangeIndex
use fractal_block_sync.Submit.Services.{Services}
use fractal_block_sync.Submit.Pipeline.Workers.{replace}
use fractal_block_sync.Submit.Pipeline.Counted.{total, total-replace}
use fractal_block_sync.Bench.{
  BenchJob, BenchWorker, waiting, loading, broken, finished, BenchPhase, indexing, queuing,
  offering, closed, Bench,
}
use fractal_block_sync.Bench.Enqueue.{offered, open_index, enqueue}
use fractal_block_sync.Bench.Run.{
  BenchMove, enqueue_more, enqueue_done, take_next, load, leave, enqueue_cancelled, take_from,
  loaded_bench, leave_closed, load_block, bench_move,
}
use fractal_block_sync.Bench.Invariant.{Leaves}
use fractal_block_sync.Bench.Counted.{is_broken}
use fractal_block_sync.Bench.Invariant.{bench_run-keeps}
use fractal_block_sync.Bench.{BenchDownloadConfig}
use fractal_block_sync.Submit.Pipeline.Counted.{length-replace}
use fractal_block_sync.Submit.Pipeline.Run.{count_or_default}
use fractal_block_sync.Bench.Run.{
  bench_started, bench_crew, bench_download, default_bench_download_workers,
}

abbrev pub IsWhole : Bench → Type 0
IsWhole b = (0 < length b.workers) × (total is_broken b.workers ≡ 0)

replace-IsWhole :
    (i : ℕ) (v w : BenchWorker) (b : Bench)
    → get_elem? b.workers i ≡ some w
    → is_broken v ≡ 0
    → IsWhole b
    → (0 < length (replace i v b.workers)) × (total is_broken (replace i v b.workers) ≡ 0)
replace-IsWhole i v w b e n (l, t) = (
  omega (arith, l, length-replace i b.workers v),
  omega (arith, t, n, total-replace is_broken i b.workers v w e),
)

module _ (E : Services) (ctx_error : E.State → Option Err)
    (calm : (s : E.State) → ctx_error s ≡ none) where
  enqueue-IsWhole :
      (phase : BenchPhase) (b : Bench) (s : E.State)
      → IsWhole b
      → Leaves IsWhole (enqueue E phase b s)
  unfolding enqueue open_index offered
  enqueue-IsWhole (indexing h) b s v = opening (RangeIndex.object_key_for_height h b.range_size)
    where
      opening : (a : Result (Text × ℕ)) → IsWhole (open_index E b h a s).0
      opening (err e) = v
      opening (ok (key, start)) = v
  enqueue-IsWhole (queuing r h) b s v = v
  enqueue-IsWhole (offering r job) b s v =
      if_both (Leaves IsWhole) (ltb (length b.jobs) b.capacity) offer tt
    where
      offer : IsWhole (offered b r job)
      offer = if_both IsWhole (job.height == max_u64) v v
  enqueue-IsWhole (closed e) b s v = tt

  take_from-IsWhole :
      (i : ℕ) (w : Option BenchWorker) (jobs : List BenchJob) (b : Bench) (s : E.State)
      → get_elem? b.workers i ≡ w
      → IsWhole b
      → Leaves IsWhole (take_from i w jobs b s)
  unfolding take_from
  take_from-IsWhole i (some waiting) (job ∷ jobs) b s e v =
      replace-IsWhole i (loading job) waiting b e refl v
  take_from-IsWhole i (some waiting) [] b s e v = tt
  take_from-IsWhole i (some (loading j)) jobs b s e v = tt
  take_from-IsWhole i (some broken) jobs b s e v = tt
  take_from-IsWhole i (some finished) jobs b s e v = tt
  take_from-IsWhole i none jobs b s e v = tt

  loaded_bench-IsWhole :
      (i : ℕ) (job : BenchJob) (r : Result Bytes) (b : Bench)
      → get_elem? b.workers i ≡ some (loading job)
      → IsWhole b
      → IsWhole (loaded_bench i job r none b)
  unfolding loaded_bench
  loaded_bench-IsWhole i job (ok raw) b e v = replace-IsWhole i waiting (loading job) b e refl v
  loaded_bench-IsWhole i job (err x) b e v = replace-IsWhole i waiting (loading job) b e refl v

  load_block-IsWhole :
      (i : ℕ) (w : Option BenchWorker) (b : Bench) (s : E.State)
      → get_elem? b.workers i ≡ w
      → IsWhole b
      → Leaves IsWhole (load_block E ctx_error i w b s)
  unfolding load_block
  load_block-IsWhole i (some (loading job)) b s e v =
      let (r, t) = E.download_block job.hash s in rw (calm t) (loaded_bench-IsWhole i job r b e v)
  load_block-IsWhole i (some waiting) b s e v = tt
  load_block-IsWhole i (some broken) b s e v = tt
  load_block-IsWhole i (some finished) b s e v = tt
  load_block-IsWhole i none b s e v = tt

  leave_closed-IsWhole :
      (i : ℕ) (w : Option BenchWorker) (phase : BenchPhase) (jobs : List BenchJob) (b : Bench)
      (s : E.State)
      → get_elem? b.workers i ≡ w
      → IsWhole b
      → Leaves IsWhole (leave_closed i w phase jobs b s)
  unfolding leave_closed
  leave_closed-IsWhole i (some waiting) (closed e) [] b s g v =
      replace-IsWhole i finished waiting b g refl v
  leave_closed-IsWhole i (some waiting) (closed e) (j ∷ jobs) b s g v = tt
  leave_closed-IsWhole i (some waiting) (indexing h) jobs b s g v = tt
  leave_closed-IsWhole i (some waiting) (queuing r h) jobs b s g v = tt
  leave_closed-IsWhole i (some waiting) (offering r h) jobs b s g v = tt
  leave_closed-IsWhole i (some (loading j)) phase jobs b s g v = tt
  leave_closed-IsWhole i (some broken) phase jobs b s g v = tt
  leave_closed-IsWhole i (some finished) phase jobs b s g v = tt
  leave_closed-IsWhole i none phase jobs b s g v = tt

  enqueue_cancelled-IsWhole :
      (phase : BenchPhase) (b : Bench) (s : E.State)
      → Leaves IsWhole (enqueue_cancelled phase none b s)
  unfolding enqueue_cancelled
  enqueue_cancelled-IsWhole (offering r job) b s = tt
  enqueue_cancelled-IsWhole (indexing h) b s = tt
  enqueue_cancelled-IsWhole (queuing r h) b s = tt
  enqueue_cancelled-IsWhole (closed x) b s = tt

  bench_move-IsWhole :
      (m : BenchMove) (b : Bench) (s : E.State)
      → IsWhole b
      → Leaves IsWhole (bench_move E ctx_error m b s)
  unfolding bench_move
  bench_move-IsWhole enqueue_more b s v = enqueue-IsWhole b.phase b s v
  bench_move-IsWhole enqueue_done b s v = rw (calm s) (enqueue_cancelled-IsWhole b.phase b s)
  bench_move-IsWhole (take_next i) b s v =
      take_from-IsWhole i (get_elem? b.workers i) b.jobs b s refl v
  bench_move-IsWhole (load i) b s v = load_block-IsWhole i (get_elem? b.workers i) b s refl v
  bench_move-IsWhole (leave i) b s v =
      leave_closed-IsWhole i (get_elem? b.workers i) b.phase b.jobs b s refl v

  crew_whole : (n : ℕ) → (length (bench_crew n) ≡ n) × (total is_broken (bench_crew n) ≡ 0)
  unfolding bench_crew
  crew_whole zero = (refl, refl)
  crew_whole (suc n) = (omega (arith, (crew_whole n).0), omega (arith, (crew_whole n).1))

  default_pos : (n : ℕ) → 0 < count_or_default default_bench_download_workers n
  unfolding count_or_default
  default_pos n = ground arith

  pub bench_download-IsWhole :
      (cfg : BenchDownloadConfig) (ms : List BenchMove) (s : E.State)
      → Leaves IsWhole (bench_download E ctx_error cfg ms s)
  unfolding bench_download bench_started
  bench_download-IsWhole cfg ms s =
      let workers = count_or_default default_bench_download_workers cfg.workers in
      bench_run-keeps E ctx_error IsWhole bench_move-IsWhole ms (bench_started cfg) s
        (omega (arith, default_pos cfg.workers, (crew_whole workers).0), (crew_whole workers).1)
