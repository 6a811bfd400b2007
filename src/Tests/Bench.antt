-- ===== src/Tests/Bench.antt =====
-- The benchmark at concrete inputs: one height, one worker.
use fractal_block_sync.Prelude.{ℕ, arith, none, some, List, [], ◌∷◌, length, Text, zero, suc}
use fractal_block_sync.Errors.{ok}
use fractal_block_sync.RangeIndex
use fractal_block_sync.Hex
use fractal_block_sync.Submit.Services.{Services}
use fractal_block_sync.Tests.Index.{zero_block}
use fractal_block_sync.Tests.Submission.{zero_world}
use fractal_block_sync.Bench.{BenchDownloadConfig, BenchJob, BenchStats, finished, closed, Bench}
use fractal_block_sync.Bench.Run.{BenchMove, enqueue_more, take_next, load, leave, bench_download}
use fractal_block_sync.Bench.Invariant.{Leaves}
use fractal_block_sync.Bench.Counted.{IsCounted}
use fractal_block_sync.Bench.Counted.Total.{bench_download-IsCounted}

abbrev hex_of_zeros : ℕ → Text
hex_of_zeros zero = []
hex_of_zeros (suc n) = 48 ∷ 48 ∷ hex_of_zeros n

abbrev zeros : ℕ → List ℕ
zeros zero = []
zeros (suc n) = 0 ∷ zeros n

-- Each range has one height, whose hash is zero.
abbrev one_block : Services
one_block = record zero_world { download_object = λ key s. (ok (zeros 32), s) }

abbrev one_height : BenchDownloadConfig
one_height = record { from_height = 0; to_height = some 0; range_size = 1; workers = 1 }

abbrev schedule : List BenchMove
schedule =
    enqueue_more ∷ enqueue_more ∷ enqueue_more ∷ take_next 0 ∷ load 0 ∷ enqueue_more ∷ leave 0 ∷ []

-- The job, and where the benchmark then stands.
abbrev job : BenchJob
job = record { height = 0; hash = hex_of_zeros 32 }

abbrev stats : BenchStats
stats = record {
  from_height = 0;
  last_height = 0;
  downloaded_blocks = 1;
  failed_blocks = 0;
  downloaded_bytes = length zero_block;
}

abbrev at_end : Bench
at_end = record {
  to_height = some 0;
  range_size = 1;
  capacity = 4;
  jobs = [];
  workers = finished ∷ [];
  stats = stats;
  phase = closed none;
  queued = job ∷ [];
}

bench_download-IsCounted_example :
    Leaves (IsCounted 0 (some 0)) (bench_download one_block (λ s. none) one_height schedule [])
bench_download-IsCounted_example =
    bench_download-IsCounted one_block (λ s. none) one_height schedule [] (omega arith)
