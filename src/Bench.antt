-- ===== src/Bench.antt =====
-- bench.go, `BenchDownload`: blocks downloaded by workers from a channel that the range indexes fill.
-- Reports to a logger and elapsed times are left out.
pub mod Enqueue
pub mod Run
pub mod Invariant
pub mod Counted
pub mod Whole
pub mod Complete
use fractal_block_sync.Prelude.{
  ℕ, zero, suc, ◌+◌, Option, none, some, List, [], ◌∷◌, Bytes, Text, u64, ltb, ◌==◌, if◌then◌else◌,
}
use fractal_block_sync.Errors.{Err}

pub record BenchDownloadConfig : Type 0 where
  pub from_height : ℕ
  pub to_height : Option ℕ
  pub range_size : ℕ
  pub workers : ℕ

-- `benchDownloadJob`
pub record BenchJob : Type 0 where
  pub height : ℕ
  pub hash : Text

-- `benchDownloadStats`, which `BenchDownloadResult` is made of.
pub record BenchStats : Type 0 where
  pub from_height : ℕ
  pub last_height : ℕ
  pub downloaded_blocks : ℕ
  pub failed_blocks : ℕ
  pub downloaded_bytes : ℕ

unfoldable pub record_success : ℕ → ℕ → BenchStats → BenchStats
record_success height bytes s = record s {
  last_height = if ltb s.last_height height then height else s.last_height;
  downloaded_blocks = u64 (s.downloaded_blocks + 1);
  downloaded_bytes = u64 (s.downloaded_bytes + bytes);
}

unfoldable pub record_failure : ℕ → BenchStats → BenchStats
record_failure height s = record s {
  last_height = if ltb s.last_height height then height else s.last_height;
  failed_blocks = u64 (s.failed_blocks + 1);
}

-- A worker: at the channel, at a download, returned from a failed download as its context is done, or
-- returned from the closed and empty channel.
pub data BenchWorker : Type 0 where
  waiting : BenchWorker
  loading : BenchJob → BenchWorker
  broken : BenchWorker
  finished : BenchWorker

-- A range index in use: its key and bytes, its first height, its last one and the last one wanted.
pub record OpenRange : Type 0 where
  pub key : Text
  pub bin : Bytes
  pub start : ℕ
  pub range_end : ℕ
  pub last : ℕ

-- Where `enqueueBenchDownloadJobs` stands: before the index of a height, in a range at a height, at the
-- select with a job, or returned; the channel is closed then.
pub data BenchPhase : Type 0 where
  indexing : ℕ → BenchPhase
  queuing : OpenRange → ℕ → BenchPhase
  offering : OpenRange → BenchJob → BenchPhase
  closed : Option Err → BenchPhase

-- `queued` is the history of the channel, the last job first.
pub record Bench : Type 0 where
  pub to_height : Option ℕ
  pub range_size : ℕ
  pub capacity : ℕ
  pub jobs : List BenchJob
  pub workers : List BenchWorker
  pub stats : BenchStats
  pub phase : BenchPhase
  pub queued : List BenchJob
