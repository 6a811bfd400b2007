-- ===== src/Bench/Complete.antt =====
-- What an end of `BenchDownload` without an error says.
use fractal_block_sync.Prelude.{◌≡◌, Bool, true, Option, none, some, if◌then◌else◌}
use fractal_block_sync.Submit.Services.{Services}
use fractal_block_sync.Bench.{BenchStats, closed, Bench}
use fractal_block_sync.Bench.Run.{have_returned}
use fractal_block_sync.Bench.Counted.{Counted}

abbrev when : {A : Type 0} → Bool → A → Option A
when c a = if c then some a else none

-- An end without an error.
record IsGoodEnd (b : Bench) (stats : BenchStats) : Type 0 where
  ends : b.phase ≡ closed none
  returned : have_returned b.workers ≡ true
  counted : b.stats ≡ stats
  no_failure : b.stats.failed_blocks ≡ 0
