-- ===== src/Upload/Blocks/Returns.antt =====
-- The goroutines of `uploadBlocksFrom` come to their end.
use fractal_block_sync.Prelude.{ℕ, suc, ◌*◌, ◌<◌, ◌≡◌, refl, arith, true, List, length, inr}
use fractal_block_sync.Pool
use fractal_block_sync.Pool.Returns.{run_returns}
use fractal_block_sync.Upload.Services.{Provider}
use fractal_block_sync.Upload.Blocks.{uploaders}
use fractal_block_sync.Upload.Blocks.Calls.{job_weight, falls}

-- Whatever the node and the store answer, errors included, whether or not the context gets done,
-- and whichever worker the scheduler lets go on: with at least one worker, the pool of
-- uploadBlocksFrom comes to its end within the fuel that it has, five steps for each height and
-- one more. The sender has then sent or given up all heights and no worker is at work, so that
-- neither the sender nor wg.Wait blocks.
pub upload_pool_returns :
    (E : Provider) (workers : ℕ) (hs : List ℕ) (s : E.State)
    → 0 < workers
    → Pool.has_returned
        (Pool.run (uploaders E) (suc (length hs * 5)) (Pool.fresh_pool hs workers) s).0
      ≡ true
unfolding uploaders job_weight
upload_pool_returns E workers hs s pos =
    run_returns (uploaders E) job_weight 5 (λ k. omega arith) (λ j i u. falls E j i u) hs workers
      (suc (length hs * 5)) s pos (omega arith) (inr refl)
