-- ===== src/Tests/Pipeline.antt =====
-- The pipeline at concrete inputs: one block, fetched and submitted under a fixed schedule.
use fractal_block_sync.Prelude.{
  ℕ, false, ◌≡◌, refl, Option, none, some, List, [], ◌∷◌, Text, text_eq, codes,
}
use fractal_block_sync.Errors.{Err, external, ok, err, not_found, is_not_found}
use fractal_block_sync.Text.{trim_space}
use fractal_block_sync.Hex
use fractal_block_sync.Sha256
use fractal_block_sync.RangeIndex
use fractal_block_sync.BlockHash.{from_raw_block}
use fractal_block_sync.Tests.Index.{zero_block, zero_hash}
use fractal_block_sync.Tests.Submission.{zero_world, zero_header, zero_tip, config}
use fractal_block_sync.Submit.Services.{SubmitConfig}
use fractal_block_sync.Submit.Tips.{best_chain_tip}
use fractal_block_sync.Submit.Walk.{resolve_recent_hash, walk, inspect}
use fractal_block_sync.Submit.Cache.{new_cache, hash_at}
use fractal_block_sync.Submit.Cache.Transparent.{new_cache-IsValid}
use fractal_block_sync.Submit.Next.{is_accepted}
use fractal_block_sync.Submit.Next.Verified.{ReadsKeep}
use fractal_block_sync.Submit.Pipeline.{Pipeline, lookup, is_pending, put}
use fractal_block_sync.Submit.Pipeline.Window.{resolve_hash, send_job, fill}
use fractal_block_sync.Submit.Pipeline.Run.{
  PipelineMove, proceed, receive, take, download, send, quit_worker, started, pipeline_after,
}
use fractal_block_sync.Submit.Pipeline.Invariant.{OnSome}
use fractal_block_sync.Submit.Pipeline.Resolved.{IsSteady, fresh_resolution, resolve_hash-fresh}
use fractal_block_sync.Submit.Pipeline.Verified.{OnlyResolved, pipeline_verified}
use fractal_block_sync.Submit.Pipeline.Ordered.Steps.{Tallied, pipeline-Tallied}
use fractal_block_sync.Submit.Pipeline.Filled.Safe.{IsBounded, pipeline-IsBounded}
use fractal_block_sync.Submit.Pipeline.Progress.{GoesOn, pipeline-GoesOn}
use fractal_block_sync.Submit.Pipeline.Progress.Manned.{IsDone}
use fractal_block_sync.Submit.Pipeline.Measure.Ends.{Ends, pipeline-Ends}

abbrev State : Type 0
State = List Text

-- A context that is done once three blocks were submitted.
abbrev ctx_error : State → Option Err
ctx_error (a ∷ b ∷ c ∷ s) = some (external (codes "context canceled"))
ctx_error s = none

-- A window of one block and one worker.
abbrev narrow : SubmitConfig
narrow = record config { download_workers = 1; prefetch_window = 1 }

abbrev schedule : List PipelineMove
schedule =
    proceed
    ∷ proceed
    ∷ proceed
    ∷ take 0
    ∷ download 0
    ∷ send 0
    ∷ receive
    ∷ proceed
    ∷ proceed
    ∷ proceed
    ∷ quit_worker 0
    ∷ []

-- What was submitted, and how `run` ended.
abbrev summary : Option (Pipeline × State) → Option (ℕ × ℕ × List Text)
summary none = none
summary (some (p, s)) = some (p.result.submitted_blocks, p.result.target_height, s)

one_submitted :
    summary (pipeline_after zero_world ctx_error narrow schedule [])
    ≡ some (1, 6, Hex.encode zero_block ∷ [])
unfolding pipeline_after resolve_hash hash_at resolve_recent_hash best_chain_tip text_eq trim_space
    walk inspect zero_hash from_raw_block is_not_found is_accepted RangeIndex.object_key_for_height
    Sha256.sum256 fill send_job lookup is_pending put RangeIndex.key_text
one_submitted = refl

steady : IsSteady zero_world
steady = record {
  object = λ key. err not_found;
  header = λ h. ok zero_header;
  tips = ok (zero_tip ∷ []);
  stores = λ key s. refl;
  headers = λ h s. refl;
  tip_reply = λ s. refl;
}

reads_keep : ReadsKeep zero_world (IsDone zero_world ctx_error)
reads_keep = record {
  info = λ s d. d;
  tips = λ s d. d;
  header = λ h s d. d;
  object = λ key s d. d;
  block = λ h s d. d;
}

submit_keeps :
    (raw : Text) (s : State)
    → IsDone zero_world ctx_error s
    → IsDone zero_world ctx_error (zero_world.submit_block raw s).1
submit_keeps raw [] d = cc
submit_keeps raw (a ∷ []) d = cc
submit_keeps raw (a ∷ b ∷ []) d = (external (codes "context canceled"), refl)
submit_keeps raw (a ∷ b ∷ c ∷ s) d = (external (codes "context canceled"), refl)

pipeline_verified_example :
    OnSome
      (OnlyResolved zero_world ctx_error steady narrow)
      (pipeline_after zero_world ctx_error narrow schedule [])
pipeline_verified_example = pipeline_verified zero_world ctx_error steady narrow schedule []

pipeline-Tallied_example :
    OnSome
      (Tallied zero_world ctx_error narrow [])
      (pipeline_after zero_world ctx_error narrow schedule [])
pipeline-Tallied_example = pipeline-Tallied zero_world ctx_error narrow schedule []

pipeline-IsBounded_example :
    OnSome
      (IsBounded zero_world ctx_error narrow)
      (pipeline_after zero_world ctx_error narrow schedule [])
pipeline-IsBounded_example = pipeline-IsBounded zero_world ctx_error narrow schedule []

pipeline-GoesOn_example :
    OnSome
      (GoesOn zero_world ctx_error narrow reads_keep submit_keeps)
      (pipeline_after zero_world ctx_error narrow schedule [])
pipeline-GoesOn_example =
    pipeline-GoesOn zero_world ctx_error narrow reads_keep submit_keeps schedule []

pipeline-Ends_example :
    OnSome
      (Ends zero_world ctx_error reads_keep submit_keeps narrow 11)
      (pipeline_after zero_world ctx_error narrow schedule [])
pipeline-Ends_example =
    pipeline-Ends zero_world ctx_error reads_keep submit_keeps narrow schedule []

abbrev first : Pipeline
first = started zero_world ctx_error narrow (record { blocks = 4; headers = 5 })

resolve_hash-fresh_example :
    (resolve_hash zero_world first 5 []).0
    ≡ fresh_resolution zero_world false 2500 5 first.index_cache.range_size 5 []
unfolding steady new_cache
resolve_hash-fresh_example =
    resolve_hash-fresh zero_world steady first 5 [] [] (new_cache-IsValid (λ _. err not_found) _)
