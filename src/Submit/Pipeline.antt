-- ===== src/Submit/Pipeline.antt =====
-- `submitPipeline` of sync.go: its fields, its channels, its workers and where its goroutines stand.
pub mod Workers
pub mod Window
pub mod Run
pub mod Resolved
pub mod Invariant
pub mod Sound
pub mod Verified
pub mod Ordered
pub mod Counted
pub mod Filled
pub mod Kept
pub mod Progress
pub mod Measure
use fractal_block_sync.Prelude.{
  ℕ, zero, suc, ◌+◌, Bool, true, false, ◌||◌, Option, none, some, List, [], ◌∷◌, Bytes, Text, ◌==◌,
  if◌then◌else◌,
}
use fractal_block_sync.Errors.{Err, Result}
use fractal_block_sync.BtcRpc.{BlockchainInfo}
use fractal_block_sync.Submit.Cache.{RangeIndexCache}

-- `submitDownloadJob`
pub record DownloadJob : Type 0 where
  pub height : ℕ
  pub hash : Text

-- `submitDownloadResult`
pub record Download : Type 0 where
  pub height : ℕ
  pub hash : Text
  pub raw : Bytes
  pub error : Option Err

-- A worker: at the channel of jobs, at a download, with a result to send, or returned.
pub data Worker : Type 0 where
  idle : Worker
  fetching : DownloadJob → Worker
  holding : Download → Worker
  gone : Worker

-- `SubmitPipelineResult`
pub record PipelineResult : Type 0 where
  pub submitted_blocks : ℕ
  pub last_height : ℕ
  pub target_height : ℕ
  pub wait_headers : Bool
  pub wait_r2_index : Bool

-- Where `run` stands: at the test of the loop of `fillWindow`, at the select there with a job to
-- send, at the head of its own loop, or returned with an error or without.
pub data Phase : Type 0 where
  filling : Phase
  sending : DownloadJob → Phase
  looping : Phase
  returned : Option Err → Phase

-- The reply to a SubmitBlock, and the one that GetBlockchainInfo gives in the state after it.
abbrev pub SubmitReply : Type 0
SubmitReply = Result Text × Result BlockchainInfo

-- The fields of the struct, then the goroutines. A map is a list; `sent` is the history of the calls of
-- SubmitBlock, the results whose blocks were given to the node, the last first, and `replies` that of the
-- node's replies to them. No step reads the two.
pub record Pipeline : Type 0 where
  pub bootstrap_from_r2 : Bool
  pub recent_walk_limit : ℕ
  pub headers : ℕ
  pub current_height : ℕ
  pub next_schedule : ℕ
  pub prefetch_window : ℕ
  pub index_cache : RangeIndexCache
  pub jobs : List DownloadJob
  pub results : List Download
  pub ready : List Download
  pub pending : List ℕ
  pub stopped_scheduling : Bool
  pub wait_headers : Bool
  pub wait_r2_index : Bool
  pub workers : List Worker
  pub result : PipelineResult
  pub phase : Phase
  pub sent : List Download
  pub replies : List SubmitReply

-- `p.ready[height]`
unfoldable pub lookup : ℕ → List Download → Option Download
lookup height [] = none
lookup height (d ∷ ds) = if d.height == height then some d else lookup height ds

-- `delete(p.ready, height)`
unfoldable pub without : ℕ → List Download → List Download
without height [] = []
without height (d ∷ ds) =
    let rest = without height ds in if d.height == height then rest else d ∷ rest

-- `p.ready[d.height] = d`
unfoldable pub put : Download → List Download → List Download
unfolding without
put d ds = d ∷ without d.height ds

-- `_, ok := p.pending[height]`
unfoldable pub is_pending : ℕ → List ℕ → Bool
is_pending height [] = false
is_pending height (h ∷ hs) = h == height || is_pending height hs

-- `delete(p.pending, height)`
unfoldable pub forget : ℕ → List ℕ → List ℕ
forget height [] = []
forget height (h ∷ hs) = let rest = forget height hs in if h == height then rest else h ∷ rest

-- `p.pending[height] = struct{}{}`
unfoldable pub await : ℕ → List ℕ → List ℕ
unfolding forget
await height hs = height ∷ forget height hs
