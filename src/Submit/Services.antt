-- ===== src/Submit/Services.antt =====
-- The interfaces `BlockSubmitter` and `ObjectDownloader`, and the configuration.
use fractal_block_sync.Prelude.{ℕ, Bool, Bytes, Text, List}
use fractal_block_sync.BtcRpc.{BlockchainInfo, ChainTip, BlockHeader}
use fractal_block_sync.Effects.{Effect}

-- The node and the object store answer from a state of the world that they may change.
pub record Services : Type 1 where
  pub State : Type 0
  pub get_blockchain_info : Effect State BlockchainInfo
  pub get_chain_tips : Effect State (List ChainTip)
  pub get_block_header : Text → Effect State BlockHeader
  pub submit_block : Text → Effect State Text
  pub download_object : Text → Effect State Bytes
  pub download_block : Text → Effect State Bytes

pub record SubmitConfig : Type 0 where
  pub range_size : ℕ
  pub recent_walk_limit : ℕ
  pub bootstrap_from_r2 : Bool
  pub download_workers : ℕ
  pub prefetch_window : ℕ

pub record SubmitResult : Type 0 where
  pub target_height : ℕ
  pub hash : Text
  pub submitted : Bool
  pub wait_headers : Bool
  pub wait_r2_index : Bool
  pub rpc_result : Text
