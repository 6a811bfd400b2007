-- ===== src/Submit/Next.antt =====
-- `SubmitNext`: one attempt to resolve, download, verify and submit the next missing block.
pub mod Outcomes
pub mod Verified
use fractal_block_sync.Prelude.{
  ℕ, ◌+◌, ◌*◌, Bool, true, false, not, ◌||◌, ◌&&◌, Option, none, some, Bytes, Text, [], codes, u64,
  ltb, ◌==◌, if◌then◌else◌, text_eq,
}
use fractal_block_sync.Errors.{
  Err, Result, ok, err, is_not_found, at_text, wrapped, hash_mismatch, rejected,
}
use fractal_block_sync.Text.{trim_space, to_lower, contains}
use fractal_block_sync.Hex
use fractal_block_sync.RangeIndex.{default_range_size}
use fractal_block_sync.BlockHash.{from_raw_block}
use fractal_block_sync.BtcRpc.{BlockchainInfo}
use fractal_block_sync.Submit.Services.{Services, SubmitConfig, SubmitResult}
use fractal_block_sync.Submit.Resolve.{resolve_target_hash, resolve_target_hash_from_range_index}

unfoldable pub is_already_known_submit_result : Text → Bool
is_already_known_submit_result result =
    let text = to_lower (trim_space result) in
    contains text (codes "duplicate")
    || contains text (codes "already")
    || contains text (codes "known")

-- `rpcResult == "" || isAlreadyKnownSubmitResult(rpcResult)`
unfoldable pub is_accepted : Text → Bool
is_accepted result = text_eq result [] || is_already_known_submit_result result

-- A range size that is not configured stands for the default.
unfoldable pub range_size_or_default : ℕ → ℕ
range_size_or_default n = if n == 0 then default_range_size else n

-- A Go call that returns a result beside its error, and the state of the world after it.
pub record Outcome (S : Type 0) : Type 0 where
  pub result : SubmitResult
  pub error : Option Err
  pub state : S

-- `SubmitResult{TargetHeight: target}`
abbrev pub fresh : ℕ → SubmitResult
fresh target = record {
  target_height = target;
  hash = [];
  submitted = false;
  wait_headers = false;
  wait_r2_index = false;
  rpc_result = [];
}

abbrev pub returns : {S : Type 0} → SubmitResult → Option Err → S → Outcome S
returns r e s = record { result = r; error = e; state = s }

module _ (E : Services) where
  -- After the node's answer.
  unfoldable pub finish : SubmitResult → Result Text × E.State → Outcome E.State
  finish r (err e, s) = returns r (some (at_text (codes "submit block") r.hash e)) s
  finish r (ok reply, s) =
      if is_accepted reply
      then returns (record r { rpc_result = reply; submitted = true }) none s
      else returns (record r { rpc_result = reply; submitted = false })
          (some (rejected r.hash reply)) s

  -- After the download: the hash of what came is checked before it is submitted.
  unfoldable pub verify : SubmitResult → Bytes → Result Text → E.State → Outcome E.State
  unfolding finish
  verify r raw (err e) s = returns r (some (wrapped (codes "calculate block hash") e)) s
  verify r raw (ok got) s =
      if not (text_eq got r.hash)
      then returns r (some (hash_mismatch got r.hash)) s
      else finish r (E.submit_block (Hex.encode raw) s)

  unfoldable pub received : SubmitResult → Result Bytes × E.State → Outcome E.State
  unfolding verify
  received r (err e, s) = returns r (some (at_text (codes "download block") r.hash e)) s
  received r (ok raw, s) = verify r raw (from_raw_block raw) s

  -- After the resolution of the hash.
  unfoldable pub resolved : Bool → ℕ → Result Text × E.State → Outcome E.State
  unfolding received
  resolved waits target (err e, s) =
      if waits && is_not_found e
      then returns (record (fresh target) { wait_headers = true; wait_r2_index = true }) none s
      else returns (fresh target) (some e) s
  resolved waits target (ok hash, s) =
      received (record (fresh target) { hash = hash }) (E.download_block hash s)

  unfoldable pub with_info : SubmitConfig → Result BlockchainInfo × E.State → Outcome E.State
  unfolding resolved range_size_or_default
  with_info cfg (err e, s) = returns (fresh 0) (some (wrapped (codes "get blockchain info") e)) s
  with_info cfg (ok info, s) =
      let target = u64 (info.blocks + 1) in
      let range_size = range_size_or_default cfg.range_size in
      if ltb info.headers target
      then if not cfg.bootstrap_from_r2
        then returns (record (fresh target) { wait_headers = true }) none s
        else resolved true target (resolve_target_hash_from_range_index E target range_size s)
      else resolved false target (resolve_target_hash E target range_size cfg.recent_walk_limit s)

  unfoldable pub submit_next : SubmitConfig → E.State → Outcome E.State
  unfolding with_info
  submit_next cfg s = with_info cfg (E.get_blockchain_info s)
