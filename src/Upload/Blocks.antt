-- ===== src/Upload/Blocks.antt =====
-- `uploadBlock`, `getUploadBlockState` and `uploadBlocksFrom`.
pub mod Keeps
pub mod Heights
pub mod Stores
pub mod Calls
pub mod Complete
pub mod Pooled
pub mod Answered
pub mod Returns
use fractal_block_sync.Prelude.{
  ℕ, zero, suc, ◌+◌, ◌*◌, Bool, true, false, Option, none, some, List, [], ◌∷◌, Bytes, Text, codes,
  u64, leb, if◌then◌else◌, length,
}
use fractal_block_sync.Errors.{
  Err, Result, ok, err, external, never_returns, at_height, at_block, wrap,
}
use fractal_block_sync.Effects.{Effect, ◌>>=◌, ◌>>◌, pure, lift, wrapping}
use fractal_block_sync.Text.{trim_space}
use fractal_block_sync.Hex
use fractal_block_sync.Pool
use fractal_block_sync.Pool.{Pool, Progress, again, done, failed, Body}
use fractal_block_sync.Upload.Services.{Provider}
use fractal_block_sync.Upload.Windows.{heights_between}

-- A worker's upload of one height, by the call that it makes next.
pub data Job : Type 0 where
  looking : ℕ → Job
  checking : ℕ → Text → Job
  fetching : ℕ → Text → Job
  storing : ℕ → Text → Bytes → Job

module _ {State : Type 0} where
  -- What each call's result leads to, as in `uploadBlock`.
  unfoldable pub looked : ℕ → Result Text × State → Progress Job Bool × State
  looked h (ok hash, s) = (again (checking h hash), s)
  looked h (err e, s) = (failed (at_height (codes "get block hash") h e), s)

  unfoldable pub checked : ℕ → Text → Result Bool × State → Progress Job Bool × State
  checked h hash (ok true, s) = (done false, s)
  checked h hash (ok false, s) = (again (fetching h hash), s)
  checked h hash (err e, s) = (failed (at_block (codes "check block") hash h e), s)

  unfoldable pub decoded : ℕ → Text → Result Bytes → State → Progress Job Bool × State
  decoded h hash (ok raw) s = (again (storing h hash raw), s)
  decoded h hash (err e) s = (failed (at_block (codes "decode raw block") hash h e), s)

  unfoldable pub fetched : ℕ → Text → Result Text × State → Progress Job Bool × State
  unfolding decoded
  fetched h hash (ok raw_hex, s) = decoded h hash (Hex.decode (trim_space raw_hex)) s
  fetched h hash (err e, s) = (failed (at_block (codes "get raw block") hash h e), s)

  unfoldable pub stored : ℕ → Text → Result (Unit {0}) × State → Progress Job Bool × State
  stored h hash (ok _, s) = (done true, s)
  stored h hash (err e, s) = (failed (at_block (codes "upload block") hash h e), s)

-- `len` of the results that say that a block was uploaded: `uploaded.Add(1)`.
unfoldable pub uploads : List (ℕ × Bool) → ℕ
uploads [] = 0
uploads ((k, did) ∷ rs) = u64 ((if did then 1 else 0) + uploads rs)

module _ (E : Provider) where
  unfoldable pub get_upload_block_state : ℕ → Effect E.State (Text × Bool)
  get_upload_block_state h = do
    hash ← wrapping (at_height (codes "get block hash") h) (E.get_block_hash h)
    exists ← wrapping (at_block (codes "check block") hash h) (E.block_exists hash)
    pure (hash, exists)

  -- After the check of `uploadBlock`.
  unfoldable pub upload_missing : ℕ → Text → Effect E.State Bool
  upload_missing h hash = do
    raw_hex ← wrapping (at_block (codes "get raw block") hash h) (E.get_block_raw_hex hash)
    raw ← lift (wrap (at_block (codes "decode raw block") hash h) (Hex.decode (trim_space raw_hex)))
    wrapping (at_block (codes "upload block") hash h) (E.put_block hash raw)
    pure true

  unfoldable pub upload_block : ℕ → Effect E.State Bool
  unfolding get_upload_block_state upload_missing
  upload_block h = do
    (hash, exists) ← get_upload_block_state h
    if exists then pure false else upload_missing h hash

  -- The loop of a single worker. (On an error Go also returns the count so far; no caller reads it.)
  unfoldable pub upload_each : List ℕ → ℕ → Effect E.State ℕ
  upload_each [] uploaded = pure uploaded
  upload_each (h ∷ hs) uploaded = do
    did ← upload_block h
    upload_each hs (u64 ((if did then 1 else 0) + uploaded))

  unfoldable pub call : Job → E.State → Progress Job Bool × E.State
  unfolding looked checked fetched stored
  call (looking h) s = looked h (E.get_block_hash h s)
  call (checking h hash) s = checked h hash (E.block_exists hash s)
  call (fetching h hash) s = fetched h hash (E.get_block_raw_hex hash s)
  call (storing h hash raw) s = stored h hash (E.put_block hash raw s)

  unfoldable pub uploaders : Body E.State Job Bool
  uploaders = record {
    choose = E.choose;
    ctx_error = E.ctx_error;
    cancellable = true;
    start = looking;
    call = call;
  }

  -- What `uploadBlocksFrom` returns once its workers have.
  unfoldable pub pool_outcome : Pool Job Bool → E.State → Option Err → Result ℕ
  pool_outcome p t (some e) = err e
  pool_outcome p t none = if p.noticed then err (cause (E.ctx_error t)) else ok (uploads p.results)
    where
      cause : Option Err → Err
      cause none = external (codes "context canceled")
      cause (some e) = e

  -- `wg.Wait()` comes first: where a goroutine is left that cannot go on, nothing is returned.
  unfoldable pub pool_result : Pool Job Bool → E.State → Result ℕ
  unfolding pool_outcome
  pool_result p t = if Pool.has_returned p then pool_outcome p t p.error else err never_returns

  -- Each height takes one step to be sent and at most four calls.
  unfoldable pub upload_pooled : ℕ → List ℕ → Effect E.State ℕ
  unfolding uploaders pool_result
  upload_pooled workers hs s =
      let (p, t) = Pool.run uploaders (suc (length hs * 5)) (Pool.fresh_pool hs workers) s in
      (pool_result p t, t)

  unfoldable pub upload_blocks_from : ℕ → ℕ → ℕ → Effect E.State ℕ
  unfolding upload_each upload_pooled
  upload_blocks_from from_height tip workers =
      if leb workers 1
      then upload_each (heights_between from_height tip) 0
      else upload_pooled workers (heights_between from_height tip)
