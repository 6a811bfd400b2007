-- ===== src/Submit/Pipeline/Verified.antt =====
-- The pipeline gives the node no block but one whose hash is that of its height.
use fractal_block_sync.Prelude.{
  ℕ, zero, suc, ltb, inl, inr, Bool-cases, arith, ◌≡◌, refl, sym, subst, ap, ◌∙◌, Bool, Option,
  none, some, List, Text, All,
}
use fractal_block_sync.Errors.{Err, Result, ok, err}
use fractal_block_sync.BtcRpc.{BlockchainInfo}
use fractal_block_sync.Submit.Services.{Services, SubmitConfig}
use fractal_block_sync.Submit.Next.{range_size_or_default}
use fractal_block_sync.Submit.Cache.{RangeIndexCache, new_cache, hash_at}
use fractal_block_sync.Submit.Cache.Transparent.{IsValid, new_cache-IsValid, hash_at-IsFaithful}
use fractal_block_sync.Submit.Pipeline.{Pipeline}
use fractal_block_sync.Submit.Pipeline.Window.{
  Resolution, named, waits, failed, resolve_hash, or_walk,
}
use fractal_block_sync.Submit.Pipeline.Run.{
  PipelineMove, crew, started, prepared, submit_pipeline, pipeline_after, run_moves, from_start,
}
use fractal_block_sync.Submit.Pipeline.Invariant.{OnSome}
use fractal_block_sync.Submit.Pipeline.Sound.{IsNamed, IsVerified, WorkerHolds}
use fractal_block_sync.Submit.Pipeline.Sound.Moves.{IsSound, Resolves}
use fractal_block_sync.Submit.Pipeline.Sound.Steps.{run-IsSound}
use fractal_block_sync.Submit.Pipeline.Resolved.{IsSteady, fresh_resolution, resolve_hash-fresh}

module _ (E : Services) (ctx_error : E.State → Option Err) (steady : IsSteady E)
    (cfg : SubmitConfig) where
  -- What `SubmitNext` resolves a height to.
  abbrev pub IsResolved : ℕ → ℕ → Text → Type 0
  IsResolved headers height hash =
      (s : E.State)
      → fresh_resolution E cfg.bootstrap_from_r2 cfg.recent_walk_limit headers
          (range_size_or_default cfg.range_size) height s
        ≡ named hash

  abbrev IsCached : RangeIndexCache → Type 0
  IsCached c = IsValid steady.object c × (c.range_size ≡ range_size_or_default cfg.range_size)

  abbrev HoldsAt : ℕ → Pipeline → Type 0
  HoldsAt headers =
      IsSound E ctx_error (IsResolved headers) IsCached
        (cfg.bootstrap_from_r2, cfg.recent_walk_limit, headers)

  IsNamed-IsResolved :
      (headers height : ℕ) (r : Resolution)
      → ((s : E.State)
          → r
            ≡ fresh_resolution E cfg.bootstrap_from_r2 cfg.recent_walk_limit headers
                (range_size_or_default cfg.range_size)
                height
                s)
      → IsNamed (IsResolved headers) height r
  IsNamed-IsResolved headers height (named hash) e = λ s. sym (e s)
  IsNamed-IsResolved headers height (waits index) e = tt
  IsNamed-IsResolved headers height (failed x) e = tt

  or_walk-cache :
      (height limit : ℕ) (a : Result Text) (c : RangeIndexCache) (s : E.State)
      → (or_walk E height limit a c s).1 ≡ c
  unfolding or_walk
  or_walk-cache height limit (ok hash) c s = refl
  or_walk-cache height limit (err e) c s = ground arith

  resolve_hash-IsCached :
      (p : Pipeline) (height : ℕ) (s : E.State)
      → IsCached p.index_cache
      → IsCached (resolve_hash E p height s).1
  unfolding resolve_hash
  resolve_hash-IsCached p height s (v, size) =
      let (valid, same, agrees) =
        hash_at-IsFaithful E steady.object steady.stores p.index_cache v height s in
      let r = hash_at E p.index_cache height s in
      let cached : IsCached r.cache = (valid, same ∙ size) in
      elim (Bool-cases (ltb p.headers height)) [
        | inl above ↦ elim (Bool-cases p.bootstrap_from_r2) [
          | inl b ↦ rw (above, b) cached
          | inr b ↦ rw (above, b) (v, size)
        ]
        | inr below ↦ rw below (
            subst IsCached (sym (or_walk-cache height p.recent_walk_limit r.answer r.cache r.state))
              cached)
      ]

  resolves :
      (headers : ℕ)
      → Resolves E ctx_error
          (IsResolved headers)
          IsCached
          (cfg.bootstrap_from_r2, cfg.recent_walk_limit, headers)
  resolves headers p height s (v, size) l = (
    IsNamed-IsResolved headers height (resolve_hash E p height s).0 (λ t.
        resolve_hash-fresh E steady p height s t v
        ∙ ap (λ (x : Bool × ℕ × ℕ × ℕ). fresh_resolution E x.0 x.1 x.2 x.3 height t)
            (λ i. ((l i).0, (l i).1, (l i).2, size i))),
    resolve_hash-IsCached p height s (v, size),
  )

  crew-holds : (Named : ℕ → Text → Type 0) (n : ℕ) → All (WorkerHolds Named) (crew n)
  unfolding crew
  crew-holds Named zero = tt
  crew-holds Named (suc n) = (tt, crew-holds Named n)

  new_cache_range : (n : ℕ) → (new_cache n).range_size ≡ n
  unfolding new_cache
  new_cache_range n = refl

  started-HoldsAt : (info : BlockchainInfo) → HoldsAt info.headers (started E ctx_error cfg info)
  started-HoldsAt info = record {
    cached = (new_cache-IsValid steady.object _, new_cache_range _);
    limited = refl;
    at_jobs = tt;
    at_workers = crew-holds _ _;
    at_results = tt;
    at_ready = tt;
    at_phase = tt;
    at_sent = tt;
  }

  -- What was given to the node.
  abbrev pub OnlyResolved : Pipeline × E.State → Type 0
  OnlyResolved (p, s) = All (IsVerified (IsResolved p.headers)) p.sent

  sound-OnlyResolved :
      (headers : ℕ) (o : Option (Pipeline × E.State))
      → OnSome (λ (x : Pipeline × E.State). HoldsAt headers x.0) o
      → OnSome OnlyResolved o
  sound-OnlyResolved headers none v = tt
  sound-OnlyResolved headers (some (p, s)) v =
      subst (λ h. All (IsVerified (IsResolved h)) p.sent)
        (sym (ap (λ (x : Bool × ℕ × ℕ). x.2) v.limited)) v.at_sent

  -- Over a node and a store whose answers to reads do not change: whatever the schedule of the
  -- goroutines, each block that SubmitPipeline has given to the node has the hash that
  -- SubmitNext would resolve for the height of the block from the same headers, and it was
  -- compared with that hash.
  pub pipeline_verified :
      (ms : List PipelineMove) (s : E.State)
      → OnSome OnlyResolved (pipeline_after E ctx_error cfg ms s)
  unfolding pipeline_after submit_pipeline prepared
  pipeline_verified ms s = from_info (E.get_blockchain_info s)
    where
      from_info :
          (a : Result BlockchainInfo × E.State)
          → OnSome OnlyResolved (from_start E ctx_error ms (prepared E ctx_error cfg a))
      from_info (err e, t) = tt
      from_info (ok info, t) =
          sound-OnlyResolved info.headers
            (run_moves E ctx_error ms (started E ctx_error cfg info) t)
            (run-IsSound E ctx_error (IsResolved info.headers) IsCached
              (cfg.bootstrap_from_r2, cfg.recent_walk_limit, info.headers) (resolves info.headers)
              ms _ t (started-HoldsAt info))
