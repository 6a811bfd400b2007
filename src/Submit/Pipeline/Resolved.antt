-- ===== src/Submit/Pipeline/Resolved.antt =====
-- The pipeline's cached resolution of a hash against the one of `SubmitNext`.
use fractal_block_sync.Prelude.{
  ℕ, zero, suc, ◌≡◌, refl, ap, sym, subst, ◌∙◌, Bool, true, false, not, Option, none, some, List,
  Bytes, Text, codes, ltb, if◌then◌else◌, inl, inr, Bool-cases,
}
use fractal_block_sync.Errors.{Err, Result, ok, err, is_not_found, no_tip, at_text}
use fractal_block_sync.Effects.{Effect, continue, wrap_result, wrapping, lift, fail}
use fractal_block_sync.BtcRpc.{ChainTip, BlockHeader}
use fractal_block_sync.RangeIndex
use fractal_block_sync.Submit.Services.{Services}
use fractal_block_sync.Submit.Tips.{best_chain_tip}
use fractal_block_sync.Submit.Walk.{Turn, stop, go, follow, inspect, walk, resolve_recent_hash}
use fractal_block_sync.Submit.Resolve.{
  download_error, resolve_target_hash_from_range_index, or_recent, resolve_target_hash,
}
use fractal_block_sync.Submit.Cache.{RangeIndexCache, hash_at}
use fractal_block_sync.Submit.Cache.Transparent.{
  Agrees, same, both_missing, Stores, IsValid, hash_at-IsFaithful,
}
use fractal_block_sync.Submit.Pipeline.{Pipeline}
use fractal_block_sync.Submit.Pipeline.Window.{
  Resolution, waits, failed, or_wait, or_fail, or_walk, resolve_hash,
}

-- Services whose answers to reads do not change.
pub record IsSteady (E : Services) : Type 0 where
  pub object : Text → Result Bytes
  pub header : Text → Result BlockHeader
  pub tips : Result (List ChainTip)
  pub stores : Stores E object
  pub headers : (h : Text) (s : E.State) → (E.get_block_header h s).0 ≡ header h
  pub tip_reply : (s : E.State) → (E.get_chain_tips s).0 ≡ tips

-- How `SubmitNext` resolves a height: by a download and no cache.
unfoldable pub fresh_resolution : (E : Services) → Bool → ℕ → ℕ → ℕ → ℕ → E.State → Resolution
fresh_resolution E bootstrap limit headers range_size height s =
    if ltb headers height
    then if not bootstrap
      then waits false
      else or_wait (resolve_target_hash_from_range_index E height range_size s).0
    else or_fail (resolve_target_hash E height range_size limit s).0

ok-inj : {A : Type 0} {x y : A} → ok x ≡ ok y → x ≡ y
ok-inj e = cc

err-inj : {x y : Err} → ◌≡◌ {A = Result Text} (err x) (err y) → x ≡ y
err-inj e = cc

module _ (E : Services) (steady : IsSteady E) where
  open steady use {object, stores}

  -- Two runs from states that answer alike have the same result.
  continue-alike :
      {A B : Type 0} (a b : Result A × E.State) (f : A → Effect E.State B)
      → a.0 ≡ b.0
      → ((x : A) (s t : E.State) → (f x s).0 ≡ (f x t).0)
      → (continue a f).0 ≡ (continue b f).0
  continue-alike (ok x, s) (ok y, t) f e k = k x s t ∙ ap (λ z. (f z t).0) (ok-inj e)
  continue-alike (ok x, s) (err y, t) f e k = cc
  continue-alike (err x, s) (ok y, t) f e k = cc
  continue-alike (err x, s) (err y, t) f e k = cc

  wrap_result-alike :
      {A : Type 0} (g : Err → Err) (a b : Result A × E.State)
      → a.0 ≡ b.0
      → (wrap_result g a).0 ≡ (wrap_result g b).0
  wrap_result-alike g (ok x, s) (ok y, t) e = cc
  wrap_result-alike g (ok x, s) (err y, t) e = cc
  wrap_result-alike g (err x, s) (ok y, t) e = cc
  wrap_result-alike g (err x, s) (err y, t) e = cc

  follow-alike :
      (turn : Turn) (next : Text → Effect E.State Text) (s t : E.State)
      → ((n : Text) (s t : E.State) → (next n s).0 ≡ (next n t).0)
      → (follow turn next s).0 ≡ (follow turn next t).0
  follow-alike (stop r) next s t k = refl
  follow-alike (go n) next s t k = k n s t

  walk-alike :
      (limit target rounds : ℕ) (current : Text) (s t : E.State)
      → (walk E limit target rounds current s).0 ≡ (walk E limit target rounds current t).0
  unfolding walk
  walk-alike limit target zero current s t = refl
  walk-alike limit target (suc rounds) current s t =
      continue-alike (wrap_result _ (E.get_block_header current s))
        (wrap_result _ (E.get_block_header current t)) _
        (wrap_result-alike _ (E.get_block_header current s) (E.get_block_header current t)
          (steady.headers current s ∙ sym (steady.headers current t)))
        (λ h u v.
          follow-alike (inspect target current h) (walk E limit target rounds) u v
            (λ n a b. walk-alike limit target rounds n a b))

  resolve_recent_hash-alike :
      (target limit : ℕ) (s t : E.State)
      → (resolve_recent_hash E target limit s).0 ≡ (resolve_recent_hash E target limit t).0
  unfolding resolve_recent_hash
  resolve_recent_hash-alike target limit s t =
      continue-alike (wrap_result _ (E.get_chain_tips s)) (wrap_result _ (E.get_chain_tips t)) _
        (wrap_result-alike _ (E.get_chain_tips s) (E.get_chain_tips t)
          (steady.tip_reply s ∙ sym (steady.tip_reply t)))
        (λ tips u v. from_tip (best_chain_tip tips target) u v)
    where
      from_tip :
          (best : Option ChainTip) (u v : E.State)
          → ((elim best as (λ _. Effect E.State Text) [
            | none ↦ fail (no_tip target)
            | some tip ↦ walk E limit target (suc limit) tip.hash
          ])
              u).0
            ≡ ((elim best as (λ _. Effect E.State Text) [
              | none ↦ fail (no_tip target)
              | some tip ↦ walk E limit target (suc limit) tip.hash
            ])
                v).0
      from_tip none u v = refl
      from_tip (some tip) u v = walk-alike limit target (suc limit) tip.hash u v

  from_range_index-alike :
      (height n : ℕ) (s t : E.State)
      → (resolve_target_hash_from_range_index E height n s).0
        ≡ (resolve_target_hash_from_range_index E height n t).0
  unfolding resolve_target_hash_from_range_index
  from_range_index-alike height n s t =
      continue-alike (RangeIndex.object_key_for_height height n, s)
        (RangeIndex.object_key_for_height height n, t) _ refl
        (λ (key, start) u v.
          continue-alike (wrap_result (download_error key) (E.download_object key u))
            (wrap_result (download_error key) (E.download_object key v))
            (λ bin.
              wrapping (at_text (codes "read range index") key)
                (lift (RangeIndex.hash_at bin start height n)))
            (wrap_result-alike _ (E.download_object key u) (E.download_object key v)
              (stores key u ∙ sym (stores key v)))
            (λ bin a b.
              wrap_result-alike (at_text (codes "read range index") key)
                (RangeIndex.hash_at bin start height n, a)
                (RangeIndex.hash_at bin start height n, b) refl))

  or_wait-Agrees : {a b : Result Text} → Agrees a b → or_wait a ≡ or_wait b
  unfolding or_wait
  or_wait-Agrees (same r e) = ap or_wait e
  or_wait-Agrees (both_missing d e) = rw (d, e) refl

  or_walk-Agrees :
      (height limit : ℕ) (a b : Result Text) (c : RangeIndexCache) (s t : E.State)
      → Agrees a b
      → (or_walk E height limit a c s).0 ≡ or_fail (or_recent E height limit (b, t)).0
  unfolding or_walk or_recent
  or_walk-Agrees height limit (ok h) (ok k) c s t (same _ e) = cc
  or_walk-Agrees height limit (ok h) (err y) c s t (same _ e) = cc
  or_walk-Agrees height limit (err x) (ok k) c s t (same _ e) = cc
  or_walk-Agrees height limit (err x) (err y) c s t (same _ e) =
      elim (Bool-cases (is_not_found x)) [
        | inl m ↦
            let k : is_not_found y ≡ true = ap (λ z. is_not_found z) (sym (err-inj e)) ∙ m in
            rw (m, k) (ap or_fail (resolve_recent_hash-alike height limit s t))
        | inr m ↦
            let k : is_not_found y ≡ false = ap (λ z. is_not_found z) (sym (err-inj e)) ∙ m in
            rw (m, k) (ap failed (err-inj e))
      ]
  or_walk-Agrees height limit (err x) (err y) c s t (both_missing d e) =
      rw (d, e) (ap or_fail (resolve_recent_hash-alike height limit s t))

  -- Over a store and a node whose answers to reads do not change, and from a valid cache, the
  -- pipeline resolves each height as SubmitNext does, whatever the cache of a range index holds
  -- from earlier heights: to the same hash, the same wait or the same error.
  pub resolve_hash-fresh :
      (p : Pipeline) (height : ℕ) (s t : E.State)
      → IsValid object p.index_cache
      → (resolve_hash E p height s).0
        ≡ fresh_resolution E p.bootstrap_from_r2 p.recent_walk_limit p.headers
            p.index_cache.range_size height t
  unfolding resolve_hash fresh_resolution resolve_target_hash
  resolve_hash-fresh p height s t v =
      let (valid, size, agrees) = hash_at-IsFaithful E object stores p.index_cache v height s in
      let r = hash_at E p.index_cache height s in
      let fresh = resolve_target_hash_from_range_index E height p.index_cache.range_size in
      let agrees' : Agrees r.answer (fresh t).0 =
        subst (Agrees r.answer) (from_range_index-alike height p.index_cache.range_size s t)
          agrees in
      elim (Bool-cases (ltb p.headers height)) [
        | inl above ↦ elim (Bool-cases p.bootstrap_from_r2) [
          | inl b ↦ rw (above, b) (or_wait-Agrees agrees')
          | inr b ↦ rw (above, b) refl
        ]
        | inr below ↦ rw below (
            or_walk-Agrees height p.recent_walk_limit r.answer (fresh t).0 r.cache r.state
              (fresh t).1 agrees')
      ]
