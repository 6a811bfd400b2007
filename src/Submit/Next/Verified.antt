-- ===== src/Submit/Next/Verified.antt =====
-- Nothing but a block whose hash was checked is ever submitted.
use fractal_block_sync.Prelude.{
  ℕ, zero, suc, ◌+◌, ◌≡◌, refl, arith, Bool, true, false, not, Option, none, some, Bytes, Text, ◌⊎◌,
  inl, inr, Bool-cases, if_both, u64, ◌&&◌, ltb, text_eq, text_eq_iff, ap, sym, subst, ◌∙◌,
}
use fractal_block_sync.Errors.{Err, Result, ok, err, Result-cases, is_not_found, no_tip}
use fractal_block_sync.Effects.{Effect, continue, wrap_result, fail}
use fractal_block_sync.Hex
use fractal_block_sync.BlockHash.{from_raw_block}
use fractal_block_sync.BtcRpc.{BlockchainInfo, ChainTip}
use fractal_block_sync.RangeIndex
use fractal_block_sync.Submit.Services.{Services, SubmitConfig, SubmitResult}
use fractal_block_sync.Submit.Tips.{best_chain_tip}
use fractal_block_sync.Submit.Walk.{Turn, stop, go, follow, inspect, walk, resolve_recent_hash}
use fractal_block_sync.Submit.Resolve.{
  resolve_target_hash_from_range_index, or_recent, resolve_target_hash,
}
use fractal_block_sync.Submit.Next.{
  Outcome, fresh, finish, verify, received, resolved, with_info, submit_next,
}

-- Every call but `submit_block` keeps a property of the world.
pub record ReadsKeep (E : Services) (P : E.State → Type 0) : Type 0 where
  pub info : (s : E.State) → P s → P (E.get_blockchain_info s).1
  pub tips : (s : E.State) → P s → P (E.get_chain_tips s).1
  pub header : (h : Text) (s : E.State) → P s → P (E.get_block_header h s).1
  pub object : (key : Text) (s : E.State) → P s → P (E.download_object key s).1
  pub block : (h : Text) (s : E.State) → P s → P (E.download_block h s).1

-- What the attempt did to the world: it only read; or its last act was to submit a block that was
-- downloaded for the hash of its result and has that hash.
abbrev pub OnlyVerified : (E : Services) → (E.State → Type 0) → Outcome E.State → Type 0
OnlyVerified E P o =
    P o.state
    ⊎ ((raw : Bytes) × (s : E.State) × P s
        × (E.download_block o.result.hash s).0 ≡ ok raw
        × (from_raw_block raw ≡ ok o.result.hash)
        × (o.state ≡ (E.submit_block (Hex.encode raw) (E.download_block o.result.hash s).1).1))

module _ (E : Services) (P : E.State → Type 0) (keep : ReadsKeep E P) where
  continue_keeps :
      {A B : Type 0} (a : Result A × E.State) (f : A → Effect E.State B)
      → P a.1
      → ((x : A) (s : E.State) → P s → P (f x s).1)
      → P (continue a f).1
  continue_keeps (ok a, s) f p k = k a s p
  continue_keeps (err e, s) f p k = p

  wrap_keeps : {A : Type 0} (g : Err → Err) (a : Result A × E.State) → P a.1 → P (wrap_result g a).1
  wrap_keeps g (ok a, s) p = p
  wrap_keeps g (err e, s) p = p

  walk_keeps :
      (limit target rounds : ℕ) (current : Text) (s : E.State)
      → P s
      → P (walk E limit target rounds current s).1
  unfolding walk
  walk_keeps limit target zero current s p = p
  walk_keeps limit target (suc rounds) current s p =
      continue_keeps (wrap_result _ (E.get_block_header current s)) _
        (wrap_keeps _ _ (keep.header current s p))
        (λ h t q.
          follow_keeps (inspect target current h) (walk E limit target rounds) t
            (λ n u. walk_keeps limit target rounds n u) q)
    where
      follow_keeps :
          (turn : Turn) (next : Text → Effect E.State Text) (t : E.State)
          → ((n : Text) (u : E.State) → P u → P (next n u).1)
          → P t
          → P (follow turn next t).1
      follow_keeps (stop r) next t k q = q
      follow_keeps (go n) next t k q = k n t q

  pub resolve_recent_hash_keeps :
      (target limit : ℕ) (s : E.State) → P s → P (resolve_recent_hash E target limit s).1
  unfolding resolve_recent_hash
  resolve_recent_hash_keeps target limit s p =
      continue_keeps (wrap_result _ (E.get_chain_tips s)) _ (wrap_keeps _ _ (keep.tips s p))
        (λ tips t q. from_tip (best_chain_tip tips target) t q)
    where
      from_tip :
          (best : Option ChainTip) (t : E.State)
          → P t
          → P
              ((elim best as (λ _. Effect E.State Text) [
                | none ↦ fail (no_tip target)
                | some tip ↦ walk E limit target (suc limit) tip.hash
              ])
                t).1
      from_tip none t q = q
      from_tip (some tip) t q = walk_keeps limit target (suc limit) tip.hash t q

  from_range_index_keeps :
      (target n : ℕ) (s : E.State) → P s → P (resolve_target_hash_from_range_index E target n s).1
  unfolding resolve_target_hash_from_range_index
  from_range_index_keeps target n s p =
      continue_keeps (RangeIndex.object_key_for_height target n, s) _ p
        (λ (key, start) t q.
          continue_keeps (wrap_result _ (E.download_object key t)) _
            (wrap_keeps _ _ (keep.object key t q))
            (λ bin u r. wrap_keeps _ (RangeIndex.hash_at bin start target n, u) r))

  resolve_target_hash_keeps :
      (target n limit : ℕ) (s : E.State) → P s → P (resolve_target_hash E target n limit s).1
  unfolding resolve_target_hash or_recent
  resolve_target_hash_keeps target n limit s p =
      fallback (resolve_target_hash_from_range_index E target n s)
        (from_range_index_keeps target n s p)
    where
      fallback : (a : Result Text × E.State) → P a.1 → P (or_recent E target limit a).1
      fallback (ok hash, t) q = q
      fallback (err e, t) q =
          if_both (λ (a : Result Text × E.State). P a.1) (not (is_not_found e)) q
            (resolve_recent_hash_keeps target limit t q)

  finish_state :
      (r : SubmitResult) (a : Result Text × E.State)
      → ((finish E r a).state ≡ a.1) × ((finish E r a).result.hash ≡ r.hash)
  unfolding finish
  finish_state r (err e, s) = (refl, refl)
  finish_state r (ok reply, s) = ground arith

  verified :
      (o : Outcome E.State) (hash : Text) (raw : Bytes) (s : E.State)
      → P s
      → o.result.hash ≡ hash
      → (E.download_block hash s).0 ≡ ok raw
      → from_raw_block raw ≡ ok hash
      → o.state ≡ (E.submit_block (Hex.encode raw) (E.download_block hash s).1).1
      → OnlyVerified E P o
  verified o hash raw s p same got checked last =
      inr (raw, s, p, rw same got, rw same checked, rw same last)

  verify_only :
      (r : SubmitResult) (raw : Bytes) (s : E.State)
      → P s
      → (E.download_block r.hash s).0 ≡ ok raw
      → OnlyVerified E P (verify E r raw (from_raw_block raw) (E.download_block r.hash s).1)
  unfolding verify
  verify_only r raw s p got = elim (Result-cases (from_raw_block raw)) [
    | inl (h, e) ↦ elim (Bool-cases (text_eq h r.hash)) [
      | inl y ↦
          let same : h ≡ r.hash = (text_eq_iff h r.hash).0 y in
          let a : Result Text × E.State =
            E.submit_block (Hex.encode raw) (E.download_block r.hash s).1 in
          let (st, hash) = finish_state r a in
          rw e (rw y (verified (finish E r a) r.hash raw s p hash got (e ∙ ap ok same) st))
      | inr n ↦ rw e (rw n (inl (keep.block r.hash s p)))
    ]
    | inr (x, e) ↦ rw e (inl (keep.block r.hash s p))
  ]

  received_only :
      (r : SubmitResult) (s : E.State)
      → P s
      → OnlyVerified E P (received E r (E.download_block r.hash s))
  unfolding received
  received_only r s p = elim (Result-cases (E.download_block r.hash s).0) [
    | inl (raw, e) ↦
        let pair : E.download_block r.hash s ≡ (ok raw, (E.download_block r.hash s).1) =
          λ i. (e i, (E.download_block r.hash s).1) in
        subst (λ a. OnlyVerified E P (received E r a)) (sym pair) (verify_only r raw s p e)
    | inr (x, e) ↦
        let pair : E.download_block r.hash s ≡ (err x, (E.download_block r.hash s).1) =
          λ i. (e i, (E.download_block r.hash s).1) in
        subst (λ a. OnlyVerified E P (received E r a)) (sym pair) (inl (keep.block r.hash s p))
  ]

  resolved_only :
      (waits : Bool) (target : ℕ) (a : Result Text × E.State)
      → P a.1
      → OnlyVerified E P (resolved E waits target a)
  unfolding resolved
  resolved_only waits target (ok hash, s) p =
      received_only (record (fresh target) { hash = hash }) s p
  resolved_only waits target (err e, s) p =
      if_both (OnlyVerified E P) (waits && is_not_found e) (inl p) (inl p)

  with_info_only :
      (cfg : SubmitConfig) (a : Result BlockchainInfo × E.State)
      → P a.1
      → OnlyVerified E P (with_info E cfg a)
  unfolding with_info
  with_info_only cfg (err e, s) p = inl p
  with_info_only cfg (ok info, s) p =
      if_both (OnlyVerified E P) (ltb info.headers (u64 (info.blocks + 1)))
        (if_both (OnlyVerified E P) (not cfg.bootstrap_from_r2) (inl p)
          (resolved_only true _ _ (from_range_index_keeps _ _ s p)))
        (resolved_only false _ _ (resolve_target_hash_keeps _ _ _ s p))

  -- Let every call but `submit_block` keep a property of the world. After an attempt the property
  -- holds still, so that nothing was submitted; or the last thing that happened, in a world with the
  -- property, was the submission of a block that was downloaded for the hash of the result, and
  -- whose own hash is that one.
  pub submit_next_verified :
      (cfg : SubmitConfig) (s : E.State) → P s → OnlyVerified E P (submit_next E cfg s)
  unfolding submit_next
  submit_next_verified cfg s p = with_info_only cfg (E.get_blockchain_info s) (keep.info s p)
