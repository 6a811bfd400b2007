-- ===== src/Submit/Next/Outcomes.antt =====
-- How an attempt of `SubmitNext` can end.
use fractal_block_sync.Prelude.{
  ℕ, ◌+◌, ◌≡◌, refl, Bool, true, false, not, none, some, Bytes, Text, ◌⊎◌, inl, inr, Bool-cases,
  if_both, text_eq, u64, ◌&&◌, ltb,
}
use fractal_block_sync.Errors.{Err, Result, ok, err, is_not_found}
use fractal_block_sync.BlockHash.{from_raw_block}
use fractal_block_sync.BtcRpc.{BlockchainInfo}
use fractal_block_sync.Submit.Services.{Services, SubmitConfig, SubmitResult}
use fractal_block_sync.Submit.Next.{
  Outcome, is_accepted, finish, verify, received, resolved, with_info, submit_next,
}

module _ {S : Type 0} where
  -- The node took the block, or knew it.
  abbrev pub IsSubmitted : Outcome S → Type 0
  IsSubmitted o =
      (o.error ≡ none)
      × (o.result.submitted ≡ true)
      × (o.result.wait_headers ≡ false)
      × (o.result.wait_r2_index ≡ false)
      × (is_accepted o.result.rpc_result ≡ true)

  -- There is nothing to submit yet.
  abbrev pub IsWaiting : Outcome S → Type 0
  IsWaiting o = (o.error ≡ none) × (o.result.submitted ≡ false) × (o.result.wait_headers ≡ true)

  -- The attempt failed, and says neither that it submitted nor that it waits.
  abbrev pub IsFailed : Outcome S → Type 0
  IsFailed o =
      (o.result.submitted ≡ false)
      × (o.result.wait_headers ≡ false)
      × (o.result.wait_r2_index ≡ false)
      × ((e : Err) × (o.error ≡ some e))

  abbrev pub IsSettled : Outcome S → Type 0
  IsSettled o = IsSubmitted o ⊎ (IsWaiting o ⊎ IsFailed o)

-- A result that was not touched since it was made for its target.
abbrev IsFresh : SubmitResult → Type 0
IsFresh r = (r.submitted ≡ false) × (r.wait_headers ≡ false) × (r.wait_r2_index ≡ false)

module _ (E : Services) where
  finish-IsSettled :
      (r : SubmitResult) (a : Result Text × E.State) → IsFresh r → IsSettled (finish E r a)
  unfolding finish
  finish-IsSettled r (err e, s) (a, b, c) = inr (inr (a, b, c, (_, refl)))
  finish-IsSettled r (ok reply, s) (a, b, c) = elim (Bool-cases (is_accepted reply)) [
    | inl y ↦ rw y (inl (refl, refl, b, c, y))
    | inr n ↦ rw n (inr (inr (refl, b, c, (_, refl))))
  ]

  verify-IsSettled :
      (r : SubmitResult) (raw : Bytes) (h : Result Text) (s : E.State)
      → IsFresh r
      → IsSettled (verify E r raw h s)
  unfolding verify
  verify-IsSettled r raw (err e) s (a, b, c) = inr (inr (a, b, c, (_, refl)))
  verify-IsSettled r raw (ok got) s (a, b, c) =
      if_both IsSettled (not (text_eq got r.hash)) (inr (inr (a, b, c, (_, refl))))
        (finish-IsSettled r _ (a, b, c))

  received-IsSettled :
      (r : SubmitResult) (a : Result Bytes × E.State) → IsFresh r → IsSettled (received E r a)
  unfolding received
  received-IsSettled r (err e, s) (a, b, c) = inr (inr (a, b, c, (_, refl)))
  received-IsSettled r (ok raw, s) f = verify-IsSettled r raw (from_raw_block raw) s f

  resolved-IsSettled :
      (waits : Bool) (target : ℕ) (a : Result Text × E.State)
      → IsSettled (resolved E waits target a)
  unfolding resolved
  resolved-IsSettled waits target (err e, s) = elim (Bool-cases (waits && is_not_found e)) [
    | inl y ↦ rw y (inr (inl (refl, refl, refl)))
    | inr n ↦ rw n (inr (inr (refl, refl, refl, (_, refl))))
  ]
  resolved-IsSettled waits target (ok hash, s) = received-IsSettled _ _ (refl, refl, refl)

  with_info-IsSettled :
      (cfg : SubmitConfig) (a : Result BlockchainInfo × E.State) → IsSettled (with_info E cfg a)
  unfolding with_info
  with_info-IsSettled cfg (err e, s) = inr (inr (refl, refl, refl, (_, refl)))
  with_info-IsSettled cfg (ok info, s) =
      if_both IsSettled (ltb info.headers (u64 (info.blocks + 1)))
        (if_both IsSettled (not cfg.bootstrap_from_r2) (inr (inl (refl, refl, refl)))
          (resolved-IsSettled true _ _))
        (resolved-IsSettled false _ _)

  -- Every attempt ends in exactly one of three ways: with the block submitted, which the node's
  -- reply then accepts; waiting, without an error; or with an error, and no claim of success.
  pub submit_next-IsSettled : (cfg : SubmitConfig) (s : E.State) → IsSettled (submit_next E cfg s)
  unfolding submit_next
  submit_next-IsSettled cfg s = with_info-IsSettled cfg (E.get_blockchain_info s)
