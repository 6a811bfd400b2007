-- ===== src/Upload/Blocks/Complete.antt =====
-- `uploadBlocksFrom` leaves every block of its heights in the store.
use fractal_block_sync.Prelude.{
  ℕ, suc, ◌*◌, ◌≤◌, ◌<◌, ◌≡◌, refl, ap, subst, arith, Bool, false, Option, none, some, List, Text,
  max_u64, leb, length, count, Bool-cases, inl, inr,
}
use fractal_block_sync.Errors.{Err, ok}
use fractal_block_sync.Pool
use fractal_block_sync.Pool.{Pool, Progress, again, done, failed, Body}
use fractal_block_sync.Upload.Services.{Provider, IsLawful}
use fractal_block_sync.Upload.Blocks.{
  Job, uploaders, pool_outcome, pool_result, upload_pooled, upload_blocks_from,
}
use fractal_block_sync.Upload.Blocks.Heights.{count-heights_between}
use fractal_block_sync.Upload.Blocks.Stores.{upload_each-stores}
use fractal_block_sync.Upload.Blocks.Calls.{facts, job_weight, falls}

module _ (E : Provider) (chain : ℕ → Text) (Stored : Text → E.State → Type 0)
    (L : IsLawful E chain Stored) where
  pool_outcome-ok :
      (p : Pool Job Bool) (t : E.State) (o : Option Err) {n : ℕ}
      → pool_outcome E p t o ≡ ok n
      → (o ≡ none) × (p.noticed ≡ false)
  unfolding pool_outcome
  pool_outcome-ok p t none e =
      (refl, elim (Bool-cases p.noticed) [ inl y ↦ let h = rw y at e in cc | inr z ↦ z ])
  pool_outcome-ok p t (some x) e = cc

  pool_result-ok :
      (p : Pool Job Bool) (t : E.State) {n : ℕ}
      → pool_result E p t ≡ ok n
      → (p.error ≡ none) × (p.noticed ≡ false)
  unfolding pool_result
  pool_result-ok p t e = elim (Bool-cases (Pool.has_returned p)) [
    | inl y ↦ pool_outcome-ok p t p.error (rw y at e)
    | inr z ↦ let h = rw z at e in cc
  ]

  pub upload_pooled-stores :
      (workers : ℕ) (hs : List ℕ) (s : E.State) {n : ℕ} {t : E.State}
      → 0 < workers
      → upload_pooled E workers hs s ≡ (ok n, t)
      → (k : ℕ) → 0 < count k hs
      → Stored (chain k) t
  unfolding upload_pooled uploaders job_weight facts
  upload_pooled-stores workers hs s {n} {t} pos e k some_k =
      let ended = Pool.run (uploaders E) (suc (length hs * 5)) (Pool.fresh_pool hs workers) s in
      let (ran, on) = pool_result-ok ended.0 ended.1 (ap (λ z. z.0) e) in
      let (r, st) =
        Pool.Settled.run_complete (uploaders E) (facts E chain Stored L) hs job_weight 5
          (λ h. omega arith) (λ j i u. falls E j i u) workers (suc (length hs * 5)) s pos
          (omega arith) ran on k some_k in
      subst (Stored (chain k)) (ap (λ z. z.1) e) st

  -- On a node whose chain does not change and over a store that loses no block, when
  -- uploadBlocksFrom returns no error every height from the first to the tip has its block in
  -- the store: for one worker and for any number, in whatever order the scheduler lets them go
  -- on.
  pub upload_blocks_from-stores :
      (from_height tip workers : ℕ) (s : E.State) {n : ℕ} {t : E.State}
      → tip ≤ max_u64
      → upload_blocks_from E from_height tip workers s ≡ (ok n, t)
      → (k : ℕ) → from_height ≤ k
      → k ≤ tip
      → Stored (chain k) t
  unfolding upload_blocks_from
  upload_blocks_from-stores from_height tip workers s {n} {t} fits e k lo hi =
      let inside = count-heights_between from_height tip k lo hi fits in
      elim (Bool-cases (leb workers 1)) [
        | inl y ↦ upload_each-stores E chain Stored L _ 0 s (rw y at e) k inside
        | inr z ↦ upload_pooled-stores workers _ s (ground arith) (rw z at e) k inside
      ]
