-- ===== src/Upload/Blocks/Pooled.antt =====
-- What the calls of the services keep, `uploadBlocksFrom` keeps.
use fractal_block_sync.Prelude.{ℕ, leb, Bool-cases, inl, inr}
use fractal_block_sync.Pool.Keeps.{run-keeps}
use fractal_block_sync.Upload.Services.{Provider, Stable}
use fractal_block_sync.Upload.Blocks.{uploaders, upload_pooled, upload_blocks_from}
use fractal_block_sync.Upload.Blocks.Keeps.{upload_each-keeps, call-keeps}

module _ (E : Provider) (P : E.State → Type 0) (K : Stable E P) where
  pub upload_blocks_from-keeps :
      (from_height tip workers : ℕ) (s : E.State)
      → P s
      → P (upload_blocks_from E from_height tip workers s).1
  unfolding upload_blocks_from upload_pooled uploaders
  upload_blocks_from-keeps from_height tip workers s h = elim (Bool-cases (leb workers 1)) [
    | inl y ↦ rw y (upload_each-keeps E P K _ 0 s h)
    | inr n ↦ rw n (
        run-keeps (uploaders E) P (λ t p. K.by_choose t p) (λ j t p. call-keeps E P K j t p) _ _ s
          h)
  ]
