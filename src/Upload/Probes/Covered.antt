-- ===== src/Upload/Probes/Covered.antt =====
-- What `uploadBlocks` leaves in the store.
use fractal_block_sync.Prelude.{
  ℕ, ◌+◌, ◌≤◌, ◌<◌, ◌≡◌, ap, subst, arith, false, Text, max_u64, ltb, leb, count, ◌==◌, List, [],
  ◌∷◌, Bool-cases, inl, inr, ◌⊎◌,
}
use fractal_block_sync.Errors.{ok}
use fractal_block_sync.Effects.Laws.{continue-ok, continue-keeps}
use fractal_block_sync.Pool.Keeps.{run-keeps}
use fractal_block_sync.Upload.Probes.Calls.{probe-keeps}
use fractal_block_sync.Upload.Services.{Provider, Stable, IsLawful}
use fractal_block_sync.Upload.Windows.{upload_probe_heights}
use fractal_block_sync.Upload.Blocks.{upload_blocks_from}
use fractal_block_sync.Upload.Blocks.Complete.{upload_blocks_from-stores}
use fractal_block_sync.Upload.Blocks.Pooled.{upload_blocks_from-keeps}
use fractal_block_sync.Upload.Probes.{
  upload_missing_probe_step, probers, check_upload_probes, find_upload_start, upload_blocks,
}
use fractal_block_sync.Upload.Probes.Start.{find_upload_start_lem, find_upload_start-late}

module _ (E : Provider) (chain : ℕ → Text) (Stored : Text → E.State → Type 0)
    (L : IsLawful E chain Stored) where
  -- On a node whose chain does not change and over a store that loses no block, when
  -- uploadBlocks returns no error a height of its interval has its block in the store if the
  -- height is a probe, or lies less than a probe step below the tip.
  pub upload_blocks_lem :
      (from_height tip workers h : ℕ) (s : E.State) {n : ℕ} {t : E.State}
      → from_height ≤ h
      → h ≤ tip
      → tip ≤ max_u64
      → upload_blocks E from_height tip workers s ≡ (ok n, t)
      → (0 < count h (upload_probe_heights from_height tip upload_missing_probe_step))
        ⊎ (tip < h + upload_missing_probe_step)
      → Stored (chain h) t
  unfolding upload_blocks
  upload_blocks_lem from_height tip workers h s {n} {t} lo hi fits e covered =
      let nonempty : ltb tip from_height ≡ false = ground arith in
      let (start, found, e1) =
        continue-ok (find_upload_start E from_height tip upload_missing_probe_step workers s) _
          (rw nonempty at e) in
      elim (Bool-cases (leb start h)) [
        | inl y ↦
            upload_blocks_from-stores E chain Stored L start tip workers _ fits e1 h (ground arith)
              hi
        | inr z ↦ kept start (ground arith) found e1 covered
      ]
    where
      kept :
          (start : ℕ) {u : E.State}
          → h < start
          → find_upload_start E from_height tip upload_missing_probe_step workers s ≡ (ok start, u)
          → upload_blocks_from E start tip workers u ≡ (ok n, t)
          → (0 < count h (upload_probe_heights from_height tip upload_missing_probe_step))
            ⊎ (tip < h + upload_missing_probe_step)
          → Stored (chain h) t
      kept start {u} lt found e1 (inl probe) =
          let before =
            find_upload_start_lem E chain Stored L from_height tip 100 workers h s (omega arith)
              fits (omega arith) found probe lt in
          subst (Stored (chain h)) (ap (λ r. r.1) e1) (
            upload_blocks_from-keeps E (Stored (chain h)) (L.kept (chain h)) start tip workers u
              before)
      kept start {u} lt found e1 (inr late) =
          let early =
            find_upload_start-late E chain Stored L from_height tip 100 workers h s (omega arith)
              fits (omega arith) found lo late in
          absurd (omega arith)

module _ (E : Provider) (P : E.State → Type 0) (K : Stable E P) where
  check_upload_probes-keeps :
      (probes : List ℕ) (workers : ℕ) (s : E.State)
      → P s
      → P (check_upload_probes E probes workers s).1
  unfolding check_upload_probes probers
  check_upload_probes-keeps [] workers s p = p
  check_upload_probes-keeps (h ∷ hs) workers s p =
      run-keeps (probers E (h ∷ hs)) P (λ t q. K.by_choose t q) (λ j t q. probe-keeps E P K j t q) _
        _ s p

  find_upload_start-keeps :
      (from_height tip step workers : ℕ) (s : E.State)
      → P s
      → P (find_upload_start E from_height tip step workers s).1
  unfolding find_upload_start
  find_upload_start-keeps from_height tip step workers s p = elim (Bool-cases (step == 0)) [
    | inl y ↦ rw y p
    | inr n ↦ rw n (
        continue-keeps P
          (check_upload_probes E (upload_probe_heights from_height tip step) workers s) _
          (check_upload_probes-keeps _ workers s p) (λ _ t q. q))
  ]

  pub upload_blocks-keeps :
      (from_height tip workers : ℕ) (s : E.State)
      → P s
      → P (upload_blocks E from_height tip workers s).1
  unfolding upload_blocks
  upload_blocks-keeps from_height tip workers s p = elim (Bool-cases (ltb tip from_height)) [
    | inl y ↦ rw y p
    | inr n ↦ rw n (
        continue-keeps P (find_upload_start E from_height tip upload_missing_probe_step workers s) _
          (find_upload_start-keeps from_height tip upload_missing_probe_step workers s p)
          (λ start t q. upload_blocks_from-keeps E P K start tip workers t q))
  ]
