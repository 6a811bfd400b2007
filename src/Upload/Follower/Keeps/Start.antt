-- ===== src/Upload/Follower/Keeps/Start.antt =====
-- What the first attempt of the follower keeps.
use fractal_block_sync.Prelude.{
  ℕ, zero, suc, refl, [], codes, ltb, leb, if◌then◌else◌, Bool-cases, Option-cases, inl, inr,
}
use fractal_block_sync.Errors.{at_text}
use fractal_block_sync.Effects.{pure, wrapping}
use fractal_block_sync.Effects.Laws.{continue-keeps, lifted-keeps}
use fractal_block_sync.RangeIndex.{object_key}
use fractal_block_sync.Upload.Services.{Provider}
use fractal_block_sync.Upload.Windows.{next_range_start}
use fractal_block_sync.Upload.Probes.{upload_blocks}
use fractal_block_sync.Upload.Follower.{
  Live, outside, ensure_published_boundary_visible, recent_cache_start,
}
use fractal_block_sync.Upload.Follower.Recent.{refresh_recent_hashes}
use fractal_block_sync.Upload.Follower.Publish.{
  publish_stable_indexes, initial_from, find_initial_upload_start, initialize,
}
use fractal_block_sync.Effects.Laws.{continue-leads, wrap_result-keeps}
use fractal_block_sync.Upload.Services.{Stable}
use fractal_block_sync.Upload.Follower.Keeps.{
  same, Keeping, Advancing, alike, either, refresh_recent_hashes-keeps, upload_all-keeps,
}
use fractal_block_sync.Upload.Follower.Keeps.Publish.{
  Framed, next-keeps, publish_stable_indexes-keeps,
}

module _ (E : Provider) (Inv : Live E → Type 0) (tip end : ℕ) (K : Keeping E Inv tip end)
    (A : Advancing E Inv) where
  initial_from-keeps : (fuel : ℕ) (live : Live E) → Inv live → Inv (initial_from E fuel end live).1
  unfolding initial_from
  initial_from-keeps zero live v = v
  initial_from-keeps (suc fuel) (f, s) v = elim (Bool-cases (ltb end f.next_index_start)) [
    | inl y ↦ rw y v
    | inr z ↦ rw z (
        lifted-keeps Inv (object_key f.next_index_start f.range_size) (f, s) _ v
          (λ key named.
            continue-leads (Framed E Inv f) Inv
              (outside (wrapping (at_text (codes "check range index") key) (E.object_exists key))
                (f, s))
              _
              (
                wrap_result-keeps (λ t. Inv (f, t)) _ (E.object_exists key s)
                    (Stable.by_object (K.by_call f) key s v),
                same f,
              )
              (λ g w. w.0)
              (λ exists (g, t) w. elim (Bool-cases exists) [
                | inr absent ↦ rw absent (w.0)
                | inl there ↦
                    elim (Option-cases (next_range_start f.next_index_start f.range_size)) [
                      | inl last ↦ rw (there, last) (w.0)
                      | inr (next, e) ↦
                          rw (there, e)
                            (initial_from-keeps fuel _
                              (next-keeps E Inv tip end K A f g t next e w))
                    ]
              ])))
  ]

  pub initialize-keeps : (live : Live E) → Inv live → Inv (initialize E tip end live).1
  unfolding initialize find_initial_upload_start
  initialize-keeps (f, s) v =
      let fresh = record f { next_index_start = f.managed_start; recent_hashes = [] } in
      let v0 = A.by_reset f s v in
      continue-keeps Inv (initial_from E (suc end) end (fresh, s)) _
        (initial_from-keeps (suc end) (fresh, s) v0)
        (λ start (g, t) v1.
          lifted-keeps Inv (ensure_published_boundary_visible g end) (g, t) _ v1
            (λ _ _.
              continue-keeps Inv
                ((if leb start end
                    then outside (upload_blocks E start end g.upload_workers)
                    else pure 0)
                  (g, t))
                _
                (either E Inv tip end K (leb start end) _ _ (g, t)
                  (upload_all-keeps E Inv tip end K start end g.upload_workers (g, t) v1) v1)
                (λ uploaded b v2.
                  continue-keeps Inv (publish_stable_indexes E tip end b) _
                    (publish_stable_indexes-keeps E Inv tip end K A b v2)
                    (λ stats c v3.
                      continue-keeps Inv
                        (refresh_recent_hashes E (recent_cache_start c.0 end) end c) _
                        (refresh_recent_hashes-keeps E Inv tip end K _ end c v3)
                        (λ _ d v4. alike E Inv tip end K _ d refl refl refl refl v4)))))
