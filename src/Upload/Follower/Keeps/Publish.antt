-- ===== src/Upload/Follower/Keeps/Publish.antt =====
-- What the loop of `publishStableIndexes` keeps.
use fractal_block_sync.Prelude.{
  ℕ, zero, suc, ◌+◌, ◌-◌, ◌≤◌, ◌≡◌, refl, sym, subst, ◌∙◌, arith, ◌||◌, some, ltb, Bool-cases,
  Option-cases, inl, inr,
}
use fractal_block_sync.Effects.Laws.{continue-keeps, continue-leads}
use fractal_block_sync.Upload.Services.{Provider}
use fractal_block_sync.Upload.Windows.{end_of_range, next_range_start}
use fractal_block_sync.Upload.Blocks.{upload_blocks_from}
use fractal_block_sync.Upload.Indexes.{upload_range_index_if_missing}
use fractal_block_sync.Upload.Follower.{
  UploadFollower, FollowerStats, Live, outside, prune_recent_hashes,
}
use fractal_block_sync.Upload.Follower.Recent.{hash_of}
use fractal_block_sync.Upload.Follower.Publish.{
  no_stats, plus, publish_range, publish_from, publish_stable_indexes,
}
use fractal_block_sync.Upload.Services.{Stable}
use fractal_block_sync.Upload.Once.Guarded.{IsPublishable, upload_range_index_if_missing-keeps}
use fractal_block_sync.Upload.Follower.Keeps.{
  SameRanges, same, Keeping, Advancing, alike, upload_from-keeps, hash_of-keeps,
}

-- The property, and the ranges of a follower.
abbrev pub Framed : (E : Provider) → (Live E → Type 0) → UploadFollower → Live E → Type 0
Framed E Inv f live = Inv live × SameRanges f live.0

joined : {f g h : UploadFollower} → SameRanges f g → SameRanges g h → SameRanges f h
joined p q = record {
  same_managed = q.same_managed ∙ p.same_managed;
  same_range = q.same_range ∙ p.same_range;
  same_delay = q.same_delay ∙ p.same_delay;
  same_next = q.same_next ∙ p.same_next;
}

module _ (E : Provider) (Inv : Live E → Type 0) (tip end : ℕ) (K : Keeping E Inv tip end) where
  Framed-call : (f g : UploadFollower) → Stable E (λ s. Framed E Inv f (g, s))
  Framed-call f g =
      let K' = K.by_call g in
      record {
        by_choose = λ s (v, r). (K'.by_choose s v, r);
        by_count = λ s (v, r). (K'.by_count s v, r);
        by_hash = λ h s (v, r). (K'.by_hash h s v, r);
        by_raw = λ h s (v, r). (K'.by_raw h s v, r);
        by_block = λ h s (v, r). (K'.by_block h s v, r);
        by_object = λ h s (v, r). (K'.by_object h s v, r);
        by_put = λ h d s (v, r). (K'.by_put h d s v, r);
      }

  pub framed : (f : UploadFollower) → Keeping E (Framed E Inv f) tip end
  framed f = record {
    by_call = Framed-call f;
    by_fields = λ g h s q (v, r). (K.by_fields g h s q v, joined r q);
    by_index = λ g key d s p (v, r). (K.by_index g key d s p v, r);
  }

  publish_range-keeps :
      (f : UploadFollower) (live : Live E)
      → ((g : Live E) → Inv g → SameRanges f g.0)
      → end_of_range f.next_index_start f.range_size ≤ end
      → end_of_range f.next_index_start f.range_size + f.stable_delay ≤ tip
      → Inv live
      → Inv (publish_range E f (end_of_range f.next_index_start f.range_size) live).1
  unfolding publish_range
  publish_range-keeps f live ranges below stable v =
      let range_end = end_of_range f.next_index_start f.range_size in
      continue-keeps Inv
        (outside (upload_blocks_from E f.next_index_start range_end f.upload_workers) live) _
        (upload_from-keeps E Inv tip end K f.next_index_start range_end f.upload_workers live v)
        (λ _ (h, t) w.
          continue-keeps Inv
            (outside (upload_range_index_if_missing E f.next_index_start f.range_size) (h, t)) _
            (upload_range_index_if_missing-keeps E (λ u. Inv (h, u)) (K.by_call h)
              f.next_index_start f.range_size
              (λ key d u named x.
                let q = ranges (h, u) x in
                K.by_index h key d u
                  (subst (λ y. IsPublishable y tip h.range_size end key) (sym q.same_delay)
                    (subst (λ y. IsPublishable f.stable_delay tip y end key) (sym q.same_range)
                      (f.next_index_start, named, below, stable)))
                  x)
              t w)
            (λ _ c w2.
              continue-keeps Inv (hash_of E range_end c) _
                (hash_of-keeps E Inv tip end K range_end c w2)
                (λ hash b w3. alike E Inv tip end K _ b refl refl refl refl w3)))

module _ (E : Provider) (Inv : Live E → Type 0) (tip end : ℕ) (K : Keeping E Inv tip end)
    (A : Advancing E Inv) where
  pub next-keeps :
      (f g : UploadFollower) (s : E.State) (next : ℕ)
      → next_range_start f.next_index_start f.range_size ≡ some next
      → Framed E Inv f (g, s)
      → Inv (record g { next_index_start = next }, s)
  next-keeps f g s next e (v, r) =
      A.by_next g s next
        (subst (λ x. next_range_start x g.range_size ≡ some next) (sym r.same_next)
          (subst (λ x. next_range_start f.next_index_start x ≡ some next) (sym r.same_range) e))
        v

  publish_from-keeps :
      (fuel stable_tip : ℕ) (stats : FollowerStats) (live : Live E)
      → stable_tip + live.0.stable_delay ≤ tip
      → Inv live
      → Inv (publish_from E fuel stable_tip end stats live).1
  unfolding publish_from prune_recent_hashes
  publish_from-keeps zero stable_tip stats live d v = v
  publish_from-keeps (suc fuel) stable_tip stats (f, s) d v =
      let range_end = end_of_range f.next_index_start f.range_size in
      elim (Bool-cases
        (ltb end f.next_index_start || (ltb end range_end || ltb stable_tip range_end))) [
          | inl y ↦ rw y v
          | inr z ↦ rw z (
              continue-leads (Framed E Inv f) Inv (publish_range E f range_end (f, s)) _
                (publish_range-keeps E (Framed E Inv f) tip end (framed E Inv tip end K f) f (f, s)
                  (λ g w. w.1) (ground arith) (ground arith) (v, same f))
                (λ g w. w.0)
                (λ more (g, t) w.
                  elim (Option-cases (next_range_start f.next_index_start f.range_size)) [
                    | inl last ↦ rw last (w.0)
                    | inr (next, e) ↦ rw e (
                        publish_from-keeps fuel stable_tip (plus stats more) _
                          (subst (λ x. stable_tip + x ≤ tip) (sym w.1.same_delay) d)
                          (alike E Inv tip end K _ (record g { next_index_start = next }, t) refl
                            refl refl refl (next-keeps f g t next e w)))
                  ]))
        ]

  pub publish_stable_indexes-keeps :
      (live : Live E) → Inv live → Inv (publish_stable_indexes E tip end live).1
  unfolding publish_stable_indexes
  publish_stable_indexes-keeps (f, s) v = elim (Bool-cases (ltb tip f.stable_delay)) [
    | inl y ↦ rw y v
    | inr z ↦
        rw z (publish_from-keeps (suc end) (tip - f.stable_delay) no_stats (f, s) (ground arith) v)
  ]
