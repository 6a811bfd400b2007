-- ===== src/Upload/Once/Guarded.antt =====
-- Which indexes `UploadOnce` publishes.
use fractal_block_sync.Prelude.{
  ℕ, zero, suc, ◌+◌, ◌-◌, ◌≤◌, ◌≡◌, arith, Bool, true, false, ◌&&◌, List, Bytes, Text, u64, ltb,
  leb, if◌then◌else◌, Bool-cases, Option-cases, inl, inr,
}
use fractal_block_sync.Errors.{ok, wrap}
use fractal_block_sync.Effects.{Effect, continue}
use fractal_block_sync.Effects.Laws.{continue-keeps, wrapped-keeps, wrap_result-keeps, lifted-keeps}
use fractal_block_sync.RangeIndex.{object_key, encode, start_height}
use fractal_block_sync.Upload.Services.{Provider, UploadConfig, Stable}
use fractal_block_sync.Upload.Windows.{end_of_range, next_range_start}
use fractal_block_sync.Upload.Probes.Covered.{upload_blocks-keeps}
use fractal_block_sync.Upload.Probes.{upload_blocks}
use fractal_block_sync.Upload.Indexes.{
  max_strings, range_hashes, publish_hashes, upload_range_index, upload_range_index_if_missing,
}
use fractal_block_sync.Upload.Once.{
  is_stable, end_height, upload_range, range_round, ranges_from, upload_to, range_size_of,
  workers_of,
}

-- A range of the configured size that ends neither above the last height to upload nor within the
-- delay of the tip.
abbrev pub IsPublishable : ℕ → ℕ → ℕ → ℕ → Text → Type 0
IsPublishable delay tip range_size end key =
    (start : ℕ) × (object_key start range_size ≡ ok key)
    × (end_of_range start range_size ≤ end)
    × (end_of_range start range_size + delay ≤ tip)

module _ (E : Provider) (P : E.State → Type 0) (K : Stable E P) where
  range_hashes-keeps : (rounds h : ℕ) (s : E.State) → P s → P (range_hashes E rounds h s).1
  unfolding range_hashes
  range_hashes-keeps zero h s p = p
  range_hashes-keeps (suc rounds) h s p =
      wrapped-keeps P _ (E.get_block_hash h s) _ (K.by_hash h s p) (λ hash t q.
        continue-keeps P (range_hashes E rounds (u64 (h + 1)) t) _
          (range_hashes-keeps rounds (u64 (h + 1)) t q) (λ _ u r. r))

  module _ (start range_size : ℕ)
      (by_index : (key : Text) (d : Bytes) (s : E.State)
        → object_key start range_size ≡ ok key
        → P s
        → P (E.put_range_index key d s).1) where
    publish_hashes-keeps :
        (hashes : List Text) (s : E.State) → P s → P (publish_hashes E start range_size hashes s).1
    unfolding publish_hashes
    publish_hashes-keeps hashes s p =
        continue-keeps P (wrap _ (encode hashes range_size), s) _ p
          (λ bin t q. lifted-keeps P (object_key start range_size) t _ q (λ key named.
            wrap_result-keeps P _ (E.put_range_index key bin t) (by_index key bin t named q)))

    upload_range_index-keeps : (s : E.State) → P s → P (upload_range_index E start range_size s).1
    unfolding upload_range_index
    upload_range_index-keeps s p = elim (Bool-cases (ltb max_strings range_size)) [
      | inl y ↦ rw y p
      | inr n ↦ rw n (
          continue-keeps P (range_hashes E (u64 (start + range_size) - start) start s) _
            (range_hashes-keeps (u64 (start + range_size) - start) start s p)
            (λ hashes t q. publish_hashes-keeps hashes t q))
    ]

    pub upload_range_index_if_missing-keeps :
        (s : E.State) → P s → P (upload_range_index_if_missing E start range_size s).1
    unfolding upload_range_index_if_missing
    upload_range_index_if_missing-keeps s p =
        lifted-keeps P (object_key start range_size) s _ p
          (λ key named. wrapped-keeps P _ (E.object_exists key s) _ (K.by_object key s p) missing)
      where
        missing :
            (exists : Bool) (t : E.State)
            → P t
            → P
                (if◌then◌else◌ {A = Effect E.State Bool} exists
                  (λ u. (ok false, u))
                  (λ u. continue (upload_range_index E start range_size u) (λ _ v. (ok true, v)))
                  t).1
        missing true t q = q
        missing false t q =
            continue-keeps P (upload_range_index E start range_size t) _
              (upload_range_index-keeps t q) (λ _ u r. r)

  module _ (delay tip range_size end workers : ℕ)
      (by_index : (key : Text) (d : Bytes) (s : E.State)
        → IsPublishable delay tip range_size end key
        → P s
        → P (E.put_range_index key d s).1) where
    upload_range-keeps :
        (start : ℕ) (s : E.State)
        → P s
        → P (upload_range E delay tip range_size end workers start s).1
    unfolding upload_range is_stable
    upload_range-keeps start s p =
        let range_end = end_of_range start range_size in
        continue-keeps P
          (upload_blocks E start (if ltb end range_end then end else range_end) workers s) _
          (upload_blocks-keeps E P K start _ workers s p)
          (λ _ t q. elim (Bool-cases (leb range_end end && is_stable tip delay range_end)) [
            | inr n ↦ rw n q
            | inl y ↦ rw y (
                continue-keeps P (upload_range_index_if_missing E start range_size t) _
                  (upload_range_index_if_missing-keeps start range_size
                    (λ key d u named r.
                      by_index key d u (start, named, ground arith, ground arith) r)
                    t q)
                  (λ _ u r. r))
          ])

    range_round-keeps :
        (start : ℕ) (s : E.State)
        → P s
        → P (range_round E delay tip range_size end workers start s).1
    unfolding range_round
    range_round-keeps start s p =
        lifted-keeps P (object_key start range_size) s _ p
          (λ key named. wrapped-keeps P _ (E.object_exists key s) _ (K.by_object key s p) missing)
      where
        missing :
            (exists : Bool) (t : E.State)
            → P t
            → P
                (if◌then◌else◌ {A = Effect E.State (Unit {0})} exists
                  (λ u. (ok tt, u))
                  (upload_range E delay tip range_size end workers start)
                  t).1
        missing true t q = q
        missing false t q = upload_range-keeps start t q

    ranges_from-keeps :
        (fuel start : ℕ) (s : E.State)
        → P s
        → P (ranges_from E delay tip range_size end workers fuel start s).1
    unfolding ranges_from
    ranges_from-keeps zero start s p = p
    ranges_from-keeps (suc fuel) start s p = elim (Bool-cases (ltb end start)) [
      | inl y ↦ rw y p
      | inr n ↦ rw n (
          continue-keeps P (range_round E delay tip range_size end workers start s) _
            (range_round-keeps start s p)
            (λ _ t q. elim (Option-cases (next_range_start start range_size)) [
              | inl last ↦ rw last q
              | inr (next, e) ↦ rw e (ranges_from-keeps fuel next t q)
            ]))
    ]

  -- A property of the world that all calls keep, except that an index is published, and that is
  -- also kept when an index is published whose range ends neither above the last height to
  -- upload nor within the stable delay of the tip, holds after UploadOnce has worked up to the
  -- tip: no other index is ever published.
  pub upload_to-keeps :
      (cfg : UploadConfig) (tip : ℕ) (s : E.State)
      → ((key : Text) (d : Bytes) (t : E.State)
          → IsPublishable cfg.stable_delay tip
              (range_size_of cfg)
              (end_height cfg.to_height tip)
              key
          → P t
          → P (E.put_range_index key d t).1)
      → P s
      → P (upload_to E cfg tip s).1
  unfolding upload_to
  upload_to-keeps cfg tip s by_index p =
      elim (Bool-cases (ltb (end_height cfg.to_height tip) cfg.from_height)) [
        | inl y ↦ rw y p
        | inr n ↦ rw n (
            lifted-keeps P (start_height cfg.from_height (range_size_of cfg)) s _ p (λ start _.
              ranges_from-keeps cfg.stable_delay tip (range_size_of cfg)
                (end_height cfg.to_height tip) (workers_of cfg) by_index
                (suc (end_height cfg.to_height tip)) start s p))
      ]
