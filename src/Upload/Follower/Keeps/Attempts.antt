-- ===== src/Upload/Follower/Keeps/Attempts.antt =====
-- What an attempt of the follower keeps.
use fractal_block_sync.Prelude.{
  ℕ, zero, suc, ◌+◌, ◌-◌, ◌≡◌, refl, not, Option, none, some, List, Text, codes, u64, ltb, leb,
  if◌then◌else◌, text_eq, Bool-cases, inl, inr,
}
use fractal_block_sync.Errors.{Result, ok, err, at_height}
use fractal_block_sync.Effects.{Effect, ◌>>=◌, pure, wrapping}
use fractal_block_sync.Effects.Laws.{continue-keeps, lifted-keeps}
use fractal_block_sync.Upload.Services.{Provider}
use fractal_block_sync.Upload.Blocks.{upload_blocks_from}
use fractal_block_sync.Upload.Follower.{
  UploadFollower, FollowerStats, Live, outside, keep_heights, recall, is_published,
  ensure_published_boundary_visible,
}
use fractal_block_sync.Upload.Follower.Recent.{
  hash_of, refresh_recent_hashes, ancestor_from, lower_bound, find_common_ancestor,
}
use fractal_block_sync.Upload.Follower.Publish.{publish_stable_indexes}
use fractal_block_sync.Upload.Follower.Advance.{
  reorg_start, upload_reorg_from, upload_reorg, extend, compared, upload_increment,
}
use fractal_block_sync.Upload.Follower.Attempt.{
  UploadFollowResult, attempt, attempted, counted, follow_once,
}
use fractal_block_sync.Upload.Once.{end_height}
use fractal_block_sync.Effects.Laws.{wrapped-keeps}
use fractal_block_sync.Upload.Services.{Stable}
use fractal_block_sync.Upload.Follower.Keeps.{
  Keeping, Advancing, alike, either, settle-keeps, refresh_recent_hashes-keeps, hash_of-keeps,
  upload_from-keeps,
}
use fractal_block_sync.Upload.Follower.Keeps.Publish.{publish_stable_indexes-keeps}
use fractal_block_sync.Upload.Follower.Keeps.Start.{initialize-keeps}

module _ (E : Provider) (Inv : Live E → Type 0) (tip end : ℕ) (K : Keeping E Inv tip end)
    (A : Advancing E Inv) where
  upload_reorg_from-keeps :
      (start : ℕ) (live : Live E) → Inv live → Inv (upload_reorg_from E start end live).1
  unfolding upload_reorg_from
  upload_reorg_from-keeps start (f, s) v = elim (Bool-cases (is_published f start)) [
    | inl y ↦ rw y v
    | inr z ↦ rw z (
        continue-keeps Inv
          ((if leb start end
              then outside (upload_blocks_from E start end f.upload_workers)
              else pure 0)
            (f, s))
          _
          (either E Inv tip end K (leb start end) _ _ (f, s)
            (upload_from-keeps E Inv tip end K start end f.upload_workers (f, s) v) v)
          (λ uploaded a v1.
            let cut = record (a.0) {
              recent_hashes = keep_heights (λ h. ltb h start) a.0.recent_hashes;
            } in
            continue-keeps Inv
              ((if leb start end then refresh_recent_hashes E start end else pure tt) (cut, a.1)) _
              (either E Inv tip end K (leb start end) _ _ (cut, a.1)
                (refresh_recent_hashes-keeps E Inv tip end K start end (cut, a.1)
                  (alike E Inv tip end K cut a refl refl refl refl v1))
                (alike E Inv tip end K cut a refl refl refl refl v1))
              (λ _ b v2. settle-keeps E Inv tip end K end b v2)))
  ]

  ancestor_from-keeps :
      (f : UploadFollower) (known : List (ℕ × Text)) (rounds h : ℕ) (s : E.State)
      → Inv (f, s)
      → Inv (f, (ancestor_from E known rounds h s).1)
  unfolding ancestor_from
  ancestor_from-keeps f known zero h s v = v
  ancestor_from-keeps f known (suc rounds) h s v =
      from (recall h known) (λ t w. ancestor_from-keeps f known rounds (h - 1) t w)
    where
      Rest : Type 0
      Rest = (t : E.State) → Inv (f, t) → Inv (f, (ancestor_from E known rounds (h - 1) t).1)

      seen :
          (hash current : Text) (t : E.State)
          → Rest
          → Inv (f, t)
          → Inv (
            f,
            ((if text_eq current hash then pure (some h) else ancestor_from E known rounds (h - 1))
                t).1,
          )
      seen hash current t rest w = elim (Bool-cases (text_eq current hash)) [
        | inl y ↦ rw y w
        | inr n ↦ rw n (rest t w)
      ]

      from :
          (r : Option Text)
          → Rest
          → Inv (
            f,
            ((elim r as (λ _. Effect E.State (Option ℕ)) [
              | none ↦ ancestor_from E known rounds (h - 1)
              | some hash ↦
                  wrapping (at_height (codes "get block hash") h) (E.get_block_hash h)
                  >>= λ current.
                      if text_eq current hash
                      then pure (some h)
                      else ancestor_from E known rounds (h - 1)
            ])
                s).1,
          )
      from none rest = rest s v
      from (some hash) rest =
          wrapped-keeps (λ t. Inv (f, t)) _ (E.get_block_hash h s) _
            (Stable.by_hash (K.by_call f) h s v) (λ current t w. seen hash current t rest w)

  upload_reorg-keeps :
      (check : ℕ) (live : Live E) → Inv live → Inv (upload_reorg E check end live).1
  unfolding upload_reorg find_common_ancestor
  upload_reorg-keeps check (f, s) v = elim (Bool-cases (is_published f check)) [
    | inl y ↦ rw y v
    | inr z ↦ rw z (
        continue-keeps Inv (find_common_ancestor E check (f, s)) _
          (continue-keeps Inv
            (outside (ancestor_from E f.recent_hashes (suc (check - lower_bound f check)) check)
              (f, s))
            _ (ancestor_from-keeps f f.recent_hashes (suc (check - lower_bound f check)) check s v)
            (λ _ a w. w))
          (λ found a v1.
            lifted-keeps Inv (reorg_start f found) a _ v1
              (λ start _. upload_reorg_from-keeps start a v1)))
  ]

  extend-keeps : (live : Live E) → Inv live → Inv (extend E end live).1
  unfolding extend
  extend-keeps (f, s) v =
      let next = u64 (f.last_tip + 1) in
      let start = if ltb next f.managed_start then f.managed_start else next in
      continue-keeps Inv
        ((if ltb f.last_tip end
            then outside (upload_blocks_from E start end f.upload_workers)
            else pure 0)
          (f, s))
        _
        (either E Inv tip end K (ltb f.last_tip end) _ _ (f, s)
          (upload_from-keeps E Inv tip end K start end f.upload_workers (f, s) v) v)
        (λ uploaded a v1.
          continue-keeps Inv
            ((if ltb f.last_tip end then refresh_recent_hashes E start end else pure tt) a) _
            (either E Inv tip end K (ltb f.last_tip end) _ _ a
              (refresh_recent_hashes-keeps E Inv tip end K start end a v1) v1)
            (λ _ b v2. settle-keeps E Inv tip end K end b v2))

  compared-keeps :
      (check : ℕ) (current : Text) (known : Option Text) (live : Live E)
      → Inv live
      → Inv (compared E check end current known live).1
  unfolding compared
  compared-keeps check current (some known) live v =
      either E Inv tip end K (text_eq known current) _ _ live (extend-keeps live v)
        (upload_reorg-keeps check live v)
  compared-keeps check current none (f, s) v = elim (Bool-cases (is_published f check)) [
    | inl y ↦ rw y v
    | inr z ↦ rw z (upload_reorg-keeps check (f, s) v)
  ]

  upload_increment-keeps : (live : Live E) → Inv live → Inv (upload_increment E end live).1
  unfolding upload_increment
  upload_increment-keeps (f, s) v =
      let check = if ltb f.last_tip end then f.last_tip else end in
      elim (Bool-cases (ltb check f.managed_start)) [
        | inl y ↦ rw y (settle-keeps E Inv tip end K end (f, s) v)
        | inr z ↦ rw z (
            continue-keeps Inv (hash_of E check (f, s)) _
              (hash_of-keeps E Inv tip end K check (f, s) v)
              (λ current a v1. compared-keeps check current (recall check f.recent_hashes) a v1))
      ]

  pub attempt-keeps : (live : Live E) → Inv live → Inv (attempt E tip end live).1
  unfolding attempt
  attempt-keeps (f, s) v =
      either E Inv tip end K (not f.initialized) _ _ (f, s)
        (initialize-keeps E Inv tip end K A (f, s) v)
        (lifted-keeps Inv (ensure_published_boundary_visible f end) (f, s) _ v
          (λ _ _.
            continue-keeps Inv (upload_increment E end (f, s)) _ (upload_increment-keeps (f, s) v)
              (λ stats a v1.
                continue-keeps Inv (publish_stable_indexes E tip end a) _
                  (publish_stable_indexes-keeps E Inv tip end K A a v1) (λ _ b w. w))))

-- One attempt keeps the property, when its steps do for the tip that the node then reports.
module _ (E : Provider) (Inv : Live E → Type 0) (A : Advancing E Inv) where
  attempted-keeps :
      (r : UploadFollowResult) (told : Result FollowerStats × Live E)
      → Inv told.1
      → Inv (attempted E r told).1
  unfolding attempted
  attempted-keeps r (ok stats, live) v = v
  attempted-keeps r (err e, live) v = v

  counted-keeps :
      (f : UploadFollower) (r : UploadFollowResult) (reply : Result ℕ × E.State)
      → ((tip : ℕ) → reply.0 ≡ ok tip → Keeping E Inv tip (end_height f.cfg.to_height tip))
      → Inv (f, reply.1)
      → Inv (counted E f r reply).1
  unfolding counted
  counted-keeps f r (err e, s) K v = v
  counted-keeps f r (ok tip, s) K v =
      elim (Bool-cases (ltb (end_height f.cfg.to_height tip) f.cfg.from_height)) [
        | inl y ↦ rw y v
        | inr z ↦ rw z (
            attempted-keeps _ _
              (attempt-keeps E Inv tip (end_height f.cfg.to_height tip) (K tip refl) A (f, s) v))
      ]

  pub follow_once-keeps :
      (f : UploadFollower) (s : E.State)
      → ((tip : ℕ)
          → (E.get_block_count s).0 ≡ ok tip
          → Keeping E Inv tip (end_height f.cfg.to_height tip))
      → Inv (f, (E.get_block_count s).1)
      → Inv (follow_once E (f, s)).1
  unfolding follow_once
  follow_once-keeps f s K v = counted-keeps f _ (E.get_block_count s) K v
