-- ===== src/Upload/Follower/Guarded.antt =====
-- Which indexes the follower publishes.
use fractal_block_sync.Prelude.{ℕ, ◌≡◌, refl, ◌∙◌, subst, Bytes, Text}
use fractal_block_sync.Errors.{ok}
use fractal_block_sync.Upload.Services.{Provider, Stable}
use fractal_block_sync.Upload.Once.{end_height}
use fractal_block_sync.Upload.Once.Guarded.{IsPublishable}
use fractal_block_sync.Upload.Follower.{UploadFollower, Live}
use fractal_block_sync.Upload.Follower.Attempt.{follow_once}
use fractal_block_sync.Upload.Follower.Keeps.{Keeping, Advancing}
use fractal_block_sync.Upload.Follower.Keeps.Attempts.{follow_once-keeps}

module _ (E : Provider) (P : E.State → Type 0) (K : Stable E P) (n delay : ℕ) where
  -- The property, and the range size and the delay of the follower.
  abbrev Guarded : Live E → Type 0
  Guarded (g, s) = (g.range_size ≡ n) × (g.stable_delay ≡ delay) × P s

  Guarded-call : (g : UploadFollower) → Stable E (λ s. Guarded (g, s))
  Guarded-call g = record {
    by_choose = λ s (a, b, p). (a, b, K.by_choose s p);
    by_count = λ s (a, b, p). (a, b, K.by_count s p);
    by_hash = λ h s (a, b, p). (a, b, K.by_hash h s p);
    by_raw = λ h s (a, b, p). (a, b, K.by_raw h s p);
    by_block = λ h s (a, b, p). (a, b, K.by_block h s p);
    by_object = λ k s (a, b, p). (a, b, K.by_object k s p);
    by_put = λ h d s (a, b, p). (a, b, K.by_put h d s p);
  }

  keeping :
      (tip end : ℕ)
      → ((key : Text) (d : Bytes) (t : E.State)
          → IsPublishable delay tip n end key
          → P t
          → P (E.put_range_index key d t).1)
      → Keeping E Guarded tip end
  keeping tip end by_index = record {
    by_call = Guarded-call;
    by_fields = λ f g s r (a, b, p). (r.same_range ∙ a, r.same_delay ∙ b, p);
    by_index = λ f key d s i (a, b, p). (
      a,
      b,
      by_index key d s
          (subst (λ x. IsPublishable x tip n end key) b
            (subst (λ x. IsPublishable f.stable_delay tip x end key) a i))
          p,
    );
  }

  advancing : Advancing E Guarded
  advancing = record { by_next = λ f s next e v. v; by_reset = λ f s v. v }

  pub Guarded-once :
      (f : UploadFollower) (s : E.State)
      → ((tip : ℕ) (key : Text) (d : Bytes) (t : E.State)
          → (E.get_block_count s).0 ≡ ok tip
          → IsPublishable delay tip n (end_height f.cfg.to_height tip) key
          → P t
          → P (E.put_range_index key d t).1)
      → Guarded (f, s)
      → Guarded (follow_once E (f, s)).1
  Guarded-once f s by_index (a, b, p) =
      follow_once-keeps E Guarded advancing f s
        (λ tip told. keeping tip _ (λ key d t i q. by_index tip key d t told i q))
        (a, b, K.by_count s p)

-- A property of the world that all calls keep, except that an index is published, and that is
-- also kept when an index is published whose range ends neither above the last height to upload
-- nor within the stable delay of the tip that the node reports, holds after one UploadOnce of
-- the follower, whatever the services answer and wherever the attempt fails: the follower never
-- publishes another index.
pub follow_once_guarded :
    (E : Provider) (P : E.State → Type 0) (K : Stable E P) (f : UploadFollower) (s : E.State)
    → ((tip : ℕ) (key : Text) (d : Bytes) (t : E.State)
        → (E.get_block_count s).0 ≡ ok tip
        → IsPublishable f.stable_delay tip f.range_size (end_height f.cfg.to_height tip) key
        → P t
        → P (E.put_range_index key d t).1)
    → P s
    → P (follow_once E (f, s)).1.1
follow_once_guarded E P K f s by_index p =
    (Guarded-once E P K f.range_size f.stable_delay f s by_index (refl, refl, p)).2
