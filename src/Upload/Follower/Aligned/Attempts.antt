-- ===== src/Upload/Follower/Aligned/Attempts.antt =====
-- An attempt of the follower keeps its next index at a range that it manages.
use fractal_block_sync.Prelude.{ℕ, ◌≤◌, ◌<◌, refl, arith, max_u64}
use fractal_block_sync.Upload.Services.{Provider, Stable}
use fractal_block_sync.Upload.Follower.{UploadFollower, Live}
use fractal_block_sync.Upload.Follower.Attempt.{follow_once}
use fractal_block_sync.Upload.Follower.Keeps.{Keeping, Advancing}
use fractal_block_sync.Upload.Follower.Keeps.Attempts.{follow_once-keeps}
use fractal_block_sync.Upload.Follower.Aligned.{IsAligned, step, alike}

module _ (E : Provider) (managed n : ℕ) (positive : 0 < n) (small : n ≤ max_u64)
    (room : managed ≤ max_u64) where
  abbrev Holds : Live E → Type 0
  Holds live = IsAligned managed n live.0

  any_call : (f : UploadFollower) → Stable E (λ s. Holds (f, s))
  any_call f = record {
    by_choose = λ s v. v;
    by_count = λ s v. v;
    by_hash = λ h s v. v;
    by_raw = λ h s v. v;
    by_block = λ h s v. v;
    by_object = λ k s v. v;
    by_put = λ h d s v. v;
  }

  keeping : (tip end : ℕ) → Keeping E Holds tip end
  keeping tip end = record {
    by_call = any_call;
    by_fields = λ f g s r v. alike managed n positive small f g r v;
    by_index = λ f key d s i v. v;
  }

  advancing : Advancing E Holds
  advancing = record {
    by_next = λ f s next e v. step managed n positive small f _ e refl refl refl v;
    by_reset = λ f s v. record {
      same_start = v.same_start;
      same_size = v.same_size;
      fits = omega (arith, v.same_start, room);
      ranges = 0;
      at_range = omega (arith, v.same_start);
    };
  }

  -- For a range size from one to the largest uint64: if a follower has that range size and a
  -- given first range, and its next index starts a whole number of ranges after the first one,
  -- within uint64, then so it does after one UploadOnce, whatever the services answer and
  -- wherever the attempt fails.
  pub follow_once-IsAligned :
      (f : UploadFollower) (s : E.State)
      → IsAligned managed n f
      → IsAligned managed n (follow_once E (f, s)).1.0
  follow_once-IsAligned f s v =
      follow_once-keeps E Holds advancing f s (λ tip told. keeping tip _) v
