-- ===== src/Upload/Follower/Aligned.antt =====
-- The follower's next index starts at a range that it manages, whatever its methods meet.
pub mod Attempts
use fractal_block_sync.Prelude.{
  ℕ, zero, suc, ◌+◌, ◌*◌, ◌≤◌, ◌<◌, ◌≡◌, refl, sym, subst, ◌∙◌, arith, some, max_u64,
}
use fractal_block_sync.Upload.Windows.{next_range_start}
use fractal_block_sync.Upload.Once.Ends.{next_range_start_lem}
use fractal_block_sync.Upload.Follower.{UploadFollower}
use fractal_block_sync.Upload.Follower.Keeps.{SameRanges}

-- The range size and the first range are those given, and the next index starts at a later range.
pub record IsAligned (managed n : ℕ) (f : UploadFollower) : Type 0 where
  pub same_start : f.managed_start ≡ managed
  pub same_size : f.range_size ≡ n
  pub fits : f.next_index_start ≤ max_u64
  pub ranges : ℕ
  pub at_range : f.next_index_start ≡ managed + ranges * n

module _ (managed n : ℕ) (positive : 0 < n) (small : n ≤ max_u64) where
  pub step :
      (f g : UploadFollower) {next : ℕ}
      → next_range_start f.next_index_start f.range_size ≡ some next
      → g.managed_start ≡ f.managed_start
      → g.range_size ≡ f.range_size
      → g.next_index_start ≡ next
      → IsAligned managed n f
      → IsAligned managed n g
  step f g {next} e a b c v =
      let same : f.range_size ≡ n = v.same_size in
      let lem =
        next_range_start_lem f.next_index_start n next positive small v.fits
          (subst (λ x. next_range_start f.next_index_start x ≡ some next) same e) in
      record {
        same_start = a ∙ v.same_start;
        same_size = b ∙ v.same_size;
        fits = omega (arith, lem.1, c);
        ranges = suc v.ranges;
        at_range = grind (arith, lem.0, c, v.at_range);
      }

  pub alike :
      (f g : UploadFollower) → SameRanges f g → IsAligned managed n f → IsAligned managed n g
  alike f g r v = record {
    same_start = r.same_managed ∙ v.same_start;
    same_size = r.same_range ∙ v.same_size;
    fits = omega (arith, v.fits, r.same_next);
    ranges = v.ranges;
    at_range = r.same_next ∙ v.at_range;
  }
