-- ===== src/Tests/Follower.antt =====
-- The follower at concrete inputs.
use fractal_block_sync.Prelude.{
  ℕ, ◌≡◌, refl, arith, true, false, some, List, [], ◌∷◌, Text, codes, text_eq,
}
use fractal_block_sync.Errors.{ok, wrapped, reorg_published, ◌>>=◌}
use fractal_block_sync.Hex
use fractal_block_sync.Pool
use fractal_block_sync.Text.{trim_space}
use fractal_block_sync.Text.Decimal.{decimal, decimal_010}
use fractal_block_sync.RangeIndex.{object_key, encode, start_height, key_text}
use fractal_block_sync.Upload.Windows
use fractal_block_sync.Upload.Blocks.{upload_blocks_from, call, uploads}
use fractal_block_sync.Upload.Probes.{upload_blocks}
use fractal_block_sync.Upload.Indexes.{upload_range_index_if_missing}
use fractal_block_sync.Upload.Once.{end_height}
use fractal_block_sync.Tests.Uploads.{chain, world, empty, config, after, same_text}
use fractal_block_sync.Upload.Follower.{
  UploadFollower, new_upload_follower, recall, prune_recent_hashes,
}
use fractal_block_sync.Upload.Follower.Recent.{ancestor_from, refresh_recent_hashes}
use fractal_block_sync.Upload.Follower.Attempt.{follow_once}
use fractal_block_sync.Upload.Follower.Ancestor.{IsAncestor, ancestor_from-IsAncestor}
use fractal_block_sync.Upload.Follower.Boundary.{follow_once-boundary}
use fractal_block_sync.Upload.Follower.Guarded.{follow_once_guarded}
use fractal_block_sync.Upload.Follower.Aligned.{IsAligned}
use fractal_block_sync.Upload.Follower.Aligned.Attempts.{follow_once-IsAligned}

-- A follower of ranges of four that has published five, and has seen the tip at 25.
abbrev follower : UploadFollower
follower = record {
  cfg = config;
  range_size = 4;
  stable_delay = 3;
  upload_workers = 2;
  managed_start = 0;
  initialized = true;
  last_tip = 25;
  next_index_start = 20;
  recent_hashes = [];
}

-- The node's tip at 9 is below what is published.
follow_once-boundary_example :
    ((follow_once world (follower, empty)).0.1
      ≡ some (wrapped (codes "tip_height") (reorg_published 9 20)))
    × ((follow_once world (follower, empty)).1 ≡ (follower, empty))
unfolding end_height
follow_once-boundary_example =
    follow_once-boundary world follower 9 empty empty refl refl (omega arith) (omega arith)
      (omega arith)

-- A new follower with a delay above the tip publishes nothing.
abbrev careful : UploadFollower
careful = record follower {
  stable_delay = 10;
  initialized = false;
  last_tip = 0;
  next_index_start = 0;
}

same_tip : {a b : ℕ} → ok a ≡ ok b → a ≡ b
same_tip e = cc

follow_once_guarded_example : (follow_once world (careful, empty)).1.1.indexes ≡ []
follow_once_guarded_example =
    follow_once_guarded world (λ s. s.indexes ≡ [])
      (record {
        by_choose = λ s p. p;
        by_count = λ s p. p;
        by_hash = λ h s p. p;
        by_raw = λ h s p. p;
        by_block = λ h s p. p;
        by_object = λ k s p. p;
        by_put = λ h d s p. p;
      })
      careful empty
      (λ tip key d t told (start, named, below, stable) p.
        absurd (omega (arith, same_tip told, stable)))
      refl

follow_once-IsAligned_example : IsAligned 0 4 (follow_once world (follower, empty)).1.0
follow_once-IsAligned_example =
    follow_once-IsAligned world 0 4 (omega arith) (omega arith) (omega arith) follower empty
      (record {
        same_start = refl;
        same_size = refl;
        fits = omega arith;
        ranges = 5;
        at_range = omega arith;
      })

-- Heights 4 to 6 are remembered, and the block at 6 has been replaced.
abbrev known : List (ℕ × Text)
known = (6, chain 7) ∷ (5, chain 5) ∷ (4, chain 4) ∷ []

ancestor_at : (ancestor_from world known 3 6 empty).0 ≡ ok (some 5)
unfolding ancestor_from recall text_eq Hex.encode Hex.hex_digit
ancestor_at = refl

ancestor_from-IsAncestor_example : IsAncestor chain known 3 6 6 (some 5)
ancestor_from-IsAncestor_example =
    ancestor_from-IsAncestor world chain (λ h s t e. same_text _ _ e) known 3 6 6 empty
      (omega arith) (after (ancestor_from world known 3 6 empty) ancestor_at) (omega arith)
      (omega arith)

-- The first attempt of a new follower uploads all blocks up to the tip, and publishes one index.
first_attempt :
    (new_upload_follower config >>= λ f. ok (follow_once world (f, empty)).0.0)
    ≡ ok record {
      tip = 9;
      last_tip = 0;
      next_index_start = 4;
      uploaded_blocks = 10;
      published_indexes = 1;
      waiting = false;
    }
unfolding new_upload_follower follow_once end_height start_height object_key upload_blocks
    Windows.end_of_range Windows.upload_probe_heights Pool.run Pool.moves Pool.idle_slots
    Pool.perform Pool.pick Pool.has_returned upload_blocks_from Windows.heights_between
    Windows.previous_upload_window_start call Hex.decode trim_space Hex.hex_value Hex.encode
    Hex.hex_digit text_eq uploads upload_range_index_if_missing encode key_text decimal decimal_010
    Windows.next_range_start Windows.final_upload_window_start refresh_recent_hashes
    prune_recent_hashes
first_attempt = refl
