-- ===== src/Upload/Follower.antt =====
-- The state of `UploadFollower`, and what its methods do to the cache of recent hashes.
pub mod Recent
pub mod Publish
pub mod Advance
pub mod Attempt
pub mod Ancestor
pub mod Boundary
pub mod Keeps
pub mod Guarded
pub mod Aligned
pub mod Fresh
use fractal_block_sync.Prelude.{
  ℕ, zero, suc, ◌-◌, Bool, true, false, ◌&&◌, ◌||◌, not, Option, none, some, List, [], ◌∷◌, Text,
  codes, ltb, leb, ◌==◌, if◌then◌else◌,
}
use fractal_block_sync.Errors.{Result, ok, err, ◌>>=◌, reorg_published, wrapped}
use fractal_block_sync.Effects.{Effect}
use fractal_block_sync.RangeIndex.{start_height}
use fractal_block_sync.Upload.Services.{Provider, UploadConfig}
use fractal_block_sync.Upload.Once.{range_size_of, workers_of}

pub record UploadFollower : Type 0 where
  pub cfg : UploadConfig
  pub range_size : ℕ
  pub stable_delay : ℕ
  pub upload_workers : ℕ
  pub managed_start : ℕ
  pub initialized : Bool
  pub last_tip : ℕ
  pub next_index_start : ℕ
  pub recent_hashes : List (ℕ × Text)

pub record FollowerStats : Type 0 where
  pub uploaded_blocks : ℕ
  pub published_indexes : ℕ

unfoldable pub new_upload_follower : UploadConfig → Result UploadFollower
new_upload_follower cfg = do
  managed_start ← start_height cfg.from_height (range_size_of cfg)
  ok record {
    cfg = cfg;
    range_size = range_size_of cfg;
    stable_delay = cfg.stable_delay;
    upload_workers = workers_of cfg;
    managed_start = managed_start;
    initialized = false;
    last_tip = 0;
    next_index_start = managed_start;
    recent_hashes = [];
  }

-- The map of heights to hashes holds at most one entry for a height.
unfoldable pub recall : ℕ → List (ℕ × Text) → Option Text
recall height [] = none
recall height ((h, hash) ∷ rest) = if h == height then some hash else recall height rest

-- The entries whose height passes a test: what a loop of `delete` leaves.
unfoldable pub keep_heights : (ℕ → Bool) → List (ℕ × Text) → List (ℕ × Text)
keep_heights test [] = []
keep_heights test ((h, hash) ∷ rest) =
    let kept = keep_heights test rest in if test h then (h, hash) ∷ kept else kept

unfoldable pub remember : ℕ → Text → List (ℕ × Text) → List (ℕ × Text)
unfolding keep_heights
remember height hash entries = (height, hash) ∷ keep_heights (λ h. not (h == height)) entries

unfoldable pub published_boundary : UploadFollower → Option ℕ
published_boundary f =
    if leb f.next_index_start f.managed_start then none else some (f.next_index_start - 1)

unfoldable pub ensure_published_boundary_visible : UploadFollower → ℕ → Result (Unit {0})
unfolding published_boundary
ensure_published_boundary_visible f end = elim (published_boundary f) [
  | none ↦ ok tt
  | some boundary ↦
      if leb boundary end
      then ok tt
      else err (wrapped (codes "tip_height") (reorg_published end f.next_index_start))
]

unfoldable pub recent_cache_start : UploadFollower → ℕ → ℕ
recent_cache_start f end =
    let start =
      if ltb f.managed_start f.next_index_start then f.next_index_start - 1 else f.managed_start in
    if ltb end start then end else start

unfoldable pub prune_recent_hashes : ℕ → UploadFollower → UploadFollower
unfolding keep_heights recent_cache_start
prune_recent_hashes end f =
    let start = recent_cache_start f end in
    record f { recent_hashes = keep_heights (λ h. leb start h && leb h end) f.recent_hashes }

-- A reorganisation at this height would change what an index has published.
unfoldable pub is_published : UploadFollower → ℕ → Bool
is_published f height = ltb height f.next_index_start && ltb f.managed_start f.next_index_start

-- The last lines of an attempt: `f.lastTip = endHeight` and the pruning.
unfoldable pub settle : ℕ → UploadFollower → UploadFollower
unfolding prune_recent_hashes
settle end f = prune_recent_hashes end (record f { last_tip = end })

-- A method runs on the follower and the state of the world.
abbrev pub Live : Provider → Type 0
Live E = UploadFollower × E.State

abbrev pub outside : {S F A : Type 0} → Effect S A → Effect (F × S) A
outside m (f, s) = let (r, t) = m s in (r, (f, t))

abbrev pub update : {S F : Type 0} → (F → F) → Effect (F × S) (Unit {0})
update g (f, s) = (ok tt, (g f, s))

-- What a method does depends on the follower's fields.
abbrev pub reading : {S F A : Type 0} → (F → Effect (F × S) A) → Effect (F × S) A
reading m (f, s) = m f (f, s)
