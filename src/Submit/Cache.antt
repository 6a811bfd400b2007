-- ===== src/Submit/Cache.antt =====
-- `submitRangeIndexCache`: the last range index that was downloaded, and the keys known to be
-- missing. The downloader and the range size are the ones that the cache was made with.
pub mod Transparent
use fractal_block_sync.Prelude.{
  ℕ, Bool, true, false, not, ◌||◌, List, [], ◌∷◌, Bytes, Text, codes, if◌then◌else◌, text_eq,
}
use fractal_block_sync.Errors.{Err, Result, ok, err, not_found, is_not_found, at_text, wrap}
use fractal_block_sync.RangeIndex
use fractal_block_sync.Submit.Services.{Services}
use fractal_block_sync.Submit.Resolve.{download_error}

pub record RangeIndexCache : Type 0 where
  pub range_size : ℕ
  pub key : Text
  pub start : ℕ
  pub bin : Bytes
  pub missing : List Text

unfoldable pub new_cache : ℕ → RangeIndexCache
new_cache range_size = record {
  range_size = range_size;
  key = [];
  start = 0;
  bin = [];
  missing = [];
}

-- `_, ok := c.missing[key]`
unfoldable pub is_missing : Text → List Text → Bool
is_missing key [] = false
is_missing key (k ∷ ks) = text_eq k key || is_missing key ks

-- The read at the end of `hashAt`.
unfoldable pub read_cached : RangeIndexCache → ℕ → Result Text
read_cached c height =
    wrap (at_text (codes "read range index") c.key)
      (RangeIndex.hash_at c.bin c.start height c.range_size)

-- A method that returns a result leaves the cache and the world in new states.
pub record Reply (S : Type 0) : Type 0 where
  pub answer : Result Text
  pub cache : RangeIndexCache
  pub state : S

abbrev pub replies : {S : Type 0} → Result Text → RangeIndexCache → S → Reply S
replies r c s = record { answer = r; cache = c; state = s }

module _ (E : Services) (c : RangeIndexCache) where
  unfoldable pub loaded : Text → ℕ → ℕ → Result Bytes × E.State → Reply E.State
  unfolding read_cached download_error
  loaded key start height (err e, s) =
      if is_not_found e
      then replies (err e) (record c { missing = key ∷ c.missing }) s
      else replies (err (at_text (codes "download range index") key e)) c s
  loaded key start height (ok bin, s) =
      let c' = record c { key = key; start = start; bin = bin } in
      replies (read_cached c' height) c' s

  unfoldable pub with_key : ℕ → Result (Text × ℕ) → E.State → Reply E.State
  unfolding loaded is_missing
  with_key height (err e) s = replies (err e) c s
  with_key height (ok (key, start)) s =
      if is_missing key c.missing
      then replies (err not_found) c s
      else if not (text_eq c.key key)
      then loaded key start height (E.download_object key s)
      else replies (read_cached c height) c s

  unfoldable pub hash_at : ℕ → E.State → Reply E.State
  unfolding with_key
  hash_at height s = with_key height (RangeIndex.object_key_for_height height c.range_size) s
