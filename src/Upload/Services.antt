-- ===== src/Upload/Services.antt =====
-- The interfaces `BlockProvider` and `ObjectWriter`, the runtime, and the configuration.
use fractal_block_sync.Prelude.{ℕ, Bool, true, Bytes, Text, Option, ◌≡◌}
use fractal_block_sync.Errors.{Err, ok}
use fractal_block_sync.Effects.{Effect}

-- The node and the object store answer from a state of the world that they may change. The scheduler
-- picks the goroutine that goes on, and the caller's context may be done.
pub record Provider : Type 1 where
  pub State : Type 0
  pub choose : State → ℕ × State
  pub ctx_error : State → Option Err
  pub get_block_count : Effect State ℕ
  pub get_block_hash : ℕ → Effect State Text
  pub get_block_raw_hex : Text → Effect State Text
  pub block_exists : Text → Effect State Bool
  pub object_exists : Text → Effect State Bool
  pub put_block : Text → Bytes → Effect State (Unit {0})
  pub put_range_index : Text → Bytes → Effect State (Unit {0})

pub record UploadConfig : Type 0 where
  pub from_height : ℕ
  pub to_height : Option ℕ
  pub range_size : ℕ
  pub stable_delay : ℕ
  pub upload_workers : ℕ

-- A property of the world that no call takes away, except that an index is published.
pub record Stable (E : Provider) (P : E.State → Type 0) : Type 0 where
  pub by_choose : (s : E.State) → P s → P (E.choose s).1
  pub by_count : (s : E.State) → P s → P (E.get_block_count s).1
  pub by_hash : (h : ℕ) (s : E.State) → P s → P (E.get_block_hash h s).1
  pub by_raw : (h : Text) (s : E.State) → P s → P (E.get_block_raw_hex h s).1
  pub by_block : (h : Text) (s : E.State) → P s → P (E.block_exists h s).1
  pub by_object : (k : Text) (s : E.State) → P s → P (E.object_exists k s).1
  pub by_put : (h : Text) (d : Bytes) (s : E.State) → P s → P (E.put_block h d s).1

-- A node whose chain does not change, and a store that tells what it has and loses nothing.
pub record IsLawful (E : Provider) (chain : ℕ → Text) (Stored : Text → E.State → Type 0)
    : Type 0 where
  pub hash_reply : (h : ℕ) (s : E.State) {t : Text} → (E.get_block_hash h s).0 ≡ ok t → t ≡ chain h
  pub found :
      (h : Text) (s : E.State) → (E.block_exists h s).0 ≡ ok true → Stored h (E.block_exists h s).1
  pub put :
      (h : Text) (d : Bytes) (s : E.State)
      → (E.put_block h d s).0 ≡ ok tt
      → Stored h (E.put_block h d s).1
  pub kept : (h : Text) → Stable E (Stored h)
