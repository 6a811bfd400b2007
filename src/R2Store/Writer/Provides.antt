-- ===== src/R2Store/Writer/Provides.antt =====
-- The uploader's `BlockProvider` and `ObjectWriter`, where the writer is the one of r2store.
use fractal_block_sync.Prelude.{ℕ, ◌≡◌, refl, true, Option, Bytes, Text, inl, inr}
use fractal_block_sync.Errors.{Err, Result, ok, err}
use fractal_block_sync.Effects.{Effect}
use fractal_block_sync.R2Store.Keys.{block_key}
use fractal_block_sync.R2Store.Writer.{
  S3, Writer, on_key, object_exists, upload_block, block_exists, upload_range_index,
}
use fractal_block_sync.R2Store.Writer.Stored.{
  IsStore, HasNoConflict, Has, operate, operate-keeps, Operation, do_upload_block, do_block_exists,
  do_object_exists, do_upload_range_index, object_exists-found, upload_block-Has,
}
use fractal_block_sync.Upload.Services.{Provider, IsLawful}

-- A node and the runtime, with a state of their own.
pub record Node : Type 1 where
  pub State : Type 0
  pub choose : State → ℕ × State
  pub ctx_error : State → Option Err
  pub get_block_count : Effect State ℕ
  pub get_block_hash : ℕ → Effect State Text
  pub get_block_raw_hex : Text → Effect State Text

abbrev pub on_node : {N S A : Type 0} → Effect N A → Effect (N × S) A
on_node f (n, s) = ((f n).0, ((f n).1, s))

abbrev pub on_store : {N S A : Type 0} → Effect S A → Effect (N × S) A
on_store f (n, s) = ((f s).0, (n, (f s).1))

abbrev pub provider_of : Node → S3 → Writer → Provider
provider_of N C w = record {
  State = N.State × C.State;
  choose = λ (n, s). ((N.choose n).0, ((N.choose n).1, s));
  ctx_error = λ (n, s). N.ctx_error n;
  get_block_count = on_node N.get_block_count;
  get_block_hash = λ h. on_node (N.get_block_hash h);
  get_block_raw_hex = λ h. on_node (N.get_block_raw_hex h);
  block_exists = λ h. on_store (block_exists C w h);
  object_exists = λ k. on_store (object_exists C w k);
  put_block = λ h body. on_store (upload_block C w h body);
  put_range_index = λ k body. on_store (upload_range_index C w k body);
}

module _ (N : Node) (C : S3) (object : C.State → Text → Text → Option Bytes) (L : IsStore C object)
    (calm : HasNoConflict C) (w : Writer) (chain : ℕ → Text) where
  -- The bucket has an object under the key of a block.
  abbrev pub IsStored : Text → N.State × C.State → Type 0
  IsStored hash (n, s) =
      (key : Text) × (block_key hash ≡ ok key) × ((d : Bytes) × Has C object L w key d s)

  stays :
      (o : Operation C object L w) (hash : Text) (n m : N.State) (s : C.State)
      → IsStored hash (n, s)
      → IsStored hash (m, operate C object L w o s)
  stays o hash n m s (key, named, (d, h)) =
      (key, named, (d, operate-keeps C object L w o key d s h))

  block_exists-IsStored :
      (hash : Text) (n : N.State) (s : C.State)
      → (block_exists C w hash s).0 ≡ ok true
      → IsStored hash (n, (block_exists C w hash s).1)
  unfolding block_exists
  block_exists-IsStored hash n s e = from_key (block_key hash) refl e
    where
      from_key :
          (r : Result Text)
          → block_key hash ≡ r
          → (on_key r (object_exists C w) s).0 ≡ ok true
          → IsStored hash (n, (on_key r (object_exists C w) s).1)
      from_key (err x) k h = absurd cc
      from_key (ok key) k h = (key, k, object_exists-found C object L w key s h)

  upload_block-IsStored :
      (hash : Text) (body : Bytes) (n : N.State) (s : C.State)
      → (upload_block C w hash body s).0 ≡ ok tt
      → IsStored hash (n, (upload_block C w hash body s).1)
  upload_block-IsStored hash body n s e =
      let (key, named, stored) = upload_block-Has C object L w calm hash body s e in
      elim stored [
        | inl (d, before, now) ↦ (key, named, (d, now))
        | inr now ↦ (key, named, (body, now))
      ]

  -- A put of a range index leaves the objects of all blocks.
  abbrev pub IndexesKeep : Type 0
  IndexesKeep =
      (key : Text) (body : Bytes) (hash : Text) (x : N.State × C.State)
      → IsStored hash x
      → IsStored hash ((provider_of N C w).put_range_index key body x).1

  indexes_keep : IndexesKeep
  indexes_keep key body hash (n, s) h = stays (do_upload_range_index key body) hash n n s h

  lawful :
      ((h : ℕ) (n : N.State) (t : Text) → (N.get_block_hash h n).0 ≡ ok t → t ≡ chain h)
      → IsLawful (provider_of N C w) chain IsStored
  lawful replies = record {
    hash_reply = λ h (n, s) e. replies h n _ e;
    found = λ hash (n, s) e. block_exists-IsStored hash n s e;
    put = λ hash body (n, s) e. upload_block-IsStored hash body n s e;
    kept = λ hash. record {
      by_choose = λ (n, s) h. h;
      by_count = λ (n, s) h. h;
      by_hash = λ k (n, s) h. h;
      by_raw = λ k (n, s) h. h;
      by_block = λ k (n, s) h. stays (do_block_exists k) hash n n s h;
      by_object = λ k (n, s) h. stays (do_object_exists k) hash n n s h;
      by_put = λ k body (n, s) h. stays (do_upload_block k body) hash n n s h;
    };
  }

  -- Over an S3 store in which no two requests conflict, and a node whose chain does not change,
  -- the writer keeps what the uploader relies on: a block that is reported to exist, or that was
  -- put without an error, has an object under its key, and no call of the node or of the writer
  -- takes one away, the put of a range index included.
  pub writer-IsLawful :
      ((h : ℕ) (n : N.State) (t : Text) → (N.get_block_hash h n).0 ≡ ok t → t ≡ chain h)
      → IsLawful (provider_of N C w) chain IsStored × IndexesKeep
  writer-IsLawful replies = (lawful replies, indexes_keep)
