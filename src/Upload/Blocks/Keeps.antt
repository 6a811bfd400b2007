-- ===== src/Upload/Blocks/Keeps.antt =====
-- What the calls of the services keep, an upload of blocks keeps.
use fractal_block_sync.Prelude.{ℕ, Bool, true, false, List, [], ◌∷◌, Bytes, Text, if◌then◌else◌}
use fractal_block_sync.Errors.{Result, ok, err, wrap}
use fractal_block_sync.Effects.Laws.{continue-keeps, wrapped-keeps}
use fractal_block_sync.Text.{trim_space}
use fractal_block_sync.Hex
use fractal_block_sync.Upload.Services.{Provider, Stable}
use fractal_block_sync.Upload.Blocks.{
  Job, looking, checking, fetching, storing, looked, checked, decoded, fetched, stored,
  get_upload_block_state, upload_missing, upload_block, upload_each, call,
}

module _ (E : Provider) (P : E.State → Type 0) (K : Stable E P) where
  upload_missing-keeps : (h : ℕ) (hash : Text) (s : E.State) → P s → P (upload_missing E h hash s).1
  unfolding upload_missing
  upload_missing-keeps h hash s p =
      wrapped-keeps P _ (E.get_block_raw_hex hash s) _ (K.by_raw hash s p) (λ raw_hex t q.
        continue-keeps P (wrap _ (Hex.decode (trim_space raw_hex)), t) _ q
          (λ raw u r.
            wrapped-keeps P _ (E.put_block hash raw u) _ (K.by_put hash raw u r) (λ _ v z. z)))

  pub get_upload_block_state-keeps :
      (h : ℕ) (s : E.State) → P s → P (get_upload_block_state E h s).1
  unfolding get_upload_block_state
  get_upload_block_state-keeps h s p =
      wrapped-keeps P _ (E.get_block_hash h s) _ (K.by_hash h s p)
        (λ hash t q. wrapped-keeps P _ (E.block_exists hash t) _ (K.by_block hash t q) (λ b u r. r))

  pub upload_block-keeps : (h : ℕ) (s : E.State) → P s → P (upload_block E h s).1
  unfolding upload_block
  upload_block-keeps h s p =
      continue-keeps P (get_upload_block_state E h s) _ (get_upload_block_state-keeps h s p) missing
    where
      missing :
          (r : Text × Bool) (t : E.State)
          → P t
          → P ((if r.1 then (λ u. (ok false, u)) else upload_missing E h r.0) t).1
      missing (hash, true) t q = q
      missing (hash, false) t q = upload_missing-keeps h hash t q

  pub upload_each-keeps : (hs : List ℕ) (n : ℕ) (s : E.State) → P s → P (upload_each E hs n s).1
  unfolding upload_each
  upload_each-keeps [] n s p = p
  upload_each-keeps (h ∷ hs) n s p =
      continue-keeps P (upload_block E h s) _ (upload_block-keeps h s p)
        (λ did t q. upload_each-keeps hs _ t q)

module _ {State : Type 0} (P : State → Type 0) where
  looked-keeps : (h : ℕ) (r : Result Text × State) → P r.1 → P (looked h r).1
  unfolding looked
  looked-keeps h (ok hash, t) p = p
  looked-keeps h (err e, t) p = p

  checked-keeps : (h : ℕ) (hash : Text) (r : Result Bool × State) → P r.1 → P (checked h hash r).1
  unfolding checked
  checked-keeps h hash (ok true, t) p = p
  checked-keeps h hash (ok false, t) p = p
  checked-keeps h hash (err e, t) p = p

  decoded-keeps :
      (h : ℕ) (hash : Text) (r : Result Bytes) (t : State) → P t → P (decoded h hash r t).1
  unfolding decoded
  decoded-keeps h hash (ok raw) t p = p
  decoded-keeps h hash (err e) t p = p

  fetched-keeps : (h : ℕ) (hash : Text) (r : Result Text × State) → P r.1 → P (fetched h hash r).1
  unfolding fetched
  fetched-keeps h hash (ok raw_hex, t) p =
      decoded-keeps h hash (Hex.decode (trim_space raw_hex)) t p
  fetched-keeps h hash (err e, t) p = p

  stored-keeps :
      (h : ℕ) (hash : Text) (r : Result (Unit {0}) × State) → P r.1 → P (stored h hash r).1
  unfolding stored
  stored-keeps h hash (ok u, t) p = p
  stored-keeps h hash (err e, t) p = p

module _ (E : Provider) where
  pub call-keeps :
      (P : E.State → Type 0) → Stable E P → (j : Job) (s : E.State) → P s → P (call E j s).1
  unfolding call
  call-keeps P K (looking h) s p = looked-keeps P h (E.get_block_hash h s) (K.by_hash h s p)
  call-keeps P K (checking h hash) s p =
      checked-keeps P h hash (E.block_exists hash s) (K.by_block hash s p)
  call-keeps P K (fetching h hash) s p =
      fetched-keeps P h hash (E.get_block_raw_hex hash s) (K.by_raw hash s p)
  call-keeps P K (storing h hash raw) s p =
      stored-keeps P h hash (E.put_block hash raw s) (K.by_put hash raw s p)
