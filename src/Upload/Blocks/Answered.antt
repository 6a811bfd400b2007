-- ===== src/Upload/Blocks/Answered.antt =====
-- `uploadBlocksFrom` succeeds where its services do.
use fractal_block_sync.Prelude.{
  ℕ, suc, ◌<◌, arith, ◌*◌, ◌≡◌, ◌≢◌, refl, subst, Bool, true, false, Option, none, some, List, [],
  ◌∷◌, Bytes, Text, leb, if◌then◌else◌, length, Bool-cases, inl, inr,
}
use fractal_block_sync.Errors.{Err, Result, ok, err}
use fractal_block_sync.Effects.{Effect, continue, wrap_result}
use fractal_block_sync.Text.{trim_space}
use fractal_block_sync.Hex
use fractal_block_sync.Pool
use fractal_block_sync.Pool.{again, done, failed}
use fractal_block_sync.Upload.Blocks.Returns.{upload_pool_returns}
use fractal_block_sync.Pool.Quiet.{run-IsQuiet}
use fractal_block_sync.Upload.Services.{Provider}
use fractal_block_sync.Upload.Windows.{heights_between}
use fractal_block_sync.Upload.Blocks.{
  Job, looking, checking, fetching, storing, looked, checked, decoded, fetched, stored, uploads,
  get_upload_block_state, upload_missing, upload_block, upload_each, call, uploaders, pool_outcome,
  pool_result, upload_pooled, upload_blocks_from,
}

-- The context is not done, and no call of the node or the store fails; a raw block is hex.
pub record IsAnswering (E : Provider) : Type 0 where
  pub calm : (s : E.State) → E.ctx_error s ≡ none
  pub hash : (h : ℕ) (s : E.State) → (t : Text) × ((E.get_block_hash h s).0 ≡ ok t)
  pub exists : (t : Text) (s : E.State) → (b : Bool) × ((E.block_exists t s).0 ≡ ok b)
  pub raw :
      (t : Text) (s : E.State)
      → (hex : Text) × (bin : Bytes) × ((E.get_block_raw_hex t s).0 ≡ ok hex)
        × (Hex.decode (trim_space hex) ≡ ok bin)
  pub put : (t : Text) (d : Bytes) (s : E.State) → (E.put_block t d s).0 ≡ ok tt

module _ {S A B : Type 0} where
  wrapped_answer :
      (g : Err → Err) (r : Result A × S) (f : A → Effect S B) (a : A)
      → r.0 ≡ ok a
      → ((s : S) → (b : B) × ((f a s).0 ≡ ok b))
      → (b : B) × ((continue (wrap_result g r) f).0 ≡ ok b)
  wrapped_answer g (ok x, s) f a e k =
      let same : a ≡ x = cc in subst (λ z. (b : B) × ((f z s).0 ≡ ok b)) same (k s)
  wrapped_answer g (err x, s) f a e k = cc

  answer :
      (r : Result A × S) (f : A → Effect S B)
      → (a : A) × (r.0 ≡ ok a)
      → ((a : A) (s : S) → (b : B) × ((f a s).0 ≡ ok b))
      → (b : B) × ((continue r f).0 ≡ ok b)
  answer (ok x, s) f h k = k x s
  answer (err x, s) f (a, e) k = cc

module _ {State : Type 0} where
  looked-ne-failed :
      (h : ℕ) (r : Result Text × State) (t : Text) (e : Err)
      → r.0 ≡ ok t
      → (looked h r).0 ≢ failed e
  unfolding looked
  looked-ne-failed h (ok x, s) t e p q = cc
  looked-ne-failed h (err x, s) t e p q = cc

  checked-ne-failed :
      (h : ℕ) (hash : Text) (r : Result Bool × State) (b : Bool) (e : Err)
      → r.0 ≡ ok b
      → (checked h hash r).0 ≢ failed e
  unfolding checked
  checked-ne-failed h hash (ok true, s) b e p q = cc
  checked-ne-failed h hash (ok false, s) b e p q = cc
  checked-ne-failed h hash (err x, s) b e p q = cc

  decoded-ne-failed :
      (h : ℕ) (hash : Text) (r : Result Bytes) (s : State) (bin : Bytes) (e : Err)
      → r ≡ ok bin
      → (decoded h hash r s).0 ≢ failed e
  unfolding decoded
  decoded-ne-failed h hash (ok x) s bin e p q = cc
  decoded-ne-failed h hash (err x) s bin e p q = cc

  fetched-ne-failed :
      (h : ℕ) (hash : Text) (r : Result Text × State) (hex : Text) (bin : Bytes) (e : Err)
      → r.0 ≡ ok hex
      → Hex.decode (trim_space hex) ≡ ok bin
      → (fetched h hash r).0 ≢ failed e
  unfolding fetched
  fetched-ne-failed h hash (ok x, s) hex bin e p d q =
      let same : hex ≡ x = cc in
      decoded-ne-failed h hash (Hex.decode (trim_space x)) s bin e
        (subst (λ z. Hex.decode (trim_space z) ≡ ok bin) same d) q
  fetched-ne-failed h hash (err x, s) hex bin e p d q = cc

  stored-ne-failed :
      (h : ℕ) (hash : Text) (r : Result (Unit {0}) × State) (e : Err)
      → r.0 ≡ ok tt
      → (stored h hash r).0 ≢ failed e
  unfolding stored
  stored-ne-failed h hash (ok x, s) e p q = cc
  stored-ne-failed h hash (err x, s) e p q = cc

module _ (E : Provider) (K : IsAnswering E) where
  call-ne-failed : (j : Job) (s : E.State) (e : Err) → (call E j s).0 ≢ failed e
  unfolding call
  call-ne-failed (looking h) s e =
      looked-ne-failed h (E.get_block_hash h s) (K.hash h s).0 e (K.hash h s).1
  call-ne-failed (checking h hash) s e =
      checked-ne-failed h hash (E.block_exists hash s) (K.exists hash s).0 e (K.exists hash s).1
  call-ne-failed (fetching h hash) s e =
      let (hex, bin, p, d) = K.raw hash s in
      fetched-ne-failed h hash (E.get_block_raw_hex hash s) hex bin e p d
  call-ne-failed (storing h hash raw) s e =
      stored-ne-failed h hash (E.put_block hash raw s) e (K.put hash raw s)

  pool_outcome_answer :
      (p : Pool.Pool Job Bool) (t : E.State) (o : Option Err)
      → o ≡ none
      → p.noticed ≡ false
      → (n : ℕ) × (pool_outcome E p t o ≡ ok n)
  unfolding pool_outcome
  pool_outcome_answer p t none e q = (uploads p.results, rw q refl)
  pool_outcome_answer p t (some x) e q = cc

  pooled_answer :
      (workers : ℕ) (hs : List ℕ) (s : E.State)
      → 0 < workers
      → (n : ℕ) × ((upload_pooled E workers hs s).0 ≡ ok n)
  unfolding upload_pooled uploaders pool_result
  pooled_answer workers hs s pos =
      let (ran, on) =
        run-IsQuiet (uploaders E) (λ t. inr (K.calm t)) (λ j t e. call-ne-failed j t e)
          (suc (length hs * 5)) (Pool.fresh_pool hs workers) s (refl, refl) in
      let (p, t) = Pool.run (uploaders E) (suc (length hs * 5)) (Pool.fresh_pool hs workers) s in
      rw (upload_pool_returns E workers hs s pos) (pool_outcome_answer p t p.error ran on)

  missing_answer :
      (h : ℕ) (hash : Text) (s : E.State) → (b : Bool) × ((upload_missing E h hash s).0 ≡ ok b)
  unfolding upload_missing
  missing_answer h hash s =
      let (hex, bin, p, d) = K.raw hash s in
      wrapped_answer _ (E.get_block_raw_hex hash s) _ hex p (λ t.
        rw d
          (wrapped_answer _ (E.put_block hash bin t) _ tt (K.put hash bin t) (λ u. (true, refl))))

  block_answer : (h : ℕ) (s : E.State) → (b : Bool) × ((upload_block E h s).0 ≡ ok b)
  unfolding upload_block get_upload_block_state
  block_answer h s =
      answer (get_upload_block_state E h s) _
        (wrapped_answer _ (E.get_block_hash h s) _ (K.hash h s).0 (K.hash h s).1 (λ t.
          wrapped_answer _ (E.block_exists _ t) _ (K.exists _ t).0 (K.exists _ t).1
            (λ u. (_, refl))))
        found
    where
      found :
          (r : Text × Bool) (t : E.State)
          → (b : Bool) × ((if◌then◌else◌ {A = Effect E.State Bool} r.1
                (λ u. (ok false, u))
                (upload_missing E h r.0)
                t).0
              ≡ ok b)
      found (hash, true) t = (false, refl)
      found (hash, false) t = missing_answer h hash t

  each_answer : (hs : List ℕ) (n : ℕ) (s : E.State) → (m : ℕ) × ((upload_each E hs n s).0 ≡ ok m)
  unfolding upload_each
  each_answer [] n s = (n, refl)
  each_answer (h ∷ hs) n s =
      answer (upload_block E h s) _ (block_answer h s) (λ did t. each_answer hs _ t)

  -- Where the context is never done, no call of the node or the store fails, and every raw block
  -- that the node gives is hex, uploadBlocksFrom returns, and without an error, for any number
  -- of workers and every scheduler.
  pub upload_blocks_from-ok :
      (from_height tip workers : ℕ) (s : E.State)
      → (n : ℕ) × ((upload_blocks_from E from_height tip workers s).0 ≡ ok n)
  unfolding upload_blocks_from
  upload_blocks_from-ok from_height tip workers s = elim (Bool-cases (leb workers 1)) [
    | inl y ↦ rw y (each_answer (heights_between from_height tip) 0 s)
    | inr z ↦ rw z (pooled_answer workers (heights_between from_height tip) s (ground (arith, z)))
  ]
