-- ===== src/Upload/Blocks/Calls.antt =====
-- What a pooled worker's calls lead to.
use fractal_block_sync.Prelude.{
  ℕ, ◌<◌, ◌≡◌, ◌≢◌, refl, ap, subst, ◌∙◌, arith, Bool, true, false, Bytes, Text,
}
use fractal_block_sync.Errors.{Result, ok, err}
use fractal_block_sync.Text.{trim_space}
use fractal_block_sync.Hex
use fractal_block_sync.Pool
use fractal_block_sync.Pool.{Pool, Progress, again, done, failed, Body}
use fractal_block_sync.Upload.Services.{Provider, IsLawful}
use fractal_block_sync.Upload.Blocks.{
  Job, looking, checking, fetching, storing, looked, checked, decoded, fetched, stored, call,
  uploaders,
}
use fractal_block_sync.Upload.Blocks.Keeps.{call-keeps}

module _ {State : Type 0} (Q : Job → Type 0) where
  looked-again :
      (h : ℕ) (r : Result Text × State) (i : Job)
      → ((hash : Text) → r.0 ≡ ok hash → Q (checking h hash))
      → (looked h r).0 ≡ again i
      → Q i
  unfolding looked
  looked-again h (ok hash, t) i q e =
      let same : checking h hash ≡ i = cc in subst Q same (q hash refl)
  looked-again h (err x, t) i q e = cc

  checked-again :
      (h : ℕ) (hash : Text) (r : Result Bool × State) (i : Job)
      → Q (fetching h hash)
      → (checked h hash r).0 ≡ again i
      → Q i
  unfolding checked
  checked-again h hash (ok true, t) i q e = cc
  checked-again h hash (ok false, t) i q e = let same : fetching h hash ≡ i = cc in subst Q same q
  checked-again h hash (err x, t) i q e = cc

  decoded-again :
      (h : ℕ) (hash : Text) (r : Result Bytes) (t : State) (i : Job)
      → ((raw : Bytes) → Q (storing h hash raw))
      → (decoded h hash r t).0 ≡ again i
      → Q i
  unfolding decoded
  decoded-again h hash (ok raw) t i q e =
      let same : storing h hash raw ≡ i = cc in subst Q same (q raw)
  decoded-again h hash (err x) t i q e = cc

  fetched-again :
      (h : ℕ) (hash : Text) (r : Result Text × State) (i : Job)
      → ((raw : Bytes) → Q (storing h hash raw))
      → (fetched h hash r).0 ≡ again i
      → Q i
  unfolding fetched
  fetched-again h hash (ok raw_hex, t) i q e = decoded-again h hash _ t i q e
  fetched-again h hash (err x, t) i q e = cc

  stored-again :
      (h : ℕ) (hash : Text) (r : Result (Unit {0}) × State) (i : Job)
      → (stored h hash r).0 ≡ again i
      → Q i
  unfolding stored
  stored-again h hash (ok u, t) i e = cc
  stored-again h hash (err x, t) i e = cc

unfoldable pub job_weight : Job → ℕ
job_weight (looking h) = 3
job_weight (checking h hash) = 2
job_weight (fetching h hash) = 1
job_weight (storing h hash raw) = 0

module _ (E : Provider) where
  pub falls : (j i : Job) (s : E.State) → (call E j s).0 ≡ again i → job_weight i < job_weight j
  unfolding call job_weight
  falls (looking h) i s e =
      looked-again (λ x. job_weight x < 3) h (E.get_block_hash h s) i (λ hash q. omega arith) e
  falls (checking h hash) i s e =
      checked-again (λ x. job_weight x < 2) h hash (E.block_exists hash s) i (omega arith) e
  falls (fetching h hash) i s e =
      fetched-again (λ x. job_weight x < 1) h hash (E.get_block_raw_hex hash s) i
        (λ raw. omega arith) e
  falls (storing h hash raw) i s e =
      stored-again (λ x. job_weight x < 0) h hash (E.put_block hash raw s) i e

module _ (E : Provider) (chain : ℕ → Text) (Stored : Text → E.State → Type 0)
    (L : IsLawful E chain Stored) where
  abbrev pub Pre : ℕ → Job → E.State → Type 0
  Pre k (looking h) s = h ≡ k
  Pre k (checking h hash) s = hash ≡ chain k
  Pre k (fetching h hash) s = hash ≡ chain k
  Pre k (storing h hash raw) s = hash ≡ chain k

  pub again_pre : (k : ℕ) (j : Job) (s t : E.State) → Pre k j s → Pre k j t
  again_pre k (looking h) s t p = p
  again_pre k (checking h hash) s t p = p
  again_pre k (fetching h hash) s t p = p
  again_pre k (storing h hash raw) s t p = p

  pub next : (k : ℕ) (j i : Job) (s : E.State) → Pre k j s → (call E j s).0 ≡ again i → Pre k i s
  unfolding call
  next k (looking h) i s p e =
      looked-again (λ x. Pre k x s) h (E.get_block_hash h s) i
        (λ hash q. L.hash_reply h s q ∙ ap chain p) e
  next k (checking h hash) i s p e =
      checked-again (λ x. Pre k x s) h hash (E.block_exists hash s) i p e
  next k (fetching h hash) i s p e =
      fetched-again (λ x. Pre k x s) h hash (E.get_block_raw_hex hash s) i (λ _. p) e
  next k (storing h hash raw) i s p e =
      stored-again (λ x. Pre k x s) h hash (E.put_block hash raw s) i e

  checked-ends :
      (h : ℕ) (hash : Text) (r : Result Bool × E.State) {did : Bool}
      → (r.0 ≡ ok true → Stored hash r.1)
      → (checked h hash r).0 ≡ done did
      → Stored hash (checked h hash r).1
  unfolding checked
  checked-ends h hash (ok true, t) found e = found refl
  checked-ends h hash (ok false, t) found e = cc
  checked-ends h hash (err x, t) found e = cc

  stored-ends :
      (h : ℕ) (hash : Text) (r : Result (Unit {0}) × E.State) {did : Bool}
      → (r.0 ≡ ok tt → Stored hash r.1)
      → (stored h hash r).0 ≡ done did
      → Stored hash (stored h hash r).1
  unfolding stored
  stored-ends h hash (ok u, t) put e = put refl
  stored-ends h hash (err x, t) put e = cc

  looked-ne-done : (h : ℕ) (r : Result Text × E.State) {did : Bool} → (looked h r).0 ≢ done did
  unfolding looked
  looked-ne-done h (ok hash, t) e = cc
  looked-ne-done h (err x, t) e = cc

  decoded-ne-done :
      (h : ℕ) (hash : Text) (r : Result Bytes) (t : E.State) {did : Bool}
      → (decoded h hash r t).0 ≢ done did
  unfolding decoded
  decoded-ne-done h hash (ok raw) t e = cc
  decoded-ne-done h hash (err x) t e = cc

  fetched-ne-done :
      (h : ℕ) (hash : Text) (r : Result Text × E.State) {did : Bool}
      → (fetched h hash r).0 ≢ done did
  unfolding fetched
  fetched-ne-done h hash (ok raw_hex, t) e =
      decoded-ne-done h hash (Hex.decode (trim_space raw_hex)) t e
  fetched-ne-done h hash (err x, t) e = cc

  pub ends :
      (k : ℕ) (j : Job) (did : Bool) (s : E.State)
      → Pre k j s
      → (call E j s).0 ≡ done did
      → Stored (chain k) (call E j s).1
  unfolding call
  ends k (looking h) did s p e = absurd (looked-ne-done h (E.get_block_hash h s) e)
  ends k (checking h hash) did s p e =
      subst (λ x. Stored x (call E (checking h hash) s).1) p
        (checked-ends h hash (E.block_exists hash s) (L.found hash s) e)
  ends k (fetching h hash) did s p e =
      absurd (fetched-ne-done h hash (E.get_block_raw_hex hash s) e)
  ends k (storing h hash raw) did s p e =
      subst (λ x. Stored x (call E (storing h hash raw) s).1) p
        (stored-ends h hash (E.put_block hash raw s) (L.put hash raw s) e)

  unfoldable pub facts : Pool.Account.Facts (uploaders E)
  unfolding uploaders
  facts = record {
    Pre = Pre;
    Post = λ k r s. Stored (chain k) s;
    starts = λ k s. refl;
    next = λ k j i s p e. again_pre k i s _ (next k j i s p e);
    ends = ends;
    pre_call = λ k j i s p. again_pre k j s _ p;
    post_call = λ k r i s p. call-keeps E (Stored (chain k)) (L.kept (chain k)) i s p;
    pre_choose = λ k j s p. again_pre k j s _ p;
    post_choose = λ k r s p. (L.kept (chain k)).by_choose s p;
  }
