-- ===== src/Upload/Probes/Calls.antt =====
-- What a probing worker's calls lead to.
use fractal_block_sync.Prelude.{
  ℕ, ◌<◌, ◌≡◌, ◌≢◌, refl, sym, ap, subst, ◌∙◌, arith, Bool, true, List, Text, get_or,
}
use fractal_block_sync.Errors.{Err, Result, ok, err}
use fractal_block_sync.Pool
use fractal_block_sync.Pool.{again, done, failed}
use fractal_block_sync.Upload.Services.{Provider, Stable, IsLawful}
use fractal_block_sync.Upload.Probes.{
  Probe, asking, testing, UploadProbeResult, asked, tested, probe, probers,
}

unfoldable pub probe_weight : Probe → ℕ
probe_weight (asking i h) = 1
probe_weight (testing i h hash) = 0

module _ {State : Type 0} where
  asked-again :
      (Q : Probe → Type 0) (i h : ℕ) (r : Result Text × State) {j : Probe}
      → ((hash : Text) → r.0 ≡ ok hash → Q (testing i h hash))
      → (asked i h r).0 ≡ again j
      → Q j
  unfolding asked
  asked-again Q i h (ok hash, t) {j} q e =
      let same : testing i h hash ≡ j = cc in subst Q same (q hash refl)
  asked-again Q i h (err x, t) q e = cc

  tested-ne-again :
      (i h : ℕ) (hash : Text) (r : Result Bool × State) {j : Probe}
      → (tested i h hash r).0 ≢ again j
  unfolding tested
  tested-ne-again i h hash (ok exists, t) e = cc
  tested-ne-again i h hash (err x, t) e = cc

  asked-ne-ok :
      (i h : ℕ) (r : Result Text × State) {x : UploadProbeResult} → (asked i h r).0 ≢ done (ok x)
  unfolding asked
  asked-ne-ok i h (ok hash, t) e = cc
  asked-ne-ok i h (err y, t) e = cc

  tested-ok :
      (P : UploadProbeResult → Type 0) (i h : ℕ) (hash : Text) (r : Result Bool × State)
      {x : UploadProbeResult}
      → ((exists : Bool)
          → r.0 ≡ ok exists
          → P record { index = i; height = h; hash = hash; exists = exists })
      → (tested i h hash r).0 ≡ done (ok x)
      → P x
  unfolding tested
  tested-ok P i h hash (ok exists, t) {x} p e =
      let same : record { index = i; height = h; hash = hash; exists = exists } ≡ x = cc in
      subst P same (p exists refl)
  tested-ok P i h hash (err y, t) p e = cc

  asked-state : (i h : ℕ) (r : Result Text × State) → (asked i h r).1 ≡ r.1
  unfolding asked
  asked-state i h (ok hash, t) = refl
  asked-state i h (err x, t) = refl

  tested-state : (i h : ℕ) (hash : Text) (r : Result Bool × State) → (tested i h hash r).1 ≡ r.1
  unfolding tested
  tested-state i h hash (ok exists, t) = refl
  tested-state i h hash (err x, t) = refl

  asked-ne-failed : (i h : ℕ) (r : Result Text × State) (e : Err) → (asked i h r).0 ≢ failed e
  unfolding asked
  asked-ne-failed i h (ok hash, t) e q = cc
  asked-ne-failed i h (err x, t) e q = cc

  tested-ne-failed :
      (i h : ℕ) (hash : Text) (r : Result Bool × State) (e : Err) → (tested i h hash r).0 ≢ failed e
  unfolding tested
  tested-ne-failed i h hash (ok exists, t) e q = cc
  tested-ne-failed i h hash (err x, t) e q = cc

module _ (E : Provider) where
  pub probe-ne-failed : (j : Probe) (s : E.State) (e : Err) → (probe E j s).0 ≢ failed e
  unfolding probe
  probe-ne-failed (asking i h) s = asked-ne-failed i h (E.get_block_hash h s)
  probe-ne-failed (testing i h hash) s = tested-ne-failed i h hash (E.block_exists hash s)

  pub probe-falls :
      (j i : Probe) (s : E.State) → (probe E j s).0 ≡ again i → probe_weight i < probe_weight j
  unfolding probe probe_weight
  probe-falls (asking k h) i s e =
      asked-again (λ x. probe_weight x < 1) k h (E.get_block_hash h s) (λ _ _. omega arith) e
  probe-falls (testing k h hash) i s e = absurd (tested-ne-again k h hash (E.block_exists hash s) e)

  pub probe-keeps :
      (P : E.State → Type 0) → Stable E P → (j : Probe) (s : E.State) → P s → P (probe E j s).1
  unfolding probe
  probe-keeps P K (asking i h) s p =
      subst P (sym (asked-state i h (E.get_block_hash h s))) (K.by_hash h s p)
  probe-keeps P K (testing i h hash) s p =
      subst P (sym (tested-state i h hash (E.block_exists hash s))) (K.by_block hash s p)

  module _ (chain : ℕ → Text) (Stored : Text → E.State → Type 0) where
    -- A probe tells of its own height, and finds only what is stored.
    abbrev pub IsTrue : E.State → ℕ → UploadProbeResult → Type 0
    IsTrue s h r = (r.height ≡ h) × (r.exists ≡ true → Stored (chain h) s)

    abbrev pub Answered : List ℕ → ℕ → Result UploadProbeResult → E.State → Type 0
    Answered probes k r s = (x : UploadProbeResult) → r ≡ ok x → IsTrue s (get_or probes k 0) x

  abbrev pub AtProbe : (ℕ → Text) → List ℕ → ℕ → Probe → Type 0
  AtProbe chain probes k (asking i h) = h ≡ get_or probes k 0
  AtProbe chain probes k (testing i h hash) = (h ≡ get_or probes k 0) × (hash ≡ chain h)

  module _ (chain : ℕ → Text) (Stored : Text → E.State → Type 0) (L : IsLawful E chain Stored)
      (probes : List ℕ) where
    pub probe-next :
        (k : ℕ) (j i : Probe) (s : E.State)
        → AtProbe chain probes k j
        → (probe E j s).0 ≡ again i
        → AtProbe chain probes k i
    unfolding probe
    probe-next k (asking i h) j s p e =
        asked-again (AtProbe chain probes k) i h (E.get_block_hash h s)
          (λ hash q. (p, L.hash_reply h s q)) e
    probe-next k (testing i h hash) j s p e =
        absurd (tested-ne-again i h hash (E.block_exists hash s) e)

    pub probe-ends :
        (k : ℕ) (j : Probe) (r : Result UploadProbeResult) (s : E.State)
        → AtProbe chain probes k j
        → (probe E j s).0 ≡ done r
        → Answered chain Stored probes k r (probe E j s).1
    unfolding probe
    probe-ends k (asking i h) r s p e x q =
        absurd (asked-ne-ok i h (E.get_block_hash h s) (e ∙ ap done q))
    probe-ends k (testing i h hash) r s (p, c) e x q =
        subst (λ n. IsTrue chain Stored (probe E (testing i h hash) s).1 n x) p
          (tested-ok (IsTrue chain Stored _ h) i h hash (E.block_exists hash s)
            (λ exists said. (
              refl,
              λ y. subst (Stored (chain h)) (sym (tested-state i h hash (E.block_exists hash s))) (
                  subst (λ z. Stored z (E.block_exists hash s).1) c
                    (L.found hash s (said ∙ ap ok y))),
            ))
            (e ∙ ap done q))

    pub probe-keeps_answer :
        (k : ℕ) (r : Result UploadProbeResult) (j : Probe) (s : E.State)
        → Answered chain Stored probes k r s
        → Answered chain Stored probes k r (probe E j s).1
    probe-keeps_answer k r j s a x q =
        let (p, f) = a x q in (p, λ y. probe-keeps _ (L.kept (chain (get_or probes k 0))) j s (f y))

    unfoldable pub probe_facts : Pool.Account.Facts (probers E probes)
    unfolding probers
    probe_facts = record {
      Pre = λ k j s. AtProbe chain probes k j;
      Post = Answered chain Stored probes;
      starts = λ k s. refl;
      next = λ k j i s p e. probe-next k j i s p e;
      ends = probe-ends;
      pre_call = λ k j i s p. p;
      post_call = probe-keeps_answer;
      pre_choose = λ k j s p. p;
      post_choose = λ k r s a x q.
          let (p, f) = a x q in (p, λ y. (L.kept (chain (get_or probes k 0))).by_choose s (f y));
    }
