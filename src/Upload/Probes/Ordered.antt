-- ===== src/Upload/Probes/Ordered.antt =====
-- `checkUploadProbes` answers for each probe, in the probes' order.
use fractal_block_sync.Prelude.{
  Bool, true, if◌then◌else◌, ℕ, suc, ◌+◌, ◌*◌, ◌≤◌, ◌<◌, ◌≡◌, refl, ap, subst, arith, false, Option,
  none, some, List, [], ◌∷◌, Text, if◌then◌else◌, ◌==◌, length, get_or, All, count, Bool-cases, inl,
  inr, ◌⊎◌,
}
use fractal_block_sync.Errors.{Err, Result, ok, err, never_returns}
use fractal_block_sync.Pool
use fractal_block_sync.Pool.Account.{results_count, ResultHolds, run-Inv}
use fractal_block_sync.Pool.Settled.{run_results, fresh_pool-Inv}
use fractal_block_sync.Pool.Quiet.{run-IsQuiet}
use fractal_block_sync.Upload.Services.{Provider, IsLawful}
use fractal_block_sync.Upload.Probes.{
  Probe, UploadProbeResult, probers, first_error, result_at, zero_result, ordered, indexes,
  worker_count, probe_results, check_upload_probes,
}
use fractal_block_sync.Upload.Probes.Calls.{
  IsTrue, probe_facts, probe_weight, probe-falls, probe-ne-failed,
}

result_at_lem :
    (P : UploadProbeResult → Type 0) (i : ℕ) (rs : List (ℕ × Result UploadProbeResult))
    (d : UploadProbeResult)
    → first_error rs ≡ none
    → All (λ r. r.0 ≡ i → (x : UploadProbeResult) → r.1 ≡ ok x → P x) rs
    → (0 < results_count i rs) ⊎ P d
    → P (result_at i rs d)
unfolding first_error result_at results_count
result_at_lem P i [] d f h (inl c) = absurd (omega arith)
result_at_lem P i [] d f h (inr p) = p
result_at_lem P i ((j, err e) ∷ rs) d f h c = cc
result_at_lem P i ((j, ok r) ∷ rs) d f (hr, h) c = elim (Bool-cases (j == i)) [
  | inl y ↦
      let same : j ≡ i = ground arith in result_at_lem P i rs _ f h (inr (rw y (hr same r refl)))
  | inr n ↦ result_at_lem P i rs _ f h (rest c n)
]
  where
    rest :
        (0 < (if j == i then 1 else 0) + results_count i rs) ⊎ P d
        → (j == i) ≡ false
        → (0 < results_count i rs) ⊎ P (if j == i then r else d)
    rest (inl c) n = inl (ground arith)
    rest (inr p) n = inr (rw n p)

count_indexes :
    (a : ℕ) (hs : List ℕ) (i : ℕ) → a ≤ i → i < a + length hs → 0 < count i (indexes a hs)
unfolding indexes
count_indexes a [] i lo hi = absurd (omega arith)
count_indexes a (h ∷ hs) i lo hi = elim (Bool-cases (a == i)) [
  | inl y ↦ ground arith
  | inr n ↦ let ih = count_indexes (suc a) hs i (ground arith) (omega arith) in ground (arith, ih)
]

length-indexes : (a : ℕ) (hs : List ℕ) → length (indexes a hs) ≡ length hs
unfolding indexes
length-indexes a [] = refl
length-indexes a (h ∷ hs) = ap suc (length-indexes (suc a) hs)

module _ (E : Provider) (chain : ℕ → Text) (Stored : Text → E.State → Type 0) where
  -- Each result is of the probe in its place.
  abbrev pub Probed : E.State → List UploadProbeResult → List ℕ → Type 0
  Probed s [] [] = Unit
  Probed s [] (h ∷ hs) = ⊥
  Probed s (r ∷ rs) [] = ⊥
  Probed s (r ∷ rs) (h ∷ hs) = IsTrue E chain Stored s h r × Probed s rs hs

  ordered-Probed :
      (s : E.State) (rs : List (ℕ × Result UploadProbeResult)) (i : ℕ) (hs : List ℕ)
      → ((j : ℕ)
          → j < length hs
          → IsTrue E chain Stored s (get_or hs j 0) (result_at (i + j) rs zero_result))
      → Probed s (ordered rs i hs) hs
  unfolding ordered
  ordered-Probed s rs i [] h = tt
  ordered-Probed s rs i (x ∷ hs) h =
      let here : i + 0 ≡ i = omega arith in
      (
        subst (λ n. IsTrue E chain Stored s x (result_at n rs zero_result)) here
            (h 0 (omega arith)),
        ordered-Probed s rs (suc i) hs (λ j lo.
            let next : i + suc j ≡ suc i + j = omega arith in
            subst (λ n. IsTrue E chain Stored s (get_or hs j 0) (result_at n rs zero_result)) next
              (h (suc j) (omega arith))),
      )

module _ (E : Provider) (chain : ℕ → Text) (Stored : Text → E.State → Type 0)
    (L : IsLawful E chain Stored) where
  worker_count-lt : (workers n : ℕ) → 0 < n → 0 < worker_count workers n
  unfolding worker_count
  worker_count-lt workers n pos = ground arith

  answers :
      (probes : List ℕ) (s : E.State) (i : ℕ) (rs : List (ℕ × Result UploadProbeResult))
      → All
          (ResultHolds
            (probers E probes)
            (probe_facts E chain Stored L probes)
            (indexes 0 probes)
            s)
          rs
      → All
          (λ r.
            r.0 ≡ i
            → (x : UploadProbeResult) → r.1 ≡ ok x
            → IsTrue E chain Stored s (get_or probes i 0) x)
          rs
  unfolding probe_facts
  answers probes s i [] h = tt
  answers probes s i ((j, r) ∷ rs) (hr, h) = (
    λ e x q. subst (λ n. IsTrue E chain Stored s (get_or probes n 0) x) e (hr x q),
    answers probes s i rs h,
  )

  probe_results-ok :
      (o : Option Err) (rs : List (ℕ × Result UploadProbeResult)) (probes : List ℕ)
      {results : List UploadProbeResult}
      → probe_results E o rs probes ≡ ok results
      → (o ≡ none) × (ordered rs 0 probes ≡ results)
  unfolding probe_results
  probe_results-ok none rs probes e = (refl, cc)
  probe_results-ok (some x) rs probes e = cc

  of_returned :
      {A : Type 0} (b : Bool) (r : Result A) {a : A}
      → (if b then r else err never_returns) ≡ ok a
      → r ≡ ok a
  of_returned true r e = e
  of_returned false r e = cc

  abbrev at_rest : List ℕ → ℕ → E.State → Pool.Pool Probe (Result UploadProbeResult) × E.State
  at_rest probes n s =
      Pool.run (probers E probes) (suc (length probes * 3)) (Pool.fresh_pool (indexes 0 probes) n) s

  at_rest-IsQuiet :
      (probes : List ℕ) (n : ℕ) (s : E.State)
      → ((at_rest probes n s).0.error ≡ none) × ((at_rest probes n s).0.noticed ≡ false)
  unfolding probers
  at_rest-IsQuiet probes n s =
      run-IsQuiet (probers E probes) (λ u. inl refl) (λ j u e. probe-ne-failed E j u e)
        (suc (length probes * 3)) _ s (refl, refl)

  at_rest-count :
      (probes : List ℕ) (n i : ℕ) (s : E.State)
      → 0 < n
      → i < length probes
      → 0 < results_count i (at_rest probes n s).0.results
  unfolding probers probe_weight
  at_rest-count probes n i s pos lo =
      let counted =
        run_results (probers E probes) (probe_facts E chain Stored L probes) (indexes 0 probes)
          probe_weight 3 (λ k. omega arith) (λ j k u. probe-falls E j k u) n
          (suc (length probes * 3)) s pos (omega (arith, length-indexes 0 probes))
          (at_rest-IsQuiet probes n s).0 (at_rest-IsQuiet probes n s).1 i in
      omega (arith, counted, count_indexes 0 probes i (omega arith) (omega arith))

  at_rest-Probed :
      (probes : List ℕ) (n : ℕ) (s : E.State)
      → 0 < n
      → first_error (at_rest probes n s).0.results ≡ none
      → Probed E chain Stored
          (at_rest probes n s).1
          (ordered (at_rest probes n s).0.results 0 probes)
          probes
  at_rest-Probed probes n s pos ran =
      let F = probe_facts E chain Stored L probes in
      let ks = indexes 0 probes in
      let (p, t) = at_rest probes n s in
      let inv =
        run-Inv (probers E probes) F ks (suc (length probes * 3)) _ s
          (fresh_pool-Inv (probers E probes) F ks n s pos) in
      ordered-Probed E chain Stored t p.results 0 probes (λ j lo.
        let place : j ≡ 0 + j = omega arith in
        subst (λ i. IsTrue E chain Stored t (get_or probes j 0) (result_at i p.results zero_result))
          place
          (result_at_lem _ j _ zero_result ran (answers probes _ j _ inv.finished)
            (inl (at_rest-count probes n j s pos lo))))

  -- On a node whose chain does not change and over a store that loses no block,
  -- checkUploadProbes without an error has one result for each probe, in the order of the probes
  -- and with its height, and a result that says that the block exists is true.
  pub check_upload_probes-Probed :
      (probes : List ℕ) (workers : ℕ) (s : E.State) {results : List UploadProbeResult} {t : E.State}
      → check_upload_probes E probes workers s ≡ (ok results, t)
      → Probed E chain Stored t results probes
  unfolding check_upload_probes
  check_upload_probes-Probed [] workers s {results} {t} e =
      let same : [] ≡ results = cc in subst (λ r. Probed E chain Stored t r []) same tt
  check_upload_probes-Probed (h ∷ hs) workers s {results} {t} e =
      let probes = h ∷ hs in
      let n = worker_count workers (length probes) in
      let (p, u) = at_rest probes n s in
      let (ran, same) =
        probe_results-ok (first_error p.results) p.results probes
          (of_returned (Pool.has_returned p) _ (ap (λ r. r.0) e)) in
      let all =
        at_rest-Probed probes n s (worker_count-lt workers (length probes) (omega arith)) ran in
      subst (λ r. Probed E chain Stored t r probes) same
        (subst (λ v. Probed E chain Stored v (ordered p.results 0 probes) probes) (ap (λ r. r.1) e)
          all)
