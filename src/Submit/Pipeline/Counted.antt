-- ===== src/Submit/Pipeline/Counted.antt =====
-- How often a height occurs in the maps, the channels and the workers of the pipeline.
use fractal_block_sync.Prelude.{
  ℕ, zero, suc, ◌+◌, ◌≤◌, ◌≡◌, refl, arith, true, false, none, some, List, [], ◌∷◌, ◌++◌, ◌==◌,
  if◌then◌else◌, length, count, get_elem?, inl, inr, Bool-cases,
}
use fractal_block_sync.Submit.Pipeline.{
  DownloadJob, Download, Worker, idle, fetching, holding, gone, lookup, without, put, is_pending,
  forget, await,
}
use fractal_block_sync.Submit.Pipeline.Workers.{replace}

abbrev pub hit : ℕ → ℕ → ℕ
hit h k = if h == k then 1 else 0

module _ {A : Type 0} (w : A → ℕ) where
  abbrev pub total : List A → ℕ
  total [] = 0
  total (x ∷ xs) = w x + total xs

  pub total-append : (xs : List A) (x : A) → total (xs ++ (x ∷ [])) ≡ total xs + w x
  total-append [] x = omega arith
  total-append (y ∷ xs) x = omega (arith, total-append xs x)

abbrev pub jobs_at : ℕ → List DownloadJob → ℕ
jobs_at k = total (λ (j : DownloadJob). hit j.height k)

abbrev pub downloads_at : ℕ → List Download → ℕ
downloads_at k = total (λ (d : Download). hit d.height k)

abbrev pub busy_at : ℕ → Worker → ℕ
busy_at k idle = 0
busy_at k (fetching job) = hit job.height k
busy_at k (holding d) = hit d.height k
busy_at k gone = 0

abbrev pub is_busy : Worker → ℕ
is_busy idle = 0
is_busy (fetching job) = 1
is_busy (holding d) = 1
is_busy gone = 0

abbrev pub is_gone : Worker → ℕ
is_gone idle = 0
is_gone (fetching job) = 0
is_gone (holding d) = 0
is_gone gone = 1

pub length-append_one {ℓ} :
    {A : Type ℓ} (xs : List A) (x : A) → length (xs ++ (x ∷ [])) ≡ length xs + 1
length-append_one [] x = omega arith
length-append_one (y ∷ xs) x = omega (arith, length-append_one xs x)

some_worker : {A : Type 0} {v w : A} → some v ≡ some w → v ≡ w
some_worker e = cc

-- Another worker in a place changes a sum by the difference of the two.
pub total-replace :
    {A : Type 0} (f : A → ℕ) (i : ℕ) (ws : List A) (v w : A)
    → get_elem? ws i ≡ some w
    → total f (replace i v ws) + f w ≡ total f ws + f v
total-replace f i [] v w e = cc
total-replace f zero (x ∷ ws) v w e = rw (some_worker e) (omega arith)
total-replace f (suc i) (x ∷ ws) v w e = omega (arith, total-replace f i ws v w e)

pub length-replace :
    {A : Type 0} (i : ℕ) (ws : List A) (v : A) → length (replace i v ws) ≡ length ws
length-replace i [] v = refl
length-replace zero (x ∷ ws) v = refl
length-replace (suc i) (x ∷ ws) v = omega (arith, length-replace i ws v)

pub downloads_at-without :
    (h k : ℕ) (ds : List Download)
    → downloads_at k (without h ds) ≡ (if h == k then 0 else downloads_at k ds)
unfolding without
downloads_at-without h k [] = ground arith
downloads_at-without h k (d ∷ ds) = ground (arith, downloads_at-without h k ds)

pub length-without :
    (h : ℕ) (ds : List Download) → length (without h ds) + downloads_at h ds ≡ length ds
unfolding without
length-without h [] = refl
length-without h (d ∷ ds) = ground (arith, length-without h ds)

pub count-settle :
    (h k : ℕ) (hs : List ℕ) → count k (forget h hs) ≡ (if h == k then 0 else count k hs)
unfolding forget
count-settle h k [] = ground arith
count-settle h k (x ∷ hs) = ground (arith, count-settle h k hs)

pub length-settle : (h : ℕ) (hs : List ℕ) → length (forget h hs) + count h hs ≡ length hs
unfolding forget
length-settle h [] = refl
length-settle h (x ∷ hs) = ground (arith, length-settle h hs)

pub count-await :
    (h k : ℕ) (hs : List ℕ) → count k (await h hs) ≡ (if h == k then 1 else count k hs)
unfolding await
count-await h k hs = ground (arith, count-settle h k hs)

pub length-await : (h : ℕ) (hs : List ℕ) → length (await h hs) + count h hs ≡ length hs + 1
unfolding await
length-await h hs = omega (arith, length-settle h hs)

pub downloads_at-put :
    (d : Download) (k : ℕ) (ds : List Download)
    → downloads_at k (put d ds) ≡ (if d.height == k then 1 else downloads_at k ds)
unfolding put
downloads_at-put d k ds = ground (arith, downloads_at-without d.height k ds)

pub length-put :
    (d : Download) (ds : List Download)
    → length (put d ds) + downloads_at d.height ds ≡ length ds + 1
unfolding put
length-put d ds = omega (arith, length-without d.height ds)

pub lookup-none : (h : ℕ) (ds : List Download) → lookup h ds ≡ none → downloads_at h ds ≡ 0
unfolding lookup
lookup-none h [] e = refl
lookup-none h (d ∷ ds) e = ground (arith, lookup-none h ds)

pub lookup-some :
    (h : ℕ) (ds : List Download) {d : Download} → lookup h ds ≡ some d → 1 ≤ downloads_at h ds
unfolding lookup
lookup-some h [] e = cc
lookup-some h (x ∷ ds) {d} e = elim (Bool-cases (x.height == h)) [
  | inl y ↦ ground (arith, y)
  | inr n ↦ let ih = lookup-some h ds {d = d} (rw n at e) in omega (arith, ih)
]

pub is_pending-false : (h : ℕ) (hs : List ℕ) → is_pending h hs ≡ false → count h hs ≡ 0
unfolding is_pending
is_pending-false h [] e = refl
is_pending-false h (x ∷ hs) e = ground (arith, is_pending-false h hs)

pub is_pending-true : (h : ℕ) (hs : List ℕ) → is_pending h hs ≡ true → 1 ≤ count h hs
unfolding is_pending
is_pending-true h [] e = cc
is_pending-true h (x ∷ hs) e = ground (arith, is_pending-true h hs)

pub count-length : (h : ℕ) (hs : List ℕ) → count h hs ≤ length hs
count-length h [] = omega arith
count-length h (x ∷ hs) = ground (arith, count-length h hs)
