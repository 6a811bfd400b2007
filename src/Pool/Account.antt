-- ===== src/Pool/Account.antt =====
-- Where the keys of a pool are, and what is known of the jobs and of the results.
use fractal_block_sync.Prelude.{
  ℕ, zero, suc, ◌+◌, ◌<◌, ◌≡◌, ◌≢◌, refl, ap, subst, arith, true, false, Option, none, some, List,
  [], ◌∷◌, ◌++◌, if◌then◌else◌, ◌==◌, length, length-append, All, All-append, count,
}
use fractal_block_sync.Errors.{Err}
use fractal_block_sync.Pool.{
  Progress, again, done, failed, Slot, idle, busy, stopped, Pool, Body, Move, send, work, notice,
  moves, worked, sent, perform, pick, run, keep_first,
}
use fractal_block_sync.Pool.Finish.{IsEnabled, run-nil, run-cons, pick-IsEnabled}

-- How many workers are at work for a key.
unfoldable pub slot_count : {Job : Type 0} → ℕ → Slot Job → ℕ
slot_count k idle = 0
slot_count k (busy j job) = if j == k then 1 else 0
slot_count k stopped = 0

unfoldable pub busy_count : {Job : Type 0} → ℕ → List (Slot Job) → ℕ
busy_count k [] = 0
busy_count k (w ∷ ws) = slot_count k w + busy_count k ws

busy_count-append :
    {Job : Type 0} (k : ℕ) (us : List (Slot Job)) (w : Slot Job) (ws : List (Slot Job))
    → busy_count k (us ++ (w ∷ ws)) ≡ busy_count k us + slot_count k w + busy_count k ws
unfolding busy_count
busy_count-append k [] w ws = omega arith
busy_count-append k (u ∷ us) w ws = omega (arith, busy_count-append k us w ws)

-- How many results a key has.
unfoldable pub results_count : {R : Type 0} → ℕ → List (ℕ × R) → ℕ
results_count k [] = 0
results_count k ((j, r) ∷ rs) = (if j == k then 1 else 0) + results_count k rs

results_count-append :
    {R : Type 0} (k : ℕ) (rs : List (ℕ × R)) (j : ℕ) (r : R)
    → results_count k (rs ++ ((j, r) ∷ [])) ≡ results_count k rs + (if j == k then 1 else 0)
unfolding results_count
results_count-append k [] j r = omega arith
results_count-append k ((i, q) ∷ rs) j r = omega (arith, results_count-append k rs j r)

keep_first-ne-none : (o : Option Err) (e : Err) → keep_first o e ≢ none
keep_first-ne-none none e h = cc
keep_first-ne-none (some d) e h = cc

crowd {ℓ} : {A : Type ℓ} (xs : List A) (x : A) (ys : List A) → 0 < length (xs ++ (x ∷ ys))
crowd xs x ys = omega (arith, length-append xs (x ∷ ys))

true-ne-false : true ≢ false
true-ne-false h = cc

module _ {ℓ κ} {A : Type ℓ} (P : A → Type κ) where
  All-replace :
      (xs : List A) (x y : A) (ys : List A) → P y → All P (xs ++ (x ∷ ys)) → All P (xs ++ (y ∷ ys))
  All-replace [] x y ys py (px, h) = (py, h)
  All-replace (z ∷ xs) x y ys py (pz, h) = (pz, All-replace xs x y ys py h)

  All-middle : (xs : List A) (x : A) (ys : List A) → All P (xs ++ (x ∷ ys)) → P x
  All-middle [] x ys (px, h) = px
  All-middle (z ∷ xs) x ys (pz, h) = All-middle xs x ys h

All-weaken {ℓ κ μ} :
    {A : Type ℓ} (P : A → Type κ) (Q : A → Type μ)
    → ((a : A) → P a → Q a)
    → (xs : List A) → All P xs
    → All Q xs
All-weaken P Q f [] h = tt
All-weaken P Q f (x ∷ xs) (px, h) = (f x px, All-weaken P Q f xs h)

abbrev pub IsStopped : {Job : Type 0} → Slot Job → Type 0
IsStopped idle = ⊥
IsStopped (busy k job) = ⊥
IsStopped stopped = Unit

-- What is known of a job at work for a key, and of a key's result, in the state of the world. Both
-- stay true whatever the other workers and the scheduler do.
pub record Facts {State Job R : Type 0} (b : Body State Job R) : Type 1 where
  pub Pre : ℕ → Job → State → Type 0
  pub Post : ℕ → R → State → Type 0
  pub starts : (k : ℕ) (s : State) → Pre k (b.start k) s
  pub next :
      (k : ℕ) (j j' : Job) (s : State)
      → Pre k j s
      → (b.call j s).0 ≡ again j'
      → Pre k j' (b.call j s).1
  pub ends :
      (k : ℕ) (j : Job) (r : R) (s : State)
      → Pre k j s
      → (b.call j s).0 ≡ done r
      → Post k r (b.call j s).1
  pub pre_call : (k : ℕ) (j i : Job) (s : State) → Pre k j s → Pre k j (b.call i s).1
  pub post_call : (k : ℕ) (r : R) (i : Job) (s : State) → Post k r s → Post k r (b.call i s).1
  pub pre_choose : (k : ℕ) (j : Job) (s : State) → Pre k j s → Pre k j (b.choose s).1
  pub post_choose : (k : ℕ) (r : R) (s : State) → Post k r s → Post k r (b.choose s).1

module _ {State Job R : Type 0} (b : Body State Job R) (F : Facts b) (keys : List ℕ) where
  open F use {Pre, Post}

  abbrev pub SlotHolds : State → Slot Job → Type 0
  SlotHolds s idle = Unit
  SlotHolds s (busy k job) = Pre k job s
  SlotHolds s stopped = Unit

  abbrev pub ResultHolds : State → ℕ × R → Type 0
  ResultHolds s (k, r) = Post k r s

  -- Until an error or a cancelled context, each key is pending, at work or has a result.
  pub record Inv (p : Pool Job R) (s : State) : Type 0 where
    pub counted :
        p.error ≡ none
        → p.noticed ≡ false
        → (k : ℕ)
        → count k keys ≡ count k p.pending + busy_count k p.slots + results_count k p.results
    pub alive : p.error ≡ none → All (λ w. ¬ IsStopped w) p.slots
    pub staffed : 0 < length p.slots
    pub working : All (SlotHolds s) p.slots
    pub finished : All (ResultHolds s) p.results

  slots_call :
      (i : Job) (s : State) (ws : List (Slot Job))
      → All (SlotHolds s) ws
      → All (SlotHolds (b.call i s).1) ws
  slots_call i s = All-weaken (SlotHolds s) (SlotHolds (b.call i s).1) keep
    where
      keep : (w : Slot Job) → SlotHolds s w → SlotHolds (b.call i s).1 w
      keep idle h = tt
      keep (busy k job) h = F.pre_call k job i s h
      keep stopped h = tt

  slots_choose :
      (s : State) (ws : List (Slot Job)) → All (SlotHolds s) ws → All (SlotHolds (b.choose s).1) ws
  slots_choose s = All-weaken (SlotHolds s) (SlotHolds (b.choose s).1) keep
    where
      keep : (w : Slot Job) → SlotHolds s w → SlotHolds (b.choose s).1 w
      keep idle h = tt
      keep (busy k job) h = F.pre_choose k job s h
      keep stopped h = tt

  results_call :
      (i : Job) (s : State) (rs : List (ℕ × R))
      → All (ResultHolds s) rs
      → All (ResultHolds (b.call i s).1) rs
  results_call i s =
      All-weaken (ResultHolds s) (ResultHolds (b.call i s).1) (λ (k, r) h. F.post_call k r i s h)

  choose-Inv : (p : Pool Job R) (s : State) → Inv p s → Inv p (b.choose s).1
  choose-Inv p s v = record {
    counted = v.counted;
    alive = v.alive;
    staffed = v.staffed;
    working = slots_choose s p.slots v.working;
    finished =
        All-weaken (ResultHolds s) (ResultHolds (b.choose s).1) (λ (k, r) h. F.post_choose k r s h)
          p.results v.finished;
  }

  -- The slots after a worker's call, where the worker has come to `w`.
  worked_slots :
      (p : Pool Job R) (before : List (Slot Job)) (k : ℕ) (job : Job) (after : List (Slot Job))
      (s : State) (w : Slot Job)
      → p.slots ≡ before ++ (busy k job ∷ after)
      → Inv p s
      → SlotHolds (b.call job s).1 w
      → All (SlotHolds (b.call job s).1) (before ++ (w ∷ after))
  worked_slots p before k job after s w e v h =
      All-replace _ before (busy k job) w after h
        (slots_call job s _ (subst (All (SlotHolds s)) e v.working))

  worked_alive :
      (p : Pool Job R) (before : List (Slot Job)) (k : ℕ) (job : Job) (after : List (Slot Job))
      (s : State) (w : Slot Job)
      → p.slots ≡ before ++ (busy k job ∷ after)
      → Inv p s
      → p.error ≡ none
      → ¬ IsStopped w
      → All (λ u. ¬ IsStopped u) (before ++ (w ∷ after))
  worked_alive p before k job after s w e v ok h =
      All-replace _ before (busy k job) w after h (subst (All (λ u. ¬ IsStopped u)) e (v.alive ok))

  at_work :
      (p : Pool Job R) (before : List (Slot Job)) (k : ℕ) (job : Job) (after : List (Slot Job))
      (s : State)
      → p.slots ≡ before ++ (busy k job ∷ after)
      → Inv p s
      → Pre k job s
  at_work p before k job after s e v =
      All-middle (SlotHolds s) before (busy k job) after (subst (All (SlotHolds s)) e v.working)

  sent-Inv :
      (p : Pool Job R) (before after : List (Slot Job)) (ks : List ℕ) (s : State)
      → p.pending ≡ ks
      → p.slots ≡ before ++ (idle ∷ after)
      → Inv p s
      → Inv (sent b p before after ks) s
  unfolding sent
  sent-Inv p before after [] s q e v = v
  sent-Inv p before after (k ∷ ks) s q e v = record {
    counted = λ ok on j.
        unfold slot_count in
        omega (
          arith,
          v.counted ok on j,
          ap (count j) q,
          ap (busy_count j) e,
          busy_count-append j before idle after,
          busy_count-append j before (busy k (b.start k)) after,
        );
    alive = λ ok.
        All-replace _ before idle (busy k (b.start k)) after (λ z. z)
          (subst (All (λ w. ¬ IsStopped w)) e (v.alive ok));
    staffed = crowd before _ after;
    working =
        All-replace _ before idle (busy k (b.start k)) after (F.starts k s)
          (subst (All (SlotHolds s)) e v.working);
    finished = v.finished;
  }

  worked-Inv :
      (p : Pool Job R) (before : List (Slot Job)) (k : ℕ) (job : Job) (after : List (Slot Job))
      (s : State)
      → p.slots ≡ before ++ (busy k job ∷ after)
      → Inv p s
      → (progress : Progress Job R) → (b.call job s).0 ≡ progress
      → Inv (worked p before k after progress) (b.call job s).1
  unfolding worked
  worked-Inv p before k job after s e v (again j) q = record {
    counted = λ ok on i.
        unfold slot_count in
        omega (
          arith,
          v.counted ok on i,
          ap (busy_count i) e,
          busy_count-append i before (busy k job) after,
          busy_count-append i before (busy k j) after,
        );
    alive = λ ok. worked_alive p before k job after s (busy k j) e v ok (λ z. z);
    staffed = crowd before _ after;
    working =
        worked_slots p before k job after s (busy k j) e v
          (F.next k job j s (at_work p before k job after s e v) q);
    finished = results_call job s p.results v.finished;
  }
  worked-Inv p before k job after s e v (done r) q = record {
    counted = λ ok on i.
        unfold slot_count in
        omega (
          arith,
          v.counted ok on i,
          ap (busy_count i) e,
          busy_count-append i before (busy k job) after,
          busy_count-append i before idle after,
          results_count-append i p.results k r,
        );
    alive = λ ok. worked_alive p before k job after s idle e v ok (λ z. z);
    staffed = crowd before _ after;
    working = worked_slots p before k job after s idle e v tt;
    finished =
        All-append _ p.results _ (results_call job s p.results v.finished)
          (F.ends k job r s (at_work p before k job after s e v) q, tt);
  }
  worked-Inv p before k job after s e v (failed x) q = record {
    counted = λ ok. absurd (keep_first-ne-none p.error x ok);
    alive = λ ok. absurd (keep_first-ne-none p.error x ok);
    staffed = crowd before _ after;
    working = worked_slots p before k job after s stopped e v tt;
    finished = results_call job s p.results v.finished;
  }

  perform-Inv :
      (m : Move Job) (p : Pool Job R) (s : State)
      → IsEnabled p m
      → Inv p s
      → Inv (perform b m p s).0 (perform b m p s).1
  unfolding perform
  perform-Inv (send before after) p s (e, h) v = sent-Inv p before after p.pending s refl e v
  perform-Inv (work before k job after) p s e v =
      worked-Inv p before k job after s e v (b.call job s).0 refl
  perform-Inv notice p s h v = record {
    counted = λ ok on. absurd (true-ne-false on);
    alive = v.alive;
    staffed = v.staffed;
    working = v.working;
    finished = v.finished;
  }

  -- However the scheduler chooses, the account of the keys holds all through a run.
  pub run-Inv :
      (fuel : ℕ) (p : Pool Job R) (s : State) → Inv p s → Inv (run b fuel p s).0 (run b fuel p s).1
  unfolding run
  run-Inv zero p s v = v
  run-Inv (suc fuel) p s v = go (moves b p s) refl (λ q t w. run-Inv fuel q t w)
    where
      go :
          (ms : List (Move Job))
          → moves b p s ≡ ms
          → ((q : Pool Job R) (t : State) → Inv q t → Inv (run b fuel q t).0 (run b fuel q t).1)
          → Inv (run b (suc fuel) p s).0 (run b (suc fuel) p s).1
      go [] e rest = rw (run-nil b fuel p s e) v
      go (m ∷ ms) e rest =
          let (c, t) = b.choose s in
          rw (run-cons b fuel p s e)
            (rest _ _ (perform-Inv (pick c m ms) p t (pick-IsEnabled b p s c e) (choose-Inv p s v)))
