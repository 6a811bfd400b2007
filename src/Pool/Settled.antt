-- ===== src/Pool/Settled.antt =====
-- A pool at rest, with no error and no cancelled context, has one result for each of its keys.
use fractal_block_sync.Prelude.{
  ℕ, zero, suc, ◌*◌, ◌<◌, ◌≡◌, refl, ap, subst, arith, Bool, true, false, ◌&&◌, ◌||◌, not, none,
  List, [], ◌∷◌, ◌++◌, ◌==◌, length, All, Bool-cases, inl, inr, count,
}
use fractal_block_sync.Pool.{
  again, Slot, idle, busy, stopped, Pool, Body, notice, is_empty, is_some, slot_moves, moves, run,
  idle_slots, fresh_pool,
}
use fractal_block_sync.Pool.Finish.{measure, run-moves, slots_weight, slot_weight}
use fractal_block_sync.Pool.Account.{
  busy_count, slot_count, results_count, IsStopped, Facts, ResultHolds, SlotHolds, Inv, run-Inv,
}

module _ {Job : Type 0} where
  pub quiet :
      (can : Bool) (before ws : List (Slot Job))
      → slot_moves can before ws ≡ []
      → All (λ w. ¬ IsStopped w) ws
      → (0 < length ws → can ≡ false) × ((k : ℕ) → busy_count k ws ≡ 0)
  unfolding slot_moves busy_count slot_count
  quiet can before [] e h = (λ z. absurd (omega arith), λ k. refl)
  quiet true before (idle ∷ ws) e h = cc
  quiet false before (idle ∷ ws) e (_, h) =
      (λ z. refl, λ k. omega (arith, (quiet false (before ++ (idle ∷ [])) ws e h).1 k))
  quiet can before (busy k job ∷ ws) e h = cc
  quiet can before (stopped ∷ ws) e (dead, h) = absurd (dead tt)

is_empty-nil : {A : Type 0} (xs : List A) → not (is_empty xs) ≡ false → xs ≡ []
is_empty-nil [] h = refl
is_empty-nil (x ∷ xs) h = cc

busy_count-idle_slots : (Job : Type 0) (k n : ℕ) → busy_count {Job = Job} k (idle_slots n) ≡ 0
unfolding busy_count slot_count idle_slots
busy_count-idle_slots Job k zero = refl
busy_count-idle_slots Job k (suc n) = omega (arith, busy_count-idle_slots Job k n)

pub slots_weight-idle_slots :
    {Job : Type 0} (weight : Job → ℕ) (n : ℕ) → slots_weight weight (idle_slots n) ≡ 0
unfolding slots_weight slot_weight idle_slots
slots_weight-idle_slots weight zero = refl
slots_weight-idle_slots weight (suc n) = omega (arith, slots_weight-idle_slots weight n)

All-idle_slots : {Job : Type 0} (P : Slot Job → Type 0) (n : ℕ) → P idle → All P (idle_slots n)
unfolding idle_slots
All-idle_slots P zero h = tt
All-idle_slots P (suc n) h = (h, All-idle_slots P n h)

length-idle_slots : (Job : Type 0) (n : ℕ) → length (idle_slots {Job = Job} n) ≡ n
unfolding idle_slots
length-idle_slots Job zero = refl
length-idle_slots Job (suc n) = ap suc (length-idle_slots Job n)

module _ {State Job R : Type 0} (b : Body State Job R) where
  pub moves-eq-nil :
      (p : Pool Job R) (s : State)
      → moves b p s ≡ []
      → slot_moves (not (is_empty p.pending)) [] p.slots ≡ []
  unfolding moves
  moves-eq-nil p s e =
      elim (Bool-cases (
        b.cancellable
        && not (is_empty p.pending)
        && (is_some p.error || is_some (b.ctx_error s)))) [
          | inl y ↦
              let h : notice ∷ slot_moves (not (is_empty p.pending)) [] p.slots ≡ [] = rw y at e in
              cc
          | inr n ↦ rw n at e
        ]

  module _ (F : Facts b) (keys : List ℕ) where
    pub settled :
        (p : Pool Job R) (s : State)
        → Inv b F keys p s
        → moves b p s ≡ []
        → p.error ≡ none
        → p.noticed ≡ false
        → (k : ℕ) → results_count k p.results ≡ count k keys
    settled p s v e ok on k =
        let (sent_all, at_rest) = quiet _ [] p.slots (moves-eq-nil p s e) (v.alive ok) in
        let none_left : p.pending ≡ [] = is_empty-nil p.pending (sent_all v.staffed) in
        omega (arith, v.counted ok on k, at_rest k, ap (count k) none_left)

    -- A key with a result has what the facts say of one.
    pub result_of :
        (s : State) (k : ℕ) (rs : List (ℕ × R))
        → All (ResultHolds b F keys s) rs
        → 0 < results_count k rs
        → (r : R) × F.Post k r s
    unfolding results_count
    result_of s k [] h pos = absurd (omega arith)
    result_of s k ((j, r) ∷ rs) (hr, h) pos = elim (Bool-cases (j == k)) [
      | inl y ↦ (r, subst (λ i. F.Post i r s) (same j k y) hr)
      | inr n ↦ result_of s k rs h (ground arith)
    ]
      where
        same : (j k : ℕ) → (j == k) ≡ true → j ≡ k
        same j k e = ground arith

    pub fresh_pool-Inv : (n : ℕ) (s : State) → 0 < n → Inv b F keys (fresh_pool keys n) s
    unfolding results_count
    fresh_pool-Inv n s pos = record {
      counted = λ ok on k. omega (arith, busy_count-idle_slots Job k n);
      alive = λ ok. All-idle_slots (λ w. ¬ IsStopped w) n (λ z. z);
      staffed = omega (arith, length-idle_slots Job n);
      working = All-idle_slots (SlotHolds b F keys s) n tt;
      finished = tt;
    }

    module _ (weight : Job → ℕ) (top : ℕ) (starts : (k : ℕ) → suc (weight (b.start k)) < top)
        (falls : (j j' : Job) (s : State) → (b.call j s).0 ≡ again j' → weight j' < weight j) where
      -- A pool that ran on enough fuel and met no error and no cancelled context has one result for
      -- each key that it was given.
      pub run_results :
          (n fuel : ℕ) (s : State)
          → 0 < n
          → length keys * top < fuel
          → (run b fuel (fresh_pool keys n) s).0.error ≡ none
          → (run b fuel (fresh_pool keys n) s).0.noticed ≡ false
          → (k : ℕ) → results_count k (run b fuel (fresh_pool keys n) s).0.results ≡ count k keys
      unfolding measure
      run_results n fuel s pos enough =
          settled _ _ (run-Inv b F keys fuel _ s (fresh_pool-Inv n s pos)) (
            run-moves b weight top starts falls fuel _ s
              (omega (arith, slots_weight-idle_slots weight n)))

      pub run_complete :
          (n fuel : ℕ) (s : State)
          → 0 < n
          → length keys * top < fuel
          → (run b fuel (fresh_pool keys n) s).0.error ≡ none
          → (run b fuel (fresh_pool keys n) s).0.noticed ≡ false
          → (k : ℕ) → 0 < count k keys
          → (r : R) × F.Post k r (run b fuel (fresh_pool keys n) s).1
      run_complete n fuel s pos enough ok on k some_key =
          let v = run-Inv b F keys fuel _ s (fresh_pool-Inv n s pos) in
          result_of _ k _ v.finished (omega (arith, run_results n fuel s pos enough ok on k))
