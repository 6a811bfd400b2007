-- ===== src/Pool/Returns.antt =====
-- A pool that comes to rest has ended: it has sent or dropped all keys, and no worker is at work.
use fractal_block_sync.Prelude.{
  ℕ, suc, ◌*◌, ◌<◌, ◌≡◌, refl, sym, arith, Bool, true, false, not, ◌⊎◌, inl, inr, none, some, List,
  [], ◌∷◌, ◌++◌, length, All, Bool-cases, Option-cases, ◌∙◌,
}
use fractal_block_sync.Errors.{Err}
use fractal_block_sync.Pool.{
  again, Slot, idle, busy, stopped, Pool, Body, is_empty, any, is_busy, has_returned, slot_moves,
  moves, run, fresh_pool,
}
use fractal_block_sync.Pool.Finish.{measure, run-moves}
use fractal_block_sync.Pool.Account.{IsStopped, Facts, run-Inv}
use fractal_block_sync.Pool.Settled.{quiet, moves-eq-nil, fresh_pool-Inv, slots_weight-idle_slots}

none_busy :
    {Job : Type 0} (can : Bool) (before ws : List (Slot Job))
    → slot_moves can before ws ≡ []
    → any is_busy ws ≡ false
unfolding slot_moves
none_busy can before [] e = refl
none_busy true before (idle ∷ ws) e = cc
none_busy false before (idle ∷ ws) e = none_busy false (before ++ (idle ∷ [])) ws e
none_busy can before (busy k job ∷ ws) e = cc
none_busy can before (stopped ∷ ws) e = none_busy can (before ++ (stopped ∷ [])) ws e

-- Nothing need be known of the jobs.
plain : {State Job R : Type 0} (b : Body State Job R) → Facts b
plain b = record {
  Pre = λ k j s. Unit;
  Post = λ k r s. Unit;
  starts = λ k s. tt;
  next = λ k j i s p e. tt;
  ends = λ k j r s p e. tt;
  pre_call = λ k j i s p. tt;
  post_call = λ k r i s p. tt;
  pre_choose = λ k j s p. tt;
  post_choose = λ k r s p. tt;
}

not_both : {c : Bool} → c ≡ true → c ≡ false → ⊥
not_both p q = cc

not_nil : {A : Type 0} {x : A} {xs : List A} → x ∷ xs ≡ [] → ⊥
not_nil p = cc

not_some : {A : Type 0} {a : A} → some a ≡ none → ⊥
not_some p = cc

module _ {State Job R : Type 0} (b : Body State Job R) where
  noticing :
      (p : Pool Job R) (s : State) {e : Err}
      → b.cancellable ≡ true
      → not (is_empty p.pending) ≡ true
      → p.error ≡ some e
      → ¬ (moves b p s ≡ [])
  unfolding moves
  noticing p s c keys failing h = not_nil (rw (c, keys, failing) at h)

  at_rest :
      (p : Pool Job R) (s : State)
      → moves b p s ≡ []
      → 0 < length p.slots
      → (p.error ≡ none → All (λ w. ¬ IsStopped w) p.slots)
      → (p.error ≡ none) ⊎ (b.cancellable ≡ true)
      → has_returned p ≡ true
  unfolding has_returned
  at_rest p s e staffed alive way =
      let still = moves-eq-nil b p s e in
      let idle_all = none_busy (not (is_empty p.pending)) [] p.slots still in
      elim (Bool-cases (not (is_empty p.pending))) [
        | inr m ↦ ground (arith, m, idle_all)
        | inl y ↦ absurd (elim (Option-cases p.error) [
          | inl ok ↦ not_both (y) ((quiet _ [] p.slots still (alive ok)).0 staffed)
          | inr (x, failing) ↦ elim way [
            | inl ok ↦ not_some (sym failing ∙ ok)
            | inr c ↦ noticing p s c y failing e
          ]
        ])
      ]

  module _ (weight : Job → ℕ) (top : ℕ) (starts : (k : ℕ) → suc (weight (b.start k)) < top)
      (falls : (j j' : Job) (s : State) → (b.call j s).0 ≡ again j' → weight j' < weight j) where
    -- With some worker and enough fuel, a pool that looks at its context, or that met no error, ends.
    pub run_returns :
        (keys : List ℕ) (n fuel : ℕ) (s : State)
        → 0 < n
        → length keys * top < fuel
        → ((run b fuel (fresh_pool keys n) s).0.error ≡ none) ⊎ (b.cancellable ≡ true)
        → has_returned (run b fuel (fresh_pool keys n) s).0 ≡ true
    unfolding measure
    run_returns keys n fuel s pos enough way =
        let v = run-Inv b (plain b) keys fuel _ s (fresh_pool-Inv b (plain b) keys n s pos) in
        at_rest _ _
          (run-moves b weight top starts falls fuel _ s
            (omega (arith, slots_weight-idle_slots weight n)))
          v.staffed v.alive way
