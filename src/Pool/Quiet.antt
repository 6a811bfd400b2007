-- ===== src/Pool/Quiet.antt =====
-- A pool whose jobs do not fail, and whose context is never done or not looked at.
use fractal_block_sync.Prelude.{
  ℕ, zero, suc, ◌≡◌, ◌≢◌, refl, sym, subst, Bool, true, false, ◌&&◌, ◌||◌, ◌⊎◌, inl, inr, arith,
  not, Option, none, some, List, [], ◌∷◌, ◌++◌, All, All-get_or,
}
use fractal_block_sync.Errors.{Err}
use fractal_block_sync.Pool.{
  Progress, again, done, failed, Slot, idle, busy, stopped, Pool, Body, Move, send, work, notice,
  is_empty, is_some, slot_moves, moves, worked, sent, perform, pick, run,
}
use fractal_block_sync.Pool.Finish.{after_pick, run-nil, run-cons}

module _ {Job : Type 0} where
  abbrev IsStep : Move Job → Type 0
  IsStep (send before after) = Unit
  IsStep (work before k job after) = Unit
  IsStep notice = ⊥

  slot_moves-IsStep :
      (can : Bool) (before ws : List (Slot Job)) → All IsStep (slot_moves can before ws)
  unfolding slot_moves
  slot_moves-IsStep can before [] = tt
  slot_moves-IsStep true before (idle ∷ ws) =
      (tt, slot_moves-IsStep true (before ++ (idle ∷ [])) ws)
  slot_moves-IsStep false before (idle ∷ ws) = slot_moves-IsStep false (before ++ (idle ∷ [])) ws
  slot_moves-IsStep can before (busy k job ∷ ws) =
      (tt, slot_moves-IsStep can (before ++ (busy k job ∷ [])) ws)
  slot_moves-IsStep can before (stopped ∷ ws) = slot_moves-IsStep can (before ++ (stopped ∷ [])) ws

unseen :
    (c x : Bool) (o e : Option Err)
    → (c ≡ false) ⊎ (e ≡ none)
    → o ≡ none
    → (c && x && (is_some o || is_some e)) ≡ false
unseen c x (some a) e h p = cc
unseen c x none (some a) (inr h) p = cc
unseen c x none (some a) (inl h) p = rw h refl
unseen c x none none h p = ground arith

module _ {State Job R : Type 0} (b : Body State Job R)
    (calm : (s : State) → (b.cancellable ≡ false) ⊎ (b.ctx_error s ≡ none))
    (answers : (j : Job) (s : State) (e : Err) → (b.call j s).0 ≢ failed e) where
  abbrev pub IsQuiet : Pool Job R → Type 0
  IsQuiet p = (p.error ≡ none) × (p.noticed ≡ false)

  moves-IsStep : (p : Pool Job R) (s : State) → IsQuiet p → All IsStep (moves b p s)
  unfolding moves
  moves-IsStep p s q =
      rw (unseen b.cancellable (not (is_empty p.pending)) p.error (b.ctx_error s) (calm s) q.0)
        (slot_moves-IsStep (not (is_empty p.pending)) [] p.slots)

  sent-IsQuiet :
      (p : Pool Job R) (before after : List (Slot Job)) (ks : List ℕ)
      → IsQuiet p
      → IsQuiet (sent b p before after ks)
  unfolding sent
  sent-IsQuiet p before after [] q = q
  sent-IsQuiet p before after (k ∷ ks) q = q

  worked-IsQuiet :
      (p : Pool Job R) (before : List (Slot Job)) (k : ℕ) (after : List (Slot Job))
      (g : Progress Job R)
      → ((e : Err) → g ≢ failed e)
      → IsQuiet p
      → IsQuiet (worked p before k after g)
  unfolding worked
  worked-IsQuiet p before k after (again j) h q = q
  worked-IsQuiet p before k after (done r) h q = q
  worked-IsQuiet p before k after (failed e) h q = absurd (h e refl)

  perform-IsQuiet :
      (m : Move Job) (p : Pool Job R) (s : State)
      → IsStep m
      → IsQuiet p
      → IsQuiet (perform b m p s).0
  unfolding perform
  perform-IsQuiet (send before after) p s h q = sent-IsQuiet p before after p.pending q
  perform-IsQuiet (work before k job after) p s h q =
      worked-IsQuiet p before k after _ (answers job s) q
  perform-IsQuiet notice p s h q = absurd h

  step-IsQuiet :
      (p : Pool Job R) (s : State) {m : Move Job} {ms : List (Move Job)}
      → moves b p s ≡ m ∷ ms
      → IsQuiet p
      → IsQuiet (after_pick b m ms p s).0
  unfolding pick
  step-IsQuiet p s {m} {ms} e q =
      let all : All IsStep (m ∷ ms) = rw e at (moves-IsStep p s q) in
      perform-IsQuiet (pick (b.choose s).0 m ms) p (b.choose s).1
        (All-get_or IsStep (m ∷ ms) _ m all all.0) q

  pub run-IsQuiet : (fuel : ℕ) (p : Pool Job R) (s : State) → IsQuiet p → IsQuiet (run b fuel p s).0
  unfolding run
  run-IsQuiet zero p s q = q
  run-IsQuiet (suc fuel) p s q = go (moves b p s) refl (λ r t h. run-IsQuiet fuel r t h)
    where
      go :
          (ms : List (Move Job))
          → moves b p s ≡ ms
          → ((r : Pool Job R) (t : State) → IsQuiet r → IsQuiet (run b fuel r t).0)
          → IsQuiet (run b (suc fuel) p s).0
      go [] e ih = subst (λ r. IsQuiet r.0) (sym (run-nil b fuel p s e)) q
      go (m ∷ ms) e ih =
          subst (λ r. IsQuiet r.0) (sym (run-cons b fuel p s e)) (ih _ _ (step-IsQuiet p s e q))
