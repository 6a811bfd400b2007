-- ===== src/Pool/Keeps.antt =====
-- What the scheduler and each call of a job keep, a pool keeps.
use fractal_block_sync.Prelude.{ℕ, zero, suc, ◌≡◌, refl, sym, subst, List, [], ◌∷◌}
use fractal_block_sync.Pool.{Pool, Body, Move, send, work, notice, moves, perform, pick, run}
use fractal_block_sync.Pool.Finish.{run-nil, run-cons}

module _ {State Job R : Type 0} (b : Body State Job R) (P : State → Type 0)
    (by_choose : (s : State) → P s → P (b.choose s).1)
    (by_call : (j : Job) (s : State) → P s → P (b.call j s).1) where
  perform-keeps : (m : Move Job) (p : Pool Job R) (s : State) → P s → P (perform b m p s).1
  unfolding perform
  perform-keeps (send before after) p s h = h
  perform-keeps (work before k job after) p s h = by_call job s h
  perform-keeps notice p s h = h

  pub run-keeps : (fuel : ℕ) (p : Pool Job R) (s : State) → P s → P (run b fuel p s).1
  unfolding run
  run-keeps zero p s h = h
  run-keeps (suc fuel) p s h = go (moves b p s) refl (λ r t k. run-keeps fuel r t k)
    where
      go :
          (ms : List (Move Job))
          → moves b p s ≡ ms
          → ((r : Pool Job R) (t : State) → P t → P (run b fuel r t).1)
          → P (run b (suc fuel) p s).1
      go [] e ih = subst (λ r. P r.1) (sym (run-nil b fuel p s e)) h
      go (m ∷ ms) e ih =
          subst (λ r. P r.1) (sym (run-cons b fuel p s e))
            (ih _ _ (perform-keeps (pick (b.choose s).0 m ms) p (b.choose s).1 (by_choose s h)))
