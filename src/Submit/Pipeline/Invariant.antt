-- ===== src/Submit/Pipeline/Invariant.antt =====
-- What each move of the pipeline keeps, a schedule keeps.
use fractal_block_sync.Prelude.{Option, none, some, List, [], ◌∷◌}
use fractal_block_sync.Errors.{Err}
use fractal_block_sync.Submit.Services.{Services}
use fractal_block_sync.Submit.Pipeline.{Pipeline}
use fractal_block_sync.Submit.Pipeline.Run.{PipelineMove, after, make_move, run_moves}

-- What holds of the outcome of a move that can be made.
abbrev pub OnSome : {A : Type 0} → (A → Type 0) → Option A → Type 0
OnSome P none = Unit
OnSome P (some a) = P a

pub OnSome-map :
    {A : Type 0} (P Q : A → Type 0) (o : Option A) → ((a : A) → P a → Q a) → OnSome P o → OnSome Q o
OnSome-map P Q none f h = tt
OnSome-map P Q (some a) f h = f a h

module _ (E : Services) (ctx_error : E.State → Option Err) (Inv : Pipeline × E.State → Type 0)
    (step : (m : PipelineMove) (p : Pipeline) (s : E.State)
      → Inv (p, s)
      → OnSome Inv (make_move E ctx_error m p s)) where
  after-keeps :
      (o : Option (Pipeline × E.State)) (f : Pipeline → E.State → Option (Pipeline × E.State))
      → ((p : Pipeline) (s : E.State) → Inv (p, s) → OnSome Inv (f p s))
      → OnSome Inv o
      → OnSome Inv (after o f)
  after-keeps none f k v = tt
  after-keeps (some (p, s)) f k v = k p s v

  pub run-keeps :
      (ms : List PipelineMove) (p : Pipeline) (s : E.State)
      → Inv (p, s)
      → OnSome Inv (run_moves E ctx_error ms p s)
  unfolding run_moves
  run-keeps [] p s v = v
  run-keeps (m ∷ ms) p s v =
      after-keeps (make_move E ctx_error m p s) (run_moves E ctx_error ms)
        (λ q t w. run-keeps ms q t w) (step m p s v)
