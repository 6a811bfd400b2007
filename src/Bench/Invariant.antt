-- ===== src/Bench/Invariant.antt =====
-- An invariant of the benchmark holds after each schedule.
use fractal_block_sync.Prelude.{Option, none, some, List, [], ◌∷◌}
use fractal_block_sync.Errors.{Err}
use fractal_block_sync.Submit.Services.{Services}
use fractal_block_sync.Submit.Pipeline.Invariant.{OnSome}
use fractal_block_sync.Bench.{Bench}
use fractal_block_sync.Bench.Run.{BenchMove, after_bench, bench_move, bench_run}

-- What a move or a schedule leaves, if it can be made.
abbrev pub Leaves : {S : Type 0} → (Bench → Type 0) → Option (Bench × S) → Type 0
Leaves Inv = OnSome (λ (b, s). Inv b)

module _ (E : Services) (ctx_error : E.State → Option Err) (Inv : Bench → Type 0)
    (step : (m : BenchMove) (b : Bench) (s : E.State)
      → Inv b
      → Leaves Inv (bench_move E ctx_error m b s)) where
  after_bench-keeps :
      (o : Option (Bench × E.State)) (f : Bench → E.State → Option (Bench × E.State))
      → ((b : Bench) (s : E.State) → Inv b → Leaves Inv (f b s))
      → Leaves Inv o
      → Leaves Inv (after_bench o f)
  after_bench-keeps none f k v = tt
  after_bench-keeps (some (b, s)) f k v = k b s v

  pub bench_run-keeps :
      (ms : List BenchMove) (b : Bench) (s : E.State)
      → Inv b
      → Leaves Inv (bench_run E ctx_error ms b s)
  unfolding bench_run
  bench_run-keeps [] b s v = v
  bench_run-keeps (m ∷ ms) b s v =
      after_bench-keeps (bench_move E ctx_error m b s) (bench_run E ctx_error ms)
        (λ c t w. bench_run-keeps ms c t w) (step m b s v)
