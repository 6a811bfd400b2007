-- ===== src/Submit/Pipeline/Measure/Ends.antt =====
-- Every schedule of the pipeline is bounded, and each of them goes on to an end.
use fractal_block_sync.Prelude.{
  ℕ, zero, suc, ◌+◌, ◌*◌, ◌≤◌, ◌<◌, ◌≡◌, refl, ap, subst, ◌∙◌, arith, Option, none, some, List, [],
  ◌∷◌, Text, max_u64, length, inl, inr, u64,
}
use fractal_block_sync.Errors.{Err, Result, ok, err}
use fractal_block_sync.BtcRpc.{BlockchainInfo}
use fractal_block_sync.Submit.Services.{Services, SubmitConfig}
use fractal_block_sync.Submit.Next.Verified.{ReadsKeep}
use fractal_block_sync.Submit.Pipeline.{Pipeline}
use fractal_block_sync.Submit.Pipeline.Run.{
  PipelineMove, crew, after, make_move, run_moves, started, prepared, submit_pipeline, from_start,
  pipeline_after, count_or_default,
}
use fractal_block_sync.Submit.Pipeline.Invariant.{OnSome, OnSome-map}
use fractal_block_sync.Submit.Pipeline.Counted.{total, is_gone}
use fractal_block_sync.Submit.Pipeline.Filled.{IsFilled}
use fractal_block_sync.Submit.Pipeline.Filled.Steps.{perform-IsFilled}
use fractal_block_sync.Submit.Pipeline.Filled.Safe.{started-IsFilled, total-crew}
use fractal_block_sync.Submit.Pipeline.Progress.{IsFinished, can_move}
use fractal_block_sync.Submit.Pipeline.Progress.Manned.{IsManned, IsDone, perform-IsManned}
use fractal_block_sync.Submit.Pipeline.Measure.{left, worker_left, Falls, left-make_move}

module _ (E : Services) (ctx_error : E.State → Option Err)
    (reads : ReadsKeep E (IsDone E ctx_error))
    (submits : (raw : Text) (s : E.State)
      → IsDone E ctx_error s
      → IsDone E ctx_error (E.submit_block raw s).1) where
  -- Some more moves bring `run` and its workers to their end.
  abbrev pub CanFinish : Pipeline × E.State → Type 0
  CanFinish (p, s) =
      (ms : List PipelineMove) × (q : Pipeline) × (t : E.State) × (run_moves E ctx_error ms p s
        ≡ some (q, t))
      × IsFinished E ctx_error q

  finishes :
      (n : ℕ) (p : Pipeline) (s : E.State)
      → left p < n
      → IsFilled p
      → IsManned E ctx_error (p, s)
      → CanFinish (p, s)
  unfolding run_moves
  finishes zero p s b v m = absurd (omega (arith, b))
  finishes (suc n) p s b v m = elim (can_move E ctx_error p s v m) [
    | inl done ↦ ([], p, s, refl, done)
    | inr (mv, ((q, t), e)) ↦
        let fewer = subst (Falls E ctx_error p) e (left-make_move E ctx_error mv p s v) in
        let filled =
          subst (OnSome (λ (x : Pipeline × E.State). IsFilled x.0)) e
            (perform-IsFilled E ctx_error mv p s v) in
        let manned =
          subst (OnSome (IsManned E ctx_error)) e
            (perform-IsManned E ctx_error reads submits mv p s m) in
        let (ms, r, u, go, done) = finishes n q t (omega (arith, fewer, b)) filled manned in
        (mv ∷ ms, r, u, ap (λ o. after o (run_moves E ctx_error ms)) e ∙ go, done)
  ]

  run_moves-ends :
      (ms : List PipelineMove) (p : Pipeline) (s : E.State)
      → IsFilled p
      → IsManned E ctx_error (p, s)
      → OnSome
          (λ (x : Pipeline × E.State). (left x.0 + length ms ≤ left p) × CanFinish x)
          (run_moves E ctx_error ms p s)
  unfolding run_moves
  run_moves-ends [] p s v m = (omega arith, finishes (suc (left p)) p s (omega arith) v m)
  run_moves-ends (mv ∷ ms) p s v m =
      onward (make_move E ctx_error mv p s) (left-make_move E ctx_error mv p s v)
        (perform-IsFilled E ctx_error mv p s v)
        (perform-IsManned E ctx_error reads submits mv p s m) (λ q t w k. run_moves-ends ms q t w k)
    where
      onward :
          (o : Option (Pipeline × E.State))
          → Falls E ctx_error p o
          → OnSome (λ (x : Pipeline × E.State). IsFilled x.0) o
          → OnSome (IsManned E ctx_error) o
          → ((q : Pipeline) (t : E.State)
              → IsFilled q
              → IsManned E ctx_error (q, t)
              → OnSome
                  (λ (x : Pipeline × E.State). (left x.0 + length ms ≤ left q) × CanFinish x)
                  (run_moves E ctx_error ms q t))
          → OnSome
              (λ (x : Pipeline × E.State). (left x.0 + length (mv ∷ ms) ≤ left p) × CanFinish x)
              (after o (run_moves E ctx_error ms))
      onward none f w k ih = tt
      onward (some (q, t)) f w k ih =
          OnSome-map (λ (x : Pipeline × E.State). (left x.0 + length ms ≤ left q) × CanFinish x)
            (λ (x : Pipeline × E.State). (left x.0 + length (mv ∷ ms) ≤ left p) × CanFinish x)
            (run_moves E ctx_error ms q t) (λ x (h, c). (omega (arith, f, h), c)) (ih q t w k)

  module _ (cfg : SubmitConfig) where
    total-crew_left : (n : ℕ) → total worker_left (crew n) ≡ n
    unfolding crew
    total-crew_left zero = refl
    total-crew_left (suc n) = omega (arith, total-crew_left n)

    left-started :
        (info : BlockchainInfo)
        → left (started E ctx_error cfg info)
          ≤ 8 * (max_u64 + 1) + count_or_default 4 cfg.download_workers + 2
    unfolding left
    left-started info =
        let target = u64 (info.blocks + 1) in
        omega (arith, total-crew_left (count_or_default 4 cfg.download_workers))

    -- A schedule has ended, or can be brought to an end.
    abbrev pub Ends : ℕ → Pipeline × E.State → Type 0
    Ends moves x =
        (moves ≤ 8 * (max_u64 + 1) + count_or_default 4 cfg.download_workers + 2) × CanFinish x

    -- A context that is done stays done. Then, whatever the services answer, a schedule of
    -- SubmitPipeline makes no more moves than eight for each uint64, one for each worker and
    -- two, so that run returns under every scheduler that keeps making moves; and from each
    -- state that a schedule reaches, some more moves bring run and all workers to their return.
    pub pipeline-Ends :
        (ms : List PipelineMove) (s : E.State)
        → OnSome (Ends (length ms)) (pipeline_after E ctx_error cfg ms s)
    unfolding pipeline_after submit_pipeline prepared
    pipeline-Ends ms s = from_info (E.get_blockchain_info s)
      where
        from_info :
            (a : Result BlockchainInfo × E.State)
            → OnSome (Ends (length ms)) (from_start E ctx_error ms (prepared E ctx_error cfg a))
        from_info (err e, t) = tt
        from_info (ok info, t) =
            OnSome-map _ (Ends (length ms))
              (run_moves E ctx_error ms (started E ctx_error cfg info) t)
              (λ x (h, c). (omega (arith, h, left-started info), c))
              (run_moves-ends ms (started E ctx_error cfg info) t
                (started-IsFilled E ctx_error cfg info) (λ l. inl (total-crew is_gone _ refl)))
