-- ===== src/Submit/Pipeline/Progress.antt =====
-- The goroutines of the pipeline never wait for each other for ever.
pub mod Manned
use fractal_block_sync.Prelude.{
  ℕ, zero, suc, ◌+◌, ◌≤◌, ◌<◌, ◌≡◌, refl, sym, ap, subst, ◌∙◌, arith, Bool, true, false, not,
  Option, none, some, List, [], ◌∷◌, ◌++◌, ltb, ◌==◌, length, count, get_elem?, ◌⊎◌, inl, inr,
  Bool-cases, Option-cases, Text,
}
use fractal_block_sync.Errors.{Err, Result, ok, err}
use fractal_block_sync.BtcRpc.{BlockchainInfo}
use fractal_block_sync.Submit.Services.{Services, SubmitConfig}
use fractal_block_sync.Submit.Next.Verified.{ReadsKeep}
use fractal_block_sync.Submit.Pipeline.{
  DownloadJob, Download, Worker, idle, fetching, holding, gone, Pipeline, Phase, filling, sending,
  looping, returned, lookup, is_pending,
}
use fractal_block_sync.Submit.Pipeline.Workers.{
  take_job, fetch, deliver, quit, is_cancelled, replace,
}
use fractal_block_sync.Submit.Pipeline.Window.{send_job, scheduled}
use fractal_block_sync.Submit.Pipeline.Run.{
  PipelineMove, proceed, cancel, receive, take, download, send, quit_worker, rest, is_resting, loop,
  go_on, is_selecting, see_done, get_result, take_result, make_move, run_moves, return_error,
  started, prepared, submit_pipeline, from_start, pipeline_after, count_or_default,
}
use fractal_block_sync.Submit.Pipeline.Invariant.{OnSome, OnSome-map, run-keeps}
use fractal_block_sync.Submit.Pipeline.Ordered.{is_live}
use fractal_block_sync.Submit.Pipeline.Counted.{
  total, is_busy, is_gone, downloads_at, lookup-none, is_pending-false, is_pending-true,
  count-length,
}
use fractal_block_sync.Submit.Pipeline.Filled.{on_way, PhaseFits, Filled, IsFilled, within}
use fractal_block_sync.Submit.Pipeline.Filled.Safe.{total-crew, pipeline-IsFilled}
use fractal_block_sync.Submit.Pipeline.Progress.Manned.{IsManned, IsDone, perform-IsManned}

abbrev pub IsPossible : {A : Type 0} → Option A → Type 0
IsPossible {A} o = (a : A) × (o ≡ some a)

-- A worker that is at work, and one that has not returned.
find_busy :
    (ws : List Worker)
    → 0 < total is_busy ws
    → (i : ℕ) × (w : Worker) × (get_elem? ws i ≡ some w) × (is_busy w ≡ 1)
find_busy [] h = absurd (omega arith)
find_busy (fetching job ∷ ws) h = (0, fetching job, refl, refl)
find_busy (holding d ∷ ws) h = (0, holding d, refl, refl)
find_busy (idle ∷ ws) h = let (i, w, e, b) = find_busy ws (omega (arith, h)) in (suc i, w, e, b)
find_busy (gone ∷ ws) h = let (i, w, e, b) = find_busy ws (omega (arith, h)) in (suc i, w, e, b)

find_present :
    (ws : List Worker)
    → total is_gone ws < length ws
    → (i : ℕ) × (w : Worker) × (get_elem? ws i ≡ some w) × (is_gone w ≡ 0)
find_present [] h = absurd (omega arith)
find_present (fetching job ∷ ws) h = (0, fetching job, refl, refl)
find_present (holding d ∷ ws) h = (0, holding d, refl, refl)
find_present (idle ∷ ws) h = (0, idle, refl, refl)
find_present (gone ∷ ws) h =
    let (i, w, e, b) = find_present ws (omega (arith, h)) in (suc i, w, e, b)

gone_le : (ws : List Worker) → total is_gone ws ≤ length ws
gone_le [] = omega arith
gone_le (idle ∷ ws) = omega (arith, gone_le ws)
gone_le (fetching job ∷ ws) = omega (arith, gone_le ws)
gone_le (holding d ∷ ws) = omega (arith, gone_le ws)
gone_le (gone ∷ ws) = omega (arith, gone_le ws)

module _ (E : Services) (ctx_error : E.State → Option Err) where
  -- A move that can be made.
  abbrev pub CanMove : Pipeline → E.State → Type 0
  CanMove p s = (m : PipelineMove) × IsPossible (make_move E ctx_error m p s)

  -- `run` has returned, and so has each worker.
  abbrev pub IsFinished : Pipeline → Type 0
  IsFinished p = (is_live p.phase ≡ false) × (total is_gone p.workers ≡ length p.workers)

  can_fetch :
      (p : Pipeline) (s : E.State) (i : ℕ) (job : DownloadJob)
      → get_elem? p.workers i ≡ some (fetching job)
      → CanMove p s
  unfolding make_move fetch
  can_fetch p s i job e = (download i, (_, ap (λ w. fetch E i w p s) e))

  can_quit :
      (p : Pipeline) (s : E.State) (i : ℕ) (w : Worker)
      → is_cancelled (ctx_error s) p.phase ≡ true
      → get_elem? p.workers i ≡ some w
      → is_gone w ≡ 0
      → CanMove p s
  unfolding make_move quit fetch
  can_quit p s i idle c e g = (quit_worker i, (_, λ k. quit E i (c k) (e k) p s))
  can_quit p s i (holding d) c e g = (quit_worker i, (_, λ k. quit E i (c k) (e k) p s))
  can_quit p s i (fetching job) c e g = can_fetch p s i job e
  can_quit p s i gone c e g = absurd (omega (arith, g))

  can_deliver :
      (p : Pipeline) (s : E.State) (i : ℕ) (d : Download)
      → get_elem? p.workers i ≡ some (holding d)
      → length p.results < p.prefetch_window
      → CanMove p s
  unfolding make_move deliver
  can_deliver p s i d e room =
      let y : ltb (length p.results) p.prefetch_window ≡ true = ground arith in
      (
        send i,
        (
          (record p { results = p.results ++ (d ∷ []); workers = replace i idle p.workers }, s),
          rw e (rw y refl),
        ),
      )

  can_take :
      (p : Pipeline) (s : E.State) (i : ℕ) (job : DownloadJob) (jobs : List DownloadJob)
      → get_elem? p.workers i ≡ some idle
      → p.jobs ≡ job ∷ jobs
      → CanMove p s
  unfolding make_move take_job
  can_take p s i job jobs e h = (take i, (_, λ k. take_job E i (e k) (h k) p s))

  -- With pending heights, no result and all workers there, a worker can move.
  working :
      (top : ℕ) (p : Pipeline) (s : E.State)
      → Filled top p
      → p.results ≡ []
      → total is_gone p.workers ≡ 0
      → 0 < length p.pending
      → (jobs : List DownloadJob) → p.jobs ≡ jobs
      → CanMove p s
  working top p s v no_results g some_pending [] h =
      let busy : 0 < total is_busy p.workers =
        omega (arith, rw (h, no_results) at v.whole g, some_pending) in
      let (i, w, e, b) = find_busy p.workers busy in busy_moves i w e b
    where
      busy_moves :
          (i : ℕ) (w : Worker) → get_elem? p.workers i ≡ some w → is_busy w ≡ 1 → CanMove p s
      busy_moves i idle e b = absurd (omega (arith, b))
      busy_moves i gone e b = absurd (omega (arith, b))
      busy_moves i (fetching job) e b = can_fetch p s i job e
      busy_moves i (holding d) e b = can_deliver p s i d e (rw no_results v.wide)
  working top p s v no_results g some_pending (job ∷ jobs) h =
      let (i, w, e, present) = find_present p.workers (omega (arith, g, v.staffed)) in
      present_moves i w e present
    where
      present_moves :
          (i : ℕ) (w : Worker) → get_elem? p.workers i ≡ some w → is_gone w ≡ 0 → CanMove p s
      present_moves i idle e b = can_take p s i job jobs e h
      present_moves i gone e b = absurd (omega (arith, b))
      present_moves i (fetching x) e b = can_fetch p s i x e
      present_moves i (holding d) e b = can_deliver p s i d e (rw no_results v.wide)

  -- The current height is on its way when `run` waits for a result.
  awaited :
      (top : ℕ) (p : Pipeline)
      → Filled top p
      → p.phase ≡ looping
      → lookup p.current_height p.ready ≡ none
      → is_resting p ≡ false
      → 0 < length p.pending
  unfolding is_resting
  awaited top p v at absent wakes = elim (Bool-cases (is_pending p.current_height p.pending)) [
    | inl y ↦ omega (
      arith,
      is_pending-true p.current_height p.pending y,
      count-length p.current_height p.pending,
    )
    | inr n ↦
        let fits = subst (PhaseFits p top) at v.at_phase in
        let not_ready = lookup-none p.current_height p.ready absent in
        let part = v.parted p.current_height in
        ground (
          arith,
          n,
          wakes,
          fits,
          not_ready,
          part,
          v.wide,
          v.sized,
          count-length p.current_height p.pending,
        )
  ]

  selecting :
      (top : ℕ) (p : Pipeline) (s : E.State)
      → Filled top p
      → IsManned E ctx_error (p, s)
      → p.phase ≡ looping
      → lookup p.current_height p.ready ≡ none
      → is_resting p ≡ false
      → (ds : List Download) → p.results ≡ ds
      → CanMove p s
  unfolding make_move get_result see_done is_selecting
  selecting top p s v m at absent wakes (d ∷ ds) h =
      (receive, ((take_result d ds p, s), rw (at, h) (rw (absent, wakes) refl)))
  selecting top p s v m at absent wakes [] h = elim (m (ap is_live at)) [
    | inl all ↦ working top p s v h all (awaited top p v at absent wakes) p.jobs refl
    | inr (e, c) ↦ (cancel, ((return_error e p, s), rw (at, c) (rw (absent, wakes) refl)))
  ]

  looping_moves :
      (top : ℕ) (p : Pipeline) (s : E.State)
      → Filled top p
      → IsManned E ctx_error (p, s)
      → p.phase ≡ looping
      → CanMove p s
  unfolding make_move go_on loop
  looping_moves top p s v m at = elim (Option-cases (lookup p.current_height p.ready)) [
    | inr (d, found) ↦ (
      proceed,
      (_, ap (λ ph. go_on E ctx_error ph p s) at ∙ ap (λ o. loop E ctx_error o p s) found),
    )
    | inl absent ↦ elim (Bool-cases (is_resting p)) [
      | inl y ↦ (proceed, ((rest p, s), rw at (rw (absent, y) refl)))
      | inr n ↦ selecting top p s v m at absent n p.results refl
    ]
  ]

  sending_moves :
      (top : ℕ) (p : Pipeline) (s : E.State) (job : DownloadJob)
      → Filled top p
      → p.phase ≡ sending job
      → CanMove p s
  unfolding make_move go_on send_job
  sending_moves top p s job v at =
      let (going, next, room) = subst (PhaseFits p top) at v.at_phase in
      let y : ltb (length p.jobs) p.prefetch_window ≡ true = ground (arith, v.flow, room) in
      (proceed, ((scheduled job p, s), rw at (rw y refl)))

  returned_moves :
      (p : Pipeline) (s : E.State) (x : Option Err)
      → p.phase ≡ returned x
      → IsFinished p ⊎ CanMove p s
  returned_moves p s x at = elim (Bool-cases (total is_gone p.workers == length p.workers)) [
    | inl y ↦ inl (ap is_live at, ground (arith, y))
    | inr n ↦
        let (i, w, e, present) = find_present p.workers (ground (arith, n, gone_le p.workers)) in
        inr (can_quit p s i w (cancelled (ctx_error s)) e present)
  ]
    where
      cancelled : (o : Option Err) → is_cancelled o p.phase ≡ true
      cancelled none = ap (is_cancelled none) at
      cancelled (some e) = refl

  pub can_move :
      (p : Pipeline) (s : E.State)
      → IsFilled p
      → IsManned E ctx_error (p, s)
      → IsFinished p ⊎ CanMove p s
  unfolding make_move go_on
  can_move p s v m = at p.phase refl
    where
      at : (phase : Phase) → p.phase ≡ phase → IsFinished p ⊎ CanMove p s
      at filling e = inr (proceed, (_, ap (λ ph. go_on E ctx_error ph p s) e))
      at (sending job) e = let (top, f) = v (ap is_live e) in inr (sending_moves top p s job f e)
      at looping e = let (top, f) = v (ap is_live e) in inr (looping_moves top p s f m e)
      at (returned x) e = returned_moves p s x e

module _ (E : Services) (ctx_error : E.State → Option Err) (cfg : SubmitConfig)
    (reads : ReadsKeep E (IsDone E ctx_error))
    (submits : (raw : Text) (s : E.State)
      → IsDone E ctx_error s
      → IsDone E ctx_error (E.submit_block raw s).1) where
  pipeline-IsManned :
      (ms : List PipelineMove) (s : E.State)
      → OnSome (IsManned E ctx_error) (pipeline_after E ctx_error cfg ms s)
  unfolding pipeline_after submit_pipeline prepared
  pipeline-IsManned ms s = from_info (E.get_blockchain_info s)
    where
      from_info :
          (a : Result BlockchainInfo × E.State)
          → OnSome (IsManned E ctx_error) (from_start E ctx_error ms (prepared E ctx_error cfg a))
      from_info (err e, t) = tt
      from_info (ok info, t) =
          run-keeps E ctx_error (IsManned E ctx_error) (perform-IsManned E ctx_error reads submits)
            ms (started E ctx_error cfg info) t (λ l. inl (total-crew is_gone _ refl))

  abbrev pub GoesOn : Pipeline × E.State → Type 0
  GoesOn (p, s) = IsFinished E ctx_error p ⊎ CanMove E ctx_error p s

  -- A context that is done stays done. Then, whatever the services answer and whatever the
  -- schedule so far, SubmitPipeline is not stuck: either run and all its workers have returned,
  -- or some goroutine can make a move.
  pub pipeline-GoesOn :
      (ms : List PipelineMove) (s : E.State) → OnSome GoesOn (pipeline_after E ctx_error cfg ms s)
  pipeline-GoesOn ms s =
      both (pipeline_after E ctx_error cfg ms s) (pipeline-IsFilled E ctx_error cfg ms s)
        (pipeline-IsManned ms s)
    where
      both :
          (o : Option (Pipeline × E.State))
          → OnSome (λ (x : Pipeline × E.State). IsFilled x.0) o
          → OnSome (IsManned E ctx_error) o
          → OnSome GoesOn o
      both none v m = tt
      both (some (p, s)) v m = can_move E ctx_error p s v m
