-- ===== src/Submit/Pipeline/Progress/Manned.antt =====
-- While `run` has not returned, no worker has, unless the context is done.
use fractal_block_sync.Prelude.{
  ℕ, ◌≡◌, refl, ap, ◌∙◌, arith, Bool, true, false, not, Option, none, some, List, [], ◌∷◌, Text,
  max_u64, ltb, ◌==◌, length, get_elem?, ◌⊎◌, inl, inr, if_both,
}
use fractal_block_sync.Errors.{Err, Result, ok, err}
use fractal_block_sync.Hex
use fractal_block_sync.Submit.Services.{Services}
use fractal_block_sync.Submit.Next.{is_accepted}
use fractal_block_sync.Submit.Pipeline.{
  DownloadJob, Download, Worker, idle, fetching, holding, gone, Pipeline, Phase, filling, sending,
  looping, returned, lookup,
}
use fractal_block_sync.Submit.Pipeline.Workers.{take_job, fetch, deliver, quit, is_cancelled}
use fractal_block_sync.Submit.Pipeline.Window.{
  Resolution, named, waits, failed, resolve_hash, scheduled, send_job, plan, has_room, fill,
}
use fractal_block_sync.Submit.Pipeline.Run.{
  given, reply_to, PipelineMove, proceed, cancel, receive, take, download, send, quit_worker,
  advance, rest, is_resting, submitted_height_accepted, answered, submit, loop, go_on, is_selecting,
  see_done, get_result, make_move,
}
use fractal_block_sync.Submit.Pipeline.Invariant.{OnSome, OnSome-map}
use fractal_block_sync.Submit.Pipeline.{without}
use fractal_block_sync.Submit.Pipeline.Workers.{replace}
use fractal_block_sync.Submit.Pipeline.Ordered.{is_live}
use fractal_block_sync.Submit.Pipeline.Counted.{total, is_gone}
use fractal_block_sync.Submit.Pipeline.Counted.{total-replace}
use fractal_block_sync.Submit.Pipeline.Kept.{perform-keeps}
use fractal_block_sync.Submit.Next.Verified.{ReadsKeep}

module _ (E : Services) (ctx_error : E.State → Option Err) where
  abbrev SameCrew : Pipeline → Option (Pipeline × E.State) → Type 0
  SameCrew p = OnSome (λ (x : Pipeline × E.State). x.0.workers ≡ p.workers)

  advance_crew : (d : Download) (p : Pipeline) → (advance d p).workers ≡ p.workers
  unfolding advance
  advance_crew d p =
      if_both (λ (q : Pipeline). q.workers ≡ p.workers) (p.current_height == max_u64) refl refl

  answered_crew :
      (d : Download) (p : Pipeline) (a : Result Text × E.State)
      → (answered E ctx_error d p a).0.workers ≡ p.workers
  unfolding answered
  answered_crew d p (err e, s) =
      if_both (λ (x : Pipeline × E.State). x.0.workers ≡ p.workers)
        (not (submitted_height_accepted E ctx_error d.height s).0) refl (advance_crew d p)
  answered_crew d p (ok reply, s) =
      if_both (λ (x : Pipeline × E.State). x.0.workers ≡ p.workers) (not (is_accepted reply)) refl
        (advance_crew d p)

  submit_crew :
      (d : Download) (o : Option Err) (p : Pipeline) (s : E.State)
      → (submit E ctx_error d o p s).0.workers ≡ p.workers
  unfolding submit
  submit_crew d (some e) p s = refl
  submit_crew d none p s =
      answered_crew d (given d (reply_to E d s) p) (E.submit_block (Hex.encode d.raw) s)

  loop_crew :
      (o : Option Download) (p : Pipeline) (s : E.State) → SameCrew p (loop E ctx_error o p s)
  unfolding loop rest
  loop_crew (some d) p s =
      submit_crew d d.error (record p { ready = without p.current_height p.ready }) s
  loop_crew none p s = if_both (SameCrew p) (is_resting p) refl tt

  plan_crew : (r : Resolution) (p : Pipeline) → (plan r p).workers ≡ p.workers
  unfolding plan
  plan_crew (named hash) p = refl
  plan_crew (waits index) p = refl
  plan_crew (failed e) p = refl

  go_on_crew :
      (phase : Phase) (p : Pipeline) (s : E.State) → SameCrew p (go_on E ctx_error phase p s)
  unfolding go_on send_job scheduled fill
  go_on_crew filling p s =
      if_both (λ (x : Pipeline × E.State). x.0.workers ≡ p.workers) (has_room E p)
        (plan_crew (resolve_hash E p p.next_schedule s).0
          (record p { index_cache = (resolve_hash E p p.next_schedule s).1 }))
        refl
  go_on_crew (sending job) p s =
      if_both (SameCrew p) (ltb (length p.jobs) p.prefetch_window)
        (if_both (λ (q : Pipeline). q.workers ≡ p.workers) (p.next_schedule == max_u64) refl refl)
        tt
  go_on_crew looping p s = loop_crew (lookup p.current_height p.ready) p s
  go_on_crew (returned x) p s = tt

  -- Whose workers are gone, once a move was made from a pipeline.
  abbrev Moved : Pipeline → Pipeline × E.State → Type 0
  Moved p (q, t) =
      is_live q.phase ≡ true
      → (is_live p.phase ≡ true)
        × ((total is_gone q.workers ≡ total is_gone p.workers)
            ⊎ ((e : Err) × (ctx_error t ≡ some e)))

  of_crew :
      (p : Pipeline) (o : Option (Pipeline × E.State))
      → is_live p.phase ≡ true
      → SameCrew p o
      → OnSome (Moved p) o
  of_crew p o l = OnSome-map _ (Moved p) o (λ x h m. (l, inl (ap (λ ws. total is_gone ws) h)))

  go_on-Moved :
      (phase : Phase) (p : Pipeline) (s : E.State)
      → p.phase ≡ phase
      → OnSome (Moved p) (go_on E ctx_error phase p s)
  unfolding go_on
  go_on-Moved filling p s e =
      of_crew p (go_on E ctx_error filling p s) (ap is_live e) (go_on_crew filling p s)
  go_on-Moved (sending job) p s e =
      of_crew p (go_on E ctx_error (sending job) p s) (ap is_live e) (go_on_crew (sending job) p s)
  go_on-Moved looping p s e =
      of_crew p (go_on E ctx_error looping p s) (ap is_live e) (go_on_crew looping p s)
  go_on-Moved (returned x) p s e = tt

  see_done-Moved :
      (phase : Phase) (o : Option Err) (p : Pipeline) (s : E.State)
      → OnSome (Moved p) (see_done E ctx_error phase o p s)
  unfolding see_done
  see_done-Moved filling o p s = tt
  see_done-Moved (returned x) o p s = tt
  see_done-Moved (sending job) none p s = tt
  see_done-Moved looping none p s = tt
  see_done-Moved (sending job) (some e) p s = λ l. cc
  see_done-Moved looping (some e) p s =
      if_both (OnSome (Moved p)) (is_selecting E ctx_error (lookup p.current_height p.ready) p)
        (λ l. cc) tt

  get_result-Moved :
      (phase : Phase) (ds : List Download) (p : Pipeline) (s : E.State)
      → OnSome (Moved p) (get_result E ctx_error phase ds p s)
  unfolding get_result
  get_result-Moved filling ds p s = tt
  get_result-Moved (sending job) ds p s = tt
  get_result-Moved (returned x) ds p s = tt
  get_result-Moved looping [] p s = tt
  get_result-Moved looping (d ∷ ds) p s =
      if_both (OnSome (Moved p)) (is_selecting E ctx_error (lookup p.current_height p.ready) p)
        (λ l. (l, inl refl)) tt

  same_gone :
      (p : Pipeline) (i : ℕ) (w u : Worker)
      → get_elem? p.workers i ≡ some w
      → is_gone w ≡ is_gone u
      → total is_gone (replace i u p.workers) ≡ total is_gone p.workers
  same_gone p i w u e h = omega (arith, total-replace is_gone i p.workers u w e, h)

  take_job-Moved :
      (i : ℕ) (o : Option Worker) (jobs : List DownloadJob) (p : Pipeline) (s : E.State)
      → get_elem? p.workers i ≡ o
      → OnSome (Moved p) (take_job E i o jobs p s)
  unfolding take_job
  take_job-Moved i none jobs p s e = tt
  take_job-Moved i (some (fetching job)) jobs p s e = tt
  take_job-Moved i (some (holding d)) jobs p s e = tt
  take_job-Moved i (some gone) jobs p s e = tt
  take_job-Moved i (some idle) [] p s e = tt
  take_job-Moved i (some idle) (job ∷ jobs) p s e =
      λ l. (l, inl (same_gone p i idle (fetching job) e refl))

  fetch-Moved :
      (i : ℕ) (o : Option Worker) (p : Pipeline) (s : E.State)
      → get_elem? p.workers i ≡ o
      → OnSome (Moved p) (fetch E i o p s)
  unfolding fetch
  fetch-Moved i none p s e = tt
  fetch-Moved i (some idle) p s e = tt
  fetch-Moved i (some (holding d)) p s e = tt
  fetch-Moved i (some gone) p s e = tt
  fetch-Moved i (some (fetching job)) p s e =
      λ l. (l, inl (same_gone p i (fetching job) (holding _) e refl))

  deliver-Moved :
      (i : ℕ) (o : Option Worker) (p : Pipeline) (s : E.State)
      → get_elem? p.workers i ≡ o
      → OnSome (Moved p) (deliver E i o p s)
  unfolding deliver
  deliver-Moved i none p s e = tt
  deliver-Moved i (some idle) p s e = tt
  deliver-Moved i (some (fetching job)) p s e = tt
  deliver-Moved i (some gone) p s e = tt
  deliver-Moved i (some (holding d)) p s e =
      if_both (OnSome (Moved p)) (ltb (length p.results) p.prefetch_window)
        (λ l. (l, inl (same_gone p i (holding d) idle e refl))) tt

  cancelled_live :
      (o : Option Err) (phase : Phase)
      → is_cancelled o phase ≡ true
      → is_live phase ≡ true
      → (e : Err) × (o ≡ some e)
  cancelled_live (some e) phase c l = (e, refl)
  cancelled_live none (returned x) c l = cc
  cancelled_live none filling c l = cc
  cancelled_live none looping c l = cc
  cancelled_live none (sending job) c l = cc

  quit-Moved :
      (i : ℕ) (b : Bool) (o : Option Worker) (p : Pipeline) (s : E.State)
      → is_cancelled (ctx_error s) p.phase ≡ b
      → OnSome (Moved p) (quit E i b o p s)
  unfolding quit
  quit-Moved i false o p s c = tt
  quit-Moved i true none p s c = tt
  quit-Moved i true (some (fetching job)) p s c = tt
  quit-Moved i true (some gone) p s c = tt
  quit-Moved i true (some idle) p s c = λ l. (l, inr (cancelled_live (ctx_error s) p.phase c l))
  quit-Moved i true (some (holding d)) p s c =
      λ l. (l, inr (cancelled_live (ctx_error s) p.phase c l))

  perform-Moved :
      (m : PipelineMove) (p : Pipeline) (s : E.State)
      → OnSome (Moved p) (make_move E ctx_error m p s)
  unfolding make_move
  perform-Moved proceed p s = go_on-Moved p.phase p s refl
  perform-Moved cancel p s = see_done-Moved p.phase (ctx_error s) p s
  perform-Moved receive p s = get_result-Moved p.phase p.results p s
  perform-Moved (take i) p s = take_job-Moved i (get_elem? p.workers i) p.jobs p s refl
  perform-Moved (download i) p s = fetch-Moved i (get_elem? p.workers i) p s refl
  perform-Moved (send i) p s = deliver-Moved i (get_elem? p.workers i) p s refl
  perform-Moved (quit_worker i) p s =
      quit-Moved i (is_cancelled (ctx_error s) p.phase) (get_elem? p.workers i) p s refl

  -- While `run` has not returned, no worker has, unless the context is done.
  abbrev pub IsManned : Pipeline × E.State → Type 0
  IsManned (p, s) =
      is_live p.phase ≡ true → (total is_gone p.workers ≡ 0) ⊎ ((e : Err) × (ctx_error s ≡ some e))

  abbrev pub IsDone : E.State → Type 0
  IsDone s = (e : Err) × (ctx_error s ≡ some e)

  -- A context that is done stays done.
  module _ (reads : ReadsKeep E IsDone)
      (submits : (raw : Text) (s : E.State) → IsDone s → IsDone (E.submit_block raw s).1) where
    pub perform-IsManned :
        (m : PipelineMove) (p : Pipeline) (s : E.State)
        → IsManned (p, s)
        → OnSome IsManned (make_move E ctx_error m p s)
    perform-IsManned m p s v = both (make_move E ctx_error m p s) (perform-Moved m p s) (
        perform-keeps E ctx_error (λ t. IsDone s → IsDone t)
          (record {
            info = λ t k d. reads.info t (k d);
            tips = λ t k d. reads.tips t (k d);
            header = λ h t k d. reads.header h t (k d);
            object = λ h t k d. reads.object h t (k d);
            block = λ h t k d. reads.block h t (k d);
          })
          (λ raw t k d. submits raw t (k d)) m p s (λ d. d))
      where
        both :
            (o : Option (Pipeline × E.State))
            → OnSome (Moved p) o
            → OnSome (λ (x : Pipeline × E.State). IsDone s → IsDone x.1) o
            → OnSome IsManned o
        both none moved kept = tt
        both (some (q, t)) moved kept = λ l.
            let (before, crew) = moved l in
            elim crew [
              | inr d ↦ inr d
              | inl same ↦ elim (v before) [ inl whole ↦ inl (same ∙ whole) | inr d ↦ inr (kept d) ]
            ]
