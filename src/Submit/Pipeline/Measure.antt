-- ===== src/Submit/Pipeline/Measure.antt =====
-- What is left to do in the pipeline falls with each move, so that every schedule ends.
pub mod Ends
use fractal_block_sync.Prelude.{
  ℕ, zero, suc, ◌+◌, ◌-◌, ◌≤◌, ◌<◌, ◌≡◌, refl, sym, ap, subst, ◌∙◌, arith, Bool, true, false, not,
  Option, none, some, List, [], ◌∷◌, ◌++◌, Text, u64, max_u64, ltb, ◌==◌, length, count, Bytes,
  text_eq, get_elem?, ◌<◌, ◌*◌, ◌⊎◌, inl, inr, Bool-cases, if_both,
}
use fractal_block_sync.Errors.{Err, Result, ok, err}
use fractal_block_sync.Hex
use fractal_block_sync.Submit.Cache.{RangeIndexCache}
use fractal_block_sync.BtcRpc.{BlockchainInfo}
use fractal_block_sync.Submit.Services.{Services, SubmitConfig}
use fractal_block_sync.Submit.Next.{is_accepted}
use fractal_block_sync.Submit.Pipeline.{
  SubmitReply, DownloadJob, Download, PipelineResult, Worker, idle, fetching, holding, gone,
  Pipeline, Phase, filling, sending, looping, returned, lookup,
}
use fractal_block_sync.Submit.Pipeline.Workers.{
  download_and_verify, downloaded, check_download, take_job, fetch, deliver, quit, is_cancelled,
}
use fractal_block_sync.Submit.Pipeline.Window.{
  Resolution, named, waits, failed, resolve_hash, scheduled, send_job, plan, has_room, fill,
}
use fractal_block_sync.Submit.Pipeline.Run.{
  given, reply_to, PipelineMove, proceed, cancel, receive, take, download, send, quit_worker,
  advance, rest, is_resting, submitted_height_accepted, answered, submit, loop, go_on, is_selecting,
  see_done, get_result, take_result, make_move, run_moves, started, prepared, submit_pipeline,
  from_start, pipeline_after, return_error,
}
use fractal_block_sync.Submit.Pipeline.Invariant.{OnSome, OnSome-map, run-keeps}
use fractal_block_sync.BlockHash.{from_raw_block}
use fractal_block_sync.Submit.Pipeline.{without}
use fractal_block_sync.Submit.Pipeline.Workers.{replace}
use fractal_block_sync.Submit.Pipeline.Ordered.{is_live}
use fractal_block_sync.Submit.Pipeline.Counted.{
  total, total-append, length-append_one, jobs_at, downloads_at, busy_at, is_busy, is_gone, hit,
}
use fractal_block_sync.Submit.Pipeline.Filled.{
  on_way, PhaseFits, Filled, IsFilled, Filled-phase, Filled-cache, has_room-cache, has_room-false,
  plan-Filled, scheduled-Filled,
}
use fractal_block_sync.Submit.Pipeline.Filled.Taken.{
  advance-IsFilled, received-Filled, worked-Filled,
}
use fractal_block_sync.Submit.Pipeline.Counted.{
  total-replace, length-without, length-put, lookup-some,
}
use fractal_block_sync.Submit.Pipeline.Filled.Safe.{started-IsFilled, total-crew}

abbrev pub phase_left : Phase → ℕ
phase_left filling = 2
phase_left (sending job) = 1
phase_left looping = 1
phase_left (returned e) = 0

abbrev pub worker_left : Worker → ℕ
worker_left idle = 1
worker_left (fetching job) = 6
worker_left (holding d) = 5
worker_left gone = 0

abbrev pub heights_left : Bool → ℕ → ℕ
heights_left true next = 0
heights_left false next = max_u64 + 1 - next

-- The weights fall along the way of a height: not scheduled, sent, at a worker, a result, ready.
unfoldable pub left : Pipeline → ℕ
left p =
    8 * heights_left p.stopped_scheduling p.next_schedule
    + (6 * length p.jobs
        + (total worker_left p.workers
            + (3 * length p.results + (2 * length p.ready + phase_left p.phase))))

module _ (E : Services) (ctx_error : E.State → Option Err) where
  abbrev pub Falls : Pipeline → Option (Pipeline × E.State) → Type 0
  Falls p = OnSome (λ (x : Pipeline × E.State). left x.0 < left p)

  -- After a submission `run` goes to the phase of the largest weight, or returns.
  abbrev AtMost : Pipeline → Pipeline → Type 0
  AtMost p q = left q + phase_left p.phase ≤ left p + 2

  left-return_error : (e : Err) (p : Pipeline) → AtMost p (return_error e p)
  unfolding left
  left-return_error e p = omega arith

  left-advance : (d : Download) (p : Pipeline) → AtMost p (advance d p)
  unfolding advance left
  left-advance d p = if_both (AtMost p) (p.current_height == max_u64) (omega arith) (omega arith)

  left-answered :
      (d : Download) (p : Pipeline) (a : Result Text × E.State)
      → AtMost p (answered E ctx_error d p a).0
  unfolding answered
  left-answered d p (err e, s) =
      if_both (λ (x : Pipeline × E.State). AtMost p x.0)
        (not (submitted_height_accepted E ctx_error d.height s).0) (left-return_error _ p)
        (left-advance d p)
  left-answered d p (ok reply, s) =
      if_both (λ (x : Pipeline × E.State). AtMost p x.0) (not (is_accepted reply))
        (left-return_error _ p) (left-advance d p)

  left-sent :
      (d : Download) (reply : SubmitReply) (p : Pipeline) (q : Pipeline)
      → AtMost (given d reply p) q
      → AtMost p q
  unfolding left
  left-sent d reply p q h = h

  left-submit :
      (d : Download) (o : Option Err) (p : Pipeline) (s : E.State)
      → AtMost p (submit E ctx_error d o p s).0
  unfolding submit
  left-submit d (some e) p s = left-return_error e p
  left-submit d none p s =
      left-sent d (reply_to E d s) p _
        (left-answered d (given d (reply_to E d s) p) (E.submit_block (Hex.encode d.raw) s))

  left-taken :
      (p q : Pipeline) (d : Download)
      → lookup p.current_height p.ready ≡ some d
      → p.phase ≡ looping
      → AtMost (record p { ready = without p.current_height p.ready }) q
      → left q < left p
  unfolding left
  left-taken p q d h e b =
      let one = lookup-some p.current_height p.ready h in
      let fewer = length-without p.current_height p.ready in
      let w : phase_left p.phase ≡ 1 = ap phase_left e in omega (arith, b, one, fewer, w)

  left-rest : (p : Pipeline) → p.phase ≡ looping → left (rest p) < left p
  unfolding rest left
  left-rest p e = let w : phase_left p.phase ≡ 1 = ap phase_left e in omega (arith, w)

  left-loop :
      (o : Option Download) (p : Pipeline) (s : E.State)
      → lookup p.current_height p.ready ≡ o
      → p.phase ≡ looping
      → Falls p (loop E ctx_error o p s)
  unfolding loop
  left-loop (some d) p s h e =
      left-taken p _ d h e
        (left-submit d d.error (record p { ready = without p.current_height p.ready }) s)
  left-loop none p s h e = if_both (Falls p) (is_resting p) (left-rest p e) tt

  left-plan :
      (r : Resolution) (p : Pipeline) (c : RangeIndexCache)
      → p.phase ≡ filling
      → left (plan r (record p { index_cache = c })) < left p
  unfolding plan left
  left-plan (named hash) p c e =
      let w : phase_left p.phase ≡ 2 = ap phase_left e in omega (arith, w)
  left-plan (waits index) p c e =
      let w : phase_left p.phase ≡ 2 = ap phase_left e in omega (arith, w)
  left-plan (failed x) p c e = let w : phase_left p.phase ≡ 2 = ap phase_left e in omega (arith, w)

  left-looping : (p : Pipeline) → p.phase ≡ filling → left (record p { phase = looping }) < left p
  unfolding left
  left-looping p e = let w : phase_left p.phase ≡ 2 = ap phase_left e in omega (arith, w)

  left-scheduled :
      (job : DownloadJob) (p : Pipeline)
      → p.phase ≡ sending job
      → p.stopped_scheduling ≡ false
      → p.next_schedule ≤ max_u64
      → left (scheduled job p) < left p
  unfolding scheduled left
  left-scheduled job p e going small =
      let w : phase_left p.phase ≡ 1 = ap phase_left e in
      let more = length-append_one p.jobs job in
      elim (Bool-cases (p.next_schedule == max_u64)) [
        | inl y ↦ rw (y, going) (ground (arith, w, more, y))
        | inr n ↦ rw (n, going) (ground (arith, w, more, n))
      ]

  left-go_on :
      (phase : Phase) (p : Pipeline) (s : E.State)
      → p.phase ≡ phase
      → IsFilled p
      → Falls p (go_on E ctx_error phase p s)
  unfolding go_on send_job fill
  left-go_on filling p s e v =
      if_both (λ (x : Pipeline × E.State). left x.0 < left p) (has_room E p)
        (left-plan (resolve_hash E p p.next_schedule s).0 p (resolve_hash E p p.next_schedule s).1
          e)
        (left-looping p e)
  left-go_on (sending job) p s e v =
      let (top, f) = v (ap is_live e) in
      let (going, at, room) = subst (PhaseFits p top) e f.at_phase in
      if_both (Falls p) (ltb (length p.jobs) p.prefetch_window)
        (left-scheduled job p e going (f.scheduling going).1) tt
  left-go_on looping p s e v = left-loop (lookup p.current_height p.ready) p s refl e
  left-go_on (returned x) p s e v = tt

  return_falls :
      (e : Err) (p : Pipeline) → 0 < phase_left p.phase → left (return_error e p) < left p
  unfolding left
  return_falls e p h = omega (arith, h)

  left-see_done :
      (phase : Phase) (o : Option Err) (p : Pipeline) (s : E.State)
      → p.phase ≡ phase
      → Falls p (see_done E ctx_error phase o p s)
  unfolding see_done
  left-see_done filling o p s e = tt
  left-see_done (returned x) o p s e = tt
  left-see_done (sending job) none p s e = tt
  left-see_done looping none p s e = tt
  left-see_done (sending job) (some x) p s e = return_falls x p (rw e (omega arith))
  left-see_done looping (some x) p s e =
      if_both (Falls p) (is_selecting E ctx_error (lookup p.current_height p.ready) p)
        (return_falls x p (rw e (omega arith))) tt

  left-take_result :
      (d : Download) (ds : List Download) (p : Pipeline)
      → p.results ≡ d ∷ ds
      → left (take_result d ds p) < left p
  unfolding left
  left-take_result d ds p h = rw h (omega (arith, length-put d p.ready))

  left-get_result :
      (phase : Phase) (ds : List Download) (p : Pipeline) (s : E.State)
      → p.results ≡ ds
      → Falls p (get_result E ctx_error phase ds p s)
  unfolding get_result
  left-get_result filling ds p s h = tt
  left-get_result (sending job) ds p s h = tt
  left-get_result (returned x) ds p s h = tt
  left-get_result looping [] p s h = tt
  left-get_result looping (d ∷ ds) p s h =
      if_both (Falls p) (is_selecting E ctx_error (lookup p.current_height p.ready) p)
        (left-take_result d ds p h) tt

  left-take_job :
      (i : ℕ) (o : Option Worker) (jobs : List DownloadJob) (p : Pipeline) (s : E.State)
      → get_elem? p.workers i ≡ o
      → p.jobs ≡ jobs
      → Falls p (take_job E i o jobs p s)
  unfolding take_job left
  left-take_job i none jobs p s e h = tt
  left-take_job i (some (fetching job)) jobs p s e h = tt
  left-take_job i (some (holding d)) jobs p s e h = tt
  left-take_job i (some gone) jobs p s e h = tt
  left-take_job i (some idle) [] p s e h = tt
  left-take_job i (some idle) (job ∷ jobs) p s e h =
      let changed = total-replace worker_left i p.workers (fetching job) idle e in
      rw h (omega (arith, changed))

  worker_falls :
      (p : Pipeline) (i : ℕ) (w u : Worker)
      → get_elem? p.workers i ≡ some w
      → worker_left u < worker_left w
      → left (record p { workers = replace i u p.workers }) < left p
  unfolding left
  worker_falls p i w u e h = omega (arith, total-replace worker_left i p.workers u w e, h)

  left-fetch :
      (i : ℕ) (o : Option Worker) (p : Pipeline) (s : E.State)
      → get_elem? p.workers i ≡ o
      → Falls p (fetch E i o p s)
  unfolding fetch
  left-fetch i none p s e = tt
  left-fetch i (some idle) p s e = tt
  left-fetch i (some (holding d)) p s e = tt
  left-fetch i (some gone) p s e = tt
  left-fetch i (some (fetching job)) p s e =
      worker_falls p i (fetching job) (holding _) e (omega arith)

  left-deliver :
      (i : ℕ) (o : Option Worker) (p : Pipeline) (s : E.State)
      → get_elem? p.workers i ≡ o
      → Falls p (deliver E i o p s)
  unfolding deliver left
  left-deliver i none p s e = tt
  left-deliver i (some idle) p s e = tt
  left-deliver i (some (fetching job)) p s e = tt
  left-deliver i (some gone) p s e = tt
  left-deliver i (some (holding d)) p s e =
      let changed = total-replace worker_left i p.workers idle (holding d) e in
      let more = length-append_one p.results d in
      if_both (OnSome (λ (x : Pipeline × E.State). _)) (ltb (length p.results) p.prefetch_window)
        (omega (arith, changed, more)) tt

  left-quit :
      (i : ℕ) (b : Bool) (o : Option Worker) (p : Pipeline) (s : E.State)
      → get_elem? p.workers i ≡ o
      → Falls p (quit E i b o p s)
  unfolding quit
  left-quit i false o p s e = tt
  left-quit i true none p s e = tt
  left-quit i true (some (fetching job)) p s e = tt
  left-quit i true (some gone) p s e = tt
  left-quit i true (some idle) p s e = worker_falls p i idle gone e (omega arith)
  left-quit i true (some (holding d)) p s e = worker_falls p i (holding d) gone e (omega arith)

  pub left-make_move :
      (m : PipelineMove) (p : Pipeline) (s : E.State)
      → IsFilled p
      → Falls p (make_move E ctx_error m p s)
  unfolding make_move
  left-make_move proceed p s v = left-go_on p.phase p s refl v
  left-make_move cancel p s v = left-see_done p.phase (ctx_error s) p s refl
  left-make_move receive p s v = left-get_result p.phase p.results p s refl
  left-make_move (take i) p s v = left-take_job i (get_elem? p.workers i) p.jobs p s refl refl
  left-make_move (download i) p s v = left-fetch i (get_elem? p.workers i) p s refl
  left-make_move (send i) p s v = left-deliver i (get_elem? p.workers i) p s refl
  left-make_move (quit_worker i) p s v =
      left-quit i (is_cancelled (ctx_error s) p.phase) (get_elem? p.workers i) p s refl
