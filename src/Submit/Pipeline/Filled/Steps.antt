-- ===== src/Submit/Pipeline/Filled/Steps.antt =====
-- Each move of the pipeline keeps the account of the window.
use fractal_block_sync.Prelude.{
  ℕ, ◌≡◌, refl, ap, subst, arith, Bool, true, false, not, Option, none, some, List, [], ◌∷◌, ◌++◌,
  Text, ltb, length, Bytes, text_eq, get_elem?, inl, inr, Bool-cases, if_both,
}
use fractal_block_sync.Errors.{Err, Result, ok, err}
use fractal_block_sync.Hex
use fractal_block_sync.Submit.Services.{Services}
use fractal_block_sync.Submit.Next.{is_accepted}
use fractal_block_sync.Submit.Pipeline.{
  DownloadJob, Download, Worker, idle, fetching, holding, gone, Pipeline, Phase, filling, sending,
  looping, returned, lookup,
}
use fractal_block_sync.Submit.Pipeline.Workers.{
  download_and_verify, downloaded, check_download, take_job, fetch, deliver, quit, is_cancelled,
}
use fractal_block_sync.Submit.Pipeline.Window.{resolve_hash, send_job, has_room, fill}
use fractal_block_sync.Submit.Pipeline.Run.{
  given, reply_to, PipelineMove, proceed, cancel, receive, take, download, send, quit_worker,
  advance, rest, is_resting, submitted_height_accepted, answered, submit, loop, go_on, is_selecting,
  see_done, get_result, make_move,
}
use fractal_block_sync.Submit.Pipeline.Invariant.{OnSome}
use fractal_block_sync.BlockHash.{from_raw_block}
use fractal_block_sync.Submit.Pipeline.{without}
use fractal_block_sync.Submit.Pipeline.Ordered.{is_live}
use fractal_block_sync.Submit.Pipeline.Counted.{total-append, length-append_one, hit}
use fractal_block_sync.Submit.Pipeline.Filled.{
  PhaseFits, IsFilled, Filled-phase, Filled-cache, has_room-cache, has_room-false, plan-Filled,
  scheduled-Filled,
}
use fractal_block_sync.Submit.Pipeline.Filled.Taken.{
  advance-IsFilled, received-Filled, worked-Filled,
}

-- A result has the height of its job.
check_download-height :
    (job : DownloadJob) (raw : Bytes) (r : Result Text)
    → (check_download job raw r).height ≡ job.height
unfolding check_download
check_download-height job raw (err e) = refl
check_download-height job raw (ok got) =
    if_both (λ (d : Download). d.height ≡ job.height) (not (text_eq got job.hash)) refl refl

downloaded-height :
    {S : Type 0} (job : DownloadJob) (r : Result Bytes × S)
    → (downloaded job r).0.height ≡ job.height
unfolding downloaded
downloaded-height job (err e, s) = refl
downloaded-height job (ok raw, s) = check_download-height job raw (from_raw_block raw)

module _ (E : Services) (ctx_error : E.State → Option Err) where
  abbrev Kept : Option (Pipeline × E.State) → Type 0
  Kept = OnSome (λ (x : Pipeline × E.State). IsFilled x.0)

  answered-IsFilled :
      (d : Download) (p : Pipeline) (a : Result Text × E.State)
      → IsFilled (advance d p)
      → IsFilled (answered E ctx_error d p a).0
  unfolding answered
  answered-IsFilled d p (err e, s) v =
      if_both (λ (x : Pipeline × E.State). IsFilled x.0)
        (not (submitted_height_accepted E ctx_error d.height s).0) (λ l. cc) v
  answered-IsFilled d p (ok reply, s) v =
      if_both (λ (x : Pipeline × E.State). IsFilled x.0) (not (is_accepted reply)) (λ l. cc) v

  submit-IsFilled :
      (d : Download) (o : Option Err) (p : Pipeline) (s : E.State)
      → lookup p.current_height p.ready ≡ some d
      → is_live p.phase ≡ true
      → IsFilled p
      → IsFilled
          (submit E ctx_error d o (record p { ready = without p.current_height p.ready }) s).0
  unfolding submit
  submit-IsFilled d (some e) p s h l v = λ m. cc
  submit-IsFilled d none p s h l v =
      let (top, f) = v l in
      answered-IsFilled d
        (given d (reply_to E d s) (record p { ready = without p.current_height p.ready }))
        (E.submit_block (Hex.encode d.raw) s) (advance-IsFilled top d d p (reply_to E d s) h f)

  loop-IsFilled :
      (o : Option Download) (p : Pipeline) (s : E.State)
      → lookup p.current_height p.ready ≡ o
      → is_live p.phase ≡ true
      → IsFilled p
      → Kept (loop E ctx_error o p s)
  unfolding loop rest
  loop-IsFilled (some d) p s h l v = submit-IsFilled d d.error p s h l v
  loop-IsFilled none p s h l v = if_both Kept (is_resting p) (λ m. cc) tt

  fill-IsFilled :
      (p : Pipeline) (s : E.State) → is_live p.phase ≡ true → IsFilled p → IsFilled (fill E p s).0
  unfolding fill
  fill-IsFilled p s l v =
      let (top, f) = v l in
      let (r, c, t) = resolve_hash E p p.next_schedule s in
      elim (Bool-cases (has_room E p)) [
        | inl y ↦ rw y (λ m. (
          top,
          plan-Filled E top r (record p { index_cache = c }) (has_room-cache E p c y)
              (Filled-cache top p c f) m,
        ))
        | inr n ↦ rw n (λ m. (top, Filled-phase top p looping (has_room-false E p n) f))
      ]

  go_on-IsFilled :
      (phase : Phase) (p : Pipeline) (s : E.State)
      → p.phase ≡ phase
      → IsFilled p
      → Kept (go_on E ctx_error phase p s)
  unfolding go_on send_job
  go_on-IsFilled filling p s e v = fill-IsFilled p s (ap is_live e) v
  go_on-IsFilled (sending job) p s e v =
      let (top, f) = v (ap is_live e) in
      let (going, at, room) = subst (PhaseFits p top) e f.at_phase in
      if_both Kept (ltb (length p.jobs) p.prefetch_window)
        (λ m. scheduled-Filled top job p f going at room) tt
  go_on-IsFilled looping p s e v =
      loop-IsFilled (lookup p.current_height p.ready) p s refl (ap is_live e) v
  go_on-IsFilled (returned x) p s e v = tt

  see_done-IsFilled :
      (phase : Phase) (o : Option Err) (p : Pipeline) (s : E.State)
      → Kept (see_done E ctx_error phase o p s)
  unfolding see_done
  see_done-IsFilled filling o p s = tt
  see_done-IsFilled (returned x) o p s = tt
  see_done-IsFilled (sending job) none p s = tt
  see_done-IsFilled looping none p s = tt
  see_done-IsFilled (sending job) (some e) p s = λ l. cc
  see_done-IsFilled looping (some e) p s =
      if_both Kept (is_selecting E ctx_error (lookup p.current_height p.ready) p) (λ l. cc) tt

  get_result-IsFilled :
      (phase : Phase) (ds : List Download) (p : Pipeline) (s : E.State)
      → p.phase ≡ phase
      → p.results ≡ ds
      → IsFilled p
      → Kept (get_result E ctx_error phase ds p s)
  unfolding get_result
  get_result-IsFilled filling ds p s e h v = tt
  get_result-IsFilled (sending job) ds p s e h v = tt
  get_result-IsFilled (returned x) ds p s e h v = tt
  get_result-IsFilled looping [] p s e h v = tt
  get_result-IsFilled looping (d ∷ ds) p s e h v =
      if_both Kept (is_selecting E ctx_error (lookup p.current_height p.ready) p)
        (λ l. let (top, f) = v l in (top, received-Filled top d ds p h e f)) tt

  take_job-IsFilled :
      (i : ℕ) (o : Option Worker) (jobs : List DownloadJob) (p : Pipeline) (s : E.State)
      → get_elem? p.workers i ≡ o
      → p.jobs ≡ jobs
      → IsFilled p
      → Kept (take_job E i o jobs p s)
  unfolding take_job
  take_job-IsFilled i none jobs p s e h v = tt
  take_job-IsFilled i (some (fetching job)) jobs p s e h v = tt
  take_job-IsFilled i (some (holding d)) jobs p s e h v = tt
  take_job-IsFilled i (some gone) jobs p s e h v = tt
  take_job-IsFilled i (some idle) [] p s e h v = tt
  take_job-IsFilled i (some idle) (job ∷ jobs) p s e h v = λ l.
      let (top, f) = v l in
      (
        top,
        worked-Filled top p i idle (fetching job) jobs p.results e refl (λ k. rw h (omega arith))
            (rw h (omega arith)) (λ g. rw h (omega arith)) f,
      )

  fetch-IsFilled :
      (i : ℕ) (o : Option Worker) (p : Pipeline) (s : E.State)
      → get_elem? p.workers i ≡ o
      → IsFilled p
      → Kept (fetch E i o p s)
  unfolding fetch download_and_verify
  fetch-IsFilled i none p s e v = tt
  fetch-IsFilled i (some idle) p s e v = tt
  fetch-IsFilled i (some (holding d)) p s e v = tt
  fetch-IsFilled i (some gone) p s e v = tt
  fetch-IsFilled i (some (fetching job)) p s e v = λ l.
      let (top, f) = v l in
      (
        top,
        worked-Filled top p i (fetching job) (holding _) p.jobs p.results e refl
            (λ k. rw (downloaded-height job (E.download_block job.hash s)) (omega arith))
            (omega arith) (λ g. refl) f,
      )

  deliver-IsFilled :
      (i : ℕ) (o : Option Worker) (p : Pipeline) (s : E.State)
      → get_elem? p.workers i ≡ o
      → IsFilled p
      → Kept (deliver E i o p s)
  unfolding deliver
  deliver-IsFilled i none p s e v = tt
  deliver-IsFilled i (some idle) p s e v = tt
  deliver-IsFilled i (some (fetching job)) p s e v = tt
  deliver-IsFilled i (some gone) p s e v = tt
  deliver-IsFilled i (some (holding d)) p s e v =
      if_both Kept (ltb (length p.results) p.prefetch_window)
        (λ l.
          let (top, f) = v l in
          let more = length-append_one p.results d in
          (
            top,
            worked-Filled top p i (holding d) idle p.jobs (p.results ++ (d ∷ [])) e refl
                (λ k. omega (arith, total-append (λ (x : Download). hit x.height k) p.results d))
                (omega (arith, more)) (λ g. omega (arith, more)) f,
          ))
        tt

  quit-IsFilled :
      (i : ℕ) (b : Bool) (o : Option Worker) (p : Pipeline) (s : E.State)
      → get_elem? p.workers i ≡ o
      → IsFilled p
      → Kept (quit E i b o p s)
  unfolding quit
  quit-IsFilled i false o p s e v = tt
  quit-IsFilled i true none p s e v = tt
  quit-IsFilled i true (some (fetching job)) p s e v = tt
  quit-IsFilled i true (some gone) p s e v = tt
  quit-IsFilled i true (some idle) p s e v = λ l.
      let (top, f) = v l in
      (
        top,
        worked-Filled top p i idle gone p.jobs p.results e refl (λ k. omega arith) (omega arith)
            (λ g. cc) f,
      )
  quit-IsFilled i true (some (holding d)) p s e v = λ l.
      let (top, f) = v l in
      (
        top,
        worked-Filled top p i (holding d) gone p.jobs p.results e refl (λ k. omega arith)
            (omega arith) (λ g. cc) f,
      )

  pub perform-IsFilled :
      (m : PipelineMove) (p : Pipeline) (s : E.State)
      → IsFilled p
      → Kept (make_move E ctx_error m p s)
  unfolding make_move
  perform-IsFilled proceed p s v = go_on-IsFilled p.phase p s refl v
  perform-IsFilled cancel p s v = see_done-IsFilled p.phase (ctx_error s) p s
  perform-IsFilled receive p s v = get_result-IsFilled p.phase p.results p s refl refl v
  perform-IsFilled (take i) p s v =
      take_job-IsFilled i (get_elem? p.workers i) p.jobs p s refl refl v
  perform-IsFilled (download i) p s v = fetch-IsFilled i (get_elem? p.workers i) p s refl v
  perform-IsFilled (send i) p s v = deliver-IsFilled i (get_elem? p.workers i) p s refl v
  perform-IsFilled (quit_worker i) p s v =
      quit-IsFilled i (is_cancelled (ctx_error s) p.phase) (get_elem? p.workers i) p s refl v
