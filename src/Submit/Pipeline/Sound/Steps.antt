-- ===== src/Submit/Pipeline/Sound/Steps.antt =====
-- Each step of the pipeline keeps what is known of the blocks.
use fractal_block_sync.Prelude.{
  ℕ, ◌≡◌, refl, subst, Bool, true, false, Option, none, some, List, [], ◌∷◌, ◌++◌, Text, ltb,
  length, get_elem?, All, All-append, if_both,
}
use fractal_block_sync.Submit.Pipeline.Invariant.{run-keeps}
use fractal_block_sync.Errors.{Err}
use fractal_block_sync.Submit.Services.{Services}
use fractal_block_sync.Submit.Cache.{RangeIndexCache}
use fractal_block_sync.Submit.Pipeline.{
  DownloadJob, Download, Worker, idle, fetching, holding, gone, Pipeline, Phase, filling, sending,
  looping, returned, lookup,
}
use fractal_block_sync.Submit.Pipeline.Workers.{
  download_and_verify, replace, take_job, fetch, deliver, quit,
}
use fractal_block_sync.Submit.Pipeline.Window.{resolve_hash, send_job, has_room, fill}
use fractal_block_sync.Submit.Pipeline.Run.{
  PipelineMove, proceed, cancel, receive, take, download, send, quit_worker, rest, go_on,
  is_selecting, see_done, get_result, make_move, run_moves,
}
use fractal_block_sync.Submit.Pipeline.Sound.{
  All-replace, All-get, lookup-holds, IsChecked, JobNamed, WorkerHolds, PhaseHolds,
  downloaded-IsChecked,
}
use fractal_block_sync.Submit.Pipeline.Sound.Moves.{
  Resolves, IsSound, Stays, with_phase, with_workers, loop-IsSound, plan-IsSound, scheduled-IsSound,
  received-IsSound,
}

module _ (E : Services) (ctx_error : E.State → Option Err) (Named : ℕ → Text → Type 0)
    (Cached : RangeIndexCache → Type 0) (fixed : Bool × ℕ × ℕ)
    (resolves : Resolves E ctx_error Named Cached fixed) where
  abbrev Sound : Pipeline → Type 0
  Sound = IsSound E ctx_error Named Cached fixed

  abbrev Fine : Option (Pipeline × E.State) → Type 0
  Fine = Stays E ctx_error Named Cached fixed

  fill-IsSound : (p : Pipeline) (s : E.State) → Sound p → Sound (fill E p s).0
  unfolding fill
  fill-IsSound p s v =
      let (n, c) = resolves p p.next_schedule s v.cached v.limited in
      if_both (λ (x : Pipeline × E.State). Sound x.0) (has_room E p)
        (plan-IsSound E ctx_error Named Cached fixed (resolve_hash E p p.next_schedule s).0 _ n
          (record {
            cached = c;
            limited = v.limited;
            at_jobs = v.at_jobs;
            at_workers = v.at_workers;
            at_results = v.at_results;
            at_ready = v.at_ready;
            at_phase = v.at_phase;
            at_sent = v.at_sent;
          }))
        (with_phase E ctx_error Named Cached fixed p looping p.result p.current_height tt v)

  go_on-IsSound :
      (phase : Phase) (p : Pipeline) (s : E.State)
      → p.phase ≡ phase
      → Sound p
      → Fine (go_on E ctx_error phase p s)
  unfolding go_on send_job
  go_on-IsSound filling p s e v = fill-IsSound p s v
  go_on-IsSound (sending job) p s e v =
      if_both Fine (ltb (length p.jobs) p.prefetch_window)
        (scheduled-IsSound E ctx_error Named Cached fixed job p
          (subst (PhaseHolds Named) e v.at_phase) v)
        tt
  go_on-IsSound looping p s e v =
      loop-IsSound E ctx_error Named Cached fixed (lookup p.current_height p.ready) p s
        (lookup-holds (IsChecked Named) p.current_height p.ready v.at_ready) v
  go_on-IsSound (returned x) p s e v = tt

  see_done-IsSound :
      (phase : Phase) (o : Option Err) (p : Pipeline) (s : E.State)
      → Sound p
      → Fine (see_done E ctx_error phase o p s)
  unfolding see_done
  see_done-IsSound filling o p s v = tt
  see_done-IsSound (returned x) o p s v = tt
  see_done-IsSound (sending job) none p s v = tt
  see_done-IsSound looping none p s v = tt
  see_done-IsSound (sending job) (some e) p s v =
      with_phase E ctx_error Named Cached fixed p _ _ _ tt v
  see_done-IsSound looping (some e) p s v =
      if_both Fine (is_selecting E ctx_error (lookup p.current_height p.ready) p)
        (with_phase E ctx_error Named Cached fixed p _ _ _ tt v) tt

  get_result-IsSound :
      (phase : Phase) (ds : List Download) (p : Pipeline) (s : E.State)
      → p.results ≡ ds
      → Sound p
      → Fine (get_result E ctx_error phase ds p s)
  unfolding get_result
  get_result-IsSound filling ds p s e v = tt
  get_result-IsSound (sending job) ds p s e v = tt
  get_result-IsSound (returned x) ds p s e v = tt
  get_result-IsSound looping [] p s e v = tt
  get_result-IsSound looping (d ∷ ds) p s e v =
      if_both Fine (is_selecting E ctx_error (lookup p.current_height p.ready) p)
        (received-IsSound E ctx_error Named Cached fixed d ds p e v) tt

  take_job-IsSound :
      (i : ℕ) (o : Option Worker) (jobs : List DownloadJob) (p : Pipeline) (s : E.State)
      → p.jobs ≡ jobs
      → Sound p
      → Fine (take_job E i o jobs p s)
  unfolding take_job
  take_job-IsSound i none jobs p s e v = tt
  take_job-IsSound i (some (fetching job)) jobs p s e v = tt
  take_job-IsSound i (some (holding d)) jobs p s e v = tt
  take_job-IsSound i (some gone) jobs p s e v = tt
  take_job-IsSound i (some idle) [] p s e v = tt
  take_job-IsSound i (some idle) (job ∷ jobs) p s e v =
      let (n, rest) = subst (All (JobNamed Named)) e v.at_jobs in
      with_workers E ctx_error Named Cached fixed p jobs i (fetching job) rest n v

  fetch-IsSound :
      (i : ℕ) (o : Option Worker) (p : Pipeline) (s : E.State)
      → get_elem? p.workers i ≡ o
      → Sound p
      → Fine (fetch E i o p s)
  unfolding fetch download_and_verify
  fetch-IsSound i none p s e v = tt
  fetch-IsSound i (some idle) p s e v = tt
  fetch-IsSound i (some (holding d)) p s e v = tt
  fetch-IsSound i (some gone) p s e v = tt
  fetch-IsSound i (some (fetching job)) p s e v =
      let n = All-get (WorkerHolds Named) i p.workers e v.at_workers in
      with_workers E ctx_error Named Cached fixed p p.jobs i _ v.at_jobs
        (downloaded-IsChecked Named job (E.download_block job.hash s) n) v

  deliver-IsSound :
      (i : ℕ) (o : Option Worker) (p : Pipeline) (s : E.State)
      → get_elem? p.workers i ≡ o
      → Sound p
      → Fine (deliver E i o p s)
  unfolding deliver
  deliver-IsSound i none p s e v = tt
  deliver-IsSound i (some idle) p s e v = tt
  deliver-IsSound i (some (fetching job)) p s e v = tt
  deliver-IsSound i (some gone) p s e v = tt
  deliver-IsSound i (some (holding d)) p s e v =
      if_both Fine (ltb (length p.results) p.prefetch_window) arrived tt
    where
      arrived :
          Sound (record p { results = p.results ++ (d ∷ []); workers = replace i idle p.workers })
      arrived = record {
        cached = v.cached;
        limited = v.limited;
        at_jobs = v.at_jobs;
        at_workers = All-replace (WorkerHolds Named) i idle p.workers tt v.at_workers;
        at_results =
            All-append (IsChecked Named) p.results (d ∷ []) v.at_results
              (All-get (WorkerHolds Named) i p.workers e v.at_workers, tt);
        at_ready = v.at_ready;
        at_phase = v.at_phase;
        at_sent = v.at_sent;
      }

  quit-IsSound :
      (i : ℕ) (b : Bool) (o : Option Worker) (p : Pipeline) (s : E.State)
      → Sound p
      → Fine (quit E i b o p s)
  unfolding quit
  quit-IsSound i false o p s v = tt
  quit-IsSound i true none p s v = tt
  quit-IsSound i true (some (fetching job)) p s v = tt
  quit-IsSound i true (some gone) p s v = tt
  quit-IsSound i true (some idle) p s v =
      with_workers E ctx_error Named Cached fixed p p.jobs i gone v.at_jobs tt v
  quit-IsSound i true (some (holding d)) p s v =
      with_workers E ctx_error Named Cached fixed p p.jobs i gone v.at_jobs tt v

  perform-IsSound :
      (m : PipelineMove) (p : Pipeline) (s : E.State) → Sound p → Fine (make_move E ctx_error m p s)
  unfolding make_move
  perform-IsSound proceed p s v = go_on-IsSound p.phase p s refl v
  perform-IsSound cancel p s v = see_done-IsSound p.phase (ctx_error s) p s v
  perform-IsSound receive p s v = get_result-IsSound p.phase p.results p s refl v
  perform-IsSound (take i) p s v = take_job-IsSound i (get_elem? p.workers i) p.jobs p s refl v
  perform-IsSound (download i) p s v = fetch-IsSound i (get_elem? p.workers i) p s refl v
  perform-IsSound (send i) p s v = deliver-IsSound i (get_elem? p.workers i) p s refl v
  perform-IsSound (quit_worker i) p s v = quit-IsSound i _ (get_elem? p.workers i) p s v

  pub run-IsSound :
      (ms : List PipelineMove) (p : Pipeline) (s : E.State)
      → Sound p
      → Fine (run_moves E ctx_error ms p s)
  run-IsSound = run-keeps E ctx_error (λ (x : Pipeline × E.State). Sound x.0) perform-IsSound
