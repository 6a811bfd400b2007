-- ===== src/Submit/Pipeline/Sound/Moves.antt =====
-- The moves of `run` keep what is known of the blocks.
use fractal_block_sync.Prelude.{
  ℕ, ◌≡◌, refl, subst, Bool, not, Option, none, some, List, [], ◌∷◌, ◌++◌, Text, max_u64, ◌==◌, All,
  All-append, if_both,
}
use fractal_block_sync.Submit.Pipeline.Invariant.{OnSome}
use fractal_block_sync.Errors.{Err, Result, ok, err}
use fractal_block_sync.Hex
use fractal_block_sync.Submit.Services.{Services}
use fractal_block_sync.Submit.Cache.{RangeIndexCache}
use fractal_block_sync.Submit.Next.{is_accepted}
use fractal_block_sync.Submit.Pipeline.{
  DownloadJob, Download, PipelineResult, Worker, Pipeline, Phase, put,
}
use fractal_block_sync.Submit.Pipeline.Workers.{replace}
use fractal_block_sync.Submit.Pipeline.Window.{
  Resolution, named, waits, failed, resolve_hash, scheduled, plan,
}
use fractal_block_sync.Submit.Pipeline.Run.{
  given, reply_to, advance, rest, is_resting, submitted_height_accepted, answered, submit, loop,
  take_result,
}
use fractal_block_sync.Submit.Pipeline.Sound.{
  All-replace, All-without, IsNamed, IsChecked, IsVerified, JobNamed, WorkerHolds, PhaseHolds,
}

-- The part of a pipeline that is set once.
abbrev pub limits : Pipeline → Bool × ℕ × ℕ
limits p = (p.bootstrap_from_r2, p.recent_walk_limit, p.headers)

module _ (E : Services) (ctx_error : E.State → Option Err) (Named : ℕ → Text → Type 0)
    (Cached : RangeIndexCache → Type 0) (fixed : Bool × ℕ × ℕ) where
  -- A resolution from a good cache leaves a good cache, and names the height's hash if any.
  abbrev pub Resolves : Type 0
  Resolves =
      (p : Pipeline) (height : ℕ) (s : E.State)
      → Cached p.index_cache
      → limits p ≡ fixed
      → IsNamed Named height (resolve_hash E p height s).0 × Cached (resolve_hash E p height s).1

  pub record IsSound (p : Pipeline) : Type 0 where
    pub cached : Cached p.index_cache
    pub limited : limits p ≡ fixed
    pub at_jobs : All (JobNamed Named) p.jobs
    pub at_workers : All (WorkerHolds Named) p.workers
    pub at_results : All (IsChecked Named) p.results
    pub at_ready : All (IsChecked Named) p.ready
    pub at_phase : PhaseHolds Named p.phase
    pub at_sent : All (IsVerified Named) p.sent

  abbrev pub Stays : Option (Pipeline × E.State) → Type 0
  Stays = OnSome (λ (x : Pipeline × E.State). IsSound x.0)

  pub with_phase :
      (p : Pipeline) (phase : Phase) (r : PipelineResult) (h : ℕ)
      → PhaseHolds Named phase
      → IsSound p
      → IsSound (record p { phase = phase; result = r; current_height = h })
  with_phase p phase r h f v = record {
    cached = v.cached;
    limited = v.limited;
    at_jobs = v.at_jobs;
    at_workers = v.at_workers;
    at_results = v.at_results;
    at_ready = v.at_ready;
    at_phase = f;
    at_sent = v.at_sent;
  }

  pub with_workers :
      (p : Pipeline) (jobs : List DownloadJob) (i : ℕ) (w : Worker)
      → All (JobNamed Named) jobs
      → WorkerHolds Named w
      → IsSound p
      → IsSound (record p { jobs = jobs; workers = replace i w p.workers })
  with_workers p jobs i w j h v = record {
    cached = v.cached;
    limited = v.limited;
    at_jobs = j;
    at_workers = All-replace (WorkerHolds Named) i w p.workers h v.at_workers;
    at_results = v.at_results;
    at_ready = v.at_ready;
    at_phase = v.at_phase;
    at_sent = v.at_sent;
  }

  pub advance-IsSound : (d : Download) (p : Pipeline) → IsSound p → IsSound (advance d p)
  unfolding advance
  advance-IsSound d p v =
      if_both IsSound (p.current_height == max_u64) (with_phase p _ _ _ tt v)
        (with_phase p _ _ _ tt v)

  abbrev pub OfPair : (Pipeline → Type 0) → Pipeline × E.State → Type 0
  OfPair P x = P x.0

  pub answered-IsSound :
      (d : Download) (p : Pipeline) (a : Result Text × E.State)
      → IsSound p
      → IsSound (answered E ctx_error d p a).0
  unfolding answered
  answered-IsSound d p (err e, s) v =
      if_both (OfPair IsSound) (not (submitted_height_accepted E ctx_error d.height s).0)
        (with_phase p _ _ _ tt v) (advance-IsSound d p v)
  answered-IsSound d p (ok reply, s) v =
      if_both (OfPair IsSound) (not (is_accepted reply)) (with_phase p _ _ _ tt v)
        (advance-IsSound d p v)

  pub submit-IsSound :
      (d : Download) (o : Option Err) (p : Pipeline) (s : E.State)
      → d.error ≡ o
      → IsChecked Named d
      → IsSound p
      → IsSound (submit E ctx_error d o p s).0
  unfolding submit
  submit-IsSound d (some e) p s same c v = with_phase p _ _ _ tt v
  submit-IsSound d none p s same c v =
      answered-IsSound d (given d (reply_to E d s) p) (E.submit_block (Hex.encode d.raw) s)
        (record {
          cached = v.cached;
          limited = v.limited;
          at_jobs = v.at_jobs;
          at_workers = v.at_workers;
          at_results = v.at_results;
          at_ready = v.at_ready;
          at_phase = v.at_phase;
          at_sent = ((c.hash_named, c.hash_checked same), v.at_sent);
        })

  pub loop-IsSound :
      (o : Option Download) (p : Pipeline) (s : E.State)
      → OnSome (IsChecked Named) o
      → IsSound p
      → Stays (loop E ctx_error o p s)
  unfolding loop rest
  loop-IsSound (some d) p s c v = submit-IsSound d d.error _ s refl c (record {
    cached = v.cached;
    limited = v.limited;
    at_jobs = v.at_jobs;
    at_workers = v.at_workers;
    at_results = v.at_results;
    at_ready = All-without (IsChecked Named) p.current_height p.ready v.at_ready;
    at_phase = v.at_phase;
    at_sent = v.at_sent;
  })
  loop-IsSound none p s c v = if_both Stays (is_resting p) (with_phase p _ _ _ tt v) tt

  pub plan-IsSound :
      (r : Resolution) (p : Pipeline)
      → IsNamed Named p.next_schedule r
      → IsSound p
      → IsSound (plan r p)
  unfolding plan
  plan-IsSound (named hash) p n v = with_phase p _ _ _ n v
  plan-IsSound (failed e) p n v = with_phase p _ _ _ tt v
  plan-IsSound (waits index) p n v = record {
    cached = v.cached;
    limited = v.limited;
    at_jobs = v.at_jobs;
    at_workers = v.at_workers;
    at_results = v.at_results;
    at_ready = v.at_ready;
    at_phase = tt;
    at_sent = v.at_sent;
  }

  pub scheduled-IsSound :
      (job : DownloadJob) (p : Pipeline)
      → JobNamed Named job
      → IsSound p
      → IsSound (scheduled job p)
  unfolding scheduled
  scheduled-IsSound job p n v =
      if_both IsSound (p.next_schedule == max_u64) (with_job _ _ _ _ tt) (with_job _ _ _ _ tt)
    where
      with_job :
          (pending : List ℕ) (stopped : Bool) (next : ℕ) (phase : Phase)
          → PhaseHolds Named phase
          → IsSound (record p {
            jobs = p.jobs ++ (job ∷ []);
            pending = pending;
            stopped_scheduling = stopped;
            next_schedule = next;
            phase = phase;
          })
      with_job pending stopped next phase f = record {
        cached = v.cached;
        limited = v.limited;
        at_jobs = All-append (JobNamed Named) p.jobs (job ∷ []) v.at_jobs (n, tt);
        at_workers = v.at_workers;
        at_results = v.at_results;
        at_ready = v.at_ready;
        at_phase = f;
        at_sent = v.at_sent;
      }

  pub received-IsSound :
      (d : Download) (ds : List Download) (p : Pipeline)
      → p.results ≡ d ∷ ds
      → IsSound p
      → IsSound (take_result d ds p)
  unfolding put
  received-IsSound d ds p e v =
      let (c, rest) = subst (All (IsChecked Named)) e v.at_results in
      record {
        cached = v.cached;
        limited = v.limited;
        at_jobs = v.at_jobs;
        at_workers = v.at_workers;
        at_results = rest;
        at_ready = (c, All-without (IsChecked Named) d.height p.ready v.at_ready);
        at_phase = v.at_phase;
        at_sent = v.at_sent;
      }
