-- ===== src/Submit/Pipeline/Filled.antt =====
-- The window of the pipeline: which heights are on their way, and where each of them is.
pub mod Taken
pub mod Steps
pub mod Safe
use fractal_block_sync.Prelude.{
  ℕ, zero, suc, ◌+◌, ◌≤◌, ◌<◌, ◌≡◌, refl, sym, ap, ◌∙◌, arith, Bool, true, false, not, ◌&&◌, Option,
  none, some, List, [], ◌∷◌, ◌++◌, u64, max_u64, ltb, leb, ◌==◌, if◌then◌else◌, length, count, ◌⊎◌,
  inl, inr, Bool-cases, if_both,
}
use fractal_block_sync.Submit.Services.{Services}
use fractal_block_sync.Submit.Cache.{RangeIndexCache}
use fractal_block_sync.Submit.Pipeline.{
  DownloadJob, Download, PipelineResult, Worker, Pipeline, Phase, filling, sending, looping,
  returned, lookup, without, put, forget, await,
}
use fractal_block_sync.Submit.Pipeline.Window.{
  Resolution, named, waits, failed, scheduled, plan, has_room,
}
use fractal_block_sync.Submit.Pipeline.Run.{advance, take_result}
use fractal_block_sync.Submit.Pipeline.Ordered.{is_live}
use fractal_block_sync.Submit.Pipeline.Counted.{
  total, total-append, jobs_at, downloads_at, busy_at, is_busy, is_gone, length-append_one,
  downloads_at-without, length-without, count-await, length-await, count-settle, length-settle,
  downloads_at-put, length-put, hit, lookup-some,
}

-- One for the heights from the current one up to the top, which is left out.
abbrev pub within : ℕ → ℕ → ℕ → ℕ
within low top k = if leb low k && ltb k top then 1 else 0

abbrev pub on_way : Pipeline → ℕ
on_way p = length p.ready + length p.pending

-- What `run` knows at each place, of the flag, the heights on their way, the window and the top.
abbrev pub Fits : Bool → ℕ → ℕ → ℕ → Phase → Type 0
Fits stopped many window top (sending job) =
    (stopped ≡ false) × (job.height ≡ top) × (many < window)
Fits stopped many window top looping = (stopped ≡ true) ⊎ (window ≤ many)
Fits stopped many window top phase = Unit

abbrev pub PhaseFits : Pipeline → ℕ → Phase → Type 0
PhaseFits p top = Fits p.stopped_scheduling (on_way p) p.prefetch_window top

-- The heights from the current one up to `top` are the ones that are ready or pending, each once; the
-- pending ones are in the channels or at a worker, unless a worker returned.
pub record Filled (top : ℕ) (p : Pipeline) : Type 0 where
  pub wide : 0 < p.prefetch_window
  pub staffed : 0 < length p.workers
  pub scheduling :
      p.stopped_scheduling ≡ false → (top ≡ p.next_schedule) × (p.next_schedule ≤ max_u64)
  pub in_range : top ≤ max_u64 + 1
  pub parted : (k : ℕ) → downloads_at k p.ready + count k p.pending ≡ within p.current_height top k
  pub sized : on_way p + p.current_height ≡ top
  pub bounded : on_way p ≤ p.prefetch_window
  pub in_flight :
      (k : ℕ)
      → jobs_at k p.jobs + total (busy_at k) p.workers + downloads_at k p.results
        ≤ count k p.pending
  pub flow : length p.jobs + total is_busy p.workers + length p.results ≤ length p.pending
  pub whole :
      total is_gone p.workers ≡ 0
      → length p.jobs + total is_busy p.workers + length p.results ≡ length p.pending
  pub at_phase : PhaseFits p top p.phase

abbrev pub IsFilled : Pipeline → Type 0
IsFilled p = is_live p.phase ≡ true → (top : ℕ) × Filled top p

-- Another phase.
pub Filled-phase :
    (top : ℕ) (p : Pipeline) (phase : Phase)
    → PhaseFits p top phase
    → Filled top p
    → Filled top (record p { phase = phase })
Filled-phase top p phase f v = record {
  wide = v.wide;
  staffed = v.staffed;
  scheduling = v.scheduling;
  in_range = v.in_range;
  parted = v.parted;
  sized = v.sized;
  bounded = v.bounded;
  in_flight = v.in_flight;
  flow = v.flow;
  whole = v.whole;
  at_phase = f;
}

-- Another cache.
pub Filled-cache :
    (top : ℕ) (p : Pipeline) (c : RangeIndexCache)
    → Filled top p
    → Filled top (record p { index_cache = c })
Filled-cache top p c v = record {
  wide = v.wide;
  staffed = v.staffed;
  scheduling = v.scheduling;
  in_range = v.in_range;
  parted = v.parted;
  sized = v.sized;
  bounded = v.bounded;
  in_flight = v.in_flight;
  flow = v.flow;
  whole = v.whole;
  at_phase = v.at_phase;
}

pub has_room-cache :
    (E : Services) (p : Pipeline) (c : RangeIndexCache)
    → has_room E p ≡ true
    → has_room E (record p { index_cache = c }) ≡ true
unfolding has_room
has_room-cache E p c h = h

has_room-true :
    (E : Services) (p : Pipeline)
    → has_room E p ≡ true
    → (p.stopped_scheduling ≡ false) × (on_way p < p.prefetch_window)
unfolding has_room
has_room-true E p h = ground arith

pub has_room-false :
    (E : Services) (p : Pipeline)
    → has_room E p ≡ false
    → (p.stopped_scheduling ≡ true) ⊎ (p.prefetch_window ≤ on_way p)
unfolding has_room
has_room-false E p h = ground arith

pub plan-Filled :
    (E : Services) (top : ℕ) (r : Resolution) (p : Pipeline)
    → has_room E p ≡ true
    → Filled top p
    → is_live (plan r p).phase ≡ true
    → Filled top (plan r p)
unfolding plan
plan-Filled E top (named hash) p h v l =
    let (going, room) = has_room-true E p h in
    Filled-phase top p _ (going, sym (v.scheduling going).0, room) v
plan-Filled E top (failed e) p h v l = cc
plan-Filled E top (waits index) p h v l = record {
  wide = v.wide;
  staffed = v.staffed;
  scheduling = λ e. cc;
  in_range = v.in_range;
  parted = v.parted;
  sized = v.sized;
  bounded = v.bounded;
  in_flight = v.in_flight;
  flow = v.flow;
  whole = v.whole;
  at_phase = inl refl;
}

phase_after :
    (q : Pipeline) (top : ℕ) (phase : Phase)
    → (phase ≡ filling) ⊎ ((phase ≡ looping) × (q.stopped_scheduling ≡ true))
    → PhaseFits q top phase
phase_after q top filling f = tt
phase_after q top (returned e) f = tt
phase_after q top looping f = inl (ground (arith, f))
phase_after q top (sending j) f = absurd (ground (arith, f))

-- A height that was scheduled is above all that are on their way.
module _ (top : ℕ) (job : DownloadJob) (p : Pipeline) (v : Filled top p)
    (going : p.stopped_scheduling ≡ false) (at : job.height ≡ top)
    (room : on_way p < p.prefetch_window) where
  next_top : p.next_schedule ≡ top
  next_top = sym (v.scheduling going).0

  absent : count p.next_schedule p.pending ≡ 0
  absent = ground (arith, v.parted p.next_schedule, next_top)

  parted_next :
      (k : ℕ)
      → downloads_at k p.ready + count k (await p.next_schedule p.pending)
        ≡ within p.current_height (suc top) k
  parted_next k =
      ground (arith, v.parted k, count-await p.next_schedule k p.pending, next_top, v.sized)

  sized_next : length p.ready + length (await p.next_schedule p.pending) ≡ on_way p + 1
  sized_next = omega (arith, length-await p.next_schedule p.pending, absent)

  in_flight_next :
      (k : ℕ)
      → jobs_at k (p.jobs ++ (job ∷ [])) + total (busy_at k) p.workers + downloads_at k p.results
        ≤ count k (await p.next_schedule p.pending)
  in_flight_next k = ground (
    arith,
    v.in_flight k,
    count-await p.next_schedule k p.pending,
    next_top,
    at,
    total-append (λ (j : DownloadJob). hit j.height k) p.jobs job,
    absent,
  )

  -- The pipeline after the job was sent, whether it goes on to schedule or not.
  abbrev with_job : Bool → ℕ → Phase → Pipeline
  with_job stopped next phase = record p {
    jobs = p.jobs ++ (job ∷ []);
    pending = await p.next_schedule p.pending;
    stopped_scheduling = stopped;
    next_schedule = next;
    phase = phase;
  }

  with_job-Filled :
      (stopped : Bool) (next : ℕ) (phase : Phase)
      → (stopped ≡ false → (suc top ≡ next) × (next ≤ max_u64))
      → ((phase ≡ filling) ⊎ ((phase ≡ looping) × (stopped ≡ true)))
      → Filled (suc top) (with_job stopped next phase)
  with_job-Filled stopped next phase s f = record {
    wide = v.wide;
    staffed = v.staffed;
    scheduling = s;
    in_range = omega (arith, next_top, (v.scheduling going).1);
    parted = parted_next;
    sized = omega (arith, sized_next, v.sized);
    bounded = omega (arith, sized_next, room);
    in_flight = in_flight_next;
    flow = omega (
      arith,
      v.flow,
      length-append_one p.jobs job,
      length-await p.next_schedule p.pending,
      absent,
    );
    whole = λ g. omega (
      arith,
      v.whole g,
      length-append_one p.jobs job,
      length-await p.next_schedule p.pending,
      absent,
    );
    at_phase = phase_after (with_job stopped next phase) (suc top) phase f;
  }

  pub scheduled-Filled : (top' : ℕ) × Filled top' (scheduled job p)
  unfolding scheduled
  scheduled-Filled = elim (Bool-cases (p.next_schedule == max_u64)) [
    | inl y ↦
        rw y (suc top, with_job-Filled true p.next_schedule looping (λ e. cc) (inr (refl, refl)))
    | inr n ↦ rw n (
      suc top,
      with_job-Filled p.stopped_scheduling (u64 (p.next_schedule + 1)) filling
          (λ e. ground (arith, n, next_top, (v.scheduling going).1)) (inl refl),
    )
  ]
