-- ===== src/Submit/Pipeline/Filled/Taken.antt =====
-- What leaves the window, and what a worker moves, keep the account of the heights.
use fractal_block_sync.Prelude.{
  ℕ, suc, ◌+◌, ◌≤◌, ◌<◌, ◌≡◌, arith, some, List, ◌∷◌, max_u64, ◌==◌, length, count, get_elem?, inl,
  inr, Bool-cases,
}
use fractal_block_sync.Submit.Pipeline.{
  DownloadJob, Download, PipelineResult, Worker, Pipeline, Phase, filling, sending, looping,
  returned, SubmitReply, lookup, without, put, forget,
}
use fractal_block_sync.Submit.Pipeline.Workers.{replace}
use fractal_block_sync.Submit.Pipeline.Run.{given, advance, take_result}
use fractal_block_sync.Submit.Pipeline.Counted.{
  total, jobs_at, downloads_at, busy_at, is_busy, is_gone, downloads_at-without, length-without,
  count-settle, length-settle, downloads_at-put, length-put, hit, lookup-some, total-replace,
  length-replace,
}
use fractal_block_sync.Submit.Pipeline.Filled.{within, on_way, PhaseFits, Filled, IsFilled}

-- The result for the current height leaves the map when its block is accepted.
module _ (top : ℕ) (d e : Download) (p : Pipeline) (reply : SubmitReply)
    (found : lookup p.current_height p.ready ≡ some e) (v : Filled top p) where
  abbrev taken : Pipeline
  taken = given d reply (record p { ready = without p.current_height p.ready })

  here : (downloads_at p.current_height p.ready ≡ 1) × (p.current_height < top)
  here = ground (arith, v.parted p.current_height, lookup-some p.current_height p.ready found)

  parted_above :
      (k : ℕ)
      → downloads_at k (without p.current_height p.ready) + count k p.pending
        ≡ within (suc p.current_height) top k
  parted_above k = ground (
    arith,
    v.parted k,
    downloads_at-without p.current_height k p.ready,
    here,
    lookup-some p.current_height p.ready found,
  )

  shorter : length (without p.current_height p.ready) + 1 ≡ length p.ready
  shorter = omega (arith, length-without p.current_height p.ready, here.0)

  advanced-Filled :
      (r : PipelineResult) (h : ℕ)
      → h ≡ suc p.current_height
      → Filled top (record taken { result = r; current_height = h; phase = filling })
  advanced-Filled r h e = record {
    wide = v.wide;
    staffed = v.staffed;
    scheduling = v.scheduling;
    in_range = v.in_range;
    parted = λ k. rw e (parted_above k);
    sized = omega (arith, v.sized, shorter, e);
    bounded = omega (arith, v.bounded, shorter);
    in_flight = v.in_flight;
    flow = v.flow;
    whole = v.whole;
    at_phase = tt;
  }

  pub advance-IsFilled : IsFilled (advance d taken)
  unfolding advance
  advance-IsFilled = elim (Bool-cases (p.current_height == max_u64)) [
    | inl y ↦ rw y (λ l. cc)
    | inr n ↦ rw n (λ l. (top, advanced-Filled _ _ (ground (arith, n, here.1, v.in_range))))
  ]

-- A result comes from the channel.
module _ (top : ℕ) (d : Download) (ds : List Download) (p : Pipeline) (came : p.results ≡ d ∷ ds)
    (at : p.phase ≡ looping) (v : Filled top p) where
  in_flight_here :
      (k : ℕ)
      → jobs_at k p.jobs + total (busy_at k) p.workers + (hit d.height k + downloads_at k ds)
        ≤ count k p.pending
  in_flight_here k = rw came at v.in_flight k

  only : (count d.height p.pending ≡ 1) × (downloads_at d.height p.ready ≡ 0)
  only = ground (arith, v.parted d.height, in_flight_here d.height)

  parted_here :
      (k : ℕ)
      → downloads_at k (put d p.ready) + count k (forget d.height p.pending)
        ≡ within p.current_height top k
  parted_here k =
      ground
        (arith, v.parted k, downloads_at-put d k p.ready, count-settle d.height k p.pending, only)

  in_flight_left :
      (k : ℕ)
      → jobs_at k p.jobs + total (busy_at k) p.workers + downloads_at k ds
        ≤ count k (forget d.height p.pending)
  in_flight_left k = ground (arith, in_flight_here k, count-settle d.height k p.pending, only)

  lengths :
      (length (put d p.ready) ≡ length p.ready + 1)
      × (length (forget d.height p.pending) + 1 ≡ length p.pending)
      × (length p.results ≡ length ds + 1)
  lengths = (
    omega (arith, length-put d p.ready, only.1),
    omega (arith, length-settle d.height p.pending, only.0),
    rw came (omega arith),
  )

  same_way : on_way (take_result d ds p) ≡ on_way p
  same_way = omega (arith, lengths)

  pub received-Filled : Filled top (take_result d ds p)
  received-Filled = record {
    wide = v.wide;
    staffed = v.staffed;
    scheduling = v.scheduling;
    in_range = v.in_range;
    parted = parted_here;
    sized = omega (arith, v.sized, same_way);
    bounded = omega (arith, v.bounded, same_way);
    in_flight = in_flight_left;
    flow = omega (arith, v.flow, lengths);
    whole = λ g. omega (arith, v.whole g, lengths);
    at_phase = fits p.phase at v.at_phase;
  }
    where
      fits :
          (phase : Phase)
          → phase ≡ looping
          → PhaseFits p top phase
          → PhaseFits (take_result d ds p) top phase
      fits looping e (inl s) = inl s
      fits looping e (inr w) = inr (omega (arith, same_way))
      fits filling e f = tt
      fits (returned x) e f = tt
      fits (sending job) e f = absurd cc

-- A worker's move, with what it takes from the jobs or adds to the results.
pub worked-Filled :
    (top : ℕ) (p : Pipeline) (i : ℕ) (w u : Worker) (jobs : List DownloadJob)
    (results : List Download)
    → get_elem? p.workers i ≡ some w
    → is_gone w ≡ 0
    → ((k : ℕ)
        → jobs_at k jobs + busy_at k u + downloads_at k results
          ≤ jobs_at k p.jobs + busy_at k w + downloads_at k p.results)
    → length jobs + is_busy u + length results ≤ length p.jobs + is_busy w + length p.results
    → (is_gone u ≡ 0
        → length jobs + is_busy u + length results ≡ length p.jobs + is_busy w + length p.results)
    → Filled top p
    → Filled top (record p { jobs = jobs; results = results; workers = replace i u p.workers })
worked-Filled top p i w u jobs results here alive moved less same v = record {
  wide = v.wide;
  staffed = omega (arith, v.staffed, length-replace i p.workers u);
  scheduling = v.scheduling;
  in_range = v.in_range;
  parted = v.parted;
  sized = v.sized;
  bounded = v.bounded;
  in_flight =
      λ k. omega (arith, v.in_flight k, moved k, total-replace (busy_at k) i p.workers u w here);
  flow = omega (arith, v.flow, less, total-replace is_busy i p.workers u w here);
  whole = λ g.
      let gone_here = total-replace is_gone i p.workers u w here in
      omega (
        arith,
        v.whole (omega (arith, gone_here, g, alive)),
        same (omega (arith, gone_here, g, alive)),
        total-replace is_busy i p.workers u w here,
      );
  at_phase = v.at_phase;
}
