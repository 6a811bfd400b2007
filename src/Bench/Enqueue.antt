-- ===== src/Bench/Enqueue.antt =====
-- `enqueueBenchDownloadJobs`, step by step.
use fractal_block_sync.Prelude.{
  ℕ, ◌+◌, Bool, false, Option, none, some, [], ◌∷◌, ◌++◌, Bytes, Text, codes, u64, max_u64, ltb,
  leb, ◌==◌, length, if◌then◌else◌,
}
use fractal_block_sync.Errors.{Err, Result, ok, err, is_not_found, at_text, at_block}
use fractal_block_sync.RangeIndex
use fractal_block_sync.Submit.Services.{Services}
use fractal_block_sync.Upload.Windows.{end_of_range}
use fractal_block_sync.Bench.{
  BenchJob, OpenRange, BenchPhase, indexing, queuing, offering, closed, Bench,
}

-- `toHeight != nil && height > *toHeight`
unfoldable pub is_beyond : ℕ → Option ℕ → Bool
is_beyond height none = false
is_beyond height (some to) = ltb to height

-- `if toHeight != nil && *toHeight < end { end = *toHeight }`
unfoldable pub end_within : ℕ → Option ℕ → ℕ
end_within last none = last
end_within last (some to) = if ltb to last then to else last

-- A range index that could not be downloaded.
unfoldable pub no_index : Option ℕ → Text → Err → BenchPhase
no_index none key e =
    if is_not_found e
    then closed none
    else closed (some (at_text (codes "download range index") key e))
no_index (some to) key e = closed (some (at_text (codes "download range index") key e))

unfoldable pub opened : Bench → Text → ℕ → ℕ → Result Bytes → BenchPhase
unfolding no_index end_within
opened b key start height (err e) = no_index b.to_height key e
opened b key start height (ok bin) =
    let range_end = end_of_range start b.range_size in
    queuing
      (record {
        key = key;
        bin = bin;
        start = start;
        range_end = range_end;
        last = end_within range_end b.to_height;
      })
      height

unfoldable pub next_job : OpenRange → ℕ → Result Text → BenchPhase
next_job r height (err e) = closed (some (at_block (codes "read range index") r.key height e))
next_job r height (ok hash) = offering r (record { height = height; hash = hash })

-- After the last height of a range.
unfoldable pub range_done : Bench → OpenRange → ℕ → BenchPhase
unfolding is_beyond
range_done b r height =
    if is_beyond height b.to_height
    then closed none
    else if r.range_end == max_u64
    then closed none
    else indexing height

unfoldable pub queue_step : Bench → OpenRange → ℕ → BenchPhase
unfolding next_job range_done
queue_step b r height =
    if leb height r.last
    then next_job r height (RangeIndex.hash_at r.bin r.start height b.range_size)
    else range_done b r height

-- `jobs <- …` and what follows in the loop.
unfoldable pub offered : Bench → OpenRange → BenchJob → Bench
offered b r job =
    if job.height == max_u64
    then record b { jobs = b.jobs ++ (job ∷ []); queued = job ∷ b.queued; phase = closed none }
    else record b {
      jobs = b.jobs ++ (job ∷ []);
      queued = job ∷ b.queued;
      phase = queuing r (u64 (job.height + 1));
    }

module _ (E : Services) where
  unfoldable pub open_index : Bench → ℕ → Result (Text × ℕ) → E.State → Bench × E.State
  unfolding opened
  open_index b height (err e) s = (record b { phase = closed (some e) }, s)
  open_index b height (ok (key, start)) s =
      let (r, t) = E.download_object key s in (record b { phase = opened b key start height r }, t)

  -- A step of the enqueuer that does not wait.
  unfoldable pub enqueue : BenchPhase → Bench → E.State → Option (Bench × E.State)
  unfolding open_index queue_step offered
  enqueue (indexing height) b s =
      some (open_index b height (RangeIndex.object_key_for_height height b.range_size) s)
  enqueue (queuing r height) b s = some (record b { phase = queue_step b r height }, s)
  enqueue (offering r job) b s =
      if ltb (length b.jobs) b.capacity then some (offered b r job, s) else none
  enqueue (closed e) b s = none
