-- ===== src/Bench/Counted.antt =====
-- Each height of the benchmark is queued once, in order, and each queued block is counted, waited for, or
-- left behind by a worker whose context was done.
pub mod Queue
pub mod Crew
pub mod Total
use fractal_block_sync.Prelude.{
  ℕ, zero, suc, ◌+◌, ◌≤◌, ◌<◌, ◌≡◌, refl, sym, ap, subst, ◌∙◌, arith, Bool, true, false, not, ◌&&◌,
  Option, none, some, List, [], ◌∷◌, ◌++◌, Bytes, Text, u64, max_u64, ltb, leb, ◌==◌, length,
  get_elem?, if◌then◌else◌, inl, inr, Bool-cases, if_both,
}
use fractal_block_sync.Errors.{Err, Result, ok, err, is_not_found}
use fractal_block_sync.RangeIndex
use fractal_block_sync.Submit.Services.{Services}
use fractal_block_sync.Submit.Pipeline.Invariant.{OnSome}
use fractal_block_sync.Submit.Pipeline.Workers.{replace}
use fractal_block_sync.Submit.Pipeline.Counted.{total, total-replace, length-append_one}
use fractal_block_sync.Bench.{
  BenchJob, BenchStats, record_success, record_failure, BenchWorker, waiting, loading, broken,
  finished, OpenRange, BenchPhase, indexing, queuing, offering, closed, Bench,
}
use fractal_block_sync.Bench.Enqueue.{
  is_beyond, end_within, no_index, opened, next_job, range_done, queue_step, offered, open_index,
  enqueue,
}
use fractal_block_sync.Bench.Run.{
  BenchMove, enqueue_more, enqueue_done, take_next, load, leave, enqueue_cancelled, take_from,
  loaded_bench, leave_closed, load_block, bench_move,
}

abbrev pub is_loading : BenchWorker → ℕ
is_loading (loading job) = 1
is_loading w = 0

abbrev pub is_broken : BenchWorker → ℕ
is_broken broken = 1
is_broken w = 0

abbrev pub is_finished : BenchWorker → ℕ
is_finished finished = 1
is_finished w = 0

-- From the last job back to the one of the first height, one height at a time.
abbrev pub IsQueue : ℕ → List BenchJob → Type 0
IsQueue from [] = Unit
IsQueue from (job ∷ jobs) = (job.height ≡ from + length jobs) × IsQueue from jobs

abbrev pub IsAtMost : ℕ → Option ℕ → Type 0
IsAtMost h none = Unit
IsAtMost h (some to) = h ≤ to

abbrev pub IsNextTo : ℕ → Option ℕ → Type 0
IsNextTo h none = Unit
IsNextTo h (some to) = h ≤ to + 1

-- The next height after the wanted ones, if there are any.
abbrev pub IsPast : ℕ → ℕ → Option ℕ → Type 0
IsPast from h none = Unit
IsPast from h (some to) = from ≤ to → to ≤ max_u64 → h ≡ to + 1

-- What the enqueuer knows at each place, where `h` is the next height.
abbrev pub PhaseCounts : ℕ → Option ℕ → ℕ → BenchPhase → Type 0
PhaseCounts from to h (indexing height) = (height ≡ h) × (h ≤ max_u64) × IsAtMost h to
PhaseCounts from to h (queuing r height) =
    (height ≡ h) × (h ≤ max_u64) × IsNextTo h to × (r.last ≡ end_within r.range_end to)
PhaseCounts from to h (offering r job) =
    (job.height ≡ h) × (h ≤ max_u64) × IsAtMost h to × (r.last ≡ end_within r.range_end to)
PhaseCounts from to h (closed none) = IsPast from h to
PhaseCounts from to h (closed (some e)) = Unit

abbrev pub closes : BenchPhase → ℕ
closes (closed e) = 1
closes phase = 0

-- d blocks were downloaded and f failed.
pub record Counted (from : ℕ) (to : Option ℕ) (d f : ℕ) (b : Bench) : Type 0 where
  pub wanted : b.to_height ≡ to
  pub downloaded : b.stats.downloaded_blocks ≡ u64 d
  pub failures : b.stats.failed_blocks ≡ u64 f
  pub in_order : IsQueue from b.queued
  pub summed :
      d + f + length b.jobs + total is_loading b.workers + total is_broken b.workers
      ≡ length b.queued
  pub at_phase : PhaseCounts from to (from + length b.queued) b.phase
  pub drained : 0 < total is_finished b.workers → (b.jobs ≡ []) × (closes b.phase ≡ 1)

abbrev pub IsCounted : ℕ → Option ℕ → Bench → Type 0
IsCounted from to b = (d : ℕ) × (f : ℕ) × Counted from to d f b

-- Another phase, which does not take the channel's end away.
pub with_phase :
    (from : ℕ) (to : Option ℕ) (b : Bench) (phase : BenchPhase)
    → closes b.phase ≡ 0
    → PhaseCounts from to (from + length b.queued) phase
    → IsCounted from to b
    → IsCounted from to (record b { phase = phase })
with_phase from to b phase open_still p (d, f, v) = (
  d,
  f,
  record {
    wanted = v.wanted;
    downloaded = v.downloaded;
    failures = v.failures;
    in_order = v.in_order;
    summed = v.summed;
    at_phase = p;
    drained = λ n. absurd (omega (arith, (v.drained n).1, open_still));
  },
)

end_within-IsAtMost : (h last : ℕ) (to : Option ℕ) → h ≤ end_within last to → IsAtMost h to
unfolding end_within
end_within-IsAtMost h last none l = tt
end_within-IsAtMost h last (some t) l = ground (arith, l)

IsPast-last :
    (from h last : ℕ) (to : Option ℕ)
    → h ≤ max_u64
    → IsNextTo h to
    → end_within last to < h
    → last ≡ max_u64
    → IsPast from h to
unfolding end_within
IsPast-last from h last none small n l m = tt
IsPast-last from h last (some t) small n l m = λ wanted limit. ground (arith, small, n, l, m)

beyond-IsPast :
    (from h : ℕ) (to : Option ℕ) → IsNextTo h to → is_beyond h to ≡ true → IsPast from h to
unfolding is_beyond
beyond-IsPast from h none n y = tt
beyond-IsPast from h (some t) n y = λ wanted limit. ground (arith, n, y)

within_next : (h : ℕ) (to : Option ℕ) → is_beyond h to ≡ false → IsAtMost h to
unfolding is_beyond
within_next h none y = tt
within_next h (some t) y = ground (arith, y)

range_done-PhaseCounts :
    (from : ℕ) (to : Option ℕ) (b : Bench) (r : OpenRange) (h : ℕ)
    → b.to_height ≡ to
    → h ≤ max_u64
    → IsNextTo h to
    → r.last ≡ end_within r.range_end to
    → r.last < h
    → PhaseCounts from to h (range_done b r h)
unfolding range_done
range_done-PhaseCounts from to b r h w small n l past =
    elim (Bool-cases (is_beyond h b.to_height)) [
      | inl y ↦ rw y (beyond-IsPast from h to n (ap (is_beyond h) (sym w) ∙ y))
      | inr m ↦ elim (Bool-cases (r.range_end == max_u64)) [
        | inl e ↦ rw m (
            rw e (
              IsPast-last from h r.range_end to small n (subst (λ x. x < h) l past)
                (ground (arith, e))))
        | inr o ↦ rw m (rw o (refl, small, within_next h to (ap (is_beyond h) (sym w) ∙ m)))
      ]
    ]

next_job-PhaseCounts :
    (from : ℕ) (to : Option ℕ) (r : OpenRange) (h : ℕ) (a : Result Text)
    → h ≤ max_u64
    → IsAtMost h to
    → r.last ≡ end_within r.range_end to
    → PhaseCounts from to h (next_job r h a)
unfolding next_job
next_job-PhaseCounts from to r h (err e) small n l = tt
next_job-PhaseCounts from to r h (ok hash) small n l = (refl, small, n, l)

pub queue_step-PhaseCounts :
    (from : ℕ) (to : Option ℕ) (b : Bench) (r : OpenRange) (h : ℕ)
    → b.to_height ≡ to
    → h ≤ max_u64
    → IsNextTo h to
    → r.last ≡ end_within r.range_end to
    → PhaseCounts from to h (queue_step b r h)
unfolding queue_step
queue_step-PhaseCounts from to b r h w small n l = elim (Bool-cases (leb h r.last)) [
  | inl y ↦ rw y (
      next_job-PhaseCounts from to r h (RangeIndex.hash_at r.bin r.start h b.range_size) small
        (end_within-IsAtMost h r.range_end to (subst (λ x. h ≤ x) l (ground (arith, y)))) l)
  | inr m ↦ rw m (range_done-PhaseCounts from to b r h w small n l (ground (arith, m)))
]

no_index-PhaseCounts :
    (from h : ℕ) (to : Option ℕ) (key : Text) (e : Err) → PhaseCounts from to h (no_index to key e)
unfolding no_index
no_index-PhaseCounts from h none key e = if_both (PhaseCounts from none h) (is_not_found e) tt tt
no_index-PhaseCounts from h (some t) key e = tt

next_of_most : (h : ℕ) (to : Option ℕ) → IsAtMost h to → IsNextTo h to
next_of_most h none n = tt
next_of_most h (some t) n = omega (arith, n)

pub opened-PhaseCounts :
    (from : ℕ) (to : Option ℕ) (b : Bench) (key : Text) (start h : ℕ) (a : Result Bytes)
    → b.to_height ≡ to
    → h ≤ max_u64
    → IsAtMost h to
    → PhaseCounts from to h (opened b key start h a)
unfolding opened
opened-PhaseCounts from to b key start h (err e) w small n =
    subst (λ x. PhaseCounts from to h (no_index x key e)) (sym w)
      (no_index-PhaseCounts from h to key e)
opened-PhaseCounts from to b key start h (ok bin) w small n =
    (refl, small, next_of_most h to n, ap (end_within _) w)
