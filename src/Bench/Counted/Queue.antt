-- ===== src/Bench/Counted/Queue.antt =====
-- What the enqueuer keeps.
use fractal_block_sync.Prelude.{
  ℕ, ◌+◌, ◌≡◌, sym, ap, subst, arith, Option, none, some, [], ◌∷◌, ◌++◌, Text, u64, max_u64, ltb,
  ◌==◌, length, inl, inr, Bool-cases, if_both,
}
use fractal_block_sync.Errors.{Err, Result, ok, err}
use fractal_block_sync.RangeIndex
use fractal_block_sync.Submit.Services.{Services}
use fractal_block_sync.Submit.Pipeline.Counted.{length-append_one}
use fractal_block_sync.Bench.{
  BenchJob, OpenRange, BenchPhase, indexing, queuing, offering, closed, Bench,
}
use fractal_block_sync.Bench.Enqueue.{opened, queue_step, offered, open_index, enqueue}
use fractal_block_sync.Bench.Run.{enqueue_cancelled}
use fractal_block_sync.Bench.Invariant.{Leaves}
use fractal_block_sync.Bench.Counted.{
  IsAtMost, IsNextTo, IsPast, PhaseCounts, closes, IsCounted, with_phase, opened-PhaseCounts,
  queue_step-PhaseCounts,
}

-- What is kept when the enqueuer sends a job.
queued_more :
    (from : ℕ) (to : Option ℕ) (b : Bench) (job : BenchJob) (phase : BenchPhase)
    → closes b.phase ≡ 0
    → job.height ≡ from + length b.queued
    → PhaseCounts from to (from + length (job ∷ b.queued)) phase
    → IsCounted from to b
    → IsCounted from to
        (record b { jobs = b.jobs ++ (job ∷ []); queued = job ∷ b.queued; phase = phase })
queued_more from to b job phase open_still e p (d, f, v) = (
  d,
  f,
  record {
    wanted = v.wanted;
    downloaded = v.downloaded;
    failures = v.failures;
    in_order = (e, v.in_order);
    summed = omega (arith, length-append_one b.jobs job, v.summed);
    at_phase = p;
    drained = λ n. absurd (omega (arith, (v.drained n).1, open_still));
  },
)

last-IsPast : (from h : ℕ) (to : Option ℕ) → IsAtMost h to → h ≡ max_u64 → IsPast from (h + 1) to
last-IsPast from h none n e = tt
last-IsPast from h (some t) n e = λ wanted limit. omega (arith, n, e, limit)

next_after : (h : ℕ) (to : Option ℕ) → IsAtMost h to → IsNextTo (h + 1) to
next_after h none n = tt
next_after h (some t) n = omega (arith, n)

offered-IsCounted :
    (from : ℕ) (to : Option ℕ) (b : Bench) (r : OpenRange) (job : BenchJob)
    → b.phase ≡ offering r job
    → IsCounted from to b
    → IsCounted from to (offered b r job)
unfolding offered
offered-IsCounted from to b r job e (d, f, v) =
    let (hgt, small, most, l) = subst (PhaseCounts from to (from + length b.queued)) e v.at_phase in
    let open_still = ap closes e in
    elim (Bool-cases (job.height == max_u64)) [
      | inl y ↦ rw y (
          queued_more from to b job (closed none) open_still hgt
            (subst (λ x. IsPast from x to) (omega arith)
              (last-IsPast from (from + length b.queued) to most (ground (arith, y, hgt))))
            (d, f, v))
      | inr m ↦ rw m (
          queued_more from to b job (queuing r (u64 (job.height + 1))) open_still hgt
            (
              ground (arith, m, hgt, small),
              ground (arith, m, hgt, small),
              subst (λ x. IsNextTo x to) (omega arith)
                  (next_after (from + length b.queued) to most),
              l,
            )
            (d, f, v))
    ]

module _ (E : Services) (from : ℕ) (to : Option ℕ) where
  open_index-IsCounted :
      (b : Bench) (h : ℕ) (a : Result (Text × ℕ)) (s : E.State)
      → b.phase ≡ indexing h
      → IsCounted from to b
      → IsCounted from to (open_index E b h a s).0
  unfolding open_index
  open_index-IsCounted b h (err e) s p (d, f, v) =
      with_phase from to b (closed (some e)) (ap closes p) tt (d, f, v)
  open_index-IsCounted b h (ok (key, start)) s p (d, f, v) =
      let (hgt, small, most) = subst (PhaseCounts from to (from + length b.queued)) p v.at_phase in
      let a = (E.download_object key s).0 in
      with_phase from to b (opened b key start h a) (ap closes p)
        (subst (λ x. PhaseCounts from to x (opened b key start h a)) hgt
          (opened-PhaseCounts from to b key start h a v.wanted (omega (arith, hgt, small))
            (subst (λ x. IsAtMost x to) (sym hgt) most)))
        (d, f, v)

  pub enqueue-IsCounted :
      (phase : BenchPhase) (b : Bench) (s : E.State)
      → b.phase ≡ phase
      → IsCounted from to b
      → Leaves (IsCounted from to) (enqueue E phase b s)
  unfolding enqueue
  enqueue-IsCounted (indexing h) b s p v =
      open_index-IsCounted b h (RangeIndex.object_key_for_height h b.range_size) s p v
  enqueue-IsCounted (queuing r h) b s p (d, f, v) =
      let (hgt, small, most, l) =
        subst (PhaseCounts from to (from + length b.queued)) p v.at_phase in
      with_phase from to b (queue_step b r h) (ap closes p)
        (subst (λ x. PhaseCounts from to x (queue_step b r h)) hgt
          (queue_step-PhaseCounts from to b r h v.wanted (omega (arith, hgt, small))
            (subst (λ x. IsNextTo x to) (sym hgt) most) l))
        (d, f, v)
  enqueue-IsCounted (offering r job) b s p v =
      if_both (Leaves (IsCounted from to)) (ltb (length b.jobs) b.capacity)
        (offered-IsCounted from to b r job p v) tt
  enqueue-IsCounted (closed e) b s p v = tt

  pub enqueue_cancelled-IsCounted :
      (phase : BenchPhase) (e : Option Err) (b : Bench) (s : E.State)
      → b.phase ≡ phase
      → IsCounted from to b
      → Leaves (IsCounted from to) (enqueue_cancelled phase e b s)
  unfolding enqueue_cancelled
  enqueue_cancelled-IsCounted (offering r job) (some e) b s p v =
      with_phase from to b (closed (some e)) (ap closes p) tt v
  enqueue_cancelled-IsCounted (offering r job) none b s p v = tt
  enqueue_cancelled-IsCounted (indexing h) e b s p v = tt
  enqueue_cancelled-IsCounted (queuing r h) e b s p v = tt
  enqueue_cancelled-IsCounted (closed x) e b s p v = tt
