-- ===== src/Bench/Counted/Crew.antt =====
-- What the workers keep.
use fractal_block_sync.Prelude.{
  ℕ, suc, ◌+◌, ◌≡◌, refl, sym, ap, ◌∙◌, arith, Option, none, some, List, [], ◌∷◌, Bytes, u64,
  length, get_elem?,
}
use fractal_block_sync.Errors.{Err, Result, ok, err}
use fractal_block_sync.Submit.Pipeline.Workers.{replace}
use fractal_block_sync.Submit.Pipeline.Counted.{total-replace}
use fractal_block_sync.Bench.{
  BenchJob, BenchStats, record_success, record_failure, BenchWorker, waiting, loading, broken,
  finished, BenchPhase, indexing, queuing, offering, closed, Bench,
}
use fractal_block_sync.Bench.Run.{take_from, loaded_bench, leave_closed}
use fractal_block_sync.Bench.Invariant.{Leaves}
use fractal_block_sync.Bench.Counted.{
  is_loading, is_broken, is_finished, closes, Counted, IsCounted,
}

module _ (from : ℕ) (to : Option ℕ) where
  -- A worker at a download ends it, in one of three ways.
  moved :
      (i : ℕ) (w : BenchWorker) (job : BenchJob) (stats : BenchStats) (b : Bench) (d f x y : ℕ)
      → get_elem? b.workers i ≡ some (loading job)
      → is_loading w ≡ 0
      → is_finished w ≡ 0
      → x + y + is_broken w ≡ d + f + 1
      → stats.downloaded_blocks ≡ u64 x
      → stats.failed_blocks ≡ u64 y
      → Counted from to d f b
      → Counted from to x y (record b { stats = stats; workers = replace i w b.workers })
  moved i w job stats b d f x y e l n c down fail v = record {
    wanted = v.wanted;
    downloaded = down;
    failures = fail;
    in_order = v.in_order;
    summed = omega (
      arith,
      l,
      c,
      v.summed,
      total-replace is_loading i b.workers w (loading job) e,
      total-replace is_broken i b.workers w (loading job) e,
    );
    at_phase = v.at_phase;
    drained = λ m.
        v.drained (omega (arith, n, m, total-replace is_finished i b.workers w (loading job) e));
  }

  pub loaded_bench-IsCounted :
      (i : ℕ) (job : BenchJob) (r : Result Bytes) (e : Option Err) (b : Bench)
      → get_elem? b.workers i ≡ some (loading job)
      → IsCounted from to b
      → IsCounted from to (loaded_bench i job r e b)
  unfolding loaded_bench record_success record_failure
  loaded_bench-IsCounted i job (ok raw) e b g (d, f, v) = (
    suc d,
    f,
    moved i waiting job (record_success job.height (length raw) b.stats) b d f (suc d) f g refl refl
        (omega arith) (ap (λ x. u64 (x + 1)) v.downloaded ∙ omega arith) v.failures v,
  )
  loaded_bench-IsCounted i job (err x) none b g (d, f, v) = (
    d,
    suc f,
    moved i waiting job (record_failure job.height b.stats) b d f d (suc f) g refl refl
        (omega arith) v.downloaded (ap (λ x. u64 (x + 1)) v.failures ∙ omega arith) v,
  )
  loaded_bench-IsCounted i job (err x) (some e) b g (d, f, v) = (
    d,
    f,
    moved i broken job b.stats b d f d f g refl refl (omega arith) v.downloaded v.failures v,
  )

module _ {S : Type 0} (from : ℕ) (to : Option ℕ) where
  pub take_from-IsCounted :
      (i : ℕ) (w : Option BenchWorker) (jobs : List BenchJob) (b : Bench) (s : S)
      → get_elem? b.workers i ≡ w
      → b.jobs ≡ jobs
      → IsCounted from to b
      → Leaves (IsCounted from to) (take_from i w jobs b s)
  unfolding take_from
  take_from-IsCounted i (some waiting) (job ∷ jobs) b s e q (d, f, v) = (
    d,
    f,
    record {
      wanted = v.wanted;
      downloaded = v.downloaded;
      failures = v.failures;
      in_order = v.in_order;
      summed = omega (
        arith,
        ap length q,
        v.summed,
        total-replace is_loading i b.workers (loading job) waiting e,
        total-replace is_broken i b.workers (loading job) waiting e,
      );
      at_phase = v.at_phase;
      drained = λ n. absurd (
          omega (
            arith,
            ap length (
                sym q
                ∙ (v.drained (
                    omega (
                      arith,
                      n,
                      total-replace is_finished i b.workers (loading job) waiting e,
                    ))).0),
          ));
    },
  )
  take_from-IsCounted i (some waiting) [] b s e q v = tt
  take_from-IsCounted i (some (loading j)) jobs b s e q v = tt
  take_from-IsCounted i (some broken) jobs b s e q v = tt
  take_from-IsCounted i (some finished) jobs b s e q v = tt
  take_from-IsCounted i none jobs b s e q v = tt

  pub leave_closed-IsCounted :
      (i : ℕ) (w : Option BenchWorker) (phase : BenchPhase) (jobs : List BenchJob) (b : Bench)
      (s : S)
      → get_elem? b.workers i ≡ w
      → b.phase ≡ phase
      → b.jobs ≡ jobs
      → IsCounted from to b
      → Leaves (IsCounted from to) (leave_closed i w phase jobs b s)
  unfolding leave_closed
  leave_closed-IsCounted i (some waiting) (closed e) [] b s g p q (d, f, v) = (
    d,
    f,
    record {
      wanted = v.wanted;
      downloaded = v.downloaded;
      failures = v.failures;
      in_order = v.in_order;
      summed = omega (
        arith,
        v.summed,
        total-replace is_loading i b.workers finished waiting g,
        total-replace is_broken i b.workers finished waiting g,
      );
      at_phase = v.at_phase;
      drained = λ n. (q, ap closes p);
    },
  )
  leave_closed-IsCounted i (some waiting) (closed e) (j ∷ jobs) b s g p q v = tt
  leave_closed-IsCounted i (some waiting) (indexing h) jobs b s g p q v = tt
  leave_closed-IsCounted i (some waiting) (queuing r h) jobs b s g p q v = tt
  leave_closed-IsCounted i (some waiting) (offering r h) jobs b s g p q v = tt
  leave_closed-IsCounted i (some (loading j)) phase jobs b s g p q v = tt
  leave_closed-IsCounted i (some broken) phase jobs b s g p q v = tt
  leave_closed-IsCounted i (some finished) phase jobs b s g p q v = tt
  leave_closed-IsCounted i none phase jobs b s g p q v = tt
