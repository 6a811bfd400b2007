-- ===== src/Submit/Pipeline/Window.antt =====
-- `resolveHash` and the steps of `fillWindow`.
use fractal_block_sync.Prelude.{
  ℕ, ◌+◌, Bool, true, false, not, ◌&&◌, Option, none, some, [], ◌∷◌, ◌++◌, Text, u64, max_u64, ltb,
  ◌==◌, length, if◌then◌else◌,
}
use fractal_block_sync.Errors.{Err, Result, ok, err, is_not_found}
use fractal_block_sync.Submit.Services.{Services}
use fractal_block_sync.Submit.Cache.{RangeIndexCache, hash_at}
use fractal_block_sync.Submit.Walk.{resolve_recent_hash}
use fractal_block_sync.Submit.Pipeline.{
  DownloadJob, Pipeline, filling, sending, looping, returned, await,
}

-- `(hash, waitHeaders, waitR2Index, err)`: a hash, a wait with `waitR2Index`, or an error.
pub data Resolution : Type 0 where
  named : Text → Resolution
  waits : Bool → Resolution
  failed : Err → Resolution

-- A height above the headers: no index means to wait.
unfoldable pub or_wait : Result Text → Resolution
or_wait (ok hash) = named hash
or_wait (err e) = if is_not_found e then waits true else failed e

abbrev pub or_fail : Result Text → Resolution
or_fail (ok hash) = named hash
or_fail (err e) = failed e

-- `p.nextSchedule` after a job was sent.
unfoldable pub scheduled : DownloadJob → Pipeline → Pipeline
unfolding await
scheduled job p =
    if p.next_schedule == max_u64
    then record p {
      jobs = p.jobs ++ (job ∷ []);
      pending = await p.next_schedule p.pending;
      stopped_scheduling = true;
      phase = looping;
    }
    else record p {
      jobs = p.jobs ++ (job ∷ []);
      pending = await p.next_schedule p.pending;
      next_schedule = u64 (p.next_schedule + 1);
      phase = filling;
    }

-- The channel of jobs has room for as many as the window.
unfoldable pub send_job : {S : Type 0} → DownloadJob → Pipeline → S → Option (Pipeline × S)
unfolding scheduled
send_job job p s = if ltb (length p.jobs) p.prefetch_window then some (scheduled job p, s) else none

-- What `fillWindow` does with the resolution of the next height.
unfoldable pub plan : Resolution → Pipeline → Pipeline
plan (named hash) p = record p {
  phase = sending (record { height = p.next_schedule; hash = hash });
}
plan (waits index) p = record p {
  stopped_scheduling = true;
  wait_headers = true;
  wait_r2_index = index;
  phase = looping;
}
plan (failed e) p = record p { phase = returned (some e) }

module _ (E : Services) where
  -- A height with a header: the walk for one that no index has.
  unfoldable pub or_walk :
      ℕ → ℕ → Result Text → RangeIndexCache → E.State → Resolution × RangeIndexCache × E.State
  or_walk height limit (ok hash) c s = (named hash, c, s)
  or_walk height limit (err e) c s =
      if not (is_not_found e)
      then (failed e, c, s)
      else let (r, t) = resolve_recent_hash E height limit s in (or_fail r, c, t)

  unfoldable pub resolve_hash : Pipeline → ℕ → E.State → Resolution × RangeIndexCache × E.State
  unfolding or_wait or_walk
  resolve_hash p height s =
      let r = hash_at E p.index_cache height s in
      if ltb p.headers height
      then if not p.bootstrap_from_r2
        then (waits false, p.index_cache, s)
        else (or_wait r.answer, r.cache, r.state)
      else or_walk height p.recent_walk_limit r.answer r.cache r.state

  -- `!p.stoppedScheduling && uint(len(p.ready)+len(p.pending)) < p.prefetchWindow`
  unfoldable pub has_room : Pipeline → Bool
  has_room p = not p.stopped_scheduling && ltb (length p.ready + length p.pending) p.prefetch_window

  unfoldable pub fill : Pipeline → E.State → Pipeline × E.State
  unfolding has_room plan
  fill p s =
      let (r, c, t) = resolve_hash p p.next_schedule s in
      if has_room p
      then (plan r (record p { index_cache = c }), t)
      else (record p { phase = looping }, s)
