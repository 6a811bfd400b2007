-- ===== src/Submit/Pipeline/Kept.antt =====
-- What every call of a service keeps, each move of the pipeline keeps.
use fractal_block_sync.Prelude.{
  ℕ, Bool, true, false, not, Option, none, some, List, [], ◌∷◌, Bytes, Text, ltb, length, text_eq,
  get_elem?, if_both,
}
use fractal_block_sync.Errors.{Err, Result, ok, err, is_not_found}
use fractal_block_sync.Hex
use fractal_block_sync.RangeIndex
use fractal_block_sync.Submit.Services.{Services}
use fractal_block_sync.Submit.Cache.{RangeIndexCache, Reply, is_missing, loaded, with_key, hash_at}
use fractal_block_sync.Submit.Next.{is_accepted}
use fractal_block_sync.Submit.Next.Verified.{ReadsKeep, resolve_recent_hash_keeps}
use fractal_block_sync.Submit.Pipeline.{
  DownloadJob, Download, Worker, idle, fetching, holding, gone, Pipeline, Phase, filling, sending,
  looping, returned, lookup, without,
}
use fractal_block_sync.Submit.Pipeline.Workers.{
  download_and_verify, downloaded, take_job, fetch, deliver, quit, is_cancelled,
}
use fractal_block_sync.Submit.Pipeline.Window.{or_walk, resolve_hash, has_room, send_job, fill}
use fractal_block_sync.Submit.Pipeline.Run.{
  given, reply_to, PipelineMove, proceed, cancel, receive, take, download, send, quit_worker,
  is_resting, submitted_height_accepted, answered, submit, loop, go_on, is_selecting, see_done,
  get_result, make_move,
}
use fractal_block_sync.Submit.Pipeline.Invariant.{OnSome}

module _ (E : Services) (ctx_error : E.State → Option Err) (P : E.State → Type 0)
    (keep : ReadsKeep E P)
    (submitted : (raw : Text) (s : E.State) → P s → P (E.submit_block raw s).1) where
  abbrev After : Option (Pipeline × E.State) → Type 0
  After = OnSome (λ (x : Pipeline × E.State). P x.1)

  loaded-keeps :
      (c : RangeIndexCache) (key : Text) (start height : ℕ) (a : Result Bytes × E.State)
      → P a.1
      → P (loaded E c key start height a).state
  unfolding loaded
  loaded-keeps c key start height (err e, s) p =
      if_both (λ (r : Reply E.State). P r.state) (is_not_found e) p p
  loaded-keeps c key start height (ok bin, s) p = p

  with_key-keeps :
      (c : RangeIndexCache) (height : ℕ) (a : Result (Text × ℕ)) (s : E.State)
      → P s
      → P (with_key E c height a s).state
  unfolding with_key
  with_key-keeps c height (err e) s p = p
  with_key-keeps c height (ok (key, start)) s p =
      if_both (λ (r : Reply E.State). P r.state) (is_missing key c.missing) p
        (if_both (λ (r : Reply E.State). P r.state) (not (text_eq c.key key))
          (loaded-keeps c key start height (E.download_object key s) (keep.object key s p)) p)

  hash_at-keeps :
      (c : RangeIndexCache) (height : ℕ) (s : E.State) → P s → P (hash_at E c height s).state
  unfolding hash_at
  hash_at-keeps c height s p =
      with_key-keeps c height (RangeIndex.object_key_for_height height c.range_size) s p

  or_walk-keeps :
      (height limit : ℕ) (a : Result Text) (c : RangeIndexCache) (s : E.State)
      → P s
      → P (or_walk E height limit a c s).2
  unfolding or_walk
  or_walk-keeps height limit (ok hash) c s p = p
  or_walk-keeps height limit (err e) c s p =
      if_both (λ (x : _ × _ × E.State). P x.2) (not (is_not_found e)) p
        (resolve_recent_hash_keeps E P keep height limit s p)

  resolve_hash-keeps :
      (q : Pipeline) (height : ℕ) (s : E.State) → P s → P (resolve_hash E q height s).2
  unfolding resolve_hash
  resolve_hash-keeps q height s p =
      let r = hash_at E q.index_cache height s in
      let kept : P r.state = hash_at-keeps q.index_cache height s p in
      if_both (λ (x : _ × _ × E.State). P x.2) (ltb q.headers height)
        (if_both (λ (x : _ × _ × E.State). P x.2) (not q.bootstrap_from_r2) p kept)
        (or_walk-keeps height q.recent_walk_limit r.answer r.cache r.state kept)

  fill-keeps : (q : Pipeline) (s : E.State) → P s → P (fill E q s).1
  unfolding fill
  fill-keeps q s p =
      if_both (λ (x : Pipeline × E.State). P x.1) (has_room E q)
        (resolve_hash-keeps q q.next_schedule s p) p

  answered-keeps :
      (d : Download) (q : Pipeline) (a : Result Text × E.State)
      → P a.1
      → P (answered E ctx_error d q a).1
  unfolding answered submitted_height_accepted
  answered-keeps d q (err e, s) p =
      if_both (λ (x : Pipeline × E.State). P x.1)
        (not (submitted_height_accepted E ctx_error d.height s).0) (keep.info s p) (keep.info s p)
  answered-keeps d q (ok reply, s) p =
      if_both (λ (x : Pipeline × E.State). P x.1) (not (is_accepted reply)) p p

  submit-keeps :
      (d : Download) (o : Option Err) (q : Pipeline) (s : E.State)
      → P s
      → P (submit E ctx_error d o q s).1
  unfolding submit
  submit-keeps d (some e) q s p = p
  submit-keeps d none q s p =
      answered-keeps d (given d (reply_to E d s) q) (E.submit_block (Hex.encode d.raw) s)
        (submitted (Hex.encode d.raw) s p)

  loop-keeps :
      (o : Option Download) (q : Pipeline) (s : E.State) → P s → After (loop E ctx_error o q s)
  unfolding loop
  loop-keeps (some d) q s p =
      submit-keeps d d.error (record q { ready = without q.current_height q.ready }) s p
  loop-keeps none q s p = if_both After (is_resting q) p tt

  go_on-keeps :
      (phase : Phase) (q : Pipeline) (s : E.State) → P s → After (go_on E ctx_error phase q s)
  unfolding go_on send_job
  go_on-keeps filling q s p = fill-keeps q s p
  go_on-keeps (sending job) q s p = if_both After (ltb (length q.jobs) q.prefetch_window) p tt
  go_on-keeps looping q s p = loop-keeps (lookup q.current_height q.ready) q s p
  go_on-keeps (returned x) q s p = tt

  see_done-keeps :
      (phase : Phase) (o : Option Err) (q : Pipeline) (s : E.State)
      → P s
      → After (see_done E ctx_error phase o q s)
  unfolding see_done
  see_done-keeps filling o q s p = tt
  see_done-keeps (returned x) o q s p = tt
  see_done-keeps (sending job) none q s p = tt
  see_done-keeps looping none q s p = tt
  see_done-keeps (sending job) (some e) q s p = p
  see_done-keeps looping (some e) q s p =
      if_both After (is_selecting E ctx_error (lookup q.current_height q.ready) q) p tt

  get_result-keeps :
      (phase : Phase) (ds : List Download) (q : Pipeline) (s : E.State)
      → P s
      → After (get_result E ctx_error phase ds q s)
  unfolding get_result
  get_result-keeps filling ds q s p = tt
  get_result-keeps (returned x) ds q s p = tt
  get_result-keeps (sending job) ds q s p = tt
  get_result-keeps looping [] q s p = tt
  get_result-keeps looping (d ∷ ds) q s p =
      if_both After (is_selecting E ctx_error (lookup q.current_height q.ready) q) p tt

  take_job-keeps :
      (i : ℕ) (o : Option Worker) (jobs : List DownloadJob) (q : Pipeline) (s : E.State)
      → P s
      → After (take_job E i o jobs q s)
  unfolding take_job
  take_job-keeps i none jobs q s p = tt
  take_job-keeps i (some (fetching job)) jobs q s p = tt
  take_job-keeps i (some (holding d)) jobs q s p = tt
  take_job-keeps i (some gone) jobs q s p = tt
  take_job-keeps i (some idle) [] q s p = tt
  take_job-keeps i (some idle) (job ∷ jobs) q s p = p

  downloaded-keeps :
      (job : DownloadJob) (a : Result Bytes × E.State) → P a.1 → P (downloaded job a).1
  unfolding downloaded
  downloaded-keeps job (err e, s) p = p
  downloaded-keeps job (ok raw, s) p = p

  fetch-keeps :
      (i : ℕ) (o : Option Worker) (q : Pipeline) (s : E.State) → P s → After (fetch E i o q s)
  unfolding fetch download_and_verify
  fetch-keeps i none q s p = tt
  fetch-keeps i (some idle) q s p = tt
  fetch-keeps i (some (holding d)) q s p = tt
  fetch-keeps i (some gone) q s p = tt
  fetch-keeps i (some (fetching job)) q s p =
      downloaded-keeps job (E.download_block job.hash s) (keep.block job.hash s p)

  deliver-keeps :
      (i : ℕ) (o : Option Worker) (q : Pipeline) (s : E.State) → P s → After (deliver E i o q s)
  unfolding deliver
  deliver-keeps i none q s p = tt
  deliver-keeps i (some idle) q s p = tt
  deliver-keeps i (some (fetching job)) q s p = tt
  deliver-keeps i (some gone) q s p = tt
  deliver-keeps i (some (holding d)) q s p =
      if_both After (ltb (length q.results) q.prefetch_window) p tt

  quit-keeps :
      (i : ℕ) (b : Bool) (o : Option Worker) (q : Pipeline) (s : E.State)
      → P s
      → After (quit E i b o q s)
  unfolding quit
  quit-keeps i false o q s p = tt
  quit-keeps i true none q s p = tt
  quit-keeps i true (some (fetching job)) q s p = tt
  quit-keeps i true (some gone) q s p = tt
  quit-keeps i true (some idle) q s p = p
  quit-keeps i true (some (holding d)) q s p = p

  pub perform-keeps :
      (m : PipelineMove) (q : Pipeline) (s : E.State) → P s → After (make_move E ctx_error m q s)
  unfolding make_move
  perform-keeps proceed q s p = go_on-keeps q.phase q s p
  perform-keeps cancel q s p = see_done-keeps q.phase (ctx_error s) q s p
  perform-keeps receive q s p = get_result-keeps q.phase q.results q s p
  perform-keeps (take i) q s p = take_job-keeps i (get_elem? q.workers i) q.jobs q s p
  perform-keeps (download i) q s p = fetch-keeps i (get_elem? q.workers i) q s p
  perform-keeps (send i) q s p = deliver-keeps i (get_elem? q.workers i) q s p
  perform-keeps (quit_worker i) q s p =
      quit-keeps i (is_cancelled (ctx_error s) q.phase) (get_elem? q.workers i) q s p
