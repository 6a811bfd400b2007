-- ===== src/Submit/Pipeline/Ordered/Steps.antt =====
-- Each move of the pipeline keeps the tally of the blocks.
use fractal_block_sync.Prelude.{
  ℕ, ◌+◌, ◌≡◌, refl, sym, ap, ◌∙◌, arith, Bool, true, false, Option, none, some, List, [], ◌∷◌, u64,
  max_u64, ltb, ◌==◌, length, get_elem?, if_both, inl,
}
use fractal_block_sync.Errors.{Err, Result, ok, err}
use fractal_block_sync.Hex
use fractal_block_sync.BtcRpc.{BlockchainInfo}
use fractal_block_sync.Submit.Services.{Services, SubmitConfig}
use fractal_block_sync.Submit.Pipeline.{
  DownloadJob, Download, Worker, idle, fetching, holding, gone, Pipeline, Phase, filling, sending,
  looping, returned, lookup,
}
use fractal_block_sync.Submit.Pipeline.Workers.{take_job, fetch, deliver, quit, is_cancelled}
use fractal_block_sync.Submit.Pipeline.Window.{
  Resolution, named, waits, failed, resolve_hash, scheduled, send_job, plan, has_room, fill,
}
use fractal_block_sync.Submit.Pipeline.Run.{
  given, reply_to, PipelineMove, proceed, cancel, receive, take, download, send, quit_worker, rest,
  is_resting, submit, loop, go_on, is_selecting, see_done, get_result, make_move, started, prepared,
  submit_pipeline, from_start, pipeline_after,
}
use fractal_block_sync.Submit.Pipeline.Invariant.{OnSome, OnSome-map, run-keeps}
use fractal_block_sync.Submit.Pipeline.Ordered.{
  is_live, lookup-height, IsTallied, all_taken, tally_phase, answered-IsTallied,
}

module _ (E : Services) (ctx_error : E.State → Option Err) (target : ℕ) where
  abbrev Kept : Option (Pipeline × E.State) → Type 0
  Kept = OnSome (λ (x : Pipeline × E.State). IsTallied target x.0)

  -- A move that leaves the counts and the phase, or has the phase after them.
  same_phase :
      (p q : Pipeline)
      → q.sent ≡ p.sent
      → q.replies ≡ p.replies
      → q.result ≡ p.result
      → q.current_height ≡ p.current_height
      → q.phase ≡ p.phase
      → IsTallied target p
      → IsTallied target q
  same_phase p q es ea er ec ep =
      tally_phase target p q es ea er ec (λ l. ap is_live (sym ep) ∙ l) (λ e. sym ep ∙ e)

  fails :
      (p q : Pipeline) (e : Err)
      → q.sent ≡ p.sent
      → q.replies ≡ p.replies
      → q.result ≡ p.result
      → q.current_height ≡ p.current_height
      → q.phase ≡ returned (some e)
      → IsTallied target p
      → IsTallied target q
  fails p q e es ea er ec ep =
      tally_phase target p q es ea er ec (λ l. absurd (not_live (ap is_live (sym ep) ∙ l)))
        (λ x. absurd (not_none (sym ep ∙ x)))
    where
      not_live : ¬ (false ≡ true)
      not_live x = cc

      not_none : ¬ (returned (some e) ≡ returned none)
      not_none x = cc

  goes_on :
      (p q : Pipeline)
      → q.sent ≡ p.sent
      → q.replies ≡ p.replies
      → q.result ≡ p.result
      → q.current_height ≡ p.current_height
      → is_live p.phase ≡ true
      → is_live q.phase ≡ true
      → IsTallied target p
      → IsTallied target q
  goes_on p q es ea er ec lp lq =
      tally_phase target p q es ea er ec (λ l. lp)
        (λ e. absurd (not_live (ap is_live (sym e) ∙ lq)))
    where
      not_live : ¬ (false ≡ true)
      not_live x = cc

  submit-IsTallied :
      (d : Download) (o : Option Err) (p : Pipeline) (s : E.State)
      → d.height ≡ p.current_height
      → is_live p.phase ≡ true
      → IsTallied target p
      → IsTallied target (submit E ctx_error d o p s).0
  unfolding submit
  submit-IsTallied d (some e) p s h l v = fails p _ e refl refl refl refl refl v
  submit-IsTallied d none p s h l (n, v) =
      let (at, bound, length_sent) = v.current l in
      answered-IsTallied target E ctx_error n d (given d (reply_to E d s) p)
        (E.submit_block (Hex.encode d.raw) s)
        (record {
          before = p.sent;
          replies_before = p.replies;
          sent_last = refl;
          replied_last = refl;
          taken_before = (length_sent, all_taken n p.sent p.replies length_sent v.answers);
          height = h ∙ at;
          in_order = (omega (arith, h, at, length_sent), v.in_order);
          counted = v.counted;
          last = v.last;
          next = v.next;
          current = at;
          bound = bound;
          more = omega (arith, length_sent);
        })

  rest-IsTallied :
      (p : Pipeline) → is_live p.phase ≡ true → IsTallied target p → IsTallied target (rest p)
  unfolding rest
  rest-IsTallied p l (n, v) =
      let (at, bound, length_sent) = v.current l in
      (
        n,
        record {
          in_order = v.in_order;
          counted = v.counted;
          last = v.last;
          next = omega (arith, at, bound);
          current = λ x. cc;
          ended = λ e. length_sent;
          at_least = v.at_least;
          at_most = v.at_most;
          in_range = v.in_range;
          answers = v.answers;
        },
      )

  loop-IsTallied :
      (o : Option Download) (p : Pipeline) (s : E.State)
      → OnSome (λ (d : Download). d.height ≡ p.current_height) o
      → is_live p.phase ≡ true
      → IsTallied target p
      → Kept (loop E ctx_error o p s)
  unfolding loop
  loop-IsTallied (some d) p s h l v =
      submit-IsTallied d d.error _ s h l (same_phase p _ refl refl refl refl refl v)
  loop-IsTallied none p s h l v = if_both Kept (is_resting p) (rest-IsTallied p l v) tt

  plan-IsTallied :
      (r : Resolution) (p : Pipeline)
      → is_live p.phase ≡ true
      → IsTallied target p
      → IsTallied target (plan r p)
  unfolding plan
  plan-IsTallied (named hash) p l v = goes_on p _ refl refl refl refl l refl v
  plan-IsTallied (waits index) p l v = goes_on p _ refl refl refl refl l refl v
  plan-IsTallied (failed e) p l v = fails p _ e refl refl refl refl refl v

  go_on-IsTallied :
      (phase : Phase) (p : Pipeline) (s : E.State)
      → p.phase ≡ phase
      → IsTallied target p
      → Kept (go_on E ctx_error phase p s)
  unfolding go_on send_job scheduled fill
  go_on-IsTallied filling p s e v =
      let (r, c, t) = resolve_hash E p p.next_schedule s in
      if_both (λ (x : Pipeline × E.State). IsTallied target x.0) (has_room E p)
        (plan-IsTallied r (record p { index_cache = c }) (ap is_live e)
          (same_phase p _ refl refl refl refl refl v))
        (goes_on p _ refl refl refl refl (ap is_live e) refl v)
  go_on-IsTallied (sending job) p s e v =
      if_both Kept (ltb (length p.jobs) p.prefetch_window)
        (if_both (IsTallied target) (p.next_schedule == max_u64)
          (goes_on p _ refl refl refl refl (ap is_live e) refl v)
          (goes_on p _ refl refl refl refl (ap is_live e) refl v))
        tt
  go_on-IsTallied looping p s e v =
      loop-IsTallied (lookup p.current_height p.ready) p s (lookup-height p.current_height p.ready)
        (ap is_live e) v
  go_on-IsTallied (returned x) p s e v = tt

  see_done-IsTallied :
      (phase : Phase) (o : Option Err) (p : Pipeline) (s : E.State)
      → IsTallied target p
      → Kept (see_done E ctx_error phase o p s)
  unfolding see_done
  see_done-IsTallied filling o p s v = tt
  see_done-IsTallied (returned x) o p s v = tt
  see_done-IsTallied (sending job) none p s v = tt
  see_done-IsTallied looping none p s v = tt
  see_done-IsTallied (sending job) (some e) p s v = fails p _ e refl refl refl refl refl v
  see_done-IsTallied looping (some e) p s v =
      if_both Kept (is_selecting E ctx_error (lookup p.current_height p.ready) p)
        (fails p _ e refl refl refl refl refl v) tt

  get_result-IsTallied :
      (phase : Phase) (ds : List Download) (p : Pipeline) (s : E.State)
      → IsTallied target p
      → Kept (get_result E ctx_error phase ds p s)
  unfolding get_result
  get_result-IsTallied filling ds p s v = tt
  get_result-IsTallied (sending job) ds p s v = tt
  get_result-IsTallied (returned x) ds p s v = tt
  get_result-IsTallied looping [] p s v = tt
  get_result-IsTallied looping (d ∷ ds) p s v =
      if_both Kept (is_selecting E ctx_error (lookup p.current_height p.ready) p)
        (same_phase p _ refl refl refl refl refl v) tt

  take_job-IsTallied :
      (i : ℕ) (o : Option Worker) (jobs : List DownloadJob) (p : Pipeline) (s : E.State)
      → IsTallied target p
      → Kept (take_job E i o jobs p s)
  unfolding take_job
  take_job-IsTallied i none jobs p s v = tt
  take_job-IsTallied i (some (fetching job)) jobs p s v = tt
  take_job-IsTallied i (some (holding d)) jobs p s v = tt
  take_job-IsTallied i (some gone) jobs p s v = tt
  take_job-IsTallied i (some idle) [] p s v = tt
  take_job-IsTallied i (some idle) (job ∷ jobs) p s v = same_phase p _ refl refl refl refl refl v

  fetch-IsTallied :
      (i : ℕ) (o : Option Worker) (p : Pipeline) (s : E.State)
      → IsTallied target p
      → Kept (fetch E i o p s)
  unfolding fetch
  fetch-IsTallied i none p s v = tt
  fetch-IsTallied i (some idle) p s v = tt
  fetch-IsTallied i (some (holding d)) p s v = tt
  fetch-IsTallied i (some gone) p s v = tt
  fetch-IsTallied i (some (fetching job)) p s v = same_phase p _ refl refl refl refl refl v

  deliver-IsTallied :
      (i : ℕ) (o : Option Worker) (p : Pipeline) (s : E.State)
      → IsTallied target p
      → Kept (deliver E i o p s)
  unfolding deliver
  deliver-IsTallied i none p s v = tt
  deliver-IsTallied i (some idle) p s v = tt
  deliver-IsTallied i (some (fetching job)) p s v = tt
  deliver-IsTallied i (some gone) p s v = tt
  deliver-IsTallied i (some (holding d)) p s v =
      if_both Kept (ltb (length p.results) p.prefetch_window)
        (same_phase p _ refl refl refl refl refl v) tt

  quit-IsTallied :
      (i : ℕ) (b : Bool) (o : Option Worker) (p : Pipeline) (s : E.State)
      → IsTallied target p
      → Kept (quit E i b o p s)
  unfolding quit
  quit-IsTallied i false o p s v = tt
  quit-IsTallied i true none p s v = tt
  quit-IsTallied i true (some (fetching job)) p s v = tt
  quit-IsTallied i true (some gone) p s v = tt
  quit-IsTallied i true (some idle) p s v = same_phase p _ refl refl refl refl refl v
  quit-IsTallied i true (some (holding d)) p s v = same_phase p _ refl refl refl refl refl v

  perform-IsTallied :
      (m : PipelineMove) (p : Pipeline) (s : E.State)
      → IsTallied target p
      → Kept (make_move E ctx_error m p s)
  unfolding make_move
  perform-IsTallied proceed p s v = go_on-IsTallied p.phase p s refl v
  perform-IsTallied cancel p s v = see_done-IsTallied p.phase (ctx_error s) p s v
  perform-IsTallied receive p s v = get_result-IsTallied p.phase p.results p s v
  perform-IsTallied (take i) p s v = take_job-IsTallied i (get_elem? p.workers i) p.jobs p s v
  perform-IsTallied (download i) p s v = fetch-IsTallied i (get_elem? p.workers i) p s v
  perform-IsTallied (send i) p s v = deliver-IsTallied i (get_elem? p.workers i) p s v
  perform-IsTallied (quit_worker i) p s v =
      quit-IsTallied i (is_cancelled (ctx_error s) p.phase) (get_elem? p.workers i) p s v

module _ (E : Services) (ctx_error : E.State → Option Err) (cfg : SubmitConfig) where
  started-IsTallied :
      (info : BlockchainInfo) → IsTallied (u64 (info.blocks + 1)) (started E ctx_error cfg info)
  started-IsTallied info = (
    0,
    record {
      in_order = tt;
      counted = refl;
      last = omega arith;
      next = omega arith;
      current = λ l. (omega arith, omega arith, refl);
      ended = λ e. refl;
      at_least = omega arith;
      at_most = omega arith;
      in_range = omega arith;
      answers = inl (refl, tt);
    },
  )

  -- The first height that the pipeline submits, as the node's height was when it began.
  abbrev pub Tallied : E.State → Pipeline × E.State → Type 0
  Tallied s (p, t) =
      (info : BlockchainInfo) × ((E.get_blockchain_info s).0 ≡ ok info)
      × IsTallied (u64 (info.blocks + 1)) p

  perform-Tallied :
      (s : E.State) (m : PipelineMove) (p : Pipeline) (t : E.State)
      → Tallied s (p, t)
      → OnSome (Tallied s) (make_move E ctx_error m p t)
  perform-Tallied s m p t (info, e, v) =
      OnSome-map _ (Tallied s) (make_move E ctx_error m p t) (λ x w. (info, e, w))
        (perform-IsTallied E ctx_error (u64 (info.blocks + 1)) m p t v)

  -- Whatever the services answer and whatever the schedule of the goroutines: the blocks that
  -- SubmitPipeline has given to the node are those of consecutive heights, from the one above
  -- the height of the node on, in this order, each once. Its result counts the blocks that the
  -- node took, modulo 2^64, and has the height of the last of them and the one above it. A block
  -- is taken when the reply to it is empty or says that the block is known, or when the call
  -- failed and the height that the node then reports is not below that of the block. All blocks
  -- given were taken but at most the last, and that only where run returned an error.
  pub pipeline-Tallied :
      (ms : List PipelineMove) (s : E.State)
      → OnSome (Tallied s) (pipeline_after E ctx_error cfg ms s)
  unfolding pipeline_after submit_pipeline prepared
  pipeline-Tallied ms s = from_info (E.get_blockchain_info s) refl
    where
      from_info :
          (a : Result BlockchainInfo × E.State)
          → E.get_blockchain_info s ≡ a
          → OnSome (Tallied s) (from_start E ctx_error ms (prepared E ctx_error cfg a))
      from_info (err e, t) h = tt
      from_info (ok info, t) h =
          run-keeps E ctx_error (Tallied s) (perform-Tallied s) ms (started E ctx_error cfg info) t
            (info, ap (λ (x : Result BlockchainInfo × E.State). x.0) h, started-IsTallied info)
