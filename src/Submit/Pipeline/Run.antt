-- ===== src/Submit/Pipeline/Run.antt =====
-- `run` and `SubmitPipeline`: what each goroutine can do next, under any schedule.
use fractal_block_sync.Prelude.{
  ℕ, zero, suc, ◌+◌, Bool, false, not, ◌&&◌, Option, none, some, List, [], ◌∷◌, Text, codes, u64,
  max_u64, leb, ◌==◌, if◌then◌else◌, get_elem?,
}
use fractal_block_sync.Errors.{Err, Result, ok, err, at_block, rejected_at, wrapped}
use fractal_block_sync.Hex
use fractal_block_sync.BtcRpc.{BlockchainInfo}
use fractal_block_sync.Submit.Services.{Services, SubmitConfig}
use fractal_block_sync.Submit.Cache.{new_cache}
use fractal_block_sync.Submit.Next.{is_accepted, range_size_or_default}
use fractal_block_sync.Submit.Pipeline.{
  Download, Worker, idle, Pipeline, SubmitReply, Phase, filling, sending, looping, returned, lookup,
  without, put, is_pending, forget,
}
use fractal_block_sync.Submit.Pipeline.Workers.{take_job, fetch, deliver, quit, is_cancelled}
use fractal_block_sync.Submit.Pipeline.Window.{fill, send_job}

abbrev pub default_submit_download_workers : ℕ
default_submit_download_workers = 4

abbrev pub default_submit_prefetch_window : ℕ
default_submit_prefetch_window = 16

unfoldable pub count_or_default : ℕ → ℕ → ℕ
count_or_default default n = if n == 0 then default else n

unfoldable pub crew : ℕ → List Worker
crew zero = []
crew (suc n) = idle ∷ crew n

abbrev pub return_error : Err → Pipeline → Pipeline
return_error e p = record p { phase = returned (some e) }

-- The block of the current height is the node's.
unfoldable pub advance : Download → Pipeline → Pipeline
advance d p =
    let r = record p.result {
      submitted_blocks = u64 (p.result.submitted_blocks + 1);
      last_height = d.height;
      target_height = u64 (d.height + 1);
    } in
    if p.current_height == max_u64
    then record p { result = r; phase = returned none }
    else record p { result = r; current_height = u64 (p.current_height + 1); phase = filling }

-- `info.Blocks >= height`
unfoldable pub height_reached : ℕ → Result BlockchainInfo → Bool
height_reached height (err e) = false
height_reached height (ok info) = leb height info.blocks

-- `run` ends without an error, as no block of the current height is to come.
unfoldable pub rest : Pipeline → Pipeline
rest p = record p {
  result = record p.result {
    target_height = p.current_height;
    wait_headers = p.wait_headers;
    wait_r2_index = p.wait_r2_index;
  };
  phase = returned none;
}

-- The second test in the loop of `run`.
unfoldable pub is_resting : Pipeline → Bool
is_resting p = not (is_pending p.current_height p.pending) && p.stopped_scheduling

-- What can happen: `run` goes on; `run` sees its context done at a select; `run` receives a result;
-- or the worker of an index takes a job, downloads, sends its result, or sees its context done.
pub data PipelineMove : Type 0 where
  proceed : PipelineMove
  cancel : PipelineMove
  receive : PipelineMove
  take : ℕ → PipelineMove
  download : ℕ → PipelineMove
  send : ℕ → PipelineMove
  quit_worker : ℕ → PipelineMove

-- A result came.
abbrev pub take_result : Download → List Download → Pipeline → Pipeline
take_result d ds p = record p {
  results = ds;
  pending = forget d.height p.pending;
  ready = put d p.ready;
}

abbrev pub after :
    {S : Type 0}
    → Option (Pipeline × S)
    → (Pipeline → S → Option (Pipeline × S))
    → Option (Pipeline × S)
after none f = none
after (some (p, s)) f = f p s

-- The call of SubmitBlock in the two histories.
abbrev pub given : Download → SubmitReply → Pipeline → Pipeline
given d reply p = record p { sent = d ∷ p.sent; replies = reply ∷ p.replies }

abbrev pub reply_to : (E : Services) → Download → E.State → SubmitReply
reply_to E d s =
    let (reply, t) = E.submit_block (Hex.encode d.raw) s in (reply, (E.get_blockchain_info t).0)

module _ (E : Services) (ctx_error : E.State → Option Err) where
  unfoldable pub submitted_height_accepted : ℕ → E.State → Bool × E.State
  unfolding height_reached
  submitted_height_accepted height s =
      let (r, t) = E.get_blockchain_info s in (height_reached height r, t)

  -- After the node's answer to a block.
  unfoldable pub answered : Download → Pipeline → Result Text × E.State → Pipeline × E.State
  unfolding submitted_height_accepted advance
  answered d p (err e, s) =
      let (accepted, t) = submitted_height_accepted d.height s in
      if not accepted
      then (return_error (at_block (codes "submit block") d.hash d.height e) p, t)
      else (advance d p, t)
  answered d p (ok reply, s) =
      if not (is_accepted reply)
      then (return_error (rejected_at d.hash d.height reply) p, s)
      else (advance d p, s)

  -- The result for the current height was deleted from `ready`.
  unfoldable pub submit : Download → Option Err → Pipeline → E.State → Pipeline × E.State
  unfolding answered
  submit d (some e) p s = (return_error e p, s)
  submit d none p s = answered d (given d (reply_to E d s) p) (E.submit_block (Hex.encode d.raw) s)

  -- The loop of `run` up to its select.
  unfoldable pub loop : Option Download → Pipeline → E.State → Option (Pipeline × E.State)
  unfolding submit is_resting rest
  loop (some d) p s =
      some (submit d d.error (record p { ready = without p.current_height p.ready }) s)
  loop none p s = if is_resting p then some (rest p, s) else none

  unfoldable pub go_on : Phase → Pipeline → E.State → Option (Pipeline × E.State)
  unfolding loop
  go_on filling p s = some (fill E p s)
  go_on (sending job) p s = send_job job p s
  go_on looping p s = loop (lookup p.current_height p.ready) p s
  go_on (returned e) p s = none

  -- `run` waits for its context or a result.
  unfoldable pub is_selecting : Option Download → Pipeline → Bool
  unfolding is_resting
  is_selecting none p = not (is_resting p)
  is_selecting (some d) p = false

  unfoldable pub see_done : Phase → Option Err → Pipeline → E.State → Option (Pipeline × E.State)
  unfolding is_selecting
  see_done (sending job) (some e) p s = some (return_error e p, s)
  see_done looping (some e) p s =
      if is_selecting (lookup p.current_height p.ready) p then some (return_error e p, s) else none
  see_done phase e p s = none

  unfoldable pub get_result :
      Phase → List Download → Pipeline → E.State → Option (Pipeline × E.State)
  unfolding is_selecting
  get_result looping (d ∷ ds) p s =
      if is_selecting (lookup p.current_height p.ready) p
      then some (take_result d ds p, s)
      else none
  get_result phase ds p s = none

  unfoldable pub make_move : PipelineMove → Pipeline → E.State → Option (Pipeline × E.State)
  unfolding go_on see_done get_result take_job fetch deliver quit
  make_move proceed p s = go_on p.phase p s
  make_move cancel p s = see_done p.phase (ctx_error s) p s
  make_move receive p s = get_result p.phase p.results p s
  make_move (take i) p s = take_job E i (get_elem? p.workers i) p.jobs p s
  make_move (download i) p s = fetch E i (get_elem? p.workers i) p s
  make_move (send i) p s = deliver E i (get_elem? p.workers i) p s
  make_move (quit_worker i) p s =
      quit E i (is_cancelled (ctx_error s) p.phase) (get_elem? p.workers i) p s

  -- The moves of a schedule, one after the other; `none` when one of them cannot be made.
  unfoldable pub run_moves : List PipelineMove → Pipeline → E.State → Option (Pipeline × E.State)
  unfolding make_move
  run_moves [] p s = some (p, s)
  run_moves (m ∷ ms) p s = after (make_move m p s) (run_moves ms)

  abbrev pub started : SubmitConfig → BlockchainInfo → Pipeline
  started cfg info =
      let target = u64 (info.blocks + 1) in
      record {
        bootstrap_from_r2 = cfg.bootstrap_from_r2;
        recent_walk_limit = cfg.recent_walk_limit;
        headers = info.headers;
        current_height = target;
        next_schedule = target;
        prefetch_window = count_or_default default_submit_prefetch_window cfg.prefetch_window;
        index_cache = new_cache (range_size_or_default cfg.range_size);
        jobs = [];
        results = [];
        ready = [];
        pending = [];
        stopped_scheduling = false;
        wait_headers = false;
        wait_r2_index = false;
        workers = crew (count_or_default default_submit_download_workers cfg.download_workers);
        result = record {
          submitted_blocks = 0;
          last_height = u64 (target + max_u64);
          target_height = target;
          wait_headers = false;
          wait_r2_index = false;
        };
        phase = filling;
        sent = [];
        replies = [];
      }

  -- The state that `SubmitPipeline` calls `run` in, or its error.
  unfoldable pub prepared :
      SubmitConfig → Result BlockchainInfo × E.State → Result Pipeline × E.State
  unfolding count_or_default crew range_size_or_default new_cache
  prepared cfg (err e, s) = (err (wrapped (codes "get blockchain info") e), s)
  prepared cfg (ok info, s) = (ok (started cfg info), s)

  unfoldable pub submit_pipeline : SubmitConfig → E.State → Result Pipeline × E.State
  unfolding prepared
  submit_pipeline cfg s = prepared cfg (E.get_blockchain_info s)

  abbrev pub from_start :
      List PipelineMove → Result Pipeline × E.State → Option (Pipeline × E.State)
  from_start ms (err e, s) = none
  from_start ms (ok p, s) = run_moves ms p s

  -- `SubmitPipeline` under a schedule.
  unfoldable pub pipeline_after :
      SubmitConfig → List PipelineMove → E.State → Option (Pipeline × E.State)
  unfolding run_moves submit_pipeline
  pipeline_after cfg ms s = from_start ms (submit_pipeline cfg s)
