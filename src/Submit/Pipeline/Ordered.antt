-- ===== src/Submit/Pipeline/Ordered.antt =====
-- The blocks are given to the node in the order of their heights, each once, with no height left out.
pub mod Steps
use fractal_block_sync.Prelude.{
  ℕ, zero, suc, ◌+◌, ◌-◌, ◌≤◌, ◌<◌, ◌≡◌, refl, sym, ap, subst, ◌∙◌, arith, Bool, true, false, not,
  Option, none, some, List, [], ◌∷◌, Text, u64, max_u64, ltb, ◌==◌, length, get_elem?, ◌⊎◌, inl,
  inr, Bool-cases, if_both,
}
use fractal_block_sync.Errors.{Err, Result, ok, err}
use fractal_block_sync.Hex
use fractal_block_sync.BtcRpc.{BlockchainInfo}
use fractal_block_sync.Submit.Services.{Services, SubmitConfig}
use fractal_block_sync.Submit.Next.{is_accepted}
use fractal_block_sync.Submit.Pipeline.{
  DownloadJob, Download, PipelineResult, Worker, idle, fetching, holding, gone, Pipeline, Phase,
  filling, sending, looping, returned, lookup, SubmitReply,
}
use fractal_block_sync.Submit.Pipeline.Workers.{take_job, fetch, deliver, quit, is_cancelled}
use fractal_block_sync.Submit.Pipeline.Window.{
  Resolution, named, waits, failed, resolve_hash, scheduled, send_job, plan, has_room, fill,
}
use fractal_block_sync.Submit.Pipeline.Run.{
  PipelineMove, proceed, cancel, receive, take, download, send, quit_worker, advance, rest,
  is_resting, height_reached, submitted_height_accepted, answered, submit, loop, go_on,
  is_selecting, see_done, get_result, take_result, make_move, run_moves, started, prepared,
  submit_pipeline, from_start, pipeline_after, return_error,
}
use fractal_block_sync.Submit.Pipeline.Invariant.{OnSome, run-keeps}

abbrev pub is_live : Phase → Bool
is_live (returned e) = false
is_live phase = true

-- From the last result back to the one of the first height, one height at a time.
abbrev pub IsRun : ℕ → List Download → Type 0
IsRun target [] = Unit
IsRun target (d ∷ ds) = (d.height ≡ target + length ds) × IsRun target ds

pub lookup-height :
    (height : ℕ) (ds : List Download)
    → OnSome (λ (d : Download). d.height ≡ height) (lookup height ds)
unfolding lookup
lookup-height height [] = tt
lookup-height height (d ∷ ds) = elim (Bool-cases (d.height == height)) [
  | inl y ↦ rw y (ground arith)
  | inr n ↦ rw n (lookup-height height ds)
]

-- The node takes the block of a result: its reply is empty or says that the block is known, or the
-- call failed and the node's height is then not below the block's.
abbrev pub IsTaken : Download → SubmitReply → Type 0
IsTaken d (ok reply, info) = is_accepted reply ≡ true
IsTaken d (err e, ok info) = d.height ≤ info.blocks
IsTaken d (err e, err x) = ⊥

abbrev pub AllTaken : List Download → List SubmitReply → Type 0
AllTaken [] [] = Unit
AllTaken [] (r ∷ rs) = ⊥
AllTaken (d ∷ ds) [] = ⊥
AllTaken (d ∷ ds) (r ∷ rs) = IsTaken d r × AllTaken ds rs

-- The last block was not taken.
pub record LastRefused (n : ℕ) (sent : List Download) (replies : List SubmitReply) : Type 0 where
  pub last : Download
  pub reply : SubmitReply
  pub before : List Download
  pub replies_before : List SubmitReply
  pub sent_last : sent ≡ last ∷ before
  pub replied_last : replies ≡ reply ∷ replies_before
  pub taken_before : (length before ≡ n) × AllTaken before replies_before
  pub refused : ¬ IsTaken last reply

-- Of the blocks given to the node, n were taken: all, or all but the last.
abbrev pub IsAnswered : ℕ → List Download → List SubmitReply → Type 0
IsAnswered n sent replies = ((length sent ≡ n) × AllTaken sent replies) ⊎ LastRefused n sent replies

pub all_taken :
    (n : ℕ) (sent : List Download) (replies : List SubmitReply)
    → length sent ≡ n
    → IsAnswered n sent replies
    → AllTaken sent replies
all_taken n sent replies e (inl (_, all)) = all
all_taken n sent replies e (inr v) =
    absurd (omega (arith, e, ap length v.sent_last, v.taken_before.0))

reached_taken :
    (d : Download) (e : Err) (info : Result BlockchainInfo)
    → height_reached d.height info ≡ true
    → IsTaken d (err e, info)
unfolding height_reached
reached_taken d e (ok info) y = ground (arith, y)
reached_taken d e (err x) y = cc

unreached_refused :
    (d : Download) (e : Err) (info : Result BlockchainInfo)
    → height_reached d.height info ≡ false
    → ¬ IsTaken d (err e, info)
unfolding height_reached
unreached_refused d e (ok info) y taken = ground (arith, y, taken)
unreached_refused d e (err x) y taken = taken

-- n blocks were accepted from the target height on.
pub record Tally (target n : ℕ) (p : Pipeline) : Type 0 where
  pub in_order : IsRun target p.sent
  pub counted : p.result.submitted_blocks ≡ u64 n
  pub last : p.result.last_height ≡ u64 (target + n + max_u64)
  pub next : p.result.target_height ≡ u64 (target + n)
  pub current :
      is_live p.phase ≡ true
      → (p.current_height ≡ target + n) × (p.current_height ≤ max_u64) × (length p.sent ≡ n)
  pub ended : p.phase ≡ returned none → length p.sent ≡ n
  pub at_least : n ≤ length p.sent
  pub at_most : length p.sent ≤ n + 1
  pub in_range : target + n ≤ max_u64 + 1
  pub answers : IsAnswered n p.sent p.replies

abbrev pub IsTallied : ℕ → Pipeline → Type 0
IsTallied target p = (n : ℕ) × Tally target n p

module _ (target : ℕ) where
  -- The phase of a pipeline whose counts stay.
  pub tally_phase :
      (p q : Pipeline)
      → q.sent ≡ p.sent
      → q.replies ≡ p.replies
      → q.result ≡ p.result
      → q.current_height ≡ p.current_height
      → (is_live q.phase ≡ true → is_live p.phase ≡ true)
      → (q.phase ≡ returned none → p.phase ≡ returned none)
      → IsTallied target p
      → IsTallied target q
  tally_phase p q es ea er ec live ended (n, v) = (
    n,
    record {
      in_order = rw es v.in_order;
      counted = rw er v.counted;
      last = rw er v.last;
      next = rw er v.next;
      current = λ l. let (a, b, c) = v.current (live l) in (ec ∙ a, rw ec b, rw es c);
      ended = λ e. rw es (v.ended (ended e));
      at_least = rw es v.at_least;
      at_most = rw es v.at_most;
      in_range = v.in_range;
      answers = rw (es, ea) v.answers;
    },
  )

  -- A block was given to the node.
  pub record Given (n : ℕ) (d : Download) (reply : SubmitReply) (p : Pipeline) : Type 0 where
    pub before : List Download
    pub replies_before : List SubmitReply
    pub sent_last : p.sent ≡ d ∷ before
    pub replied_last : p.replies ≡ reply ∷ replies_before
    pub taken_before : (length before ≡ n) × AllTaken before replies_before
    pub height : d.height ≡ target + n
    pub in_order : IsRun target p.sent
    pub counted : p.result.submitted_blocks ≡ u64 n
    pub last : p.result.last_height ≡ u64 (target + n + max_u64)
    pub next : p.result.target_height ≡ u64 (target + n)
    pub current : p.current_height ≡ target + n
    pub bound : p.current_height ≤ max_u64
    pub more : length p.sent ≡ suc n

  Given-fails :
      (n : ℕ) (d : Download) (reply : SubmitReply) (p : Pipeline) (e : Err)
      → ¬ IsTaken d reply
      → Given n d reply p
      → IsTallied target (return_error e p)
  Given-fails n d reply p e unagreed v = (
    n,
    record {
      in_order = v.in_order;
      counted = v.counted;
      last = v.last;
      next = v.next;
      current = λ l. cc;
      ended = λ l. cc;
      at_least = omega (arith, v.more);
      at_most = omega (arith, v.more);
      in_range = omega (arith, v.current, v.bound);
      answers = inr record {
        last = d;
        reply = reply;
        before = v.before;
        replies_before = v.replies_before;
        sent_last = v.sent_last;
        replied_last = v.replied_last;
        taken_before = v.taken_before;
        refused = unagreed;
      };
    },
  )

  Given-taken :
      (n : ℕ) (d : Download) (reply : SubmitReply) (p : Pipeline)
      → IsTaken d reply
      → Given n d reply p
      → IsAnswered (suc n) p.sent p.replies
  Given-taken n d reply p agreed v =
      rw (v.sent_last, v.replied_last)
        (inl (omega (arith, v.taken_before.0), (agreed, v.taken_before.1)))

  counted_next : (a n : ℕ) → a ≡ u64 n → u64 (a + 1) ≡ u64 (suc n)
  counted_next a n e = omega arith

  last_next : (h n : ℕ) → h ≡ target + n → target + n ≤ max_u64 → h ≡ u64 (target + suc n + max_u64)
  last_next h n e b = omega arith

  next_next : (h n : ℕ) → h ≡ target + n → u64 (h + 1) ≡ u64 (target + suc n)
  next_next h n e = omega arith

  -- The tally after a block was accepted, in the phase and with the height that follow.
  accepted_tally :
      (n : ℕ) (d : Download) (reply : SubmitReply) (p : Pipeline) (h : ℕ) (phase : Phase)
      → (is_live phase ≡ true → (h ≡ target + suc n) × (h ≤ max_u64))
      → IsTaken d reply
      → Given n d reply p
      → IsTallied target (record p {
        result = record p.result {
          submitted_blocks = u64 (p.result.submitted_blocks + 1);
          last_height = d.height;
          target_height = u64 (d.height + 1);
        };
        current_height = h;
        phase = phase;
      })
  accepted_tally n d reply p h phase live agreed v = (
    suc n,
    record {
      in_order = v.in_order;
      counted = counted_next p.result.submitted_blocks n v.counted;
      last = last_next d.height n v.height (omega (arith, v.current, v.bound));
      next = next_next d.height n v.height;
      current = λ l. let (a, b) = live l in (a, b, v.more);
      ended = λ e. v.more;
      at_least = omega (arith, v.more);
      at_most = omega (arith, v.more);
      in_range = omega (arith, v.current, v.bound);
      answers = Given-taken n d reply p agreed v;
    },
  )

  advance-IsTallied :
      (n : ℕ) (d : Download) (reply : SubmitReply) (p : Pipeline)
      → IsTaken d reply
      → Given n d reply p
      → IsTallied target (advance d p)
  unfolding advance
  advance-IsTallied n d reply p agreed v = elim (Bool-cases (p.current_height == max_u64)) [
    | inl y ↦ rw y (accepted_tally n d reply p p.current_height (returned none) (λ l. cc) agreed v)
    | inr m ↦ rw m (
        accepted_tally n d reply p (u64 (p.current_height + 1)) filling
          (λ l. (ground (arith, m, v.current, v.bound), ground (arith, m, v.bound))) agreed v)
  ]

  pub answered-IsTallied :
      (E : Services) (ctx_error : E.State → Option Err) (n : ℕ) (d : Download) (p : Pipeline)
      (a : Result Text × E.State)
      → Given n d (a.0, (E.get_blockchain_info a.1).0) p
      → IsTallied target (answered E ctx_error d p a).0
  unfolding answered submitted_height_accepted
  answered-IsTallied E ctx_error n d p (err e, s) v =
      let info = (E.get_blockchain_info s).0 in
      elim (Bool-cases (height_reached d.height info)) [
        | inl y ↦ rw y (advance-IsTallied n d (err e, info) p (reached_taken d e info y) v)
        | inr m ↦ rw m (Given-fails n d (err e, info) p _ (unreached_refused d e info m) v)
      ]
  answered-IsTallied E ctx_error n d p (ok reply, s) v =
      let info = (E.get_blockchain_info s).0 in
      elim (Bool-cases (is_accepted reply)) [
        | inl y ↦ rw y (advance-IsTallied n d (ok reply, info) p y v)
        | inr m ↦ rw m (Given-fails n d (ok reply, info) p _ (λ taken. both taken m) v)
      ]
    where
      both : {b : Bool} → b ≡ true → b ≡ false → ⊥
      both p q = cc
