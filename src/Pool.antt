-- ===== src/Pool.antt =====
-- The goroutine pools of sync.go (`uploadBlocksFrom`, `checkUploadProbes`): workers take keys from
-- a channel, and each call that a job makes is one step, so that the jobs' calls interleave as the
-- scheduler chooses.
pub mod Finish
pub mod Account
pub mod Settled
pub mod Quiet
pub mod Keeps
pub mod Returns
use fractal_block_sync.Prelude.{
  ℕ, zero, suc, ◌+◌, ◌%◌, Bool, true, false, ◌&&◌, ◌||◌, not, Option, none, some, List, [], ◌∷◌,
  ◌++◌, if◌then◌else◌, length, get_or,
}
use fractal_block_sync.Errors.{Err}

-- What one call of a job leads to.
pub data Progress (Job R : Type 0) : Type 0 where
  again : Job → Progress Job R
  done : R → Progress Job R
  failed : Err → Progress Job R

-- A worker: waiting at the channel, at work for a key, or returned.
pub data Slot (Job : Type 0) : Type 0 where
  idle : Slot Job
  busy : ℕ → Job → Slot Job
  stopped : Slot Job

-- The keys not yet sent, the workers, the results in the order in which they came, the first error
-- (its worker cancels the context with it), and whether the sender saw the context done.
pub record Pool (Job R : Type 0) : Type 0 where
  pub pending : List ℕ
  pub slots : List (Slot Job)
  pub results : List (ℕ × R)
  pub error : Option Err
  pub noticed : Bool

abbrev pub is_empty : {A : Type 0} → List A → Bool
is_empty [] = true
is_empty (x ∷ xs) = false

abbrev pub is_some : {A : Type 0} → Option A → Bool
is_some none = false
is_some (some a) = true

abbrev pub any : {A : Type 0} → (A → Bool) → List A → Bool
any test [] = false
any test (x ∷ xs) = test x || any test xs

abbrev pub is_busy : {Job : Type 0} → Slot Job → Bool
is_busy idle = false
is_busy (busy k job) = true
is_busy stopped = false

-- The sender has no key left, and no worker is at work: `close(jobs)` then lets the workers that wait
-- return, as does `wg.Wait()`.
unfoldable pub has_returned : {Job R : Type 0} → Pool Job R → Bool
has_returned p = is_empty p.pending && not (any is_busy p.slots)

-- A worker is given by those before and after it.
pub data Move (Job : Type 0) : Type 0 where
  send : List (Slot Job) → List (Slot Job) → Move Job
  work : List (Slot Job) → ℕ → Job → List (Slot Job) → Move Job
  notice : Move Job

-- `select { case errs <- err: … default: }` on a channel of capacity one.
abbrev pub keep_first : Option Err → Err → Option Err
keep_first none e = some e
keep_first (some d) e = some d

unfoldable pub idle_slots : {Job : Type 0} → ℕ → List (Slot Job)
idle_slots zero = []
idle_slots (suc n) = idle ∷ idle_slots n

module _ {Job : Type 0} where
  -- What the workers can do, in the order of the workers; `before` is read already.
  unfoldable pub slot_moves : Bool → List (Slot Job) → List (Slot Job) → List (Move Job)
  slot_moves can_send before [] = []
  slot_moves can_send before (idle ∷ after) =
      let rest = slot_moves can_send (before ++ (idle ∷ [])) after in
      if can_send then send before after ∷ rest else rest
  slot_moves can_send before (busy k job ∷ after) =
      work before k job after ∷ slot_moves can_send (before ++ (busy k job ∷ [])) after
  slot_moves can_send before (stopped ∷ after) =
      slot_moves can_send (before ++ (stopped ∷ [])) after

  unfoldable pub pick : ℕ → Move Job → List (Move Job) → Move Job
  pick c m ms = get_or (m ∷ ms) (c % length (m ∷ ms)) m

module _ {Job R : Type 0} where
  -- A worker's call has returned.
  unfoldable pub worked :
      Pool Job R → List (Slot Job) → ℕ → List (Slot Job) → Progress Job R → Pool Job R
  worked p before k after (again job) = record p { slots = before ++ (busy k job ∷ after) }
  worked p before k after (done r) = record p {
    slots = before ++ (idle ∷ after);
    results = p.results ++ ((k, r) ∷ []);
  }
  worked p before k after (failed e) = record p {
    slots = before ++ (stopped ∷ after);
    error = keep_first p.error e;
  }

-- All keys to send, and n workers at the channel.
abbrev pub fresh_pool : {Job R : Type 0} → List ℕ → ℕ → Pool Job R
fresh_pool keys n = record {
  pending = keys;
  slots = idle_slots n;
  results = [];
  error = none;
  noticed = false;
}

-- What a pool runs on: the scheduler, the caller's context, the job of a key and a job's next call.
-- A pool that is not cancellable does not look at the context when it sends.
pub record Body (State Job R : Type 0) : Type 0 where
  pub choose : State → ℕ × State
  pub ctx_error : State → Option Err
  pub cancellable : Bool
  pub start : ℕ → Job
  pub call : Job → State → Progress Job R × State

module _ {State Job R : Type 0} (b : Body State Job R) where
  -- What can happen next.
  unfoldable pub moves : Pool Job R → State → List (Move Job)
  unfolding slot_moves
  moves p s =
      let sends = slot_moves (not (is_empty p.pending)) [] p.slots in
      if b.cancellable && not (is_empty p.pending) && (is_some p.error || is_some (b.ctx_error s))
      then notice ∷ sends
      else sends

  unfoldable pub sent : Pool Job R → List (Slot Job) → List (Slot Job) → List ℕ → Pool Job R
  sent p before after [] = p
  sent p before after (k ∷ ks) = record p {
    pending = ks;
    slots = before ++ (busy k (b.start k) ∷ after);
  }

  unfoldable pub perform : Move Job → Pool Job R → State → Pool Job R × State
  unfolding worked sent
  perform (send before after) p s = (sent p before after p.pending, s)
  perform (work before k job after) p s =
      let (progress, t) = b.call job s in (worked p before k after progress, t)
  perform notice p s = (record p { pending = []; noticed = true }, s)

  -- Steps until nothing can happen, at most as many as the fuel.
  unfoldable pub run : ℕ → Pool Job R → State → Pool Job R × State
  run zero p s = (p, s)
  run (suc fuel) p s = elim (moves p s) [
    | [] ↦ (p, s)
    | m ∷ ms ↦ let (c, t) = b.choose s in let (q, u) = perform (pick c m ms) p t in run fuel q u
  ]
