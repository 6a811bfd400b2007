-- ===== src/Pool/Finish.antt =====
-- A pool comes to rest: with enough fuel nothing is left that could happen.
use fractal_block_sync.Prelude.{
  ℕ, zero, suc, ◌+◌, ◌*◌, ◌<◌, ◌≡◌, refl, sym, ap, ◌∙◌, arith, Bool, true, false, ◌&&◌, ◌||◌, not,
  List, [], ◌∷◌, ◌++◌, length, All, All-get_or, append_assoc, Bool-cases, inl, inr,
}
use fractal_block_sync.Pool.{
  Progress, again, done, failed, Slot, idle, busy, stopped, Pool, Body, Move, send, work, notice,
  is_empty, is_some, slot_moves, moves, worked, sent, perform, pick, run,
}

nonempty : {A : Type 0} (xs : List A) → not (is_empty xs) ≡ true → 0 < length xs
nonempty [] h = cc
nonempty (x ∷ xs) h = omega arith

module _ {Job R : Type 0} where
  -- What makes a move possible.
  abbrev pub IsEnabled : Pool Job R → Move Job → Type 0
  IsEnabled p (send before after) = (p.slots ≡ before ++ (idle ∷ after)) × (0 < length p.pending)
  IsEnabled p (work before k job after) = p.slots ≡ before ++ (busy k job ∷ after)
  IsEnabled p notice = 0 < length p.pending

  slot_moves-IsEnabled :
      (p : Pool Job R) (can : Bool) (before ws : List (Slot Job))
      → (can ≡ true → 0 < length p.pending)
      → p.slots ≡ before ++ ws
      → All (IsEnabled p) (slot_moves can before ws)
  unfolding slot_moves
  slot_moves-IsEnabled p can before [] h e = tt
  slot_moves-IsEnabled p true before (idle ∷ ws) h e = (
    (e, h refl),
    slot_moves-IsEnabled p true (before ++ (idle ∷ [])) ws h
        (e ∙ sym (append_assoc before (idle ∷ []) ws)),
  )
  slot_moves-IsEnabled p false before (idle ∷ ws) h e =
      slot_moves-IsEnabled p false (before ++ (idle ∷ [])) ws h
        (e ∙ sym (append_assoc before (idle ∷ []) ws))
  slot_moves-IsEnabled p can before (busy k job ∷ ws) h e = (
    e,
    slot_moves-IsEnabled p can (before ++ (busy k job ∷ [])) ws h
        (e ∙ sym (append_assoc before (busy k job ∷ []) ws)),
  )
  slot_moves-IsEnabled p can before (stopped ∷ ws) h e =
      slot_moves-IsEnabled p can (before ++ (stopped ∷ [])) ws h
        (e ∙ sym (append_assoc before (stopped ∷ []) ws))

sending_nonempty :
    (c x : Bool) {A : Type 0} (xs : List A) → (c && not (is_empty xs) && x) ≡ true → 0 < length xs
sending_nonempty c x [] h = ground arith
sending_nonempty c x (y ∷ ys) h = omega arith

-- How far a list of workers is from being idle.
unfoldable pub slot_weight : {Job : Type 0} → (Job → ℕ) → Slot Job → ℕ
slot_weight weight idle = 0
slot_weight weight (busy k job) = suc (weight job)
slot_weight weight stopped = 0

unfoldable pub slots_weight : {Job : Type 0} → (Job → ℕ) → List (Slot Job) → ℕ
slots_weight weight [] = 0
slots_weight weight (w ∷ ws) = slot_weight weight w + slots_weight weight ws

slots_weight-append :
    {Job : Type 0} (weight : Job → ℕ) (us : List (Slot Job)) (w : Slot Job) (ws : List (Slot Job))
    → slots_weight weight (us ++ (w ∷ ws))
      ≡ slots_weight weight us + slot_weight weight w + slots_weight weight ws
unfolding slots_weight
slots_weight-append weight [] w ws = omega arith
slots_weight-append weight (u ∷ us) w ws = omega (arith, slots_weight-append weight us w ws)

module _ {State Job R : Type 0} (b : Body State Job R) where
  moves-IsEnabled : (p : Pool Job R) (s : State) → All (IsEnabled p) (moves b p s)
  unfolding moves
  moves-IsEnabled p s =
      elim (Bool-cases (
        b.cancellable
        && not (is_empty p.pending)
        && (is_some p.error || is_some (b.ctx_error s)))) [
          | inl y ↦ rw y (
            sending_nonempty _ _ p.pending y,
            slot_moves-IsEnabled p _ [] p.slots (nonempty p.pending) refl,
          )
          | inr n ↦ rw n (slot_moves-IsEnabled p _ [] p.slots (nonempty p.pending) refl)
        ]

  pub run-nil :
      (fuel : ℕ) (p : Pool Job R) (s : State) → moves b p s ≡ [] → run b (suc fuel) p s ≡ (p, s)
  unfolding run
  run-nil fuel p s e = rw (e, run)

  -- The state and the pool after the next move.
  abbrev pub after_pick : Move Job → List (Move Job) → Pool Job R → State → Pool Job R × State
  after_pick m ms p s = perform b (pick (b.choose s).0 m ms) p (b.choose s).1

  pub run-cons :
      (fuel : ℕ) (p : Pool Job R) (s : State) {m : Move Job} {ms : List (Move Job)}
      → moves b p s ≡ m ∷ ms
      → run b (suc fuel) p s ≡ run b fuel (after_pick m ms p s).0 (after_pick m ms p s).1
  unfolding run
  run-cons fuel p s e = rw (e, run)

  pub pick-IsEnabled :
      (p : Pool Job R) (s : State) (c : ℕ) {m : Move Job} {ms : List (Move Job)}
      → moves b p s ≡ m ∷ ms
      → IsEnabled p (pick c m ms)
  unfolding pick
  pick-IsEnabled p s c {m} {ms} e =
      let all : All (IsEnabled p) (m ∷ ms) = rw e at (moves-IsEnabled p s) in
      All-get_or (IsEnabled p) (m ∷ ms) _ m all all.0

  -- Each call of a job brings it nearer to its end, and a new job is below `top`.
  module _ (weight : Job → ℕ) (top : ℕ) (starts : (k : ℕ) → suc (weight (b.start k)) < top)
      (falls : (j j' : Job) (s : State) → (b.call j s).0 ≡ again j' → weight j' < weight j) where
    unfoldable pub measure : Pool Job R → ℕ
    measure p = length p.pending * top + slots_weight weight p.slots

    sent-lt :
        (p : Pool Job R) (before after : List (Slot Job)) (ks : List ℕ)
        → p.pending ≡ ks
        → p.slots ≡ before ++ (idle ∷ after)
        → 0 < length ks
        → measure (sent b p before after ks) < measure p
    unfolding measure sent slot_weight
    sent-lt p before after [] q e h = absurd (omega arith)
    sent-lt p before after (k ∷ ks) q e h = omega (
      arith,
      starts k,
      ap (λ l. length l * top) q,
      ap (slots_weight weight) e,
      slots_weight-append weight before idle after,
      slots_weight-append weight before (busy k (b.start k)) after,
    )

    worked-lt :
        (p : Pool Job R) (before : List (Slot Job)) (k : ℕ) (job : Job) (after : List (Slot Job))
        (s : State)
        → p.slots ≡ before ++ (busy k job ∷ after)
        → (progress : Progress Job R) → (b.call job s).0 ≡ progress
        → measure (worked p before k after progress) < measure p
    unfolding measure worked slot_weight
    worked-lt p before k job after s e (again j) q = omega (
      arith,
      falls job j s q,
      ap (slots_weight weight) e,
      slots_weight-append weight before (busy k job) after,
      slots_weight-append weight before (busy k j) after,
    )
    worked-lt p before k job after s e (done r) q = omega (
      arith,
      ap (slots_weight weight) e,
      slots_weight-append weight before (busy k job) after,
      slots_weight-append weight before idle after,
    )
    worked-lt p before k job after s e (failed x) q = omega (
      arith,
      ap (slots_weight weight) e,
      slots_weight-append weight before (busy k job) after,
      slots_weight-append weight before stopped after,
    )

    dropped-lt : (ks : List ℕ) → 0 < length ks → 0 < length ks * top
    dropped-lt [] h = absurd (omega arith)
    dropped-lt (k ∷ ks) h = omega (arith, starts k)

    perform-lt :
        (m : Move Job) (p : Pool Job R) (s : State)
        → IsEnabled p m
        → measure (perform b m p s).0 < measure p
    unfolding measure perform
    perform-lt (send before after) p s (e, h) = sent-lt p before after p.pending refl e h
    perform-lt (work before k job after) p s e =
        worked-lt p before k job after s e (b.call job s).0 refl
    perform-lt notice p s h = omega (arith, dropped-lt p.pending h)

    -- When each call of a job lowers the weight of the job, a pool that runs with more fuel than
    -- its measure (the keys to send times the most steps of a key, plus the weights of the jobs
    -- at work) stops only where no worker and no sender can go on.
    pub run-moves :
        (fuel : ℕ) (p : Pool Job R) (s : State)
        → measure p < fuel
        → moves b (run b fuel p s).0 (run b fuel p s).1 ≡ []
    unfolding run
    run-moves zero p s h = absurd (omega arith)
    run-moves (suc fuel) p s h = go (moves b p s) refl (λ q t lt. run-moves fuel q t lt)
      where
        go :
            (ms : List (Move Job))
            → moves b p s ≡ ms
            → ((q : Pool Job R) (t : State)
                → measure q < fuel
                → moves b (run b fuel q t).0 (run b fuel q t).1 ≡ [])
            → moves b (run b (suc fuel) p s).0 (run b (suc fuel) p s).1 ≡ []
        go [] e rest = rw (run-nil fuel p s e) e
        go (m ∷ ms) e rest =
            let (c, t) = b.choose s in
            rw (run-cons fuel p s e)
              (rest _ _ (omega (arith, perform-lt (pick c m ms) p t (pick-IsEnabled p s c e))))
