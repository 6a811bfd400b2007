-- ===== src/Submit/Walk/Found.antt =====
-- What the header walk finds, on a node whose header replies do not change.
use fractal_block_sync.Prelude.{
  ℕ, zero, suc, ◌+◌, ◌-◌, ◌≤◌, ◌<◌, ◌≡◌, ◌≢◌, refl, sym, arith, Option, none, some, List, [], Text,
  if◌then◌else◌, text_eq, text_eq_iff, ◌∙◌, ap,
}
use fractal_block_sync.Errors.{Result, ok, err, walk_limit}
use fractal_block_sync.BtcRpc.{ChainTip, BlockHeader}
use fractal_block_sync.Submit.Services.{Services}
use fractal_block_sync.Submit.Tips.{best_chain_tip, best_chain_tip-Verdict, eligible_height}
use fractal_block_sync.Submit.Walk.{stop, go, inspect, walk, resolve_recent_hash}

-- The headers that a node knows, by their hashes.
module _ (header_of : Text → Option BlockHeader) where
  unfoldable pub previous : Text → Text
  previous current = elim (header_of current) [
    | none ↦ []
    | some header ↦ header.previous_block_hash
  ]

  -- The hash after n steps back.
  unfoldable pub ancestor : ℕ → Text → Text
  unfolding previous
  ancestor zero current = current
  ancestor (suc n) current = ancestor n (previous current)

  -- The hash that is returned for a header: its own, or the one it was asked for by.
  unfoldable pub name_of : Text → Text
  name_of current = elim (header_of current) [
    | none ↦ current
    | some header ↦ if text_eq header.hash [] then current else header.hash
  ]

  -- A known header above height zero names a predecessor, which is known and one height below.
  abbrev pub IsLinked : Type 0
  IsLinked =
      (h : Text) (header : BlockHeader)
      → header_of h ≡ some header
      → 0 < header.height
      → (header.previous_block_hash ≢ [])
        × ((before : BlockHeader) × (header_of header.previous_block_hash ≡ some before)
            × (before.height + 1 ≡ header.height))

-- The node answers each request for a header that it knows, in every state of the world. Of its reply for
-- any other hash, such as an error, nothing is said.
abbrev pub Reports : (E : Services) → (Text → Option BlockHeader) → Type 0
Reports E header_of =
    (h : Text) (header : BlockHeader) (s : E.State)
    → header_of h ≡ some header
    → (E.get_block_header h s).0 ≡ ok header

named_by : Text → BlockHeader → Text
named_by current header = if text_eq header.hash [] then current else header.hash

module _ (header_of : Text → Option BlockHeader) (current : Text) (header : BlockHeader)
    (known : header_of current ≡ some header) where
  name_of-known : name_of header_of current ≡ named_by current header
  unfolding name_of named_by
  name_of-known = rw (known, name_of) refl

  previous-known : previous header_of current ≡ header.previous_block_hash
  unfolding previous
  previous-known = rw (known, previous) refl

module _ (target : ℕ) (current : Text) (header : BlockHeader) where
  inspect_at :
      header.height ≡ target → inspect target current header ≡ stop (ok (named_by current header))
  unfolding inspect named_by
  inspect_at e = ground arith

  inspect_above :
      target < header.height
      → header.previous_block_hash ≢ []
      → inspect target current header ≡ go header.previous_block_hash
  unfolding inspect
  inspect_above lt some_hash = ground (arith, text_eq_iff header.previous_block_hash [])

module _ (E : Services) (limit target rounds : ℕ) (current : Text) (s t : E.State)
    {header : BlockHeader} (reply : E.get_block_header current s ≡ (ok header, t)) where
  walk_stop :
      {r : Result Text}
      → inspect target current header ≡ stop r
      → walk E limit target (suc rounds) current s ≡ (r, t)
  unfolding walk
  walk_stop e = ground (arith, reply, e)

  walk_go :
      {next : Text}
      → inspect target current header ≡ go next
      → walk E limit target (suc rounds) current s ≡ walk E limit target rounds next t
  unfolding walk
  walk_go e = ground (arith, reply, e)

resolve_run :
    (E : Services) (limit target : ℕ) (s t : E.State) (tips : List ChainTip) (tip : ChainTip)
    → E.get_chain_tips s ≡ (ok tips, t)
    → best_chain_tip tips target ≡ some tip
    → resolve_recent_hash E target limit s ≡ walk E limit target (suc limit) tip.hash t
unfolding resolve_recent_hash
resolve_run E limit target s t tips tip p q = ground (arith, p, q)

module _ (E : Services) (header_of : Text → Option BlockHeader) (reports : Reports E header_of)
    (linked : IsLinked header_of) (limit target : ℕ) where
  reply :
      (current : Text) (header : BlockHeader) (s : E.State)
      → header_of current ≡ some header
      → E.get_block_header current s ≡ (ok header, (E.get_block_header current s).1)
  reply current header s known =
      λ i. (reports current header s known i, (E.get_block_header current s).1)

  walk_within :
      (d rounds : ℕ) (current : Text) (header : BlockHeader) (s : E.State)
      → header_of current ≡ some header
      → header.height ≡ target + d
      → d < rounds
      → (walk E limit target rounds current s).0
        ≡ ok (name_of header_of (ancestor header_of d current))
  unfolding ancestor
  walk_within d zero current header s known h lt = absurd (omega arith)
  walk_within zero (suc rounds) current header s known h lt =
      ap (λ r. r.0)
        (walk_stop E limit target rounds current s _ (reply current header s known)
          (inspect_at target current header (omega arith)))
      ∙ ap ok (sym (name_of-known header_of current header known))
  walk_within (suc d) (suc rounds) current header s known h lt =
      let (some_hash, (before, here, below)) = linked current header known (omega arith) in
      ap (λ r. r.0)
        (walk_go E limit target rounds current s _ (reply current header s known)
          (inspect_above target current header (omega arith) some_hash))
      ∙ walk_within d rounds header.previous_block_hash before _ here (omega arith) (omega arith)
      ∙ ap (λ (x : Text). ok (name_of header_of (ancestor header_of d x)))
          (sym (previous-known header_of current header known))

  walk_beyond :
      (d rounds : ℕ) (current : Text) (header : BlockHeader) (s : E.State)
      → header_of current ≡ some header
      → header.height ≡ target + d
      → rounds ≤ d
      → (walk E limit target rounds current s).0 ≡ err (walk_limit limit)
  unfolding walk
  walk_beyond d zero current header s known h le = refl
  walk_beyond zero (suc rounds) current header s known h le = absurd (omega arith)
  walk_beyond (suc d) (suc rounds) current header s known h le =
      let (some_hash, (before, here, below)) = linked current header known (omega arith) in
      ap (λ r. r.0)
        (walk_go E limit target rounds current s _ (reply current header s known)
          (inspect_above target current header (omega arith) some_hash))
      ∙ walk_beyond d rounds header.previous_block_hash before _ here (omega arith) (omega arith)

  -- c
  pub resolve_recent_hash_lem :
      (s : E.State) {tips : List ChainTip} {tip : ChainTip} {header : BlockHeader}
      → (E.get_chain_tips s).0 ≡ ok tips
      → best_chain_tip tips target ≡ some tip
      → header_of tip.hash ≡ some header
      → header.height ≡ tip.height
      → (tip.height - target ≤ limit
          → (resolve_recent_hash E target limit s).0
            ≡ ok (name_of header_of (ancestor header_of (tip.height - target) tip.hash)))
        × (limit < tip.height - target
            → (resolve_recent_hash E target limit s).0 ≡ err (walk_limit limit))
  resolve_recent_hash_lem s {tips} {tip} {header} got best known at =
      let t = (E.get_chain_tips s).1 in
      let run = resolve_run E limit target s t tips tip (λ i. (got i, t)) best in
      let reach : target ≤ tip.height =
        eligible_height target tip (rw best at (best_chain_tip-Verdict tips target)).0 in
      let d = tip.height - target in
      let split : header.height ≡ target + d = omega arith in
      (
        λ le. rw run (walk_within d (suc limit) tip.hash header t known split (omega arith)),
        λ lt. rw run (walk_beyond d (suc limit) tip.hash header t known split (omega arith)),
      )
