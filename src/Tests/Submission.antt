-- ===== src/Tests/Submission.antt =====
-- Submission at concrete inputs: a node with a chain of three headers, and a small object store.
use fractal_block_sync.Prelude.{
  ℕ, zero, suc, ◌-◌, ◌≤◌, ◌<◌, ◌≡◌, refl, arith, false, true, ◌+◌, ◌≢◌, subst, Option, none, some,
  Bool-cases, inl, inr, ltb, if◌then◌else◌, List, [], ◌∷◌, Bytes, Text, codes, text_eq,
}
use fractal_block_sync.Errors.{Result, ok, err, external, not_found, walk_limit, is_not_found}
use fractal_block_sync.Text.{trim_space}
use fractal_block_sync.Hex
use fractal_block_sync.BlockHash.{from_raw_block}
use fractal_block_sync.Tests.Index.{zero_block, zero_hash}
use fractal_block_sync.BtcRpc.{ChainTip, BlockHeader}
use fractal_block_sync.Submit.Services.{Services, SubmitConfig}
use fractal_block_sync.Submit.Tips.{best_chain_tip, Verdict, best_chain_tip-Verdict}
use fractal_block_sync.Submit.Walk.{resolve_recent_hash, walk, inspect}
use fractal_block_sync.Submit.Walk.Found.{ancestor, name_of, IsLinked, resolve_recent_hash_lem}
use fractal_block_sync.Submit.Resolve.{
  resolve_target_hash, resolve_target_hash_from_range_index, or_recent, download_error,
}
use fractal_block_sync.RangeIndex
use fractal_block_sync.Sha256
use fractal_block_sync.Submit.Cache.{new_cache, hash_at}
use fractal_block_sync.Submit.Cache.Transparent.{IsFaithful, new_cache-IsValid, hash_at-IsFaithful}
use fractal_block_sync.Submit.Next.{is_accepted, submit_next}
use fractal_block_sync.Submit.Next.Outcomes.{IsSettled, submit_next-IsSettled}
use fractal_block_sync.Submit.Next.Verified.{OnlyVerified, submit_next_verified}

abbrev block_of : ℕ → Bytes
block_of n = n ∷ []

-- The node knows headers from height 0 to 9. The one with the hash `n ∷ []` has height n and the one before
-- it for a predecessor.
abbrev header_at : ℕ → BlockHeader
header_at zero = record { hash = 0 ∷ []; height = 0; previous_block_hash = [] }
header_at (suc n) = record { hash = suc n ∷ []; height = suc n; previous_block_hash = n ∷ [] }

abbrev header_of : Text → Option BlockHeader
header_of [] = none
header_of (n ∷ []) = if ltb n 10 then some (header_at n) else none
header_of (n ∷ m ∷ h) = none

abbrev or_unknown : Option BlockHeader → Result BlockHeader
or_unknown none = err (external (codes "Block not found"))
or_unknown (some header) = ok header

reports :
    (o : Option BlockHeader) (header : BlockHeader) → o ≡ some header → or_unknown o ≡ ok header
reports none header e = cc
reports (some x) header e = cc

lower : (m : ℕ) → ltb (suc m) 10 ≡ true → ltb m 10 ≡ true
lower m y = ground (arith, y)

height_at : (m : ℕ) → (header_at m).height + 1 ≡ suc m
height_at zero = refl
height_at (suc m) = omega arith

linked : IsLinked header_of
linked [] header e p = cc
linked (n ∷ m ∷ h) header e p = cc
linked (n ∷ []) header e p = elim (Bool-cases (ltb n 10)) [
  | inr m ↦ absurd (none_is_not_some (rw m at e))
  | inl y ↦ below n header y (of_some (rw y at e)) p
]
  where
    none_is_not_some : {A : Type 0} {a : A} → none ≡ some a → ⊥
    none_is_not_some q = cc

    of_some : {A : Type 0} {a b : A} → some a ≡ some b → a ≡ b
    of_some q = cc

    below :
        (n : ℕ) (header : BlockHeader)
        → ltb n 10 ≡ true
        → header_at n ≡ header
        → 0 < header.height
        → (header.previous_block_hash ≢ [])
          × ((before : BlockHeader) × (header_of header.previous_block_hash ≡ some before)
              × (before.height + 1 ≡ header.height))
    below n header y e p = subst Linked e (at n y) p
      where
        Linked : BlockHeader → Type 0
        Linked x =
            0 < x.height
            → (x.previous_block_hash ≢ [])
              × ((before : BlockHeader) × (header_of x.previous_block_hash ≡ some before)
                  × (before.height + 1 ≡ x.height))

        at : (n : ℕ) → ltb n 10 ≡ true → Linked (header_at n)
        at zero y p = absurd (omega arith)
        at (suc m) y p = ((λ q. cc), (header_at m, rw (lower m y) refl, height_at m))

abbrev tip : ChainTip
tip = record { height = 7; hash = 7 ∷ []; status = codes "active" }

abbrev fork_tip : ChainTip
fork_tip = record { height = 9; hash = 9 ∷ []; status = codes "valid-fork" }

-- The world is the list of the blocks submitted so far.
abbrev world : Services
world = record {
  State = List Text;
  get_blockchain_info = λ s. (ok (record { blocks = 4; headers = 7 }), s);
  get_chain_tips = λ s. (ok (fork_tip ∷ tip ∷ []), s);
  get_block_header = λ h s. (or_unknown (header_of h), s);
  submit_block = λ hex s. (ok [], hex ∷ s);
  download_object = λ key s. (err not_found, s);
  download_block = λ h s. (ok h, s);
}

active_tip : best_chain_tip (fork_tip ∷ tip ∷ []) 5 ≡ some tip
unfolding best_chain_tip text_eq trim_space
active_tip = refl

best_chain_tip-Verdict_example :
    Verdict 5 (fork_tip ∷ tip ∷ []) (best_chain_tip (fork_tip ∷ tip ∷ []) 5)
best_chain_tip-Verdict_example = best_chain_tip-Verdict (fork_tip ∷ tip ∷ []) 5

found_below : (resolve_recent_hash world 5 10 []).0 ≡ ok (5 ∷ [])
unfolding resolve_recent_hash best_chain_tip text_eq trim_space walk inspect
found_below = refl

resolve_recent_hash_lem_example :
    (tip.height - 5 ≤ 10
      → (resolve_recent_hash world 5 10 []).0
        ≡ ok (name_of header_of (ancestor header_of (tip.height - 5) tip.hash)))
    × (10 < tip.height - 5 → (resolve_recent_hash world 5 10 []).0 ≡ err (walk_limit 10))
resolve_recent_hash_lem_example =
    resolve_recent_hash_lem world header_of (λ h header s e. reports (header_of h) header e) linked
      10 5 [] refl active_tip refl refl

-- A node that lacks block 5, whose header is the one of 80 zero bytes.
abbrev pub zero_header : BlockHeader
zero_header = record { hash = zero_hash; height = 5; previous_block_hash = 4 ∷ [] }

abbrev pub zero_tip : ChainTip
zero_tip = record { height = 5; hash = zero_hash; status = codes "headers-only" }

abbrev pub zero_world : Services
zero_world = record {
  State = List Text;
  get_blockchain_info = λ s. (ok (record { blocks = 4; headers = 5 }), s);
  get_chain_tips = λ s. (ok (zero_tip ∷ []), s);
  get_block_header = λ h s. (ok zero_header, s);
  submit_block = λ hex s. (ok [], hex ∷ s);
  download_object = λ key s. (err not_found, s);
  download_block = λ h s. (ok zero_block, s);
}

abbrev pub config : SubmitConfig
config = record {
  range_size = 0;
  recent_walk_limit = 2500;
  bootstrap_from_r2 = false;
  download_workers = 0;
  prefetch_window = 0;
}

-- The block is submitted, and nothing else is.
zero_submitted : (submit_next zero_world config []).state ≡ Hex.encode zero_block ∷ []
unfolding submit_next resolve_target_hash resolve_recent_hash best_chain_tip text_eq trim_space walk
    inspect zero_hash from_raw_block is_not_found is_accepted resolve_target_hash_from_range_index
    or_recent RangeIndex.object_key_for_height download_error Sha256.sum256
zero_submitted = refl

submit_next-IsSettled_example : IsSettled (submit_next zero_world config [])
submit_next-IsSettled_example = submit_next-IsSettled zero_world config []

submit_next_verified_example :
    OnlyVerified zero_world (λ s. s ≡ []) (submit_next zero_world config [])
submit_next_verified_example =
    submit_next_verified zero_world (λ s. s ≡ [])
      (record {
        info = λ s p. p;
        tips = λ s p. p;
        header = λ h s p. p;
        object = λ key s p. p;
        block = λ h s p. p;
      })
      config [] refl

hash_at-IsFaithful_example :
    IsFaithful zero_world
      (λ _. err not_found)
      (λ key s. refl)
      (new_cache 2500)
      (new_cache-IsValid (λ _. err not_found) 2500)
      5
      []
      (hash_at zero_world (new_cache 2500) 5 [])
hash_at-IsFaithful_example =
    hash_at-IsFaithful zero_world (λ _. err not_found) (λ key s. refl) (new_cache 2500)
      (new_cache-IsValid (λ _. err not_found) 2500) 5 []
