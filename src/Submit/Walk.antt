-- ===== src/Submit/Walk.antt =====
-- `resolveRecentHash`: from the best chain tip back to the target height, header by header.
pub mod Found
use fractal_block_sync.Prelude.{
  ℕ, zero, suc, ◌+◌, ◌≤◌, ◌<◌, ◌≡◌, ◌≢◌, refl, arith, Bool, true, false, not, Option, none, some,
  List, [], ◌∷◌, Text, codes, ltb, leb, ◌==◌, if◌then◌else◌, text_eq, ◌⊎◌, inl, inr, Bool-cases,
}
use fractal_block_sync.Errors.{
  Err, Result, ok, err, at_text, wrapped, no_tip, walk_passed, no_previous, walk_limit,
}
use fractal_block_sync.Effects.{Effect, ◌>>=◌, pure, fail, lift, wrapping, continue, wrap_result}
use fractal_block_sync.BtcRpc.{ChainTip, BlockHeader}
use fractal_block_sync.Submit.Services.{Services}
use fractal_block_sync.Submit.Tips.{best_chain_tip}

-- What the loop does with one header: return a hash or an error, or go on to another hash.
pub data Turn : Type 0 where
  stop : Result Text → Turn
  go : Text → Turn

unfoldable pub inspect : ℕ → Text → BlockHeader → Turn
inspect target current header =
    if header.height == target
    then if not (text_eq header.hash []) then stop (ok header.hash) else stop (ok current)
    else if ltb header.height target
    then stop (err (walk_passed target header.height))
    else if text_eq header.previous_block_hash []
    then stop (err (no_previous header.height))
    else go header.previous_block_hash

abbrev pub follow : {S : Type 0} → Turn → (Text → Effect S Text) → Effect S Text
follow (stop r) next = lift r
follow (go hash) next = next hash

module _ (E : Services) where
  -- `for walked := 0; walked <= limit; walked++`, by the rounds that are left: `limit + 1` at first.
  -- (With the largest `uint64` for a limit Go's counter wraps and the loop has no last round.)
  unfoldable pub walk : ℕ → ℕ → ℕ → Text → Effect E.State Text
  walk limit target zero current = fail (walk_limit limit)
  walk limit target (suc rounds) current = do
    header ← wrapping (at_text (codes "get block header") current) (E.get_block_header current)
    follow (inspect target current header) (walk limit target rounds)

  unfoldable pub resolve_recent_hash : ℕ → ℕ → Effect E.State Text
  resolve_recent_hash target limit = do
    tips ← wrapping (wrapped (codes "get chain tips")) E.get_chain_tips
    elim (best_chain_tip tips target) [
      | none ↦ fail (no_tip target)
      | some tip ↦ walk limit target (suc limit) tip.hash
    ]
