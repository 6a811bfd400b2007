-- ===== src/R2Store/Keys.antt =====
-- `BlockKey`.
use mathlib.Core.List.{append_cancel_left, append_cancel_right}
use fractal_block_sync.Prelude.{
  ℕ, ◌/◌, ◌%◌, ◌<◌, ◌≡◌, refl, ap, sym, subst, ◌∙◌, arith, false, not, [], ◌∷◌, ◌++◌, Bytes, Text,
  codes, length, take, ◌==◌, if◌then◌else◌, text_eq, text_eq_iff, ◌↔◌, inl, inr, Bool-cases, All,
}
use fractal_block_sync.Errors.{Result, ok, err, hash_required, bad_block_hash}
use fractal_block_sync.Text.{trim_space, IsPlain, trim_space-IsPlain}
use fractal_block_sync.Hex
use fractal_block_sync.Hex.RoundTrip.{IsByte}
use fractal_block_sync.BlockHash.{from_raw_block, from_raw_block_iff, displayed-bytes}

-- `Sprintf("blocks/%s.blk", hash)`
unfoldable pub block_object : Text → Text
block_object hash = codes "blocks/" ++ (hash ++ codes ".blk")

unfoldable pub checked_key : Text → Result Bytes → Result Text
unfolding block_object
checked_key hash (err e) = err (bad_block_hash hash)
checked_key hash (ok raw) =
    if not (length raw == 32) then err (bad_block_hash hash) else ok (block_object hash)

unfoldable pub trimmed_key : Text → Result Text
unfolding checked_key
trimmed_key hash = if text_eq hash [] then err hash_required else checked_key hash (Hex.decode hash)

unfoldable pub block_key : Text → Result Text
unfolding trimmed_key
block_key hash = trimmed_key (trim_space hash)

-- The hash of a block, as 64 hex digits.
abbrev pub IsBlockHash : Text → Type 0
IsBlockHash hash = (raw : Bytes) × (Hex.decode hash ≡ ok raw) × (length raw ≡ 32)

checked_key_iff :
    (hash key : Text) (r : Result Bytes)
    → (checked_key hash r ≡ ok key)
      ↔ ((key ≡ block_object hash) × ((raw : Bytes) × (r ≡ ok raw) × (length raw ≡ 32)))
unfolding checked_key
checked_key_iff hash key (err e) = (λ h. cc, λ (k, (raw, h, l)). cc)
checked_key_iff hash key (ok raw) = elim (Bool-cases (length raw == 32)) [
  | inl y ↦ (
    λ h. (ground (arith, y, h), (raw, refl, ground (arith, y))),
    λ (k, (raw', h, l)). ground (arith, y, k),
  )
  | inr n ↦ (λ h. absurd (ground (arith, n, h)), λ (k, (raw', h, l)). absurd (other raw' h l n))
]
  where
    other : (raw' : Bytes) → ok raw ≡ ok raw' → length raw' ≡ 32 → ¬ ((length raw == 32) ≡ false)
    other raw' h l n =
        let same : raw ≡ raw' = cc in
        let len : length raw ≡ 32 = ap length same ∙ l in ground (arith, n, len)

no_digits : (raw : Bytes) → length raw ≡ 32 → ¬ (Hex.decode [] ≡ ok raw)
unfolding Hex.decode
no_digits [] l d = absurd (omega (arith, l))
no_digits (b ∷ raw) l d = cc

trimmed_key_iff :
    (hash key : Text) → (trimmed_key hash ≡ ok key) ↔ ((key ≡ block_object hash) × IsBlockHash hash)
unfolding trimmed_key
trimmed_key_iff hash key = elim (Bool-cases (text_eq hash [])) [
  | inl y ↦
      let nil : hash ≡ [] = (text_eq_iff hash []).0 y in
      (
        λ h. absurd (clash (rw y at h)),
        λ (k, (raw, d, l)). absurd (no_digits raw l (ap Hex.decode (sym nil) ∙ d)),
      )
  | inr n ↦ rw n (checked_key_iff hash key (Hex.decode hash))
]
  where
    clash : ¬ (◌≡◌ {A = Result Text} (err hash_required) (ok key))
    clash h = cc

-- A block has a key exactly when its hash, without the spaces around it, is the hex of 32 bytes;
-- the key is then blocks/, the hash and .blk.
pub block_key_iff :
    (hash key : Text)
    → (block_key hash ≡ ok key)
      ↔ ((key ≡ block_object (trim_space hash)) × IsBlockHash (trim_space hash))
unfolding block_key
block_key_iff hash key = trimmed_key_iff (trim_space hash) key

hex_digit-IsPlain : (v : ℕ) → v < 16 → IsPlain (Hex.hex_digit v)
unfolding Hex.hex_digit
hex_digit-IsPlain v h = ground (arith, h)

encode-IsPlain : (bs : Bytes) → All IsByte bs → All IsPlain (Hex.encode bs)
unfolding Hex.encode
encode-IsPlain [] h = tt
encode-IsPlain (b ∷ bs) (p, h) = (
  hex_digit-IsPlain (b / 16) (omega (arith, p)),
  (hex_digit-IsPlain (b % 16) (omega arith), encode-IsPlain bs h),
)

-- A block that FromRawBlock has a hash for has a key, which is made of that hash as it stands.
pub block_key-from_raw_block :
    (raw : Bytes) {hash : Text}
    → from_raw_block raw ≡ ok hash
    → block_key hash ≡ ok (block_object hash)
block_key-from_raw_block raw {hash} e =
    let (fits, printed, decoded) = (from_raw_block_iff raw hash).0 e in
    let (len, bytes) = displayed-bytes (take 80 raw) in
    let plain = subst (All IsPlain) (sym printed) (encode-IsPlain _ bytes) in
    let trimmed = trim_space-IsPlain hash plain in
    (block_key_iff hash (block_object hash)).1
      (ap block_object (sym trimmed), (_, ap Hex.decode trimmed ∙ decoded, len))

block_object_injective : (s t : Text) → block_object s ≡ block_object t → s ≡ t
unfolding block_object
block_object_injective s t e =
    append_cancel_right s t (codes ".blk")
      (append_cancel_left (codes "blocks/") (s ++ codes ".blk") (t ++ codes ".blk") e)

-- Blocks with the same key have the same hash, up to the spaces around it.
pub block_key_injective :
    (h k : Text) {key : Text}
    → block_key h ≡ ok key
    → block_key k ≡ ok key
    → trim_space h ≡ trim_space k
block_key_injective h k {key} a b =
    let (x, (raw, dx, lx)) = (block_key_iff h key).0 a in
    let (y, (raw', dy, ly)) = (block_key_iff k key).0 b in
    block_object_injective (trim_space h) (trim_space k) (sym x ∙ y)
