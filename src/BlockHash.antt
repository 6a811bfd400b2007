-- ===== src/BlockHash.antt =====
-- blockhash/blockhash.go: the display-order hash of a raw block.
use mathlib.Core.List.{reverse, reverse-cons}
use fractal_block_sync.Prelude.{
  ℕ, zero, suc, ◌+◌, ◌*◌, [], ◌∷◌, refl, ap, sym, ◌≡◌, arith, if◌then◌else◌, ltb, Bytes, Text,
  length, take, All, ◌++◌, length-append, length-reverse, All-reverse, ◌∙◌, ◌↔◌, true, Bool-cases,
  inl, inr, ◌≤◌, take-append,
}
use fractal_block_sync.Errors.{Result, ok, err, short_block}
use fractal_block_sync.Hex
use fractal_block_sync.Hex.RoundTrip.{IsByte, decode-encode}
use fractal_block_sync.Sha256.{sum256, length-sum256, sum256-bytes}

abbrev pub header_size : ℕ
header_size = 80

-- The last byte of a list that starts with b, and the list without it.
abbrev pub last_of : ℕ → Bytes → ℕ
last_of b [] = b
last_of b (c ∷ cs) = last_of c cs

abbrev pub before_last : ℕ → Bytes → Bytes
before_last b [] = []
before_last b (c ∷ cs) = b ∷ before_last c cs

-- The loop over `i` and `j`, on the bytes from i to j: a round swaps the first with the last and goes on
-- between them.
unfoldable pub swap_ends : ℕ → Bytes → Bytes
swap_ends zero xs = xs
swap_ends (suc rounds) [] = []
swap_ends (suc rounds) (b ∷ []) = b ∷ []
swap_ends (suc rounds) (b ∷ c ∷ cs) =
    last_of c cs ∷ (swap_ends rounds (before_last c cs) ++ (b ∷ []))

-- A digest of 32 bytes has 16 pairs to swap.
unfoldable pub double_hash : Bytes → Bytes
unfolding swap_ends
double_hash header = swap_ends 16 (sum256 (sum256 header))

unfoldable pub from_raw_block : Bytes → Result Text
unfolding double_hash
from_raw_block raw =
    if ltb (length raw) header_size
    then err short_block
    else ok (Hex.encode (double_hash (take header_size raw)))

parts_of : (c : ℕ) (cs : Bytes) → c ∷ cs ≡ before_last c cs ++ (last_of c cs ∷ [])
parts_of c [] = refl
parts_of c (d ∷ ds) = ap (λ x. c ∷ x) (parts_of d ds)

length-before_last : (c : ℕ) (cs : Bytes) → length (before_last c cs) ≡ length cs
length-before_last c [] = refl
length-before_last c (d ∷ ds) = omega (arith, length-before_last d ds)

reverse-append_one : (xs : Bytes) (y : ℕ) → reverse (xs ++ (y ∷ [])) ≡ y ∷ reverse xs
reverse-append_one [] y = refl
reverse-append_one (x ∷ xs) y =
    reverse-cons x (xs ++ (y ∷ []))
    ∙ ap (λ (r : Bytes). r ++ (x ∷ [])) (reverse-append_one xs y)
    ∙ ap (λ (r : Bytes). y ∷ r) (sym (reverse-cons x xs))

-- With a round for each pair the loop reverses the bytes.
swap_ends-reverse :
    (rounds : ℕ) (xs : Bytes) → length xs ≤ rounds * 2 + 1 → swap_ends rounds xs ≡ reverse xs
unfolding swap_ends
swap_ends-reverse zero [] h = refl
swap_ends-reverse zero (b ∷ []) h = refl
swap_ends-reverse zero (b ∷ c ∷ cs) h = absurd (omega arith)
swap_ends-reverse (suc rounds) [] h = refl
swap_ends-reverse (suc rounds) (b ∷ []) h = refl
swap_ends-reverse (suc rounds) (b ∷ c ∷ cs) h =
    let inner =
      swap_ends-reverse rounds (before_last c cs) (omega (arith, h, length-before_last c cs)) in
    ap (λ (r : Bytes). last_of c cs ∷ (r ++ (b ∷ []))) inner
    ∙ ap (λ (r : Bytes). r ++ (b ∷ [])) (sym (reverse-append_one (before_last c cs) (last_of c cs)))
    ∙ ap (λ (r : Bytes). reverse r ++ (b ∷ [])) (sym (parts_of c cs))
    ∙ sym (reverse-cons b (c ∷ cs))

double_hash-reverse : (header : Bytes) → double_hash header ≡ reverse (sum256 (sum256 header))
unfolding double_hash
double_hash-reverse header =
    swap_ends-reverse 16 (sum256 (sum256 header)) (omega (arith, length-sum256 (sum256 header)))

-- The digest as it is displayed: SHA-256 twice, with the last byte first.
abbrev pub displayed : Bytes → Bytes
displayed header = reverse (sum256 (sum256 header))

pub displayed-bytes :
    (header : Bytes) → (length (displayed header) ≡ 32) × All IsByte (displayed header)
displayed-bytes header =
    let digest = sum256 (sum256 header) in
    (
      length-reverse digest ∙ length-sum256 (sum256 header),
      All-reverse IsByte digest (sum256-bytes _),
    )

short : (n : ℕ) → 80 ≤ n → ltb n 80 ≡ true → ⊥
short n fits y = ground (arith, fits, y)

-- c
pub from_raw_block_iff :
    (raw : Bytes) (hash : Text)
    → (from_raw_block raw ≡ ok hash) ↔ (
        (80 ≤ length raw)
        × (hash ≡ Hex.encode (reverse (sum256 (sum256 (take 80 raw)))))
        × (Hex.decode hash ≡ ok (reverse (sum256 (sum256 (take 80 raw))))))
unfolding from_raw_block
from_raw_block_iff raw hash = (to, from)
  where
    digest : Bytes
    digest = reverse (sum256 (sum256 (take 80 raw)))

    loop : double_hash (take 80 raw) ≡ digest
    loop = double_hash-reverse (take 80 raw)

    to :
        from_raw_block raw ≡ ok hash
        → (80 ≤ length raw) × (hash ≡ Hex.encode digest) × (Hex.decode hash ≡ ok digest)
    to e =
        let (fits, printed) : (80 ≤ length raw) × (hash ≡ Hex.encode (double_hash (take 80 raw))) =
          ground arith in
        let same = printed ∙ ap Hex.encode loop in
        (fits, same, rw same (decode-encode digest (displayed-bytes (take 80 raw)).1))

    from :
        ((80 ≤ length raw) × (hash ≡ Hex.encode digest) × (Hex.decode hash ≡ ok digest))
        → from_raw_block raw ≡ ok hash
    from (fits, same, _) =
        let printed : Hex.encode (double_hash (take 80 raw)) ≡ hash =
          ap Hex.encode loop ∙ sym same in
        elim (Bool-cases (ltb (length raw) header_size)) [
          | inl y ↦ absurd (short (length raw) fits y)
          | inr n ↦ rw n (ap ok printed)
        ]

-- Blocks with the same header have the same hash, whatever follows it.
pub from_raw_block-append :
    (header rest rest' : Bytes)
    → length header ≡ 80
    → from_raw_block (header ++ rest) ≡ from_raw_block (header ++ rest')
unfolding from_raw_block
from_raw_block-append header rest rest' len =
    rw (take-append header rest 80 len, take-append header rest' 80 len)
      (ground (arith, length-append header rest, length-append header rest'))
