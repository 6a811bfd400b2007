-- ===== src/RangeIndex/RoundTrip.antt =====
-- The index reads back what was encoded, hash by hash.
use fractal_block_sync.Prelude.{
  ℕ, zero, suc, ◌+◌, ◌*◌, ◌^◌, ◌<◌, ◌≡◌, ◌∙◌, arith, Text, Bytes, List, ◌++◌, ◌∷◌, [], inl, inr,
  length, take, drop, get_elem?, some, length-append, take-append, drop-append, append_assoc,
  append-nil, drop-drop, All-append, get_elem?-lt, All,
}
use fractal_block_sync.Errors.{ok, err, ◌>>=◌, wrap, Result-cases, bad_hash_at}
use fractal_block_sync.Hex
use fractal_block_sync.Hex.RoundTrip.{lower, IsByte, encode-decode}
use fractal_block_sync.RangeIndex.{decode_hash_hex, encode_from, encode, hash_at}

-- The hashes' bytes, one after another.
pub data Chunks : List Text → Bytes → Type 0 where
  done : Chunks [] []
  chunk :
      (hash : Text) (raw : Bytes) {hashes : List Text} {rest : Bytes}
      → decode_hash_hex hash ≡ ok raw
      → Chunks hashes rest
      → Chunks (hash ∷ hashes) (raw ++ rest)

pub decode_hash_hex_sound :
    (hash : Text) {raw : Bytes}
    → decode_hash_hex hash ≡ ok raw
    → (length raw ≡ 32) × (Hex.encode raw ≡ lower hash) × All IsByte raw
unfolding decode_hash_hex
decode_hash_hex_sound hash {raw} e = elim (Result-cases (Hex.decode hash)) [
  | inl (bs, p) ↦ ground (arith, p, encode-decode hash {bs = bs} p)
  | inr (x, p) ↦ ground (arith, p)
]

encode_from-Chunks :
    (i : ℕ) (hashes : List Text) (out : Bytes) {bin : Bytes}
    → encode_from i hashes out ≡ ok bin
    → (rest : Bytes) × (bin ≡ out ++ rest) × Chunks hashes rest
unfolding encode_from
encode_from-Chunks i [] out {bin} e = ([], ground (arith, append-nil out), done)
encode_from-Chunks i (hash ∷ hashes) out {bin} e = elim (Result-cases (decode_hash_hex hash)) [
  | inl (raw, p) ↦
      let (rest, same, chunks) =
        encode_from-Chunks (suc i) hashes (out ++ raw) {bin = bin} (rw p at e) in
      (raw ++ rest, same ∙ append_assoc out raw rest, chunk hash raw p chunks)
  | inr (x, p) ↦
      let h : wrap (bad_hash_at i) (err x) >>= (λ raw. encode_from (suc i) hashes (out ++ raw))
          ≡ ok bin =
        rw p at e in
      cc
]

pub length-Chunks :
    {hashes : List Text} {bin : Bytes} → Chunks hashes bin → length bin ≡ length hashes * 32
length-Chunks done = omega arith
length-Chunks (chunk hash raw {rest = rest} p c) =
    omega (arith, length-append raw rest, (decode_hash_hex_sound hash p).0, length-Chunks c)

-- the hash at index i is the one cut out at 32 * i
take-Chunks :
    {hashes : List Text} {bin : Bytes}
    → Chunks hashes bin
    → (i : ℕ) {hash : Text} → get_elem? hashes i ≡ some hash
    → Hex.encode (take 32 (drop (i * 32) bin)) ≡ lower hash
take-Chunks done i e = cc
take-Chunks (chunk hash raw {rest = rest} p c) zero e =
    let (len, same, _) = decode_hash_hex_sound hash p in
    rw (take-append raw rest 32 len) (ground (arith, same))
take-Chunks (chunk hash raw {rest = rest} p c) (suc i) e =
    let (len, _, _) = decode_hash_hex_sound hash p in
    let shift : suc i * 32 ≡ 32 + i * 32 = omega arith in
    rw (shift, ← drop-drop (raw ++ rest) (i * 32) 32, drop-append raw rest 32 len)
      (take-Chunks c i e)

All-Chunks : {hashes : List Text} {bin : Bytes} → Chunks hashes bin → All IsByte bin
All-Chunks done = tt
All-Chunks (chunk hash raw {rest = rest} p c) =
    All-append IsByte raw rest (decode_hash_hex_sound hash p).2 (All-Chunks c)

-- An encoded range holds the bytes of its hashes in order, one hash for each height.
pub encode_sound :
    (hashes : List Text) (n : ℕ) {bin : Bytes}
    → encode hashes n ≡ ok bin
    → (0 < n) × (length hashes ≡ n) × Chunks hashes bin
unfolding encode
encode_sound hashes n {bin} e =
    let inner : (0 < n) × (length hashes ≡ n) × (encode_from 0 hashes [] ≡ ok bin) = ground arith in
    let (rest, same, chunks) = encode_from-Chunks 0 hashes [] inner.2 in
    (inner.0, inner.1, rw same chunks)

-- Reading height `start + i` of an encoded range gives the i-th hash, its digits in lower case, for
-- a range size whose byte count fits an `int`.
pub hash_at-encode :
    (hashes : List Text) (n start i : ℕ) {bin : Bytes} {hash : Text}
    → n < 2 ^ 58
    → encode hashes n ≡ ok bin
    → get_elem? hashes i ≡ some hash
    → hash_at bin start (start + i) n ≡ ok (lower hash)
unfolding hash_at
hash_at-encode hashes n start i {bin} {hash} fits e at =
    let (pos, count, chunks) = encode_sound hashes n e in
    ground (arith, length-Chunks chunks, get_elem?-lt hashes i at, take-Chunks chunks i at)
