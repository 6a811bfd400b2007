-- ===== src/RangeIndex/Reads.antt =====
-- Which reads of an index succeed, and that an index is determined by what is read from it.
use fractal_block_sync.Prelude.{
  ℕ, zero, suc, ◌+◌, ◌-◌, ◌*◌, ◌^◌, ◌≤◌, ◌<◌, ◌≡◌, ◌≢◌, ◌↔◌, refl, ap, arith, Text, Bytes, List,
  ◌++◌, ◌∷◌, [], length, take, drop, length-take, length-drop, take-append-drop, append_assoc,
  append-nil, All, All-take, All-drop,
}
use fractal_block_sync.Errors.{ok, err, panic, past_length}
use fractal_block_sync.Hex
use fractal_block_sync.Hex.RoundTrip.{IsByte, decode-encode}
use fractal_block_sync.RangeIndex.{decode_hash_hex, encode_from, encode, hash_at}

-- A read succeeds exactly when the height lies in the range and the index has its full length; for
-- a range size whose byte count fits an `int`.
pub hash_at_iff :
    (bin : Bytes) (start height n : ℕ)
    → n < 2 ^ 58
    → ((t : Text) × (hash_at bin start height n ≡ ok t))
      ↔ ((start ≤ height) × (height < start + n) × (length bin ≡ n * 32))
unfolding hash_at
hash_at_iff bin start height n fits = (to, from)
  where
    to :
        ((t : Text) × (hash_at bin start height n ≡ ok t))
        → ((start ≤ height) × (height < start + n) × (length bin ≡ n * 32))
    to (t, e) = ground arith

    from :
        ((start ≤ height) × (height < start + n) × (length bin ≡ n * 32))
        → ((t : Text) × (hash_at bin start height n ≡ ok t))
    from (a, b, c) = (Hex.encode (take 32 (drop ((height - start) * 32) bin)), ground arith)

-- No read of an index panics or passes its end, again for a range size whose byte count fits an `int`.
pub hash_at-within :
    (bin : Bytes) (start height n : ℕ)
    → n < 2 ^ 58
    → (hash_at bin start height n ≢ err panic) × (hash_at bin start height n ≢ err past_length)
unfolding hash_at
hash_at-within bin start height n fits = (ground arith, ground arith)

-- All the hashes of an index of k entries.
unfoldable pub hashes_of : ℕ → Bytes → List Text
hashes_of zero bin = []
hashes_of (suc k) bin = Hex.encode (take 32 bin) ∷ hashes_of k (drop 32 bin)

decode_hash_hex-encode :
    (raw : Bytes) → length raw ≡ 32 → All IsByte raw → decode_hash_hex (Hex.encode raw) ≡ ok raw
unfolding decode_hash_hex
decode_hash_hex-encode raw len bytes = rw (decode-encode raw bytes) (ground arith)

encode_from-hashes_of :
    (i k : ℕ) (bin out : Bytes)
    → length bin ≡ k * 32
    → All IsByte bin
    → encode_from i (hashes_of k bin) out ≡ ok (out ++ bin)
unfolding encode_from hashes_of
encode_from-hashes_of i zero [] out len bytes = rw append-nil
encode_from-hashes_of i zero (b ∷ bin) out len bytes = absurd (omega arith)
encode_from-hashes_of i (suc k) bin out len bytes =
    rw
      (decode_hash_hex-encode (take 32 bin) (omega (arith, length-take 32 bin))
        (All-take IsByte 32 bin bytes))
      (rw
        (encode_from-hashes_of (suc i) k (drop 32 bin) (out ++ take 32 bin)
          (omega (arith, length-drop 32 bin)) (All-drop IsByte 32 bin bytes))
        (rw (append_assoc out, take-append-drop 32 bin)))

length-hashes_of : (k : ℕ) (bin : Bytes) → length (hashes_of k bin) ≡ k
unfolding hashes_of
length-hashes_of zero bin = refl
length-hashes_of (suc k) bin = ap suc (length-hashes_of k (drop 32 bin))

-- Encoding the hashes of an index gives the index back, byte for byte.
pub encode-hashes_of :
    (n : ℕ) (bin : Bytes)
    → 0 < n
    → n < 2 ^ 58
    → length bin ≡ n * 32
    → All IsByte bin
    → encode (hashes_of n bin) n ≡ ok bin
unfolding encode
encode-hashes_of n bin pos fits len bytes =
    ground (arith, length-hashes_of n bin, encode_from-hashes_of 0 n bin [] len bytes)
