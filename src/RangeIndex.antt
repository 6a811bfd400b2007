-- ===== src/RangeIndex.antt =====
-- rangeindex/rangeindex.go: the binary index of the block hashes of one height range.
pub mod Bounds
pub mod Keys
pub mod RoundTrip
pub mod Reads
use fractal_block_sync.Prelude.{
  ℕ, suc, ◌+◌, ◌-◌, ◌*◌, ◌/◌, ◌^◌, Bool, ◌||◌, List, [], ◌∷◌, ◌++◌, Bytes, Text, codes, u64,
  int_sign, ltb, leb, ◌==◌, not, if◌then◌else◌, length, take, drop,
}
use fractal_block_sync.Errors.{
  Err, Result, ok, err, panic, past_length, zero_range_size, hash_count, bad_hash_at, outside_range,
  bin_length, hash_length, wrap, ◌>>=◌,
}
use fractal_block_sync.Text.Decimal.{decimal, decimal_010}
use fractal_block_sync.Hex

abbrev pub hash_size : ℕ
hash_size = 32

abbrev pub default_range_size : ℕ
default_range_size = 2500

unfoldable pub start_height : ℕ → ℕ → Result ℕ
start_height height range_size =
    if range_size == 0 then err zero_range_size else ok (height / range_size * range_size)

-- `Sprintf("index/range/v1/size-%d/%010d.bin", rangeSize, startHeight)`
unfoldable pub key_text : ℕ → ℕ → Text
key_text start range_size =
    codes "index/range/v1/size-"
    ++ (decimal range_size ++ (b'/' ∷ (decimal_010 start ++ codes ".bin")))

unfoldable pub object_key : ℕ → ℕ → Result Text
object_key start range_size =
    if range_size == 0 then err zero_range_size else ok (key_text start range_size)

unfoldable pub object_key_for_height : ℕ → ℕ → Result (Text × ℕ)
unfolding start_height object_key
object_key_for_height height range_size = do
  start ← start_height height range_size
  key ← object_key start range_size
  ok (key, start)

unfoldable pub decode_hash_hex : Text → Result Bytes
decode_hash_hex hash = do
  raw ← Hex.decode hash
  if length raw == hash_size then ok raw else err (hash_length (length raw))

-- The loop of `Encode`, at index i.
unfoldable pub encode_from : ℕ → List Text → Bytes → Result Bytes
unfolding decode_hash_hex
encode_from i [] out = ok out
encode_from i (hash ∷ hashes) out =
    wrap (bad_hash_at i) (decode_hash_hex hash) >>= λ raw. encode_from (suc i) hashes (out ++ raw)

-- The capacity given to `make` is an `int` product, which panics where it is negative. (It panics above
-- 2^48 as well; the list would then have more than 2^43 strings, and be longer than the address space.)
unfoldable pub encode : List Text → ℕ → Result Bytes
unfolding encode_from
encode hashes range_size =
    if range_size == 0
    then err zero_range_size
    else if not (length hashes == range_size)
    then err (hash_count range_size (length hashes))
    else if leb int_sign (u64 (range_size * hash_size))
    then err panic
    else encode_from 0 hashes []

-- `bin[offset : offset+HashSize]`, which panics for a negative offset. Go compares the upper bound with
-- the capacity of the slice. What lies between length and capacity is not known here: past the length the
-- read has the outcome `past_length`, which is a panic or bytes that are not the object's.
unfoldable pub slice_hash : Bytes → ℕ → Result Text
slice_hash bin offset =
    if leb int_sign offset
    then err panic
    else if ltb (length bin) (offset + hash_size)
    then err past_length
    else ok (Hex.encode (take hash_size (drop offset bin)))

unfoldable pub hash_at : Bytes → ℕ → ℕ → ℕ → Result Text
unfolding slice_hash
hash_at bin start height range_size =
    if range_size == 0
    then err zero_range_size
    else if ltb height start || leb range_size (height - start)
    then err (outside_range height start range_size)
    else if not (length bin == u64 (range_size * hash_size))
    then err (bin_length (length bin) (u64 (range_size * hash_size)))
    else slice_hash bin (u64 ((height - start) * hash_size))
