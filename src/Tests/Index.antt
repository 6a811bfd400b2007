-- ===== src/Tests/Index.antt =====
-- Range indexes and block hashes at concrete inputs.
use mathlib.Core.List.{reverse}
use fractal_block_sync.Sha256.{sum256}
use fractal_block_sync.Prelude.{
  ℕ, zero, suc, ◌+◌, ◌*◌, ◌/◌, ◌%◌, ◌≤◌, ◌<◌, ◌≡◌, ◌↔◌, refl, arith, List, [], ◌∷◌, ◌++◌, Bytes,
  Text, codes, length, take,
}
use fractal_block_sync.Errors.{ok, err, short_block, hash_count, ◌>>=◌}
use fractal_block_sync.Hex
use fractal_block_sync.Hex.RoundTrip.{lower}
use fractal_block_sync.Text.Decimal
use fractal_block_sync.Sha256.{sum256}
use fractal_block_sync.RangeIndex.{start_height, object_key, key_text, encode, hash_at}
use fractal_block_sync.RangeIndex.Bounds.{start_height_iff}
use fractal_block_sync.RangeIndex.Keys.{
  object_key_injective, object_key_for_height_total, object_key_for_height_iff,
}
use fractal_block_sync.RangeIndex.RoundTrip.{hash_at-encode}
use fractal_block_sync.RangeIndex.Reads.{hash_at_iff, hashes_of, encode-hashes_of}
use fractal_block_sync.BlockHash.{
  double_hash, from_raw_block, from_raw_block_iff, from_raw_block-append,
}

abbrev pub repeat : ℕ → ℕ → Text
repeat zero c = []
repeat (suc n) c = c ∷ repeat n c

-- The digest of "abc" begins as the standard says.
abc : take 4 (sum256 (codes "abc")) ≡ 0xba ∷ 0x78 ∷ 0x16 ∷ 0xbf ∷ []
unfolding sum256
abc = refl

abbrev genesis_header : Text
genesis_header =
    codes "01000000"
    ++ (repeat 64 b'0'
        ++ (codes "3ba3edfd7a7b12b27ac72c3e67768f617fc81bc3888a51323a9fb8aa4b1e5e4a"
            ++ codes "29ab5f49ffff001d1dac2b7c"))

-- The test of the genesis block: its header hashes to the hash that the network knows.
genesis_hash :
    (Hex.decode genesis_header >>= from_raw_block)
    ≡ ok (codes "000000000019d6689c085ae165831e934ff763ae46a2a6c172b3f1b60a8ce26f")
unfolding Hex.decode Hex.encode from_raw_block sum256 Hex.hex_value Hex.hex_digit
genesis_hash = refl

short_data : from_raw_block (repeat 79 0) ≡ err short_block
unfolding from_raw_block
short_data = refl

first_key : object_key 2500 2500 ≡ ok (codes "index/range/v1/size-2500/0000002500.bin")
unfolding object_key key_text Decimal.decimal Decimal.decimal_010
first_key = refl

start_height_iff_example :
    (start_height 5001 2500 ≡ ok 5000)
    ↔ ((0 < 2500) × (5000 % 2500 ≡ 0) × (5000 ≤ 5001) × (5001 < 5000 + 2500))
start_height_iff_example = start_height_iff 5001 2500 5000

abbrev start : ℕ
start = 2500

object_key_injective_example : (start ≡ start) × (start ≡ start)
object_key_injective_example = object_key_injective start start start start first_key first_key

object_key_for_height_iff_example :
    (key_text 2500 2500 ≡ key_text 2500 2500) ↔ (3000 / start ≡ 4999 / start)
object_key_for_height_iff_example =
    object_key_for_height_iff 3000 4999 start (object_key_for_height_total 3000 start (omega arith))
      (object_key_for_height_total 4999 start (omega arith))

-- Two hashes, the first in upper case.
abbrev two_hashes : List Text
two_hashes = repeat 64 b'A' ∷ repeat 64 b'7' ∷ []

two_encoded : encode two_hashes 2 ≡ ok (repeat 32 0xaa ++ repeat 32 0x77)
unfolding encode Hex.decode Hex.hex_value
two_encoded = refl

hash_at-encode_example :
    hash_at (repeat 32 0xaa ++ repeat 32 0x77) 10 (10 + 0) 2 ≡ ok (lower (repeat 64 b'A'))
hash_at-encode_example = hash_at-encode two_hashes 2 10 0 (omega arith) two_encoded refl

first_read : hash_at (repeat 32 0xaa ++ repeat 32 0x77) 10 10 2 ≡ ok (repeat 64 b'a')
unfolding hash_at Hex.encode Hex.hex_digit
first_read = refl

one_short : encode two_hashes 3 ≡ err (hash_count 3 2)
unfolding encode
one_short = refl

hash_at_iff_example :
    ((t : Text) × (hash_at (repeat 64 0) 10 11 2 ≡ ok t))
    ↔ ((10 ≤ 11) × (11 < 10 + 2) × (length (repeat 64 0) ≡ 2 * 32))
hash_at_iff_example = hash_at_iff (repeat 64 0) 10 11 2 (omega arith)

encode-hashes_of_example : encode (hashes_of 2 (repeat 64 9)) 2 ≡ ok (repeat 64 9)
encode-hashes_of_example =
    encode-hashes_of 2 (repeat 64 9) (omega arith) (omega arith) refl (omega arith)

abbrev pub zero_block : Bytes
zero_block = repeat 80 0

unfoldable pub zero_hash : Text
unfolding Hex.encode Hex.hex_digit double_hash
zero_hash = Hex.encode (double_hash zero_block)

zero_block_hash : from_raw_block zero_block ≡ ok zero_hash
unfolding from_raw_block zero_hash
zero_block_hash = refl

from_raw_block_iff_example : (from_raw_block zero_block ≡ ok zero_hash) ↔ (
    (80 ≤ length zero_block)
    × (zero_hash ≡ Hex.encode (reverse (sum256 (sum256 (take 80 zero_block)))))
    × (Hex.decode zero_hash ≡ ok (reverse (sum256 (sum256 (take 80 zero_block))))))
from_raw_block_iff_example = from_raw_block_iff zero_block zero_hash

from_raw_block-append_example :
    from_raw_block (zero_block ++ 1 ∷ []) ≡ from_raw_block (zero_block ++ 2 ∷ [])
from_raw_block-append_example = from_raw_block-append zero_block (1 ∷ []) (2 ∷ []) refl
