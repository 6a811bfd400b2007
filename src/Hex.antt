-- ===== src/Hex.antt =====
-- encoding/hex, as far as the packages use it: `EncodeToString` and `DecodeString`.
pub mod RoundTrip
use fractal_block_sync.Prelude.{
  ℕ, ◌+◌, ◌-◌, ◌*◌, ◌/◌, ◌%◌, Bool, true, false, ◌&&◌, List, [], ◌∷◌, Bytes, Text, ltb, leb,
  if◌then◌else◌,
}
use fractal_block_sync.Errors.{Result, ok, err, invalid_byte, odd_length, ◌>>=◌}

-- `hextable[v]`, for `v < 16`.
unfoldable pub hex_digit : ℕ → ℕ
hex_digit v = if ltb v 10 then b'0' + v else b'a' + v - 10

-- `reverseHexTable[c]`; 255 marks what is no digit.
unfoldable pub hex_value : ℕ → ℕ
hex_value c =
    if leb b'0' c && leb c b'9'
    then c - b'0'
    else if leb b'a' c && leb c b'f'
    then c - b'a' + 10
    else if leb b'A' c && leb c b'F'
    then c - b'A' + 10
    else 255

unfoldable pub encode : Bytes → Text
encode [] = []
encode (b ∷ bs) = hex_digit (b / 16) ∷ hex_digit (b % 16) ∷ encode bs

unfoldable pub decode : Text → Result Bytes
decode [] = ok []
decode (p ∷ []) = if leb (hex_value p) 15 then err odd_length else err (invalid_byte p)
decode (p ∷ q ∷ s) =
    let rest = decode s >>= λ bs. ok ((hex_value p * 16 + hex_value q) ∷ bs) in
    if leb (hex_value p) 15
    then if leb (hex_value q) 15 then rest else err (invalid_byte q)
    else err (invalid_byte p)
