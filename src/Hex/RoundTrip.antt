-- ===== src/Hex/RoundTrip.antt =====
-- Hexadecimal text read back, and which texts are read at all.
use fractal_block_sync.Prelude.{
  ℕ, ◌+◌, ◌*◌, ◌/◌, ◌%◌, ◌≤◌, ◌<◌, ◌≡◌, refl, ◌&&◌, [], ◌∷◌, Bytes, Text, leb, if◌then◌else◌, arith,
  length, All, inl, inr,
}
use fractal_block_sync.Errors.{ok, Result-cases}
use fractal_block_sync.Hex.{hex_digit, hex_value, encode, decode}

abbrev pub IsByte : ℕ → Type 0
IsByte b = b < 256

-- The digit itself, in lower case.
unfoldable pub lower_digit : ℕ → ℕ
lower_digit c = if leb b'A' c && leb c b'F' then c + 32 else c

unfoldable pub lower : Text → Text
lower [] = []
lower (c ∷ s) = lower_digit c ∷ lower s

pub hex_value-hex_digit : (v : ℕ) → v < 16 → hex_value (hex_digit v) ≡ v
unfolding hex_value hex_digit
hex_value-hex_digit v h = ground arith

pub hex_digit-hex_value : (c : ℕ) → hex_value c ≤ 15 → hex_digit (hex_value c) ≡ lower_digit c
unfolding hex_value hex_digit lower_digit
hex_digit-hex_value c h = ground arith

pub length-encode : (bs : Bytes) → length (encode bs) ≡ 2 * length bs
unfolding encode
length-encode [] = omega arith
length-encode (b ∷ bs) = omega (arith, length-encode bs)

-- Decoding what was encoded gives the bytes back.
pub decode-encode : (bs : Bytes) → All IsByte bs → decode (encode bs) ≡ ok bs
unfolding decode encode
decode-encode [] h = refl
decode-encode (b ∷ bs) (hb, h) =
    rw
      (
        hex_value-hex_digit (b / 16) (omega arith),
        hex_value-hex_digit (b % 16) (omega arith),
        decode-encode bs h,
      )
      (ground arith)

pair_div : (a b : ℕ) → b ≤ 15 → (a * 16 + b) / 16 ≡ a
pair_div a b h = omega arith

pair_mod : (a b : ℕ) → b ≤ 15 → (a * 16 + b) % 16 ≡ b
pair_mod a b h = omega arith

-- A decoded text is the encoding of the result, up to the case of its digits.
pub encode-decode :
    (s : Text) {bs : Bytes} → decode s ≡ ok bs → (encode bs ≡ lower s) × All IsByte bs
unfolding decode encode lower
encode-decode [] h = ground arith
encode-decode (p ∷ []) h = ground arith
encode-decode (p ∷ q ∷ s) {bs} h = elim (Result-cases (decode s)) [
  | inl (cs, e) ↦ ground (
    arith,
    encode-decode s e,
    hex_digit-hex_value p,
    hex_digit-hex_value q,
    pair_div (hex_value p) (hex_value q),
    pair_mod (hex_value p) (hex_value q),
  )
  | inr (x, e) ↦ ground (arith, e)
]
