-- ===== src/Text.antt =====
-- The functions of Go's `strings` and `fmt` packages that the program calls on texts.
pub mod Decimal
use fractal_block_sync.Prelude.{
  ℕ, ◌+◌, ◌≤◌, ◌<◌, ◌≡◌, refl, arith, All, All-reverse, Bool, true, false, ◌&&◌, ◌||◌, List, [],
  ◌∷◌, ◌++◌, Text, ltb, leb, ◌==◌, if◌then◌else◌, text_eq,
}
use mathlib.Core.List.{reverse, reverse-reverse}

-- The ASCII part of `unicode.IsSpace`.
is_space : ℕ → Bool
is_space c = (leb 9 c && leb c 13) || c == 32

-- The last byte of a three-byte space that begins with `e2 80`, `e2 81`, `e1 9a` or `e3 80`:
-- U+2000 to U+200A, U+2028, U+2029, U+202F, U+205F, U+1680 and U+3000.
is_wide_space : ℕ → ℕ → ℕ → Bool
is_wide_space a b c =
    (a == 0xe2 && b == 0x80 && ((leb 0x80 c && leb c 0x8a) || c == 0xa8 || c == 0xa9 || c == 0xaf))
    || (a == 0xe2 && b == 0x81 && c == 0x9f)
    || (a == 0xe1 && b == 0x9a && c == 0x80)
    || (a == 0xe3 && b == 0x80 && c == 0x80)

-- `TrimLeftFunc(s, unicode.IsSpace)`: spaces of one, two (U+0085, U+00A0) and three bytes.
trim_left : Text → Text
unfolding is_space is_wide_space
trim_left [] = []
trim_left (a ∷ []) = if is_space a then [] else a ∷ []
trim_left (a ∷ b ∷ []) =
    let one = trim_left (b ∷ []) in
    if is_space a then one else if a == 0xc2 && (b == 0x85 || b == 0xa0) then [] else a ∷ b ∷ []
trim_left (a ∷ b ∷ c ∷ s) =
    let one = trim_left (b ∷ c ∷ s) in
    let two = trim_left (c ∷ s) in
    let three = trim_left s in
    if is_space a
    then one
    else if a == 0xc2 && (b == 0x85 || b == 0xa0)
    then two
    else if is_wide_space a b c
    then three
    else a ∷ b ∷ c ∷ s

-- The same from the end, on the reversed text: a space's last byte comes first. No other rune
-- ends in the bytes of a space, so looking at them alone decides as `DecodeLastRune` does.
trim_right_reversed : Text → Text
unfolding is_space is_wide_space
trim_right_reversed [] = []
trim_right_reversed (a ∷ []) = if is_space a then [] else a ∷ []
trim_right_reversed (b ∷ a ∷ []) =
    let one = trim_right_reversed (a ∷ []) in
    if is_space b then one else if a == 0xc2 && (b == 0x85 || b == 0xa0) then [] else b ∷ a ∷ []
trim_right_reversed (c ∷ b ∷ a ∷ s) =
    let one = trim_right_reversed (b ∷ a ∷ s) in
    let two = trim_right_reversed (a ∷ s) in
    let three = trim_right_reversed s in
    if is_space c
    then one
    else if b == 0xc2 && (c == 0x85 || c == 0xa0)
    then two
    else if is_wide_space a b c
    then three
    else c ∷ b ∷ a ∷ s

-- `strings.TrimSpace`
unfoldable pub trim_space : Text → Text
unfolding trim_left trim_right_reversed
trim_space s = reverse (trim_right_reversed (reverse (trim_left s)))

-- `strings.ToLower`, read off its ASCII bytes: only U+0130 and U+212A, of all other runes, have an
-- ASCII letter for their lower case. The bytes of the rest are left as they are.
unfoldable pub to_lower : Text → Text
to_lower [] = []
to_lower (a ∷ []) = (if leb b'A' a && leb a b'Z' then a + 32 else a) ∷ []
to_lower (a ∷ b ∷ []) =
    if a == 0xc4 && b == 0xb0
    then b'i' ∷ []
    else (if leb b'A' a && leb a b'Z' then a + 32 else a) ∷ to_lower (b ∷ [])
to_lower (a ∷ b ∷ c ∷ s) =
    let two = b'i' ∷ to_lower (c ∷ s) in
    let three = b'k' ∷ to_lower s in
    let one = (if leb b'A' a && leb a b'Z' then a + 32 else a) ∷ to_lower (b ∷ c ∷ s) in
    if a == 0xc4 && b == 0xb0
    then two
    else if a == 0xe2 && b == 0x84 && c == 0xaa
    then three
    else one

-- `strings.HasPrefix(s, p)`
unfoldable pub has_prefix : Text → Text → Bool
has_prefix s [] = true
has_prefix [] (c ∷ p) = false
has_prefix (d ∷ s) (c ∷ p) = d == c && has_prefix s p

-- `strings.Contains(s, p)`
unfoldable pub contains : Text → Text → Bool
unfolding has_prefix
contains [] p = has_prefix [] p
contains (c ∷ s) p = has_prefix (c ∷ s) p || contains s p

-- No byte of a space: from the digits to the end of ASCII.
abbrev pub IsPlain : ℕ → Type 0
IsPlain c = (b'0' ≤ c) × (c < 128)

trim_left-IsPlain : (s : Text) → All IsPlain s → trim_left s ≡ s
unfolding trim_left is_space is_wide_space
trim_left-IsPlain [] h = refl
trim_left-IsPlain (a ∷ []) (p, h) = ground (arith, p)
trim_left-IsPlain (a ∷ b ∷ []) (p, h) = ground (arith, p)
trim_left-IsPlain (a ∷ b ∷ c ∷ s) (p, h) = ground (arith, p)

trim_right_reversed-IsPlain : (s : Text) → All IsPlain s → trim_right_reversed s ≡ s
unfolding trim_right_reversed is_space is_wide_space
trim_right_reversed-IsPlain [] h = refl
trim_right_reversed-IsPlain (a ∷ []) (p, h) = ground (arith, p)
trim_right_reversed-IsPlain (b ∷ a ∷ []) (p, (q, h)) = ground (arith, p, q)
trim_right_reversed-IsPlain (c ∷ b ∷ a ∷ s) (p, (q, (r, h))) = ground (arith, p, q, r)

-- A text with no byte of a space has no spaces around it.
pub trim_space-IsPlain : (s : Text) → All IsPlain s → trim_space s ≡ s
unfolding trim_space
trim_space-IsPlain s h =
    rw (trim_left-IsPlain s h)
      (rw (trim_right_reversed-IsPlain (reverse s) (All-reverse IsPlain s h)) (reverse-reverse s))
