-- ===== src/Sha256.antt =====
-- crypto/sha256 (FIPS 180-4): `Sum256`, on words that are numbers below 2^32.
use Prim.Native.Nat.{bit_and, bit_xor}
use fractal_block_sync.Prelude.{
  ℕ, zero, suc, ◌+◌, ◌-◌, ◌*◌, ◌/◌, ◌%◌, ◌^◌, ◌<◌, ◌≡◌, refl, List, [], ◌∷◌, ◌++◌, Bytes, length,
  drop, arith, All,
}

abbrev u32 : ℕ → ℕ
u32 n = n % 2 ^ 32

rotr : ℕ → ℕ → ℕ
rotr x n = x / 2 ^ n + x % 2 ^ n * 2 ^ (32 - n)

shr : ℕ → ℕ → ℕ
shr x n = x / 2 ^ n

xor3 : ℕ → ℕ → ℕ → ℕ
xor3 a b c = bit_xor (bit_xor a b) c

-- The round constants.
constants : List ℕ
constants =
    0x428a2f98 ∷ 0x71374491 ∷ 0xb5c0fbcf ∷ 0xe9b5dba5 ∷ 0x3956c25b ∷ 0x59f111f1 ∷ 0x923f82a4
    ∷ 0xab1c5ed5 ∷ 0xd807aa98 ∷ 0x12835b01 ∷ 0x243185be ∷ 0x550c7dc3 ∷ 0x72be5d74 ∷ 0x80deb1fe
    ∷ 0x9bdc06a7 ∷ 0xc19bf174 ∷ 0xe49b69c1 ∷ 0xefbe4786 ∷ 0x0fc19dc6 ∷ 0x240ca1cc ∷ 0x2de92c6f
    ∷ 0x4a7484aa ∷ 0x5cb0a9dc ∷ 0x76f988da ∷ 0x983e5152 ∷ 0xa831c66d ∷ 0xb00327c8 ∷ 0xbf597fc7
    ∷ 0xc6e00bf3 ∷ 0xd5a79147 ∷ 0x06ca6351 ∷ 0x14292967 ∷ 0x27b70a85 ∷ 0x2e1b2138 ∷ 0x4d2c6dfc
    ∷ 0x53380d13 ∷ 0x650a7354 ∷ 0x766a0abb ∷ 0x81c2c92e ∷ 0x92722c85 ∷ 0xa2bfe8a1 ∷ 0xa81a664b
    ∷ 0xc24b8b70 ∷ 0xc76c51a3 ∷ 0xd192e819 ∷ 0xd6990624 ∷ 0xf40e3585 ∷ 0x106aa070 ∷ 0x19a4c116
    ∷ 0x1e376c08 ∷ 0x2748774c ∷ 0x34b0bcb5 ∷ 0x391c0cb3 ∷ 0x4ed8aa4a ∷ 0x5b9cca4f ∷ 0x682e6ff3
    ∷ 0x748f82ee ∷ 0x78a5636f ∷ 0x84c87814 ∷ 0x8cc70208 ∷ 0x90befffa ∷ 0xa4506ceb ∷ 0xbef9a3f7
    ∷ 0xc67178f2 ∷ []

record Digest : Type 0 where
  a : ℕ
  b : ℕ
  c : ℕ
  d : ℕ
  e : ℕ
  f : ℕ
  g : ℕ
  h : ℕ

initial : Digest
initial = record {
  a = 0x6a09e667;
  b = 0xbb67ae85;
  c = 0x3c6ef372;
  d = 0xa54ff53a;
  e = 0x510e527f;
  f = 0x9b05688c;
  g = 0x1f83d9ab;
  h = 0x5be0cd19;
}

round : Digest → ℕ → ℕ → Digest
unfolding rotr xor3
round s k w =
    let s1 = xor3 (rotr s.e 6) (rotr s.e 11) (rotr s.e 25) in
    let ch = bit_xor (bit_and s.e s.f) (bit_and (2 ^ 32 - 1 - s.e) s.g) in
    let t1 = s.h + s1 + ch + k + w in
    let s0 = xor3 (rotr s.a 2) (rotr s.a 13) (rotr s.a 22) in
    let maj = xor3 (bit_and s.a s.b) (bit_and s.a s.c) (bit_and s.b s.c) in
    record {
      a = u32 (t1 + s0 + maj);
      b = s.a;
      c = s.b;
      d = s.c;
      e = u32 (s.d + t1);
      f = s.e;
      g = s.f;
      h = s.g;
    }

-- The next word of the schedule, from the sixteen before it, oldest first.
next_word : List ℕ → ℕ
unfolding rotr shr xor3
next_word
      (w0 ∷ w1 ∷ w2 ∷ w3 ∷ w4 ∷ w5 ∷ w6 ∷ w7 ∷ w8 ∷ w9 ∷ w10 ∷ w11 ∷ w12 ∷ w13 ∷ w14 ∷ w15 ∷ []) =
    u32 (
      xor3 (rotr w14 17) (rotr w14 19) (shr w14 10)
      + w9
      + xor3 (rotr w1 7) (rotr w1 18) (shr w1 3)
      + w0)
next_word _ = 0

-- One round for each constant, over a window of sixteen words.
rounds : List ℕ → List ℕ → Digest → Digest
unfolding round next_word
rounds [] ws s = s
rounds (k ∷ ks) [] s = s
rounds (k ∷ ks) (w ∷ ws) s = rounds ks (ws ++ next_word (w ∷ ws) ∷ []) (round s k w)

-- Big-endian words.
words : ℕ → Bytes → List ℕ
words zero bs = []
words (suc n) (p ∷ q ∷ r ∷ s ∷ bs) = (p * 2 ^ 24 + q * 2 ^ 16 + r * 2 ^ 8 + s) ∷ words n bs
words (suc n) _ = []

add : Digest → Digest → Digest
add s t = record {
  a = u32 (s.a + t.a);
  b = u32 (s.b + t.b);
  c = u32 (s.c + t.c);
  d = u32 (s.d + t.d);
  e = u32 (s.e + t.e);
  f = u32 (s.f + t.f);
  g = u32 (s.g + t.g);
  h = u32 (s.h + t.h);
}

blocks : ℕ → Bytes → Digest → Digest
unfolding rounds words add constants
blocks zero bs s = s
blocks (suc n) bs s = blocks n (drop 64 bs) (add s (rounds constants (words 16 bs) s))

zeros : ℕ → Bytes → Bytes
zeros zero bs = bs
zeros (suc n) bs = 0 ∷ zeros n bs

-- The n low bytes of a number, the highest first, in front of a text.
big_endian : ℕ → ℕ → Bytes → Bytes
big_endian zero x out = out
big_endian (suc n) x out = big_endian n (x / 256) ((x % 256) ∷ out)

-- A one bit, zeros, and the length in bits, up to a multiple of 64 bytes.
padded : Bytes → Bytes
unfolding zeros big_endian
padded bs = bs ++ (0x80 ∷ zeros ((119 - length bs % 64) % 64) (big_endian 8 (length bs * 8) []))

digest_bytes : Digest → Bytes
unfolding big_endian
digest_bytes s = big_endian 4 s.a (
    big_endian 4 s.b (
      big_endian 4 s.c (
        big_endian 4 s.d
          (big_endian 4 s.e (big_endian 4 s.f (big_endian 4 s.g (big_endian 4 s.h [])))))))

unfoldable pub sum256 : Bytes → Bytes
unfolding blocks padded digest_bytes initial
sum256 bs = digest_bytes (blocks (length (padded bs) / 64) (padded bs) initial)

-- A digest has 32 bytes.
pub length-sum256 : (bs : Bytes) → length (sum256 bs) ≡ 32
unfolding sum256
length-sum256 bs = refl

pub sum256-bytes : (bs : Bytes) → All (λ b. b < 256) (sum256 bs)
unfolding sum256
sum256-bytes bs = omega arith
