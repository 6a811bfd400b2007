-- ===== src/Prelude/Words.antt =====
-- Fixed-width arithmetic of Go on a 64-bit machine, and texts as byte sequences.
use Prim.Native.Nat.{ℕ, ◌%◌, ◌^◌, ◌-◌}
use Prim.Native.Char.{code}
use Prim.Native.String.{String}
use mathlib.Core.List.{List, [], ◌∷◌}

-- A sequence of bytes: `[]byte`, and the contents of a Go `string`.
abbrev pub Bytes : Type 0
Bytes = List ℕ

abbrev pub Text : Type 0
Text = List ℕ

-- The bytes of an ASCII literal.
abbrev pub codes : String → Text
codes String.[] = []
codes (String.◌∷◌ c s) = code c ∷ codes s

-- A `uint64` result wraps.
abbrev pub u64 : ℕ → ℕ
u64 n = n % 2 ^ 64

-- `^uint64(0)`
abbrev pub max_u64 : ℕ
max_u64 = 2 ^ 64 - 1

-- An `int` is kept as its 64-bit pattern: patterns from here on are negative.
abbrev pub int_sign : ℕ
int_sign = 2 ^ 63
