-- ===== src/Text/Decimal.antt =====
-- `%d` and `%010d` of a `uint64`, and that the print determines the number.
use fractal_block_sync.Prelude.{
  ℕ, zero, suc, ◌+◌, ◌-◌, ◌*◌, ◌/◌, ◌%◌, ◌≤◌, ◌<◌, ◌≡◌, ◌≢◌, refl, ap, sym, ◌∙◌, [], ◌∷◌, ◌++◌,
  Text, ◌==◌, if◌then◌else◌, arith, All, length,
}

-- The rounds of the digit loop. Every round divides by ten, so `n` rounds are more than enough.
emit : ℕ → ℕ → Text → Text
emit zero n out = out
emit (suc f) n out =
    let more = emit f (n / 10) ((b'0' + n % 10) ∷ out) in if n == 0 then out else more

-- `%d`
unfoldable pub decimal : ℕ → Text
unfolding emit
decimal n = if n == 0 then b'0' ∷ [] else emit n n []

-- k zeros in front of a text
zeros : ℕ → Text → Text
zeros zero s = s
zeros (suc k) s = b'0' ∷ zeros k s

-- `%010d`
unfoldable pub decimal_010 : ℕ → Text
unfolding zeros
decimal_010 n = zeros (10 - length (decimal n)) (decimal n)

abbrev pub IsDigit : ℕ → Type 0
IsDigit c = (b'0' ≤ c) × (c ≤ b'9')

-- The number that digits spell behind `n`.
value : ℕ → Text → ℕ
value n [] = n
value n (c ∷ s) = value (n * 10 + (c - b'0')) s

value-emit : (f n : ℕ) (out : Text) → n ≤ f → value 0 (emit f n out) ≡ value n out
unfolding value emit
value-emit zero n out h = let e : n ≡ 0 = omega arith in rw e
value-emit (suc f) n out h = ground (arith, value-emit f (n / 10) ((b'0' + n % 10) ∷ out))

emit-IsDigit : (f n : ℕ) (out : Text) → All IsDigit out → All IsDigit (emit f n out)
unfolding emit
emit-IsDigit zero n out h = h
emit-IsDigit (suc f) n out h = ground (arith, emit-IsDigit f (n / 10) ((b'0' + n % 10) ∷ out))

pub decimal-IsDigit : (n : ℕ) → All IsDigit (decimal n)
unfolding decimal
decimal-IsDigit n = ground (arith, emit-IsDigit n n [])

value-decimal : (n : ℕ) → value 0 (decimal n) ≡ n
unfolding decimal value
value-decimal n = ground (arith, value-emit n n [])

pub decimal_injective : (m n : ℕ) → decimal m ≡ decimal n → m ≡ n
decimal_injective m n h = sym (value-decimal m) ∙ ap (value 0) h ∙ value-decimal n

zeros-IsDigit : (k : ℕ) (s : Text) → All IsDigit s → All IsDigit (zeros k s)
unfolding zeros
zeros-IsDigit zero s h = h
zeros-IsDigit (suc k) s h = (omega arith, zeros-IsDigit k s h)

value-zeros : (k : ℕ) (s : Text) → value 0 (zeros k s) ≡ value 0 s
unfolding zeros value
value-zeros zero s = refl
value-zeros (suc k) s = value-zeros k s

pub decimal_010-IsDigit : (n : ℕ) → All IsDigit (decimal_010 n)
unfolding decimal_010
decimal_010-IsDigit n = zeros-IsDigit _ (decimal n) (decimal-IsDigit n)

value-decimal_010 : (n : ℕ) → value 0 (decimal_010 n) ≡ n
unfolding decimal_010
value-decimal_010 n = value-zeros _ (decimal n) ∙ value-decimal n

pub decimal_010_injective : (m n : ℕ) → decimal_010 m ≡ decimal_010 n → m ≡ n
decimal_010_injective m n h = sym (value-decimal_010 m) ∙ ap (value 0) h ∙ value-decimal_010 n

abbrev pub Lacks : ℕ → Text → Type 0
Lacks b = All (λ c. c ≢ b)

pub IsDigit-Lacks : (b : ℕ) (s : Text) → b < b'0' → All IsDigit s → Lacks b s
IsDigit-Lacks b [] h d = tt
IsDigit-Lacks b (c ∷ s) h (hc, d) = (omega arith, IsDigit-Lacks b s h d)

-- Two texts that are followed by a separator which neither holds are cut alike.
pub cut_at :
    (b : ℕ) (s t u v : Text) → Lacks b s → Lacks b t → s ++ b ∷ u ≡ t ++ b ∷ v → (s ≡ t) × (u ≡ v)
cut_at b [] [] u v hs ht h = ground arith
cut_at b [] (y ∷ t) u v hs ht h = ground arith
cut_at b (x ∷ s) [] u v hs ht h = ground arith
cut_at b (x ∷ s) (y ∷ t) u v hs ht h = ground (arith, cut_at b s t u v)
