-- ===== src/RangeIndex/Keys.antt =====
-- The key of a range's object names the range: it can be read back from the key.
use fractal_block_sync.Prelude.{
  ℕ, ◌*◌, ◌/◌, ◌<◌, ◌≡◌, ◌↔◌, ap, sym, ◌∙◌, arith, Text, codes, drop, ◌++◌,
}
use native.Mathlib.Nat.{mul-div_cancel}
use fractal_block_sync.Errors.{ok}
use fractal_block_sync.Text.Decimal.{
  decimal, decimal_010, decimal_injective, decimal_010_injective, decimal-IsDigit,
  decimal_010-IsDigit, IsDigit-Lacks, cut_at,
}
use fractal_block_sync.RangeIndex.{key_text, object_key, object_key_for_height}

cancel : (a b n : ℕ) → 0 < n → a * n ≡ b * n → a ≡ b
cancel a b n p e = sym (mul-div_cancel a p) ∙ (ap (λ t. t / n) e ∙ mul-div_cancel b p)

drop_front :
    {u v : Text} → codes "index/range/v1/size-" ++ u ≡ codes "index/range/v1/size-" ++ v → u ≡ v
drop_front h = ap (drop 20) h

pub key_text_injective : (s t m n : ℕ) → key_text s m ≡ key_text t n → (s ≡ t) × (m ≡ n)
unfolding key_text
key_text_injective s t m n h =
    let (size, rest) =
      cut_at b'/' (decimal m) (decimal n) _ _
        (IsDigit-Lacks b'/' _ (omega arith) (decimal-IsDigit m))
        (IsDigit-Lacks b'/' _ (omega arith) (decimal-IsDigit n)) (drop_front h) in
    let (start, _) =
      cut_at b'.' (decimal_010 s) (decimal_010 t) (codes "bin") (codes "bin")
        (IsDigit-Lacks b'.' _ (omega arith) (decimal_010-IsDigit s))
        (IsDigit-Lacks b'.' _ (omega arith) (decimal_010-IsDigit t)) rest in
    (decimal_010_injective s t start, decimal_injective m n size)

-- Equal keys stand for equal ranges: both the start and the size can be read off a key.
pub object_key_injective :
    (s t m n : ℕ) {k : Text} → object_key s m ≡ ok k → object_key t n ≡ ok k → (s ≡ t) × (m ≡ n)
unfolding object_key
object_key_injective s t m n p q = key_text_injective s t m n (ground arith)

pub object_key_for_height_ok :
    (h n : ℕ) {k : Text} {s : ℕ}
    → object_key_for_height h n ≡ ok (k, s)
    → (0 < n) × (s ≡ h / n * n) × (object_key s n ≡ ok k)
unfolding object_key_for_height
object_key_for_height_ok h n e = ground arith

-- With a range size other than zero, every height has a key.
pub object_key_for_height_total :
    (h n : ℕ) → 0 < n → object_key_for_height h n ≡ ok (key_text (h / n * n) n, h / n * n)
unfolding object_key_for_height
object_key_for_height_total h n p = ground arith

-- Two heights have the same index key exactly when they are in the same range.
pub object_key_for_height_iff :
    (g h n : ℕ) {k l : Text} {s t : ℕ}
    → object_key_for_height g n ≡ ok (k, s)
    → object_key_for_height h n ≡ ok (l, t)
    → (k ≡ l) ↔ (g / n ≡ h / n)
object_key_for_height_iff g h n {k} {l} {s} {t} p q =
    let (pos, es, ks) = object_key_for_height_ok g n p in
    let (_, et, kt) = object_key_for_height_ok h n q in
    let same : k ≡ l → g / n ≡ h / n = λ e.
      cancel (g / n) (h / n) n pos (sym es ∙ (object_key_injective s t n n ks (rw e kt)).0 ∙ et) in
    let back : g / n ≡ h / n → k ≡ l = λ e. cc (es, et, ks, kt, e) in (same, back)
