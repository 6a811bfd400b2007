-- ===== src/Effects.antt =====
-- Calls of a service: each takes the state of the world, and returns a result with the state after.
pub mod Laws
use fractal_block_sync.Errors.{Err, Result, ok, err}

abbrev pub Effect : Type 0 → Type 0 → Type 0
Effect S A = S → Result A × S

abbrev pub continue : {S A B : Type 0} → Result A × S → (A → Effect S B) → Result B × S
continue (ok a, s) f = f a s
continue (err e, s) f = (err e, s)

infixl 5 ◌>>=◌ ◌>>◌
abbrev pub ◌>>=◌ : {S A B : Type 0} → Effect S A → (A → Effect S B) → Effect S B
◌>>=◌ m f s = continue (m s) f

abbrev pub ◌>>◌ : {S B : Type 0} → Effect S (Unit {0}) → Effect S B → Effect S B
◌>>◌ m k s = continue (m s) (λ _. k)

abbrev pub pure : {S A : Type 0} → A → Effect S A
pure a s = (ok a, s)

abbrev pub fail : {S A : Type 0} → Err → Effect S A
fail e s = (err e, s)

-- A result that needs no service.
abbrev pub lift : {S A : Type 0} → Result A → Effect S A
lift r s = (r, s)

abbrev pub wrap_result : {S A : Type 0} → (Err → Err) → Result A × S → Result A × S
wrap_result f (ok a, s) = (ok a, s)
wrap_result f (err e, s) = (err (f e), s)

-- `if err != nil { return fmt.Errorf("…%w", err) }`
abbrev pub wrapping : {S A : Type 0} → (Err → Err) → Effect S A → Effect S A
wrapping f m s = wrap_result f (m s)
