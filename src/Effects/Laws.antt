-- ===== src/Effects/Laws.antt =====
-- What a run of calls in order keeps, and what its success says of each.
use fractal_block_sync.Prelude.{◌≡◌, refl}
use fractal_block_sync.Errors.{Err, Result, ok, err}
use fractal_block_sync.Effects.{Effect, continue, wrap_result}

module _ {S A B : Type 0} where
  pub continue-keeps :
      (P : S → Type 0) (r : Result A × S) (f : A → Effect S B)
      → P r.1
      → ((a : A) (s : S) → P s → P (f a s).1)
      → P (continue r f).1
  continue-keeps P (ok a, s) f h k = k a s h
  continue-keeps P (err e, s) f h k = h

  -- The second call finds more than the run keeps.
  pub continue-leads :
      (P Q : S → Type 0) (r : Result A × S) (f : A → Effect S B)
      → P r.1
      → ((s : S) → P s → Q s)
      → ((a : A) (s : S) → P s → Q (f a s).1)
      → Q (continue r f).1
  continue-leads P Q (ok a, s) f h w k = k a s h
  continue-leads P Q (err e, s) f h w k = w s h

  pub wrapped-keeps :
      (P : S → Type 0) (g : Err → Err) (r : Result A × S) (f : A → Effect S B)
      → P r.1
      → ((a : A) (s : S) → P s → P (f a s).1)
      → P (continue (wrap_result g r) f).1
  wrapped-keeps P g (ok a, s) f h k = k a s h
  wrapped-keeps P g (err e, s) f h k = h

  pub continue-ok :
      (r : Result A × S) (f : A → Effect S B) {b : B} {t : S}
      → continue r f ≡ (ok b, t)
      → (a : A) × (r ≡ (ok a, r.1)) × (f a r.1 ≡ (ok b, t))
  continue-ok (ok a, s) f h = (a, refl, h)
  continue-ok (err e, s) f h = cc

  pub wrapped-ok :
      (g : Err → Err) (r : Result A × S) (f : A → Effect S B) {b : B} {t : S}
      → continue (wrap_result g r) f ≡ (ok b, t)
      → (a : A) × (r.0 ≡ ok a) × (f a r.1 ≡ (ok b, t))
  wrapped-ok g (ok a, s) f h = (a, refl, h)
  wrapped-ok g (err e, s) f h = cc

pub wrap_result-ok :
    {S A : Type 0} (g : Err → Err) (r : Result A × S) {a : A} {t : S}
    → wrap_result g r ≡ (ok a, t)
    → r ≡ (ok a, t)
wrap_result-ok g (ok a, s) e = e
wrap_result-ok g (err x, s) e = cc

pub wrap_result-keeps :
    {S A : Type 0} (P : S → Type 0) (g : Err → Err) (r : Result A × S)
    → P r.1
    → P (wrap_result g r).1
wrap_result-keeps P g (ok a, s) p = p
wrap_result-keeps P g (err e, s) p = p

pub lifted-keeps :
    {S A B : Type 0} (P : S → Type 0) (r : Result A) (s : S) (f : A → Effect S B)
    → P s
    → ((a : A) → r ≡ ok a → P (f a s).1)
    → P (continue (r, s) f).1
lifted-keeps P (ok a) s f p k = k a refl
lifted-keeps P (err e) s f p k = p

pub continue-same :
    {S A B : Type 0} (r : Result A × S) (f g : A → Effect S B)
    → ((a : A) (s : S) → f a s ≡ g a s)
    → continue r f ≡ continue r g
continue-same (ok a, s) f g h = h a s
continue-same (err e, s) f g h = refl
