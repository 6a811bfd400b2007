-- ===== src/Errors.antt =====
-- The error values that the packages return, with a constructor for each kind of message, and
-- `errors.Is(err, r2store.ErrNotFound)`. A message that wraps another with `%w` carries it.
use fractal_block_sync.Prelude.{ℕ, List, Bool, true, false, Text, ◌≡◌, refl, ◌⊎◌, inl, inr}

pub data Err : Type 0 where
  -- what a service, the network, `url.Parse` or the runtime reports
  external : Text → Err
  -- a run-time panic: a slice or an allocation out of range
  panic : Err
  -- a slice past the length of a byte string: a panic, or bytes of its spare capacity
  past_length : Err
  -- not an error of the code: a call that does not return, as its goroutines wait for each other
  never_returns : Err
  -- encoding/hex
  invalid_byte : ℕ → Err
  odd_length : Err
  -- rangeindex
  zero_range_size : Err
  hash_count : ℕ → ℕ → Err
  bad_hash_at : ℕ → Err → Err
  outside_range : ℕ → ℕ → ℕ → Err
  bin_length : ℕ → ℕ → Err
  hash_length : ℕ → Err
  -- blockhash
  short_block : Err
  -- r2store
  not_found : Err
  hash_required : Err
  bad_block_hash : Text → Err
  key_required : Err
  index_key_required : Err
  put_failed : Text → Err → Err
  head_failed : Text → Err → Err
  http_status : Text → ℕ → Err
  missing_variables : List Text → Err
  bad_url : Text → Text → Err
  base_url_required : Err
  bad_base_url : Text → Err
  bad_object_key : Text → Err
  -- btcrpc
  rpc_url_required : Err
  rpc_method_required : Err
  bad_cookie_file : Text → Err
  rpc_error : ℕ → Text → Err
  -- bench.go
  failed_blocks_left : ℕ → Err
  -- sync.go: the message's place, the height or key that it names, and what it wraps
  at_height : Text → ℕ → Err → Err
  at_text : Text → Text → Err → Err
  at_block : Text → Text → ℕ → Err → Err
  wrapped : Text → Err → Err
  hash_mismatch : Text → Text → Err
  rejected : Text → Text → Err
  hash_mismatch_at : ℕ → Text → Text → Err
  rejected_at : Text → ℕ → Text → Err
  no_tip : ℕ → Err
  walk_passed : ℕ → ℕ → Err
  no_previous : ℕ → Err
  walk_limit : ℕ → Err
  reorg_published : ℕ → ℕ → Err
  ancestor_overflow : ℕ → Err

-- `errors.Is(err, ErrNotFound)`: the chain of `%w` leads to the sentinel. `BlockKey` and the HTTP
-- errors of the public client are made with no sentinel in them.
unfoldable pub is_not_found : Err → Bool
is_not_found not_found = true
is_not_found (bad_hash_at i e) = is_not_found e
is_not_found (put_failed key e) = is_not_found e
is_not_found (head_failed key e) = is_not_found e
is_not_found (at_height what n e) = is_not_found e
is_not_found (at_text what t e) = is_not_found e
is_not_found (at_block what t n e) = is_not_found e
is_not_found (wrapped what e) = is_not_found e
is_not_found _ = false

-- A `(value, error)` result.
pub data Result {ℓ} (A : Type ℓ) : Type ℓ where
  ok : A → Result A
  err : Err → Result A

infixl 5 ◌>>=◌
abbrev pub ◌>>=◌ {ℓ κ} : {A : Type ℓ} {B : Type κ} → Result A → (A → Result B) → Result B
ok a >>= f = f a
err e >>= f = err e

-- `if err != nil { return fmt.Errorf("…%w", err) }`
abbrev pub wrap {ℓ} : {A : Type ℓ} → (Err → Err) → Result A → Result A
wrap f (ok a) = ok a
wrap f (err e) = err (f e)

pub Result-cases {ℓ} :
    {A : Type ℓ} (r : Result A) → ((a : A) × (r ≡ ok a)) ⊎ ((e : Err) × (r ≡ err e))
Result-cases (ok a) = inl (a, refl)
Result-cases (err e) = inr (e, refl)
