-- ===== src/Submit/Cache/Transparent.antt =====
-- Over an object store whose answers do not change, the cache answers what a fresh download would.
use fractal_block_sync.Prelude.{
  ℕ, ◌≡◌, ◌≢◌, refl, ap, sym, subst, ◌∙◌, arith, true, false, List, [], ◌∷◌, Bytes, Text, codes,
  text_eq, text_eq_iff, All, ◌⊎◌, inl, inr, Bool-cases,
}
use fractal_block_sync.Errors.{Err, Result, ok, err, not_found, is_not_found, at_text, wrap}
use fractal_block_sync.RangeIndex
use fractal_block_sync.RangeIndex.Keys.{object_key_injective, object_key_for_height_ok}
use fractal_block_sync.Submit.Services.{Services}
use fractal_block_sync.Submit.Resolve.{download_error, resolve_target_hash_from_range_index}
use fractal_block_sync.Submit.Cache.{
  RangeIndexCache, new_cache, is_missing, read_cached, Reply, replies, loaded, with_key, hash_at,
}

-- The same hash, or the same error; where an object is missing, any error that says so.
pub data Agrees : Result Text → Result Text → Type 0 where
  same : {r : Result Text} (r' : Result Text) → r ≡ r' → Agrees r r'
  both_missing :
      {d e : Err} → is_not_found d ≡ true → is_not_found e ≡ true → Agrees (err d) (err e)

-- The objects that the store has, in every state of the world.
abbrev pub Stores : (E : Services) → (Text → Result Bytes) → Type 0
Stores E object = (key : Text) (s : E.State) → (E.download_object key s).0 ≡ object key

download_error_missing : (key : Text) (e : Err) → is_not_found e ≡ true → download_error key e ≡ e
unfolding download_error
download_error_missing key e h = rw h

download_error_other :
    (key : Text) (e : Err)
    → is_not_found e ≡ false
    → download_error key e ≡ at_text (codes "download range index") key e
unfolding download_error
download_error_other key e h = rw h

is_not_found-not_found : is_not_found not_found ≡ true
unfolding is_not_found
is_not_found-not_found = refl

key_ne_nil : (start n : ℕ) → RangeIndex.object_key start n ≢ ok []
unfolding RangeIndex.object_key RangeIndex.key_text
key_ne_nil start n e = ground arith

module _ (object : Text → Result Bytes) where
  abbrev pub IsAbsent : Text → Type 0
  IsAbsent key = (e : Err) × (object key ≡ err e) × (is_not_found e ≡ true)

  -- The cache holds nothing, or an object with the start that its key names; its missing keys are.
  pub record IsValid (c : RangeIndexCache) : Type 0 where
    pub current :
        (c.key ≡ [])
        ⊎ ((object c.key ≡ ok c.bin) × (RangeIndex.object_key c.start c.range_size ≡ ok c.key))
    pub absent : All IsAbsent c.missing

  pub new_cache-IsValid : (range_size : ℕ) → IsValid (new_cache range_size)
  unfolding new_cache
  new_cache-IsValid range_size = record { current = inl refl; absent = tt }

  missing-IsAbsent :
      (key : Text) (ks : List Text) → All IsAbsent ks → is_missing key ks ≡ true → IsAbsent key
  unfolding is_missing
  missing-IsAbsent key [] a m = cc
  missing-IsAbsent key (k ∷ ks) (ak, a) m = elim (Bool-cases (text_eq k key)) [
    | inl y ↦ subst IsAbsent ((text_eq_iff k key).0 y) ak
    | inr n ↦ missing-IsAbsent key ks a (ground arith)
  ]

module _ (E : Services) (object : Text → Result Bytes) (stores : Stores E object) where
  downloads :
      (key : Text) (s : E.State) {r : Result Bytes}
      → object key ≡ r
      → E.download_object key s ≡ (r, (E.download_object key s).1)
  downloads key s e = λ i. ((stores key s ∙ e) i, (E.download_object key s).1)

  module _ (height n : ℕ) (s : E.State) where
    abbrev pub fresh_answer : Result Text
    fresh_answer = (resolve_target_hash_from_range_index E height n s).0

    fresh_no_key :
        {e : Err} → RangeIndex.object_key_for_height height n ≡ err e → fresh_answer ≡ err e
    unfolding resolve_target_hash_from_range_index
    fresh_no_key p = ground (arith, p)

    module _ (key : Text) (start : ℕ)
        (keyed : RangeIndex.object_key_for_height height n ≡ ok (key, start)) where
      fresh_found :
          {bin : Bytes}
          → object key ≡ ok bin
          → fresh_answer
            ≡ wrap (at_text (codes "read range index") key) (RangeIndex.hash_at bin start height n)
      unfolding resolve_target_hash_from_range_index
      fresh_found {bin} got = ground (arith, keyed, downloads key s got)

      fresh_error : {e : Err} → object key ≡ err e → fresh_answer ≡ err (download_error key e)
      unfolding resolve_target_hash_from_range_index
      fresh_error got = ground (arith, keyed, downloads key s got)

  module _ (c : RangeIndexCache) (valid : IsValid object c) (height : ℕ) (s : E.State) where
    -- The reply has the answer of a fresh download, and leaves a valid cache of the same ranges.
    abbrev pub IsFaithful : Reply E.State → Type 0
    IsFaithful r =
        IsValid object r.cache
        × (r.cache.range_size ≡ c.range_size)
        × Agrees r.answer (fresh_answer height c.range_size s)

    module _ (key : Text) (start : ℕ)
        (keyed : RangeIndex.object_key_for_height height c.range_size ≡ ok (key, start)) where
      missing-IsFaithful : IsAbsent object key → IsFaithful (replies (err not_found) c s)
      missing-IsFaithful (e, gone, nf) = (
        valid,
        refl,
        subst (Agrees (err not_found))
            (sym (
              fresh_error height c.range_size s key start keyed gone
              ∙ ap err (download_error_missing key e nf)))
            (both_missing is_not_found-not_found nf),
      )

      found-IsFaithful :
          {bin : Bytes}
          → object key ≡ ok bin
          → (t : E.State) → IsFaithful (loaded E c key start height (ok bin, t))
      unfolding loaded
      found-IsFaithful {bin} got t = (
        record {
          current = inr (got, (object_key_for_height_ok height c.range_size keyed).2);
          absent = valid.absent;
        },
        refl,
        same _ (sym (fresh_found height c.range_size s key start keyed got)),
      )

      error-IsFaithful :
          {e : Err}
          → object key ≡ err e
          → (t : E.State) → IsFaithful (loaded E c key start height (err e, t))
      unfolding loaded
      error-IsFaithful {e} gone t = elim (Bool-cases (is_not_found e)) [
        | inl y ↦ rw y (
          record { current = valid.current; absent = ((e, gone, y), valid.absent) },
          refl,
          same _ (
              sym (
                fresh_error height c.range_size s key start keyed gone
                ∙ ap err (download_error_missing key e y))),
        )
        | inr n ↦ rw n (
          valid,
          refl,
          same _ (
              sym (
                fresh_error height c.range_size s key start keyed gone
                ∙ ap err (download_error_other key e n))),
        )
      ]

      current-IsFaithful : c.key ≡ key → IsFaithful (replies (read_cached c height) c s)
      unfolding read_cached
      current-IsFaithful e = elim valid.current [
        | inl nil ↦ absurd (
            key_ne_nil start c.range_size
              (rw (sym e ∙ nil) at (object_key_for_height_ok height c.range_size keyed).2))
        | inr (got, named) ↦
            let starts : c.start ≡ start =
              (object_key_injective c.start start c.range_size c.range_size named
                (rw (sym e) at (object_key_for_height_ok height c.range_size keyed).2)).0 in
            let found = fresh_found height c.range_size s key start keyed (rw e at got) in
            (
              valid,
              refl,
              same _ (
                  ap
                    (λ k.
                      wrap (at_text (codes "read range index") k)
                        (RangeIndex.hash_at c.bin c.start height c.range_size))
                    e
                  ∙ (ap
                        (λ t.
                          wrap (at_text (codes "read range index") key)
                            (RangeIndex.hash_at c.bin t height c.range_size))
                        starts
                      ∙ sym found)),
            )
      ]

    with_key-IsFaithful :
        (a : Result (Text × ℕ))
        → RangeIndex.object_key_for_height height c.range_size ≡ a
        → IsFaithful (with_key E c height a s)
    unfolding with_key
    with_key-IsFaithful (err e) p =
        (valid, refl, same _ (sym (fresh_no_key height c.range_size s p)))
    with_key-IsFaithful (ok (key, start)) p = elim (Bool-cases (is_missing key c.missing)) [
      | inl m ↦
          rw m
            (missing-IsFaithful key start p (missing-IsAbsent object key c.missing valid.absent m))
      | inr m ↦ elim (Bool-cases (text_eq c.key key)) [
        | inl y ↦ rw m (rw y (current-IsFaithful key start p ((text_eq_iff c.key key).0 y)))
        | inr n ↦ rw m (rw n (after_download (object key) refl))
      ]
    ]
      where
        after_download :
            (r : Result Bytes)
            → object key ≡ r
            → IsFaithful (loaded E c key start height (E.download_object key s))
        after_download (ok bin) e =
            rw (downloads key s e) (found-IsFaithful key start p e (E.download_object key s).1)
        after_download (err x) e =
            rw (downloads key s e) (error-IsFaithful key start p e (E.download_object key s).1)

    -- Over a store whose objects do not change, the cached lookup answers as a fresh download does,
    -- errors included (for a missing object, both errors say that it is missing), and what it leaves
    -- in the cache is again valid.
    pub hash_at-IsFaithful : IsFaithful (hash_at E c height s)
    unfolding hash_at
    hash_at-IsFaithful =
        with_key-IsFaithful (RangeIndex.object_key_for_height height c.range_size) refl
