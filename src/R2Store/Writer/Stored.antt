-- ===== src/R2Store/Writer/Stored.antt =====
-- What the writer does to the objects of an S3 store, and what its answers say of them.
use fractal_block_sync.Prelude.{
  ◌≡◌, refl, ◌∙◌, arith, Bool, true, false, Option, none, some, [], Bytes, Text, codes,
  if◌then◌else◌, text_eq, inl, inr, Bool-cases, if_both, ◌⊎◌,
}
use fractal_block_sync.Errors.{Result, ok, err, put_failed, head_failed, key_required}
use fractal_block_sync.R2Store.Config.{is_blank}
use fractal_block_sync.R2Store.Keys.{block_key}
use fractal_block_sync.R2Store.Writer.{
  S3, S3Error, Writer, has_code, says_missing, says_present, head_answer, put_answer, on_key,
  octet_stream, object_exists, put_object, upload_block, block_exists, upload_range_index,
}

-- An S3 store: a bucket and a key have an object or none. HeadObject changes nothing and tells what
-- there is; PutObject under the condition `*` leaves every object that there is, stores its body where
-- there is none when it succeeds, and says `PreconditionFailed` only where there is one.
pub record IsStore (C : S3) (object : C.State → Text → Text → Option Bytes) : Type 0 where
  pub head_keeps :
      (b k : Text) (s : C.State) (c j : Text) → object (C.head_object b k s).1 c j ≡ object s c j
  pub head_found :
      (b k : Text) (s : C.State)
      → (C.head_object b k s).0 ≡ none
      → (d : Bytes) × (object s b k ≡ some d)
  pub head_missing :
      (b k : Text) (s : C.State) {e : S3Error}
      → (C.head_object b k s).0 ≡ some e
      → says_missing e ≡ true
      → object s b k ≡ none
  pub put_keeps :
      (b k kind : Text) (body : Bytes) (s : C.State) (c j : Text) {d : Bytes}
      → object s c j ≡ some d
      → object (C.put_object b k kind (codes "*") body s).1 c j ≡ some d
  pub put_new :
      (b k kind : Text) (body : Bytes) (s : C.State)
      → (C.put_object b k kind (codes "*") body s).0 ≡ none
      → object (C.put_object b k kind (codes "*") body s).1 b k ≡ some body
  pub put_refused :
      (b k kind : Text) (body : Bytes) (s : C.State) {e : S3Error}
      → (C.put_object b k kind (codes "*") body s).0 ≡ some e
      → has_code (codes "PreconditionFailed") e.code ≡ true
      → (d : Bytes) × (object s b k ≡ some d)

-- No two requests for one key are under way at once, so that none is refused as a conflict.
abbrev pub HasNoConflict : S3 → Type 0
HasNoConflict C =
    (b k kind : Text) (body : Bytes) (s : C.State) (e : S3Error)
    → (C.put_object b k kind (codes "*") body s).0 ≡ some e
    → has_code (codes "ConditionalRequestConflict") e.code ≡ false

head_answer-true : (key : Text) (r : Option S3Error) → head_answer key r ≡ ok true → r ≡ none
unfolding head_answer
head_answer-true key none e = refl
head_answer-true key (some x) e = elim (Bool-cases (says_missing x)) [
  | inl y ↦ absurd (not_true (rw y at e))
  | inr n ↦ absurd (not_ok (rw n at e))
]
  where
    not_true : ¬ (◌≡◌ {A = Result Bool} (ok false) (ok true))
    not_true h = cc

    not_ok : ¬ (◌≡◌ {A = Result Bool} (err (head_failed key x.error)) (ok true))
    not_ok h = cc

head_answer-false :
    (key : Text) (r : Option S3Error)
    → head_answer key r ≡ ok false
    → (x : S3Error) × (r ≡ some x) × (says_missing x ≡ true)
unfolding head_answer
head_answer-false key none e = absurd cc
head_answer-false key (some x) e = elim (Bool-cases (says_missing x)) [
  | inl y ↦ (x, refl, y)
  | inr n ↦ absurd (not_ok (rw n at e))
]
  where
    not_ok : ¬ (◌≡◌ {A = Result Bool} (err (head_failed key x.error)) (ok false))
    not_ok h = cc

put_answer-ok :
    (key : Text) (r : Option S3Error)
    → put_answer key r ≡ ok tt
    → (r ≡ none) ⊎ ((x : S3Error) × (r ≡ some x) × (says_present x ≡ true))
unfolding put_answer
put_answer-ok key none e = inl refl
put_answer-ok key (some x) e = elim (Bool-cases (says_present x)) [
  | inl y ↦ inr (x, refl, y)
  | inr n ↦ absurd (not_ok (rw n at e))
]
  where
    not_ok : ¬ (◌≡◌ {A = Result (Unit {0})} (err (put_failed key x.error)) (ok tt))
    not_ok h = cc

module _ (C : S3) (object : C.State → Text → Text → Option Bytes) (L : IsStore C object)
    (w : Writer) where
  -- An object of the writer's bucket.
  abbrev pub Has : Text → Bytes → C.State → Type 0
  Has key d s = object s w.bucket key ≡ some d

  pub object_exists-keeps :
      (key j : Text) (d : Bytes) (s : C.State) → Has j d s → Has j d (object_exists C w key s).1
  unfolding object_exists
  object_exists-keeps key j d s h =
      if_both (λ (x : Result Bool × C.State). Has j d x.1) (is_blank key) h
        (L.head_keeps w.bucket key s w.bucket j ∙ h)

  pub put_object-keeps :
      (key kind j : Text) (body d : Bytes) (s : C.State)
      → Has j d s
      → Has j d (put_object C w key body kind s).1
  unfolding put_object
  put_object-keeps key kind j body d s h =
      if_both (λ (x : Result (Unit {0}) × C.State). Has j d x.1) (is_blank key) h
        (L.put_keeps w.bucket key _ body s w.bucket j h)

  on_key-keeps :
      {A : Type 0} (r : Result Text) (f : Text → C.State → Result A × C.State) (j : Text)
      (d : Bytes) (s : C.State)
      → ((key : Text) → Has j d (f key s).1)
      → Has j d s
      → Has j d (on_key r f s).1
  on_key-keeps (err e) f j d s k h = h
  on_key-keeps (ok key) f j d s k h = k key

  -- The operations of a writer.
  pub data Operation : Type 0 where
    do_upload_block : Text → Bytes → Operation
    do_block_exists : Text → Operation
    do_upload_range_index : Text → Bytes → Operation
    do_object_exists : Text → Operation
    do_put_object : Text → Bytes → Text → Operation

  abbrev pub operate : Operation → C.State → C.State
  operate (do_upload_block hash body) s = (upload_block C w hash body s).1
  operate (do_block_exists hash) s = (block_exists C w hash s).1
  operate (do_upload_range_index key body) s = (upload_range_index C w key body s).1
  operate (do_object_exists key) s = (object_exists C w key s).1
  operate (do_put_object key body kind) s = (put_object C w key body kind s).1

  -- Over an S3 store that leaves an object in its place under the condition *, no operation of
  -- the writer changes an object that its bucket has, whatever the operation is asked to upload
  -- under its key.
  pub operate-keeps :
      (o : Operation) (key : Text) (d : Bytes) (s : C.State) → Has key d s → Has key d (operate o s)
  unfolding upload_block block_exists upload_range_index
  operate-keeps (do_upload_block hash body) j d s h =
      on_key-keeps (block_key hash) (λ key. put_object C w key body octet_stream) j d s
        (λ key. put_object-keeps key octet_stream j body d s h) h
  operate-keeps (do_block_exists hash) j d s h =
      on_key-keeps (block_key hash) (object_exists C w) j d s
        (λ key. object_exists-keeps key j d s h) h
  operate-keeps (do_upload_range_index key body) j d s h =
      if_both (λ (x : Result (Unit {0}) × C.State). Has j d x.1) (is_blank key) h
        (put_object-keeps key octet_stream j body d s h)
  operate-keeps (do_object_exists key) j d s h = object_exists-keeps key j d s h
  operate-keeps (do_put_object key body kind) j d s h = put_object-keeps key kind j body d s h

  -- What the writer says to be there is there, and what it says to be missing is.
  pub object_exists-found :
      (key : Text) (s : C.State)
      → (object_exists C w key s).0 ≡ ok true
      → (d : Bytes) × Has key d (object_exists C w key s).1
  unfolding object_exists
  object_exists-found key s e = elim (Bool-cases (is_blank key)) [
    | inl y ↦ absurd (not_ok (rw y at e))
    | inr n ↦
        let (d, here) = L.head_found w.bucket key s (head_answer-true key _ (rw n at e)) in
        rw n (d, L.head_keeps w.bucket key s w.bucket key ∙ here)
  ]
    where
      not_ok : ¬ (◌≡◌ {A = Result Bool} (err key_required) (ok true))
      not_ok h = cc

  pub object_exists-missing :
      (key : Text) (s : C.State)
      → (object_exists C w key s).0 ≡ ok false
      → object s w.bucket key ≡ none
  unfolding object_exists
  object_exists-missing key s e = elim (Bool-cases (is_blank key)) [
    | inl y ↦ absurd (not_ok (rw y at e))
    | inr n ↦
        let (x, got, says) = head_answer-false key _ (rw n at e) in
        L.head_missing w.bucket key s got says
  ]
    where
      not_ok : ¬ (◌≡◌ {A = Result Bool} (err key_required) (ok false))
      not_ok h = cc

  module _ (calm : HasNoConflict C) where
    -- After a put without an error the bucket has the object: the one that it had, or the new body.
    put_object-stores :
        (key kind : Text) (body : Bytes) (s : C.State)
        → (put_object C w key body kind s).0 ≡ ok tt
        → ((d : Bytes) × Has key d s × Has key d (put_object C w key body kind s).1)
          ⊎ Has key body (put_object C w key body kind s).1
    unfolding put_object says_present
    put_object-stores key kind body s e = elim (Bool-cases (is_blank key)) [
      | inl y ↦ absurd (not_ok (rw y at e))
      | inr n ↦
          let k = if text_eq kind [] then octet_stream else kind in
          elim (put_answer-ok key (C.put_object w.bucket key k (codes "*") body s).0 (rw n at e)) [
            | inl went ↦ rw n (inr (L.put_new w.bucket key k body s went))
            | inr (x, failed, present) ↦
                let refused : has_code (codes "PreconditionFailed") x.code ≡ true =
                  ground (arith, present, calm w.bucket key k body s x failed) in
                let (d, here) = L.put_refused w.bucket key k body s failed refused in
                rw n (inl (d, here, L.put_keeps w.bucket key k body s w.bucket key here))
          ]
    ]
      where
        not_ok : ¬ (◌≡◌ {A = Result (Unit {0})} (err key_required) (ok tt))
        not_ok h = cc

    -- The object of a block after it was uploaded without an error: the one that was there before, or
    -- the uploaded bytes.
    pub upload_block-Has :
        (hash : Text) (body : Bytes) (s : C.State)
        → (upload_block C w hash body s).0 ≡ ok tt
        → (key : Text) × (block_key hash ≡ ok key)
          × (((d : Bytes) × Has key d s × Has key d (upload_block C w hash body s).1)
              ⊎ Has key body (upload_block C w hash body s).1)
    unfolding upload_block
    upload_block-Has hash body s e = from_key (block_key hash) refl e
      where
        from_key :
            (r : Result Text)
            → block_key hash ≡ r
            → (on_key r (λ key. put_object C w key body octet_stream) s).0 ≡ ok tt
            → (key : Text) × (block_key hash ≡ ok key)
              × (((d : Bytes) × Has key d s
                    × Has key d (on_key r (λ key. put_object C w key body octet_stream) s).1)
                  ⊎ Has key body (on_key r (λ key. put_object C w key body octet_stream) s).1)
        from_key (err x) k h = absurd cc
        from_key (ok key) k h = (key, k, put_object-stores key octet_stream body s h)
