-- ===== src/R2Store/Writer.antt =====
-- `Writer`: the objects of one bucket, put and looked for through an S3 client; and `Client` of r2.go,
-- which passes `UploadBlock` on.
pub mod Stored
pub mod Provides
use fractal_block_sync.Prelude.{
  ℕ, Bool, true, false, ◌&&◌, ◌||◌, Option, none, some, [], Bytes, Text, codes, if◌then◌else◌,
  text_eq,
}
use fractal_block_sync.Errors.{
  Err, Result, ok, err, key_required, index_key_required, put_failed, head_failed, wrapped,
}
use fractal_block_sync.Effects.{Effect}
use fractal_block_sync.R2Store.Config.{Config, UrlLib, validate, is_blank}
use fractal_block_sync.R2Store.Keys.{block_key}

-- What `errors.As` finds in an error of the client: whether it is a `types.NotFound`, and the code of a
-- `smithy.APIError`.
pub record S3Error : Type 0 where
  pub is_not_found_type : Bool
  pub code : Option Text
  pub error : Err

-- The client: HeadObject of a bucket and a key, and PutObject of a bucket, a key, the content type, the
-- IfNoneMatch condition and the body. No error is success.
pub record S3 : Type 1 where
  pub State : Type 0
  pub head_object : Text → Text → State → Option S3Error × State
  pub put_object : Text → Text → Text → Text → Bytes → State → Option S3Error × State

pub record Writer : Type 0 where
  pub bucket : Text

-- `NewWriter`, where the SDK makes a client from the configuration or fails.
unfoldable pub new_writer : UrlLib → (Config → Option Err) → Config → Result Writer
new_writer L load cfg = elim (validate L cfg) [
  | some e ↦ err e
  | none ↦ elim (load cfg) [
    | some e ↦ err (wrapped (codes "load aws config") e)
    | none ↦ ok (record { bucket = cfg.bucket_name })
  ]
]

abbrev pub octet_stream : Text
octet_stream = codes "application/octet-stream"

abbrev pub has_code : Text → Option Text → Bool
has_code name none = false
has_code name (some code) = text_eq code name

-- The errors of HeadObject that say that there is no object.
unfoldable pub says_missing : S3Error → Bool
says_missing e =
    e.is_not_found_type
    || (has_code (codes "NotFound") e.code || has_code (codes "NoSuchKey") e.code)

-- The errors of PutObject that are taken for success.
unfoldable pub says_present : S3Error → Bool
says_present e =
    has_code (codes "PreconditionFailed") e.code
    || has_code (codes "ConditionalRequestConflict") e.code

unfoldable pub head_answer : Text → Option S3Error → Result Bool
unfolding says_missing
head_answer key none = ok true
head_answer key (some e) = if says_missing e then ok false else err (head_failed key e.error)

unfoldable pub put_answer : Text → Option S3Error → Result (Unit {0})
unfolding says_present
put_answer key none = ok tt
put_answer key (some e) = if says_present e then ok tt else err (put_failed key e.error)

-- A call with a key that could be made, or the error.
abbrev pub on_key : {S A : Type 0} → Result Text → (Text → Effect S A) → Effect S A
on_key (err e) f s = (err e, s)
on_key (ok key) f s = f key s

module _ (C : S3) (w : Writer) where
  unfoldable pub object_exists : Text → Effect C.State Bool
  unfolding head_answer is_blank
  object_exists key s =
      if is_blank key
      then (err key_required, s)
      else let (r, t) = C.head_object w.bucket key s in (head_answer key r, t)

  unfoldable pub put_object : Text → Bytes → Text → Effect C.State (Unit {0})
  unfolding put_answer is_blank
  put_object key body content_type s =
      let kind = if text_eq content_type [] then octet_stream else content_type in
      if is_blank key
      then (err key_required, s)
      else let (r, t) = C.put_object w.bucket key kind (codes "*") body s in (put_answer key r, t)

  unfoldable pub upload_block : Text → Bytes → Effect C.State (Unit {0})
  unfolding put_object block_key
  upload_block hash body = on_key (block_key hash) (λ key. put_object key body octet_stream)

  unfoldable pub block_exists : Text → Effect C.State Bool
  unfolding object_exists block_key
  block_exists hash = on_key (block_key hash) object_exists

  unfoldable pub upload_range_index : Text → Bytes → Effect C.State (Unit {0})
  unfolding put_object is_blank
  upload_range_index key body s =
      if is_blank key then (err index_key_required, s) else put_object key body octet_stream s
