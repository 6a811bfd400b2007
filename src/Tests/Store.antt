-- ===== src/Tests/Store.antt =====
-- The object store at concrete inputs: one bucket with at most one object, and a public address.
use fractal_block_sync.Prelude.{
  ℕ, ◌≡◌, refl, true, false, Option, none, some, [], ◌++◌, Bytes, Text, codes, text_eq, text_eq_iff,
  text_eq_refl, Bool-cases, sym, ap, subst, ◌∙◌, ◌+◌, ◌==◌, if◌then◌else◌, ◌↔◌, ◌⊎◌, inl, inr,
}
use fractal_block_sync.Errors.{Err, ok, err, external, not_found, is_not_found}
use fractal_block_sync.Text.{trim_space}
use fractal_block_sync.Hex
use fractal_block_sync.Sha256
use fractal_block_sync.BlockHash.{from_raw_block}
use fractal_block_sync.Tests.Index.{zero_block, zero_hash}
use fractal_block_sync.R2Store.Config.{Config, Url, UrlLib}
use fractal_block_sync.R2Store.Keys.{
  block_key, block_object, IsBlockHash, block_key_iff, block_key-from_raw_block,
  block_key_injective,
}
use fractal_block_sync.R2Store.Writer.{S3, S3Error, Writer, has_code, upload_block}
use fractal_block_sync.R2Store.Writer.Stored.{
  IsStore, HasNoConflict, Has, do_upload_block, operate, operate-keeps, upload_block-Has,
}
use fractal_block_sync.R2Store.Writer.Provides.{
  Node, provider_of, IsStored, IndexesKeep, writer-IsLawful,
}
use fractal_block_sync.R2Store.PublicClient.{
  Http, PublicClient, Response, object_url, trim_left_slash, split_slash, join_slash,
  download_object,
}
use fractal_block_sync.R2Store.PublicClient.Paths.{join-split, is_clean, address_of, object_url_lem}
use fractal_block_sync.R2Store.PublicClient.Replies.{HasOwnErrors, Tells, download_object-Tells}
use fractal_block_sync.Upload.Services.{IsLawful}

-- The hash of the test in store_test.go.
abbrev hash : Text
hash = codes "0000000000000000000320283a032748cef8227873ff4872689bf23f1cda83a5"

hash_key : block_key hash ≡ ok (codes "blocks/" ++ (hash ++ codes ".blk"))
unfolding block_key text_eq trim_space Hex.decode Hex.hex_value
hash_key = refl

block_key_iff_example :
    (block_key hash ≡ ok (codes "blocks/"))
    ↔ ((codes "blocks/" ≡ block_object (trim_space hash)) × IsBlockHash (trim_space hash))
block_key_iff_example = block_key_iff hash (codes "blocks/")

block_key_injective_example : trim_space hash ≡ trim_space hash
block_key_injective_example = block_key_injective hash hash hash_key hash_key

zero_hashed : from_raw_block zero_block ≡ ok zero_hash
unfolding from_raw_block zero_hash Sha256.sum256
zero_hashed = refl

block_key-from_raw_block_example : block_key zero_hash ≡ ok (block_object zero_hash)
block_key-from_raw_block_example = block_key-from_raw_block zero_block zero_hashed

-- An address is what is before the first slash.
abbrev urls : UrlLib
urls = record {
  parse = λ t. ok (record { scheme = codes "https"; host = t; path = []; raw_path = [] });
  escaped_path = λ u. u.path;
  print = λ u. u.host ++ u.path;
}

abbrev complete : Config
complete = record {
  endpoint_url = codes "r2";
  access_key_id = codes "a";
  secret_access_key = codes "s";
  bucket_name = codes "blocks";
}

-- One bucket, as a function from keys.
abbrev Objects : Type 0
Objects = Text → Option Bytes

abbrev missing : S3Error
missing = record { is_not_found_type = true; code = some (codes "NotFound"); error = external [] }

abbrev refused : S3Error
refused = record {
  is_not_found_type = false;
  code = some (codes "PreconditionFailed");
  error = external [];
}

abbrev head_of : Option Bytes → Option S3Error
head_of none = some missing
head_of (some d) = none

abbrev put_at : Text → Bytes → Option Bytes → Objects → Option S3Error × Objects
put_at k body none s = (none, λ j. if text_eq j k then some body else s j)
put_at k body (some d) s = (some refused, s)

abbrev bucket : S3
bucket = record {
  State = Objects;
  head_object = λ b k s. (head_of (s k), s);
  put_object = λ b k kind condition body s. put_at k body (s k) s;
}

abbrev object : Objects → Text → Text → Option Bytes
object s b k = s k

head_found : (o : Option Bytes) → head_of o ≡ none → (d : Bytes) × (o ≡ some d)
head_found none e = absurd cc
head_found (some d) e = (d, refl)

head_missing : (o : Option Bytes) (e : S3Error) → head_of o ≡ some e → o ≡ none
head_missing none e h = refl
head_missing (some d) e h = absurd cc

put_keeps :
    (k j : Text) (body : Bytes) (o : Option Bytes) (s : Objects) (d : Bytes)
    → s k ≡ o
    → s j ≡ some d
    → (put_at k body o s).1 j ≡ some d
put_keeps k j body (some x) s d h e = e
put_keeps k j body none s d h e = elim (Bool-cases (text_eq j k)) [
  | inl y ↦ absurd (clash (sym h ∙ (ap s (sym ((text_eq_iff j k).0 y)) ∙ e)))
  | inr n ↦ rw n e
]
  where
    clash : ¬ (none ≡ some d)
    clash x = cc

put_new :
    (k : Text) (body : Bytes) (o : Option Bytes) (s : Objects)
    → (put_at k body o s).0 ≡ none
    → (put_at k body o s).1 k ≡ some body
put_new k body none s e = rw (text_eq_refl k) refl
put_new k body (some d) s e = absurd cc

put_refused :
    (k : Text) (body : Bytes) (o : Option Bytes) (s : Objects) (e : S3Error)
    → (put_at k body o s).0 ≡ some e
    → (d : Bytes) × (o ≡ some d)
put_refused k body none s e h = absurd cc
put_refused k body (some d) s e h = (d, refl)

abbrev bucket_IsStore : IsStore bucket object
bucket_IsStore = record {
  head_keeps = λ b k s c j. refl;
  head_found = λ b k s e. head_found (s k) e;
  head_missing = λ b k s h m. head_missing (s k) _ h;
  put_keeps = λ b k kind body s c j h. put_keeps k j body (s k) s _ refl h;
  put_new = λ b k kind body s h. put_new k body (s k) s h;
  put_refused = λ b k kind body s h c. put_refused k body (s k) s _ h;
}

-- The only error of a put has another code.
refused_code :
    (k : Text) (body : Bytes) (o : Option Bytes) (s : Objects) (e : S3Error)
    → (put_at k body o s).0 ≡ some e
    → has_code (codes "ConditionalRequestConflict") e.code ≡ false
unfolding text_eq
refused_code k body none s e h = absurd cc
refused_code k body (some d) s e h =
    subst (λ x. has_code (codes "ConditionalRequestConflict") x.code ≡ false) (inner h) refl
  where
    inner : some refused ≡ some e → refused ≡ e
    inner x = cc

abbrev calm : HasNoConflict bucket
calm = λ b k kind body s e h. refused_code k body (s k) s e h

abbrev writer : Writer
writer = record { bucket = codes "blocks" }

abbrev empty_bucket : Objects
empty_bucket = λ k. none

abbrev one_object : Objects
one_object = λ k. some (codes "old")

operate-keeps_example :
    operate bucket object bucket_IsStore writer
      (do_upload_block hash (codes "new"))
      one_object
      (block_object hash)
    ≡ some (codes "old")
operate-keeps_example =
    operate-keeps bucket object bucket_IsStore writer (do_upload_block hash (codes "new"))
      (block_object hash) (codes "old") one_object refl

uploaded : (upload_block bucket writer hash (codes "new") empty_bucket).0 ≡ ok tt
unfolding upload_block block_key text_eq trim_space Hex.decode Hex.hex_value
uploaded = refl

upload_block-Has_example :
    (key : Text) × (block_key hash ≡ ok key)
    × (((d : Bytes) × Has bucket object bucket_IsStore writer key d empty_bucket
          × Has bucket object bucket_IsStore writer key d
              (upload_block bucket writer hash (codes "new") empty_bucket).1)
        ⊎ Has bucket object bucket_IsStore writer key
            (codes "new")
            (upload_block bucket writer hash (codes "new") empty_bucket).1)
upload_block-Has_example =
    upload_block-Has bucket object bucket_IsStore writer calm hash (codes "new") empty_bucket
      uploaded

abbrev node : Node
node = record {
  State = ℕ;
  choose = λ n. (n, n);
  ctx_error = λ n. none;
  get_block_count = λ n. (ok 1, n);
  get_block_hash = λ h n. (ok zero_hash, n);
  get_block_raw_hex = λ h n. (ok (Hex.encode zero_block), n);
}

same_chain : (h : ℕ) (n : ℕ) (t : Text) → ok zero_hash ≡ ok t → t ≡ zero_hash
same_chain h n t e = cc

writer-IsLawful_example :
    IsLawful
      (provider_of node bucket writer)
      (λ h. zero_hash)
      (IsStored node bucket object bucket_IsStore calm writer (λ h. zero_hash))
    × IndexesKeep node bucket object bucket_IsStore calm writer (λ h. zero_hash)
writer-IsLawful_example =
    writer-IsLawful node bucket object bucket_IsStore calm writer (λ h. zero_hash) same_chain

abbrev base : Url
base = record { scheme = codes "https"; host = codes "r2"; path = codes "/p/"; raw_path = [] }

object_url_example :
    object_url urls base (codes " /blocks/hash.blk") ≡ ok (codes "r2/p/blocks/hash.blk")
unfolding object_url text_eq trim_space
object_url_example = refl

object_url_lem_example :
    let k = trim_left_slash (trim_space (codes "blocks//b")) in
    (is_clean true k ≡ true
      → object_url urls base (codes "blocks//b") ≡ ok (urls.print (address_of urls base k)))
    × (is_clean true k ≡ false
        → (e : Err) × (object_url urls base (codes "blocks//b") ≡ err e) × (is_not_found e ≡ false))
object_url_lem_example = object_url_lem urls base (codes "blocks//b")

join-split_example :
    join_slash (split_slash (codes "a/b")).0 (split_slash (codes "a/b")).1 ≡ codes "a/b"
join-split_example = join-split (codes "a/b")

-- A server that answers 404 first, and then with a body.
abbrev server : Http
server = record {
  State = ℕ;
  new_request = λ address. none;
  send = λ address n.
      (ok (record { status = if n == 0 then 404 else 200; body = ok (codes "block") }), n + 1);
}

own_errors : HasOwnErrors server
own_errors = record {
  of_request = λ address e h. absurd (not_some h);
  of_send = λ address s e h. absurd (not_err h);
  of_body = λ address s r e h b.
      absurd (not_body (subst (λ (x : Response). x.body ≡ err e) (sym (same h)) b));
}
  where
    not_some : {e : Err} → ¬ (none ≡ some e)
    not_some x = cc

    not_err : {r : Response} {e : Err} → ¬ (ok r ≡ err e)
    not_err x = cc

    same : {q r : Response} → ok q ≡ ok r → q ≡ r
    same x = cc

    not_body : {e : Err} → ¬ (ok (codes "block") ≡ err e)
    not_body x = cc

abbrev reader : PublicClient
reader = record { base_url = base }

missing_first : (download_object urls server reader (codes "k") 0).0 ≡ err not_found
unfolding download_object text_eq trim_space
missing_first = refl

download_object-Tells_example :
    Tells urls server own_errors reader
      (codes "k")
      0
      (download_object urls server reader (codes "k") 0).0
download_object-Tells_example = download_object-Tells urls server own_errors reader (codes "k") 0
