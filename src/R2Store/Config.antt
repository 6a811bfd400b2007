-- ===== src/R2Store/Config.antt =====
-- `Config`, `LoadConfigFromEnv` and `Validate`.
use fractal_block_sync.Prelude.{
  ◌≡◌, refl, arith, Bool, true, false, not, ◌||◌, Option, none, some, List, [], ◌∷◌, ◌++◌, Text,
  codes, if◌then◌else◌, text_eq, text_eq_iff, ◌↔◌, inl, inr, Bool-cases, ◌≢◌,
}
use fractal_block_sync.Errors.{Err, Result, ok, err, missing_variables, bad_url}
use fractal_block_sync.Text.{trim_space}

-- What `url.Parse` gives: the fields that the package reads, and its print.
pub record Url : Type 0 where
  pub scheme : Text
  pub host : Text
  pub path : Text
  pub raw_path : Text

-- net/url: `Parse`, `EscapedPath` and `String`.
pub record UrlLib : Type 0 where
  pub parse : Text → Result Url
  pub escaped_path : Url → Text
  pub print : Url → Text

pub record Config : Type 0 where
  pub endpoint_url : Text
  pub access_key_id : Text
  pub secret_access_key : Text
  pub bucket_name : Text

abbrev pub env_endpoint_url : Text
env_endpoint_url = codes "ENDPOINT_URL"

abbrev pub env_access_key_id : Text
env_access_key_id = codes "ACCESS_KEY_ID"

abbrev pub env_secret_access_key : Text
env_secret_access_key = codes "SECRET_ACCESS_KEY"

abbrev pub env_bucket_name : Text
env_bucket_name = codes "BUCKET_NAME"

-- `strings.TrimSpace(s) == ""`
unfoldable pub is_blank : Text → Bool
is_blank s = text_eq (trim_space s) []

-- One of the tests that append to `missing`.
unfoldable pub need : Text → Text → List Text → List Text
unfolding is_blank
need name value missing = if is_blank value then missing ++ (name ∷ []) else missing

unfoldable pub missing_values : Config → List Text
unfolding need
missing_values c = need env_bucket_name c.bucket_name (
    need env_secret_access_key c.secret_access_key
      (need env_access_key_id c.access_key_id (need env_endpoint_url c.endpoint_url [])))

blank_iff : (s : Text) → (is_blank s ≡ false) ↔ (trim_space s ≢ [])
unfolding is_blank
blank_iff s = ground (arith, text_eq_iff (trim_space s) [])

need-nil :
    (name value : Text) (missing : List Text)
    → need name value missing ≡ []
    → (is_blank value ≡ false) × (missing ≡ [])
unfolding need
need-nil name value missing e = elim (Bool-cases (is_blank value)) [
  | inl y ↦ absurd (append_one missing (rw y at e))
  | inr n ↦ (n, rw n at e)
]
  where
    append_one : (ms : List Text) → ¬ (ms ++ (name ∷ []) ≡ [])
    append_one [] h = cc
    append_one (m ∷ ms) h = cc

need-kept : (name value : Text) → is_blank value ≡ false → need name value [] ≡ []
unfolding need
need-kept name value e = rw e refl

missing_values-nil :
    (c : Config)
    → (missing_values c ≡ []) ↔ (
        (is_blank c.endpoint_url ≡ false)
        × (is_blank c.access_key_id ≡ false)
        × (is_blank c.secret_access_key ≡ false)
        × (is_blank c.bucket_name ≡ false))
unfolding missing_values
missing_values-nil c = (
  λ e.
      let (bucket, e1) = need-nil env_bucket_name c.bucket_name _ e in
      let (secret, e2) = need-nil env_secret_access_key c.secret_access_key _ e1 in
      let (access, e3) = need-nil env_access_key_id c.access_key_id _ e2 in
      let (endpoint, e4) = need-nil env_endpoint_url c.endpoint_url [] e3 in
      (endpoint, access, secret, bucket),
  λ (endpoint, access, secret, bucket). rw (need-kept env_endpoint_url c.endpoint_url endpoint) (
      rw (need-kept env_access_key_id c.access_key_id access) (
        rw (need-kept env_secret_access_key c.secret_access_key secret)
          (need-kept env_bucket_name c.bucket_name bucket))),
)

module _ (L : UrlLib) where
  -- `err != nil || parsed.Scheme == "" || parsed.Host == ""`
  unfoldable pub is_absolute : Result Url → Bool
  is_absolute (err e) = false
  is_absolute (ok u) = not (text_eq u.scheme [] || text_eq u.host [])

  unfoldable pub check_endpoint : Config → List Text → Option Err
  unfolding is_absolute
  check_endpoint c (name ∷ names) = some (missing_variables (name ∷ names))
  check_endpoint c [] =
      if is_absolute (L.parse c.endpoint_url)
      then none
      else some (bad_url env_endpoint_url c.endpoint_url)

  unfoldable pub validate : Config → Option Err
  unfolding missing_values check_endpoint
  validate c = check_endpoint c (missing_values c)

  -- The environment is a function from names.
  unfoldable pub load_config_from_env : (Text → Text) → Config × Option Err
  unfolding validate
  load_config_from_env getenv =
      let cfg : Config = record {
        endpoint_url = trim_space (getenv env_endpoint_url);
        access_key_id = trim_space (getenv env_access_key_id);
        secret_access_key = trim_space (getenv env_secret_access_key);
        bucket_name = trim_space (getenv env_bucket_name);
      } in
      (cfg, validate cfg)

  -- A configuration that is complete, with an absolute address.
  pub record IsComplete (c : Config) : Type 0 where
    pub endpoint : trim_space c.endpoint_url ≢ []
    pub access_key : trim_space c.access_key_id ≢ []
    pub secret_key : trim_space c.secret_access_key ≢ []
    pub bucket : trim_space c.bucket_name ≢ []
    pub absolute : is_absolute (L.parse c.endpoint_url) ≡ true

  check_endpoint-none :
      (c : Config) (names : List Text)
      → (check_endpoint c names ≡ none)
        ↔ ((names ≡ []) × (is_absolute (L.parse c.endpoint_url) ≡ true))
  unfolding check_endpoint
  check_endpoint-none c [] = ground arith
  check_endpoint-none c (n ∷ names) = (λ e. cc, λ (e, a). cc)

  -- Validate passes exactly the configurations in which no value is blank and the endpoint
  -- parses to an address with a scheme and a host.
  pub validate_iff : (c : Config) → (validate c ≡ none) ↔ IsComplete c
  unfolding validate
  validate_iff c = (
    λ e.
        let (nil, absolute) = (check_endpoint-none c (missing_values c)).0 e in
        let (endpoint, access, secret, bucket) = (missing_values-nil c).0 nil in
        record {
          endpoint = (blank_iff c.endpoint_url).0 endpoint;
          access_key = (blank_iff c.access_key_id).0 access;
          secret_key = (blank_iff c.secret_access_key).0 secret;
          bucket = (blank_iff c.bucket_name).0 bucket;
          absolute = absolute;
        },
    λ v. (check_endpoint-none c (missing_values c)).1 (
      (missing_values-nil c).1 (
        (blank_iff c.endpoint_url).1 v.endpoint,
        (blank_iff c.access_key_id).1 v.access_key,
        (blank_iff c.secret_access_key).1 v.secret_key,
        (blank_iff c.bucket_name).1 v.bucket,
      ),
      v.absolute,
    ),
  )
