-- ===== src/R2Store/PublicClient.antt =====
-- `PublicClient`: the address of an object, and its download over HTTP.
pub mod Paths
pub mod Replies
use fractal_block_sync.Prelude.{
  ℕ, zero, suc, ◌+◌, ◌-◌, ◌/◌, ◌%◌, Bool, true, false, not, ◌&&◌, ◌||◌, Option, none, some, List,
  [], ◌∷◌, ◌++◌, Bytes, Text, codes, ltb, leb, ◌==◌, if◌then◌else◌, text_eq,
}
use mathlib.Core.List.{reverse}
use fractal_block_sync.Errors.{
  Err, Result, ok, err, not_found, base_url_required, bad_base_url, key_required, bad_object_key,
  wrapped, at_text, http_status, ◌>>=◌,
}
use fractal_block_sync.Effects.{Effect}
use fractal_block_sync.Text.{trim_space}
use fractal_block_sync.R2Store.Config.{Url, UrlLib, is_absolute, is_blank}
use fractal_block_sync.R2Store.Keys.{block_key}

abbrev pub slash : ℕ
slash = b'/'

-- `strings.TrimLeft(s, "/")`
unfoldable pub trim_left_slash : Text → Text
trim_left_slash [] = []
trim_left_slash (c ∷ s) = let rest = trim_left_slash s in if c == slash then rest else c ∷ s

-- `strings.TrimRight(s, "/")`
unfoldable pub trim_right_slash : Text → Text
unfolding trim_left_slash
trim_right_slash s = reverse (trim_left_slash (reverse s))

-- `strings.Split(s, "/")`: the first part and the others.
unfoldable pub split_slash : Text → Text × List Text
split_slash [] = ([], [])
split_slash (c ∷ s) =
    let (part, parts) = split_slash s in
    if c == slash then ([], part ∷ parts) else (c ∷ part, parts)

-- `strings.Join(parts, "/")`
unfoldable pub join_slash : Text → List Text → Text
join_slash part [] = part
join_slash part (next ∷ parts) = part ++ (slash ∷ join_slash next parts)

-- The bytes that `url.PathEscape` leaves: letters, digits and `-_.~$&+=:@`.
unfoldable pub is_path_safe : ℕ → Bool
is_path_safe c =
    (leb b'a' c && leb c b'z')
    || (leb b'A' c && leb c b'Z')
    || (leb b'0' c && leb c b'9')
    || c == b'-'
    || c == b'_'
    || c == b'.'
    || c == b'~'
    || c == b'$'
    || c == b'&'
    || c == b'+'
    || c == b'='
    || c == b':'
    || c == b'@'

-- A digit of `"0123456789ABCDEF"`.
unfoldable pub upper_digit : ℕ → ℕ
upper_digit v = if ltb v 10 then b'0' + v else b'A' + v - 10

-- `url.PathEscape(s)`
unfoldable pub path_escape : Text → Text
unfolding is_path_safe upper_digit
path_escape [] = []
path_escape (c ∷ s) =
    let rest = path_escape s in
    if is_path_safe c then c ∷ rest else b'%' ∷ upper_digit (c / 16) ∷ upper_digit (c % 16) ∷ rest

-- The loop over the parts, which fails at an empty one.
unfoldable pub escape_parts : Text → List Text → Result (List Text)
unfolding path_escape
escape_parts key [] = ok []
escape_parts key (part ∷ parts) =
    let rest = escape_parts key parts >>= λ es. ok (path_escape part ∷ es) in
    if text_eq part [] then err (bad_object_key key) else rest

abbrev pub join_list : List Text → Text
join_list [] = []
join_list (part ∷ parts) = join_slash part parts

-- The address with the escaped parts behind its path.
unfoldable pub joined_url : UrlLib → Url → Text → List Text → Url
unfolding trim_right_slash split_slash join_slash
joined_url L base key escaped =
    let base_path = trim_right_slash (L.escaped_path base) in
    let (part, parts) = split_slash key in
    record base {
      path = trim_right_slash base.path ++ (slash ∷ join_slash part parts);
      raw_path = if text_eq base_path [] then [] else base_path ++ (slash ∷ join_list escaped);
    }

unfoldable pub url_of_key : UrlLib → Url → Text → Result Text
unfolding escape_parts joined_url
url_of_key L base key =
    let (part, parts) = split_slash key in
    if text_eq key []
    then err key_required
    else escape_parts key (part ∷ parts) >>= λ escaped. ok (L.print (joined_url L base key escaped))

unfoldable pub object_url : UrlLib → Url → Text → Result Text
unfolding url_of_key
object_url L base key = url_of_key L base (trim_left_slash (trim_space key))

-- The status of a reply, and what reading its body gives.
pub record Response : Type 0 where
  pub status : ℕ
  pub body : Result Bytes

-- net/http: a request that can be made, and the reply to it.
pub record Http : Type 1 where
  pub State : Type 0
  pub new_request : Text → Option Err
  pub send : Text → Effect State Response

pub record PublicClient : Type 0 where
  pub base_url : Url

unfoldable pub checked_client : UrlLib → Text → Result Url → Result PublicClient
unfolding is_absolute
checked_client L address (err e) = err (bad_base_url address)
checked_client L address (ok u) =
    if is_absolute L (ok u) then ok (record { base_url = u }) else err (bad_base_url address)

-- `NewPublicClient`
unfoldable pub new_public_client : UrlLib → Text → Result PublicClient
unfolding checked_client
new_public_client L address =
    let trimmed = trim_space address in
    if text_eq trimmed [] then err base_url_required else checked_client L trimmed (L.parse trimmed)

abbrev pub status_not_found : ℕ
status_not_found = 404

-- What is made of a reply.
unfoldable pub read_body : Text → Result Bytes → Result Bytes
read_body key (ok body) = ok body
read_body key (err e) = err (at_text (codes "read object") key e)

unfoldable pub read_response : Text → Response → Result Bytes
unfolding read_body
read_response key r =
    if r.status == status_not_found
    then err not_found
    else if ltb r.status 200 || leb 300 r.status
    then err (http_status key r.status)
    else read_body key r.body

module _ (L : UrlLib) (H : Http) (c : PublicClient) where
  unfoldable pub replied : Text → Result Response × H.State → Result Bytes × H.State
  unfolding read_response
  replied key (err e, s) = (err (at_text (codes "download object") key e), s)
  replied key (ok r, s) = (read_response key r, s)

  unfoldable pub requested : Text → Text → Option Err → H.State → Result Bytes × H.State
  unfolding replied
  requested key address (some e) s = (err (wrapped (codes "create download request") e), s)
  requested key address none s = replied key (H.send address s)

  unfoldable pub request : Text → Result Text → H.State → Result Bytes × H.State
  unfolding requested
  request key (err e) s = (err e, s)
  request key (ok address) s = requested key address (H.new_request address) s

  unfoldable pub download_object : Text → Effect H.State Bytes
  unfolding request object_url
  download_object key s = request key (object_url L c.base_url key) s

  abbrev pub download_key : Result Text → Effect H.State Bytes
  download_key (err e) s = (err e, s)
  download_key (ok key) s = download_object key s

  unfoldable pub download_block : Text → Effect H.State Bytes
  unfolding download_object block_key
  download_block hash = download_key (block_key hash)
