-- ===== src/BtcRpc/Client.antt =====
-- `Client` of btcrpc/client.go: its options, `Call` over HTTP, and the methods of the node.
pub mod Cookie
pub mod Replies
use fractal_block_sync.Prelude.{
  ℕ, zero, suc, ◌+◌, Bool, true, false, not, ◌&&◌, ◌||◌, Option, none, some, List, [], ◌∷◌, Bytes,
  Text, codes, u64, ltb, leb, ◌==◌, if◌then◌else◌, text_eq,
}
use fractal_block_sync.Errors.{
  Err, Result, ok, err, rpc_url_required, rpc_method_required, bad_cookie_file, rpc_error, wrapped,
  at_text, http_status, wrap, ◌>>=◌,
}
use fractal_block_sync.Effects.{Effect}
use fractal_block_sync.Text.{trim_space}
use fractal_block_sync.BtcRpc.{BlockchainInfo, ChainTip, BlockHeader}

pub record Client : Type 0 where
  pub url : Text
  pub username : Text
  pub password : Text

-- `Option`: a change of the client, or an error.
abbrev pub ClientOption : Type 0
ClientOption = Client → Result Client

unfoldable pub with_basic_auth : Text → Text → ClientOption
with_basic_auth username password c = ok (record c { username = username; password = password })

abbrev pub put_ahead : ℕ → Option (Text × Text) → Option (Text × Text)
put_ahead b none = none
put_ahead b (some (u, v)) = some (b ∷ u, v)

-- `strings.Cut(s, ":")`
unfoldable pub cut_colon : Text → Option (Text × Text)
cut_colon [] = none
cut_colon (b ∷ s) = let rest = put_ahead b (cut_colon s) in if b == b':' then some ([], s) else rest

unfoldable pub with_credentials : Text → Client → Option (Text × Text) → Result Client
with_credentials path c none = err (bad_cookie_file path)
with_credentials path c (some (username, password)) =
    ok (record c { username = username; password = password })

unfoldable pub with_cookie : Text → Client → Result Bytes → Result Client
unfolding cut_colon with_credentials
with_cookie path c (err e) = err (wrapped (codes "read cookie file") e)
with_cookie path c (ok content) = with_credentials path c (cut_colon (trim_space content))

-- The argument reads a file.
unfoldable pub with_cookie_file : (Text → Result Bytes) → Text → ClientOption
unfolding with_cookie
with_cookie_file read_file path c =
    let trimmed = trim_space path in
    if text_eq trimmed [] then ok c else with_cookie trimmed c (read_file trimmed)

-- The loop over the options.
unfoldable pub apply_options : List ClientOption → Client → Result Client
apply_options [] c = ok c
apply_options (opt ∷ opts) c = opt c >>= λ d. apply_options opts d

unfoldable pub new_client : Text → List ClientOption → Result Client
unfolding apply_options
new_client url opts =
    let trimmed = trim_space url in
    if text_eq trimmed []
    then err rpc_url_required
    else apply_options opts (record { url = trimmed; username = []; password = [] })

-- A parameter of a method: a number, a text or a Boolean.
pub data Param : Type 0 where
  number : ℕ → Param
  text : Text → Param
  flag : Bool → Param

-- `rpcRequest`, whose version is "1.0".
pub record RpcRequest : Type 0 where
  pub id : ℕ
  pub method : Text
  pub params : List Param

-- `RPCError`; the code is an `int`.
pub record RpcError : Type 0 where
  pub code : ℕ
  pub message : Text

-- `rpcResponse`; `Call` does not read the id.
pub record RpcResponse : Type 0 where
  pub result : Text
  pub error : Option RpcError

-- encoding/json, for the request, the response, and the results of the methods.
pub record Json : Type 0 where
  pub marshal : RpcRequest → Result Bytes
  pub unmarshal : Bytes → Result RpcResponse
  pub read_number : Text → Result ℕ
  pub read_text : Text → Result Text
  pub read_info : Text → Result BlockchainInfo
  pub read_tips : Text → Result (List ChainTip)
  pub read_header : Text → Result BlockHeader

-- The POST request of a call: its content type is application/json.
pub record Post : Type 0 where
  pub url : Text
  pub payload : Bytes
  pub basic_auth : Option (Text × Text)

-- The status of a reply, and what reading its body gives.
pub record HttpReply : Type 0 where
  pub status : ℕ
  pub body : Result Bytes

-- net/http.
pub record RpcHttp : Type 1 where
  pub State : Type 0
  pub new_request : Text → Option Err
  pub send : Post → Effect State HttpReply

-- What is written to `result`, which a null leaves at the zero value; none stands for a nil pointer.
unfoldable pub read_result : {A : Type 0} → Text → A → Option (Text → Result A) → Text → Result A
read_result method zero_value none raw = ok zero_value
read_result method zero_value (some read) raw =
    if text_eq raw (codes "null")
    then ok zero_value
    else wrap (at_text (codes "decode rpc result") method) (read raw)

unfoldable pub read_answer :
    {A : Type 0} → Text → A → Option (Text → Result A) → Option RpcError → Text → Result A
unfolding read_result
read_answer method zero_value read (some e) raw = err (rpc_error e.code e.message)
read_answer method zero_value read none raw = read_result method zero_value read raw

unfoldable pub read_decoded :
    {A : Type 0} → Text → A → Option (Text → Result A) → Result RpcResponse → Result A
unfolding read_answer
read_decoded method zero_value read (err e) = err (at_text (codes "decode rpc response") method e)
read_decoded method zero_value read (ok r) = read_answer method zero_value read r.error r.result

module _ (J : Json) where
  unfoldable pub read_body :
      {A : Type 0} → Text → A → Option (Text → Result A) → ℕ → Result Bytes → Result A
  unfolding read_decoded
  read_body method zero_value read status (err e) =
      err (at_text (codes "read rpc response") method e)
  read_body method zero_value read status (ok body) =
      if ltb status 200 || leb 300 status
      then err (http_status method status)
      else read_decoded method zero_value read (J.unmarshal body)

  module _ (H : RpcHttp) (c : Client) where
    -- The identifiers given so far, and the world.
    abbrev pub CallState : Type 0
    CallState = ℕ × H.State

    unfoldable pub basic_auth : Option (Text × Text)
    basic_auth =
        if not (text_eq c.username []) || not (text_eq c.password [])
        then some (c.username, c.password)
        else none

    unfoldable pub replied :
        {A : Type 0}
        → Text
        → A
        → Option (Text → Result A)
        → Result HttpReply × H.State
        → Result A × H.State
    unfolding read_body
    replied method zero_value read (err e, s) = (err (at_text (codes "call rpc") method e), s)
    replied method zero_value read (ok r, s) = (read_body method zero_value read r.status r.body, s)

    unfoldable pub post :
        {A : Type 0} → Text → A → Option (Text → Result A) → Bytes → Option Err → Effect H.State A
    unfolding replied basic_auth
    post method zero_value read payload (some e) s =
        (err (wrapped (codes "create rpc request") e), s)
    post method zero_value read payload none s =
        replied method zero_value read
          (H.send (record { url = c.url; payload = payload; basic_auth = basic_auth }) s)

    unfoldable pub posted :
        {A : Type 0} → Text → A → Option (Text → Result A) → Result Bytes → Effect H.State A
    unfolding post
    posted method zero_value read (err e) s = (err (wrapped (codes "marshal rpc request") e), s)
    posted method zero_value read (ok payload) s =
        post method zero_value read payload (H.new_request c.url) s

    unfoldable pub call :
        {A : Type 0} → Text → List Param → A → Option (Text → Result A) → Effect CallState A
    unfolding posted
    call method params zero_value read (id, s) =
        let next = u64 (id + 1) in
        let request = J.marshal (record { id = next; method = method; params = params }) in
        let (r, t) = posted method zero_value read request s in
        if text_eq (trim_space method) []
        then (err rpc_method_required, (id, s))
        else (r, (next, t))

    abbrev pub no_info : BlockchainInfo
    no_info = record { blocks = 0; headers = 0 }

    abbrev pub no_header : BlockHeader
    no_header = record { hash = []; height = 0; previous_block_hash = [] }

    unfoldable pub get_block_count : Effect CallState ℕ
    unfolding call
    get_block_count = call (codes "getblockcount") [] 0 (some J.read_number)

    unfoldable pub get_block_hash : ℕ → Effect CallState Text
    unfolding call
    get_block_hash height = call (codes "getblockhash") (number height ∷ []) [] (some J.read_text)

    unfoldable pub get_block_raw_hex : Text → Effect CallState Text
    unfolding call
    get_block_raw_hex hash =
        call (codes "getblock") (text hash ∷ number 0 ∷ flag true ∷ []) [] (some J.read_text)

    unfoldable pub get_blockchain_info : Effect CallState BlockchainInfo
    unfolding call
    get_blockchain_info = call (codes "getblockchaininfo") [] no_info (some J.read_info)

    unfoldable pub get_chain_tips : Effect CallState (List ChainTip)
    unfolding call
    get_chain_tips = call (codes "getchaintips") [] [] (some J.read_tips)

    unfoldable pub get_block_header : Text → Effect CallState BlockHeader
    unfolding call
    get_block_header hash =
        call (codes "getblockheader") (text hash ∷ []) no_header (some J.read_header)

    unfoldable pub submit_block : Text → Effect CallState Text
    unfolding call
    submit_block block_hex = call (codes "submitblock") (text block_hex ∷ []) [] (some J.read_text)
