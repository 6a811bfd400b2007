-- ===== src/Tests/Rpc.antt =====
-- The client of the node at concrete inputs: a server whose replies are the results themselves.
use fractal_block_sync.Prelude.{
  ℕ, ◌+◌, ◌≡◌, refl, none, some, [], ◌∷◌, Bytes, Text, codes, text_eq, ◌↔◌,
}
use fractal_block_sync.Errors.{Result, ok, err, external}
use fractal_block_sync.Text.{trim_space}
use fractal_block_sync.BtcRpc.Client.{
  Client, Json, RpcHttp, text, call, submit_block, with_cookie_file,
}
use fractal_block_sync.BtcRpc.Client.Replies.{IsPosted, call_iff}

abbrev anonymous : Client
anonymous = record { url = codes "http://node"; username = []; password = [] }

abbrev cookie : Text → Result Bytes
cookie path = ok (codes "__cookie__:secret:x\n")

abbrev logged_in : Client
logged_in = record {
  url = codes "http://node";
  username = codes "__cookie__";
  password = codes "secret:x";
}

cookie_read : with_cookie_file cookie (codes " .cookie ") anonymous ≡ ok logged_in
unfolding with_cookie_file text_eq trim_space
cookie_read = refl

-- A codec that sends the method and reads the body as the result.
abbrev json : Json
json = record {
  marshal = λ r. ok r.method;
  unmarshal = λ body. ok (record { result = body; error = none });
  read_number = λ raw. ok 7;
  read_text = λ raw. ok raw;
  read_info = λ raw. ok (record { blocks = 1; headers = 2 });
  read_tips = λ raw. ok [];
  read_header = λ raw. err (external raw);
}

abbrev server : RpcHttp
server = record {
  State = ℕ;
  new_request = λ address. none;
  send = λ post n. (ok (record { status = 200; body = ok (codes "null") }), n + 1);
}

-- A null result is the empty text, which means that the block was accepted.
null_accepted : submit_block json server logged_in (codes "00") (0, 0) ≡ (ok [], (1, 1))
unfolding submit_block text_eq trim_space
null_accepted = refl

call_iff_example :
    ((call json server logged_in
        (codes "submitblock")
        (text (codes "00") ∷ [])
        []
        (some json.read_text)
        (0, 0)).0
      ≡ ok [])
    ↔ (¬ (trim_space (codes "submitblock") ≡ [])
        × (payload : Bytes) × (ok (codes "submitblock") ≡ ok payload)
        × IsPosted (codes "submitblock") [] json.read_text json server logged_in payload 0 [])
call_iff_example =
    call_iff (codes "submitblock") [] json.read_text json server logged_in (text (codes "00") ∷ [])
      0 0 []
