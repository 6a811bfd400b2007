-- ===== src/BtcRpc/Client/Replies.antt =====
-- When a call of the node gives a result, and which.
use fractal_block_sync.Prelude.{
  ℕ, ◌+◌, ◌≤◌, ◌<◌, ◌≡◌, refl, sym, ap, subst, ◌∙◌, arith, false, ◌||◌, Option, none, some, List,
  [], Bytes, Text, codes, u64, ltb, leb, text_eq, text_eq_iff, inl, inr, Bool-cases, ◌↔◌, ◌⊎◌,
}
use fractal_block_sync.Errors.{Err, Result, ok, err, wrap, at_text}
use fractal_block_sync.Text.{trim_space}
use fractal_block_sync.BtcRpc.Client.{
  Client, Param, RpcRequest, RpcError, RpcResponse, Json, Post, HttpReply, RpcHttp, read_result,
  read_answer, read_decoded, read_body, basic_auth, replied, post, posted, call,
}

module _ {A : Type 0} (method : Text) (zero_value : A) (read : Text → Result A) where
  -- What the text of a result stands for.
  abbrev pub IsValue : Text → A → Type 0
  IsValue raw a =
      ((raw ≡ codes "null") × (a ≡ zero_value)) ⊎ (¬ (raw ≡ codes "null") × (read raw ≡ ok a))

  same_value : {x y : A} → ok x ≡ ok y → y ≡ x
  same_value e = cc

  wrap_iff : (f : Err → Err) (r : Result A) (a : A) → (wrap f r ≡ ok a) ↔ (r ≡ ok a)
  wrap_iff f (ok x) a = (λ e. e, λ e. e)
  wrap_iff f (err x) a = (λ e. absurd cc, λ e. absurd cc)

  read_result_iff :
      (raw : Text) (a : A) → (read_result method zero_value (some read) raw ≡ ok a) ↔ IsValue raw a
  unfolding read_result
  read_result_iff raw a = elim (Bool-cases (text_eq raw (codes "null"))) [
    | inl y ↦
        let null : raw ≡ codes "null" = (text_eq_iff raw (codes "null")).0 y in
        rw y (
          λ e. inl (null, same_value e),
          λ v. elim v [ inl (n, e) ↦ ap ok (sym e) | inr (n, e) ↦ absurd (n null) ],
        )
    | inr n ↦
        let not_null = no_null raw n in
        let (there, back) = wrap_iff (at_text (codes "decode rpc result") method) (read raw) a in
        rw n (
          λ e. inr (not_null, there e),
          λ v. elim v [ inl (m, e) ↦ absurd (not_null m) | inr (m, e) ↦ back e ],
        )
  ]
    where
      no_null : (raw : Text) → text_eq raw (codes "null") ≡ false → ¬ (raw ≡ codes "null")
      no_null raw n e = absurd (ground (arith, text_eq_iff raw (codes "null"), n, e))

  -- A response without an error, whose result stands for the value.
  abbrev pub IsAnswer : Result RpcResponse → A → Type 0
  IsAnswer d a = (r : RpcResponse) × (d ≡ ok r) × (r.error ≡ none) × IsValue r.result a

  read_answer_iff :
      (o : Option RpcError) (raw : Text) (a : A)
      → (read_answer method zero_value (some read) o raw ≡ ok a) ↔ ((o ≡ none) × IsValue raw a)
  unfolding read_answer
  read_answer_iff none raw a =
      let (there, back) = read_result_iff raw a in (λ e. (refl, there e), λ (o, v). back v)
  read_answer_iff (some x) raw a = (λ e. absurd cc, λ (o, v). absurd cc)

  ok_response : {x y : RpcResponse} → ok x ≡ ok y → x ≡ y
  ok_response e = cc

  read_decoded_iff :
      (d : Result RpcResponse) (a : A)
      → (read_decoded method zero_value (some read) d ≡ ok a) ↔ IsAnswer d a
  unfolding read_decoded
  read_decoded_iff (err e) a = (λ h. absurd cc, λ (r, h, n, v). absurd cc)
  read_decoded_iff (ok r) a =
      let (there, back) = read_answer_iff r.error r.result a in
      (
        λ e. let (n, v) = there e in (r, refl, n, v),
        λ (q, h, n, v).
            let same = sym (ok_response h) in
            back (
              ap (λ (x : RpcResponse). x.error) (sym same) ∙ n,
              subst (λ x. IsValue x a) (ap (λ (x : RpcResponse). x.result) same) v,
            ),
      )

  module _ (J : Json) where
    -- A reply with a status from 200 to 299 whose body is an answer.
    abbrev pub IsGood : HttpReply → A → Type 0
    IsGood r a =
        (body : Bytes) × (r.body ≡ ok body)
        × (200 ≤ r.status)
        × (r.status < 300)
        × IsAnswer (J.unmarshal body) a

    ok_bytes : {x y : Bytes} → ok x ≡ ok y → x ≡ y
    ok_bytes e = cc

    read_body_iff :
        (r : HttpReply) (b : Result Bytes) (a : A)
        → r.body ≡ b
        → (read_body J method zero_value (some read) r.status b ≡ ok a) ↔ IsGood r a
    unfolding read_body
    read_body_iff r (err e) a h =
        (λ x. absurd cc, λ (body, g, low, high, d). absurd (err_ok (sym h ∙ g)))
      where
        err_ok : {e : Err} {b : Bytes} → ¬ (err e ≡ ok b)
        err_ok x = cc
    read_body_iff r (ok body) a h = elim (Bool-cases (ltb r.status 200 || leb 300 r.status)) [
      | inl o ↦ rw o (λ x. absurd cc, λ (b, g, low, high, d). absurd (ground (arith, o, low, high)))
      | inr i ↦
          let (there, back) = read_decoded_iff (J.unmarshal body) a in
          rw i (
            λ e. (body, h, ground (arith, i), ground (arith, i), there e),
            λ (b, g, low, high, d).
                back (subst (λ x. IsAnswer (J.unmarshal x) a) (ok_bytes (sym g ∙ h)) d),
          )
    ]

    module _ (H : RpcHttp) (c : Client) where
      -- The request that a payload is posted with.
      abbrev pub request_of : Bytes → Post
      request_of payload = record { url = c.url; payload = payload; basic_auth = basic_auth J H c }

      ok_reply : {x y : HttpReply} → ok x ≡ ok y → x ≡ y
      ok_reply e = cc

      replied_iff :
          (x : Result HttpReply × H.State) (a : A)
          → ((replied J H c method zero_value (some read) x).0 ≡ ok a)
            ↔ ((r : HttpReply) × (x.0 ≡ ok r) × IsGood r a)
      unfolding replied
      replied_iff (err e, s) a = (λ h. absurd cc, λ (r, h, g). absurd cc)
      replied_iff (ok r, s) a =
          let (there, back) = read_body_iff r r.body a refl in
          (
            λ e. (r, refl, there e),
            λ (q, h, g). back (subst (λ x. IsGood x a) (sym (ok_reply h)) g),
          )

      -- What a post comes to.
      abbrev pub IsPosted : Bytes → H.State → A → Type 0
      IsPosted payload s a =
          (H.new_request c.url ≡ none)
          × (r : HttpReply) × ((H.send (request_of payload) s).0 ≡ ok r)
          × IsGood r a

      post_iff :
          (payload : Bytes) (o : Option Err) (s : H.State) (a : A)
          → H.new_request c.url ≡ o
          → ((post J H c method zero_value (some read) payload o s).0 ≡ ok a) ↔ IsPosted payload s a
      unfolding post
      post_iff payload (some e) s a h =
          (λ x. absurd cc, λ (n, r, sent, g). absurd (some_none (sym h ∙ n)))
        where
          some_none : ¬ (some e ≡ none)
          some_none x = cc
      post_iff payload none s a h =
          let (there, back) = replied_iff (H.send (request_of payload) s) a in
          (λ e. let (r, sent, g) = there e in (h, r, sent, g), λ (n, r, sent, g). back (r, sent, g))

      posted_iff :
          (p : Result Bytes) (s : H.State) (a : A)
          → ((posted J H c method zero_value (some read) p s).0 ≡ ok a)
            ↔ ((payload : Bytes) × (p ≡ ok payload) × IsPosted payload s a)
      unfolding posted
      posted_iff (err e) s a = (λ h. absurd cc, λ (payload, h, g). absurd cc)
      posted_iff (ok payload) s a =
          let (there, back) = post_iff payload (H.new_request c.url) s a refl in
          (
            λ e. (payload, refl, there e),
            λ (q, h, g). back (subst (λ x. IsPosted x s a) (sym (ok_bytes h)) g),
          )

      -- Call gives a value exactly when the method is not blank, the request with the next
      -- identifier was encoded, made and answered with a status from 200 to 299, the body
      -- decodes to a response without an error, and its result is null and the value the zero
      -- value, or its result is not null and decodes to the value.
      pub call_iff :
          (params : List Param) (id : ℕ) (s : H.State) (a : A)
          → ((call J H c method params zero_value (some read) (id, s)).0 ≡ ok a) ↔ (
              ¬ (trim_space method ≡ [])
              × (payload : Bytes) × (J.marshal
                    (record { id = u64 (id + 1); method = method; params = params })
                  ≡ ok payload)
              × IsPosted payload s a)
      unfolding call
      call_iff params id s a = elim (Bool-cases (text_eq (trim_space method) [])) [
        | inl y ↦
            let blank : trim_space method ≡ [] = (text_eq_iff (trim_space method) []).0 y in
            rw y (λ e. absurd cc, λ (some_method, payload, m, g). absurd (some_method blank))
        | inr n ↦
            let request : RpcRequest = record {
              id = u64 (id + 1);
              method = method;
              params = params;
            } in
            let (there, back) = posted_iff (J.marshal request) s a in
            rw n (
              λ e.
                  let (payload, m, g) = there e in (not_blank (trim_space method) n, payload, m, g),
              λ (some_method, payload, m, g). back (payload, m, g),
            )
      ]
        where
          not_blank : (t : Text) → text_eq t [] ≡ false → ¬ (t ≡ [])
          not_blank t n e = absurd (ground (arith, text_eq_iff t [], n, e))
