-- ===== src/R2Store/PublicClient/Replies.antt =====
-- What `DownloadObject` makes of the reply to its request.
use fractal_block_sync.Prelude.{
  ◌≤◌, ◌<◌, ◌≡◌, refl, sym, ap, subst, ◌∙◌, arith, true, false, ◌||◌, Option, none, some, Bytes,
  Text, codes, ltb, leb, ◌==◌, inl, inr, Bool-cases, ◌↔◌, ◌⊎◌,
}
use fractal_block_sync.Errors.{
  Err, Result, ok, err, is_not_found, not_found, at_text, wrapped, http_status, Result-cases,
}
use fractal_block_sync.Text.{trim_space}
use fractal_block_sync.R2Store.Config.{UrlLib}
use fractal_block_sync.R2Store.PublicClient.{
  Http, PublicClient, Response, trim_left_slash, object_url, read_body, read_response, replied,
  requested, request, download_object,
}
use fractal_block_sync.R2Store.PublicClient.Paths.{is_clean, object_url_lem}

-- No error of net/http wraps the sentinel of this package.
pub record HasOwnErrors (H : Http) : Type 0 where
  pub of_request :
      (address : Text) (e : Err) → H.new_request address ≡ some e → is_not_found e ≡ false
  pub of_send :
      (address : Text) (s : H.State) (e : Err)
      → (H.send address s).0 ≡ err e
      → is_not_found e ≡ false
  pub of_body :
      (address : Text) (s : H.State) (r : Response) (e : Err)
      → (H.send address s).0 ≡ ok r
      → r.body ≡ err e
      → is_not_found e ≡ false

abbrev pub IsMissing : Result Bytes → Type 0
IsMissing r = (e : Err) × (r ≡ err e) × (is_not_found e ≡ true)

module _ (L : UrlLib) (H : Http) (own : HasOwnErrors H) (c : PublicClient) where
  -- The reply to the request for a key.
  abbrev pub HasReply : Text → H.State → Response → Type 0
  HasReply key s r =
      (address : Text) × (object_url L c.base_url key ≡ ok address)
      × (H.new_request address ≡ none)
      × ((H.send address s).0 ≡ ok r)

  -- What a result says of the reply, if any: the body of a status 2xx, or that the object is missing,
  -- for the status 404 and only there.
  pub record Tells (key : Text) (s : H.State) (x : Result Bytes) : Type 0 where
    pub missing : IsMissing x ↔ ((r : Response) × HasReply key s r × (r.status ≡ 404))
    pub body :
        (b : Bytes)
        → (x ≡ ok b) ↔ (
            (r : Response) × HasReply key s r
            × (200 ≤ r.status)
            × (r.status < 300)
            × (r.body ≡ ok b))

  clash :
      (e d : Err)
      → ◌≡◌ {A = Result Bytes} (err e) (err d)
      → is_not_found e ≡ false
      → ¬ (is_not_found d ≡ true)
  clash e d same plain y = cc

  -- An error before there is a reply.
  failed_early :
      (key : Text) (s : H.State) (e : Err)
      → is_not_found e ≡ false
      → ((r : Response) → ¬ HasReply key s r)
      → Tells key s (err e)
  failed_early key s e plain no_reply = record {
    missing =
        (λ (d, same, y). absurd (clash e d same plain y), λ (r, h, at). absurd (no_reply r h));
    body = λ b. (λ x. cc, λ (r, h, low, high, there). absurd (no_reply r h));
  }

  -- The three things that a reply can come to.
  abbrev IsRead : Text → Response → Type 0
  IsRead key r =
      ((r.status ≡ 404) × (read_response key r ≡ err not_found))
      ⊎ (((e : Err) × (read_response key r ≡ err e)
            × (is_not_found e ≡ false)
            × ¬ (r.status ≡ 404)
            × ((b : Bytes) → 200 ≤ r.status → r.status < 300 → ¬ (r.body ≡ ok b)))
          ⊎ ((b : Bytes) × (read_response key r ≡ ok b)
              × (200 ≤ r.status)
              × (r.status < 300)
              × (r.body ≡ ok b)))

  IsRead-cases :
      (key : Text) (r : Response)
      → ((e : Err) → r.body ≡ err e → is_not_found e ≡ false)
      → IsRead key r
  unfolding read_response read_body is_not_found
  IsRead-cases key r plain = elim (Bool-cases (r.status == 404)) [
    | inl y ↦ rw y (inl (ground (arith, y), refl))
    | inr n ↦ elim (Bool-cases (ltb r.status 200 || leb 300 r.status)) [
      | inl o ↦ rw n (
          rw o (
            inr (
              inl (
                http_status key r.status,
                refl,
                refl,
                λ at. absurd (ground (arith, n, at)),
                λ b low high at. absurd (ground (arith, o, low, high)),
              ))))
      | inr i ↦ elim (Result-cases r.body) [
        | inl (b, e) ↦
            rw n (rw i (rw e (inr (inr (b, refl, ground (arith, i), ground (arith, i), refl)))))
        | inr (x, e) ↦ rw n (
            rw i (
              rw e (
                inr (
                  inl (
                    at_text (codes "read object") key x,
                    refl,
                    plain x e,
                    λ at. absurd (ground (arith, n, at)),
                    λ b low high at. cc,
                  )))))
      ]
    ]
  ]

  same_reply :
      (key : Text) (s : H.State) (r q : Response) → HasReply key s r → HasReply key s q → q ≡ r
  same_reply key s r q (a, ua, na, ra) (b, ub, nb, rb) =
      let same : a ≡ b = ok_address (sym ua ∙ ub) in
      ok_response (sym rb ∙ (ap (λ x. (H.send x s).0) (sym same) ∙ ra))
    where
      ok_address : {x y : Text} → ok x ≡ ok y → x ≡ y
      ok_address e = cc

      ok_response : {x y : Response} → ok x ≡ ok y → x ≡ y
      ok_response e = cc

  err_ok : {A : Type 0} {e : Err} {a : A} → ¬ (err e ≡ ok a)
  err_ok x = cc

  ok_body : {a b : Bytes} → ok a ≡ ok b → a ≡ b
  ok_body e = cc

  missing_itself : is_not_found not_found ≡ true
  unfolding is_not_found
  missing_itself = refl

  replied_Tells :
      (key : Text) (s : H.State) (r : Response)
      → HasReply key s r
      → IsRead key r
      → Tells key s (read_response key r)
  replied_Tells key s r h (inl (at, e)) = record {
    missing = (λ m. (r, h, at), λ q. (not_found, e, missing_itself));
    body = λ b. (
      λ x. absurd (err_ok (sym e ∙ x)),
      λ (q, g, low, high, there).
          let same = ap (λ (z : Response). z.status) (same_reply key s r q h g) in
          absurd (omega (arith, same, at, high)),
    );
  }
  replied_Tells key s r h (inr (inl (e, is, plain, other, unread))) = record {
    missing = (
      λ (d, same, y). absurd (clash e d (sym is ∙ same) plain y),
      λ (q, g, at).
          let same = ap (λ (z : Response). z.status) (same_reply key s r q h g) in
          absurd (other (sym same ∙ at)),
    );
    body = λ b. (
      λ x. absurd (err_ok (sym is ∙ x)),
      λ (q, g, low, high, there).
          let same = same_reply key s r q h g in
          let status = ap (λ (z : Response). z.status) same in
          absurd (
            unread b (omega (arith, status, low)) (omega (arith, status, high))
              (ap (λ (z : Response). z.body) (sym same) ∙ there)),
    );
  }
  replied_Tells key s r h (inr (inr (b, is, low, high, there))) = record {
    missing = (
      λ (d, same, y). absurd (err_ok (sym same ∙ is)),
      λ (q, g, at).
          let same = ap (λ (z : Response). z.status) (same_reply key s r q h g) in
          absurd (omega (arith, same, at, high)),
    );
    body = λ b'. (
      λ x. (r, h, low, high, there ∙ (sym is ∙ x)),
      λ (q, g, low', high', there').
          let same = same_reply key s r q h g in
          is ∙ (sym there ∙ (ap (λ (z : Response). z.body) (sym same) ∙ there')),
    );
  }

  plain_url : (key : Text) (e : Err) → object_url L c.base_url key ≡ err e → is_not_found e ≡ false
  plain_url key e failed =
      let (clean, unclean) = object_url_lem L c.base_url key in
      elim (Bool-cases (is_clean true (trim_left_slash (trim_space key)))) [
        | inl y ↦ absurd (err_ok (sym failed ∙ clean y))
        | inr n ↦
            let (d, is, plain) = unclean n in
            subst (λ x. is_not_found x ≡ false) (same_error (sym is ∙ failed)) plain
      ]
    where
      same_error : {x y : Err} → ◌≡◌ {A = Result Text} (err x) (err y) → x ≡ y
      same_error e = cc

  at_address :
      (key : Text) (s : H.State) (r : Response) {address : Text}
      → object_url L c.base_url key ≡ ok address
      → (h : HasReply key s r) → h.0 ≡ address
  at_address key s r u h = ok_text (sym h.1 ∙ u)
    where
      ok_text : {x y : Text} → ok x ≡ ok y → x ≡ y
      ok_text e = cc

  after_send :
      (key address : Text) (s : H.State) (a : Result Response × H.State)
      → object_url L c.base_url key ≡ ok address
      → H.new_request address ≡ none
      → H.send address s ≡ a
      → Tells key s (replied L H c key a).0
  unfolding replied is_not_found
  after_send key address s (err e, t) u n sent =
      failed_early key s (at_text (codes "download object") key e)
        (own.of_send address s e (ap (λ (x : Result Response × H.State). x.0) sent))
        (λ r h. absurd (
          err_ok (
            sym (ap (λ (x : Result Response × H.State). x.0) sent)
            ∙ (ap (λ a. (H.send a s).0) (sym (at_address key s r u h)) ∙ h.3))))
  after_send key address s (ok r, t) u n sent =
      let got = ap (λ (x : Result Response × H.State). x.0) sent in
      replied_Tells key s r (address, u, n, got)
        (IsRead-cases key r (λ e b. own.of_body address s r e got b))

  after_request :
      (key address : Text) (s : H.State) (o : Option Err)
      → object_url L c.base_url key ≡ ok address
      → H.new_request address ≡ o
      → Tells key s (requested L H c key address o s).0
  unfolding requested is_not_found
  after_request key address s (some e) u n =
      failed_early key s (wrapped (codes "create download request") e) (own.of_request address e n)
        (λ r h.
          absurd (some_none (sym n ∙ (ap H.new_request (sym (at_address key s r u h)) ∙ h.2))))
    where
      some_none : ¬ (some e ≡ none)
      some_none x = cc
  after_request key address s none u n = after_send key address s (H.send address s) u n refl

  after_url :
      (key : Text) (s : H.State) (r : Result Text)
      → object_url L c.base_url key ≡ r
      → Tells key s (request L H c key r s).0
  unfolding request
  after_url key s (err e) u =
      failed_early key s e (plain_url key e u) (λ r h. absurd (err_ok (sym u ∙ h.1)))
  after_url key s (ok address) u = after_request key address s (H.new_request address) u refl

  -- Where no error of net/http wraps the sentinel, DownloadObject reports a missing object
  -- exactly when its request was answered with the status 404; and it gives a body exactly when
  -- it was answered with a status from 200 to 299 and that body. In all other cases, the ones
  -- without a reply included, it fails with another error.
  pub download_object-Tells :
      (key : Text) (s : H.State) → Tells key s (download_object L H c key s).0
  unfolding download_object
  download_object-Tells key s = after_url key s (object_url L c.base_url key) refl
