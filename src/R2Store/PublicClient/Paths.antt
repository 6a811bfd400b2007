-- ===== src/R2Store/PublicClient/Paths.antt =====
-- The address of an object key: when there is one, and which path it has.
use fractal_block_sync.Prelude.{
  ℕ, ◌≡◌, refl, ap, sym, ◌∙◌, arith, Bool, true, false, not, ◌&&◌, List, [], ◌∷◌, ◌++◌,
  append_assoc, Text, ◌==◌, if◌then◌else◌, text_eq, text_eq_iff, inl, inr, Bool-cases,
}
use fractal_block_sync.Errors.{
  Err, Result, ok, err, ◌>>=◌, key_required, bad_object_key, is_not_found,
}
use fractal_block_sync.Text.{trim_space}
use fractal_block_sync.R2Store.Config.{Url, UrlLib}
use fractal_block_sync.R2Store.PublicClient.{
  slash, trim_left_slash, trim_right_slash, split_slash, join_slash, path_escape, escape_parts,
  joined_url, url_of_key, object_url,
}

-- Joining the parts of a split text gives the text.
pub join-split : (s : Text) → let (part, parts) = split_slash s in join_slash part parts ≡ s
unfolding split_slash join_slash
join-split [] = refl
join-split (c ∷ s) = elim (Bool-cases (c == slash)) [
  | inl y ↦
      let here : c ≡ slash = ground (arith, y) in
      rw y (ap (λ t. slash ∷ t) (join-split s) ∙ ap (λ d. d ∷ s) (sym here))
  | inr n ↦ rw n (grow c (split_slash s).0 (split_slash s).1 ∙ ap (λ t. c ∷ t) (join-split s))
]
  where
    grow :
        (c : ℕ) (part : Text) (parts : List Text)
        → join_slash (c ∷ part) parts ≡ c ∷ join_slash part parts
    grow c part [] = refl
    grow c part (next ∷ parts) = refl

-- No part between slashes is empty; the flag says that a part begins here.
unfoldable pub is_clean : Bool → Text → Bool
is_clean begins [] = not begins
is_clean begins (c ∷ s) =
    let inside = is_clean false s in
    let next = is_clean true s in if c == slash then not begins && next else inside

-- Each byte but the slashes escaped.
unfoldable pub escape_key : Text → Text
escape_key [] = []
escape_key (c ∷ s) =
    let rest = escape_key s in if c == slash then slash ∷ rest else path_escape (c ∷ []) ++ rest

abbrev all_filled : List Text → Bool
all_filled [] = true
all_filled (part ∷ parts) = not (text_eq part []) && all_filled parts

abbrev escape_list : List Text → List Text
escape_list [] = []
escape_list (part ∷ parts) = path_escape part ∷ escape_list parts

escape_parts_lem :
    (key : Text) (parts : List Text)
    → escape_parts key parts
      ≡ (if all_filled parts then ok (escape_list parts) else err (bad_object_key key))
unfolding escape_parts
escape_parts_lem key [] = refl
escape_parts_lem key (part ∷ parts) = ground (arith, escape_parts_lem key parts)

path_escape-cons : (c : ℕ) (s : Text) → path_escape (c ∷ s) ≡ path_escape (c ∷ []) ++ path_escape s
unfolding path_escape
path_escape-cons c s = ground arith

put_front :
    (u part : Text) (parts : List Text) {v : Text}
    → v ≡ u ++ part
    → join_slash v parts ≡ u ++ join_slash part parts
unfolding join_slash
put_front u part [] e = e
put_front u part (next ∷ parts) e =
    ap (λ t. t ++ (slash ∷ join_slash next parts)) e
    ∙ append_assoc u part (slash ∷ join_slash next parts)

join_escape :
    (s : Text)
    → join_slash (path_escape (split_slash s).0) (escape_list (split_slash s).1) ≡ escape_key s
unfolding split_slash join_slash escape_key path_escape
join_escape [] = refl
join_escape (c ∷ s) = elim (Bool-cases (c == slash)) [
  | inl y ↦ rw y (ap (λ t. slash ∷ t) (join_escape s))
  | inr n ↦ rw n (
      put_front (path_escape (c ∷ [])) (path_escape (split_slash s).0)
        (escape_list (split_slash s).1) (path_escape-cons c (split_slash s).0)
      ∙ ap (λ t. path_escape (c ∷ []) ++ t) (join_escape s))
]

-- The first part may be empty where none begins.
clean_parts :
    (begins : Bool) (s : Text)
    → is_clean begins s ≡ (
        (if begins then not (text_eq (split_slash s).0 []) else true)
        && all_filled (split_slash s).1)
unfolding is_clean split_slash text_eq
clean_parts true [] = refl
clean_parts false [] = refl
clean_parts true (c ∷ s) = ground (arith, clean_parts true s, clean_parts false s)
clean_parts false (c ∷ s) = ground (arith, clean_parts true s, clean_parts false s)

nil_unclean : (s : Text) → is_clean true s ≡ true → ¬ (s ≡ [])
unfolding is_clean
nil_unclean [] h e = cc
nil_unclean (c ∷ s) h e = cc

module _ (L : UrlLib) (base : Url) where
  -- The address of a key without empty parts.
  abbrev pub address_of : Text → Url
  address_of key =
      let base_path = trim_right_slash (L.escaped_path base) in
      record base {
        path = trim_right_slash base.path ++ (slash ∷ key);
        raw_path = if text_eq base_path [] then [] else base_path ++ (slash ∷ escape_key key);
      }

  joined_url_lem :
      (key : Text)
      → joined_url L base key (path_escape (split_slash key).0 ∷ escape_list (split_slash key).1)
        ≡ address_of key
  unfolding joined_url
  joined_url_lem key = λ i. record base {
    path = trim_right_slash base.path ++ (slash ∷ join-split key i);
    raw_path =
        let base_path = trim_right_slash (L.escaped_path base) in
        if text_eq base_path [] then [] else base_path ++ (slash ∷ join_escape key i);
  }

  module _ (k : Text) where
    abbrev parts : List Text
    parts = (split_slash k).0 ∷ (split_slash k).1

    filled : is_clean true k ≡ all_filled parts
    filled = clean_parts true k

    escaped : Bool → Result (List Text)
    escaped b = if b then ok (escape_list parts) else err (bad_object_key k)

    escape_lem : (b : Bool) → is_clean true k ≡ b → escape_parts k parts ≡ escaped b
    unfolding escaped
    escape_lem b c = escape_parts_lem k parts ∙ ap escaped (sym filled ∙ c)

    abbrev finish_url : Result (List Text) → Result Text
    finish_url r = r >>= λ es. ok (L.print (joined_url L base k es))

    url_clean : is_clean true k ≡ true → url_of_key L base k ≡ ok (L.print (address_of k))
    unfolding url_of_key escaped
    url_clean c = elim (Bool-cases (text_eq k [])) [
      | inl y ↦ absurd (nil_unclean k c ((text_eq_iff k []).0 y))
      | inr n ↦
          rw n (ap finish_url (escape_lem true c) ∙ ap (λ u. ok (L.print u)) (joined_url_lem k))
    ]

    url_unclean :
        is_clean true k ≡ false
        → (e : Err) × (url_of_key L base k ≡ err e) × (is_not_found e ≡ false)
    unfolding url_of_key escaped is_not_found
    url_unclean c = elim (Bool-cases (text_eq k [])) [
      | inl y ↦ (key_required, rw y refl, refl)
      | inr n ↦ (bad_object_key k, rw n (ap finish_url (escape_lem false c)), refl)
    ]

  -- A key that is not empty without the spaces and slashes before it, and has no empty part
  -- between slashes then, has the address with the key behind the path of the base, and behind
  -- the escaped path, where that is not empty, with each byte but the slashes escaped. Any other
  -- key is an error, and not the one of a missing object.
  pub object_url_lem :
      (key : Text)
      → let k = trim_left_slash (trim_space key) in
        (is_clean true k ≡ true → object_url L base key ≡ ok (L.print (address_of k)))
        × (is_clean true k ≡ false
            → (e : Err) × (object_url L base key ≡ err e) × (is_not_found e ≡ false))
  unfolding object_url
  object_url_lem key = let k = trim_left_slash (trim_space key) in (url_clean k, url_unclean k)
