-- ===== src/BtcRpc/Client/Cookie.antt =====
-- The credentials that a cookie file gives.
use fractal_block_sync.Prelude.{
  ℕ, ◌≡◌, refl, ap, subst, ◌∙◌, arith, Option, none, some, [], ◌∷◌, ◌++◌, Bytes, Text, ◌==◌,
  text_eq, text_eq_iff, inl, inr, Bool-cases, ◌↔◌,
}
use fractal_block_sync.Errors.{Result, ok, err}
use fractal_block_sync.Text.{trim_space}
use fractal_block_sync.Text.Decimal.{Lacks}
use fractal_block_sync.BtcRpc.Client.{
  Client, put_ahead, cut_colon, with_credentials, with_cookie, with_cookie_file,
}

abbrev pub colon : ℕ
colon = b':'

ok_bytes : {x y : Bytes} → ok x ≡ ok y → x ≡ y
ok_bytes e = cc

some_pair :
    {a u b v : Text}
    → ◌≡◌ {A = Option (Text × Text)} (some (a, b)) (some (u, v))
    → (a ≡ u) × (b ≡ v)
some_pair e = (cc, cc)

ahead-some :
    (b : ℕ) (o : Option (Text × Text)) (u v : Text)
    → put_ahead b o ≡ some (u, v)
    → (w : Text) × (o ≡ some (w, v)) × (b ∷ w ≡ u)
ahead-some b none u v e = absurd cc
ahead-some b (some (w, x)) u v e =
    let (head, tail) = some_pair e in (w, ap (λ z. some (w, z)) tail, head)

cut_colon-some : (s u v : Text) → cut_colon s ≡ some (u, v) → (s ≡ u ++ (colon ∷ v)) × Lacks colon u
unfolding cut_colon
cut_colon-some [] u v e = absurd cc
cut_colon-some (b ∷ s) u v e = elim (Bool-cases (b == colon)) [
  | inl y ↦
      let (nil, rest) = some_pair (rw y at e) in
      let here : b ≡ colon = ground (arith, y) in
      subst (λ w. (b ∷ s ≡ w ++ (colon ∷ v)) × Lacks colon w) nil
        (ap (λ c. c ∷ s) here ∙ ap (λ z. colon ∷ z) rest, tt)
  | inr n ↦
      let (w, cut, grown) = ahead-some b (cut_colon s) u v (rw n at e) in
      let (same, lacks) = cut_colon-some s w v cut in
      subst (λ z. (b ∷ s ≡ z ++ (colon ∷ v)) × Lacks colon z) grown
        (ap (λ z. b ∷ z) same, (ground (arith, n), lacks))
]

some_cut : (u v : Text) → Lacks colon u → cut_colon (u ++ (colon ∷ v)) ≡ some (u, v)
unfolding cut_colon
some_cut [] v h = refl
some_cut (b ∷ u) v (p, h) = elim (Bool-cases (b == colon)) [
  | inl y ↦ absurd (ground (arith, y, p))
  | inr n ↦ rw n (ap (put_ahead b) (some_cut u v h))
]

-- The user and the password of a file's content, without the spaces around it: what is before the first
-- colon and what is after it.
abbrev pub HasCredentials : Bytes → Text → Text → Type 0
HasCredentials content username password =
    (trim_space content ≡ username ++ (colon ∷ password)) × Lacks colon username

with_credentials_iff :
    (path : Text) (c d : Client) (o : Option (Text × Text))
    → (with_credentials path c o ≡ ok d) ↔ (
        (u : Text) × (v : Text) × (o ≡ some (u, v))
        × (ok (record c { username = u; password = v }) ≡ ok d))
unfolding with_credentials
with_credentials_iff path c d none = (λ e. absurd cc, λ (u, v, o, e). absurd cc)
with_credentials_iff path c d (some (u, v)) =
    (λ e. (u, v, refl, e), λ (w, x, o, e). let (a, b) = some_pair o in rw a (rw b e))

-- A cookie file with a path that is not blank gives exactly the client whose user and password
-- are before and after the first colon of its content, without the spaces around it, and an
-- error where the file cannot be read or has no colon.
pub with_cookie_file_iff :
    (read_file : Text → Result Bytes) (path : Text) (c d : Client)
    → ¬ (trim_space path ≡ [])
    → (with_cookie_file read_file path c ≡ ok d) ↔ (
        (content : Bytes) × (u : Text) × (v : Text) × (read_file (trim_space path) ≡ ok content)
        × HasCredentials content u v
        × (ok (record c { username = u; password = v }) ≡ ok d))
unfolding with_cookie_file with_cookie
with_cookie_file_iff read_file path c d some_path =
    elim (Bool-cases (text_eq (trim_space path) [])) [
      | inl y ↦ absurd (some_path ((text_eq_iff (trim_space path) []).0 y))
      | inr n ↦ rw n (from_file (read_file (trim_space path)))
    ]
  where
    from_file :
        (r : Result Bytes)
        → (with_cookie (trim_space path) c r ≡ ok d) ↔ (
            (content : Bytes) × (u : Text) × (v : Text) × (r ≡ ok content)
            × HasCredentials content u v
            × (ok (record c { username = u; password = v }) ≡ ok d))
    from_file (err e) = (λ h. absurd cc, λ (content, u, v, h, k, e). absurd cc)
    from_file (ok content) = (
      λ h.
          let (u, v, cut, e) =
            (with_credentials_iff (trim_space path) c d (cut_colon (trim_space content))).0 h in
          (content, u, v, refl, cut_colon-some (trim_space content) u v cut, e),
      λ (other, u, v, h, (whole, lacks), e).
          let same : content ≡ other = ok_bytes h in
          (with_credentials_iff (trim_space path) c d (cut_colon (trim_space content))).1 (
            u,
            v,
            ap (λ x. cut_colon (trim_space x)) same ∙ (ap cut_colon whole ∙ some_cut u v lacks),
            e,
          ),
    )
