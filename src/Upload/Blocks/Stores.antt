-- ===== src/Upload/Blocks/Stores.antt =====
-- A height whose upload succeeded has its block in the store.
use fractal_block_sync.Prelude.{
  ℕ, ◌<◌, ◌≡◌, refl, ap, subst, ◌∙◌, arith, Bool, true, false, List, [], ◌∷◌, ◌==◌, Text,
  if◌then◌else◌, count, Bool-cases, inl, inr,
}
use fractal_block_sync.Errors.{ok, wrap}
use fractal_block_sync.Effects.Laws.{continue-ok, wrapped-ok}
use fractal_block_sync.Text.{trim_space}
use fractal_block_sync.Hex
use fractal_block_sync.Upload.Services.{Provider, IsLawful}
use fractal_block_sync.Upload.Blocks.{
  get_upload_block_state, upload_missing, upload_block, upload_each,
}
use fractal_block_sync.Upload.Blocks.Keeps.{upload_each-keeps}

module _ (E : Provider) (chain : ℕ → Text) (Stored : Text → E.State → Type 0)
    (L : IsLawful E chain Stored) where
  upload_missing-stores :
      (h : ℕ) (hash : Text) (s : E.State) {did : Bool} {t : E.State}
      → upload_missing E h hash s ≡ (ok did, t)
      → Stored hash t
  unfolding upload_missing
  upload_missing-stores h hash s e =
      let (raw_hex, _, e1) = wrapped-ok _ (E.get_block_raw_hex hash s) _ e in
      let (raw, _, e2) = continue-ok (wrap _ (Hex.decode (trim_space raw_hex)), _) _ e1 in
      let (_, put, e3) = wrapped-ok _ (E.put_block hash raw _) _ e2 in
      subst (Stored hash) (ap (λ r. r.1) e3) (L.put hash raw _ put)

  get_upload_block_state-ok :
      (h : ℕ) (s : E.State) {r : Text × Bool} {t : E.State}
      → get_upload_block_state E h s ≡ (ok r, t)
      → (r.0 ≡ chain h) × (r.1 ≡ true → Stored (chain h) t)
  unfolding get_upload_block_state
  get_upload_block_state-ok h s {r} {t} e =
      let (hash, said, e1) = wrapped-ok _ (E.get_block_hash h s) _ e in
      let (exists, found, e2) = wrapped-ok _ (E.block_exists hash _) _ e1 in
      let here = L.hash_reply h s said in
      let same : ok (hash, exists) ≡ ok r = ap (λ z. z.0) e2 in
      (
        cc,
        λ y.
            let yes : ok exists ≡ ok true = cc in
            subst (λ x. Stored x t) here
              (subst (Stored hash) (ap (λ z. z.1) e2) (L.found hash _ (found ∙ yes))),
      )

  pub upload_block-stores :
      (h : ℕ) (s : E.State) {did : Bool} {t : E.State}
      → upload_block E h s ≡ (ok did, t)
      → Stored (chain h) t
  unfolding upload_block
  upload_block-stores h s {did} {t} e =
      let (r, e0, e1) = continue-ok (get_upload_block_state E h s) _ e in
      let (here, found) = get_upload_block_state-ok h s e0 in finish r here found e1
    where
      finish :
          (r : Text × Bool) {u : E.State}
          → r.0 ≡ chain h
          → (r.1 ≡ true → Stored (chain h) u)
          → (if r.1 then (λ v. (ok false, v)) else upload_missing E h r.0) u ≡ (ok did, t)
          → Stored (chain h) t
      finish (hash, true) here found e = subst (Stored (chain h)) (ap (λ z. z.1) e) (found refl)
      finish (hash, false) here found e =
          subst (λ x. Stored x t) here (upload_missing-stores h hash _ e)

  pub upload_each-stores :
      (hs : List ℕ) (n : ℕ) (s : E.State) {m : ℕ} {t : E.State}
      → upload_each E hs n s ≡ (ok m, t)
      → (k : ℕ) → 0 < count k hs
      → Stored (chain k) t
  unfolding upload_each
  upload_each-stores [] n s e k pos = absurd (omega arith)
  upload_each-stores (h ∷ hs) n s {m} {t} e k pos =
      let (did, e0, e1) = continue-ok (upload_block E h s) _ e in
      elim (Bool-cases (h == k)) [
        | inl y ↦
            let here = upload_block-stores h s e0 in
            let same : h ≡ k = ground arith in
            let kept = upload_each-keeps E (Stored (chain h)) (L.kept (chain h)) hs _ _ here in
            subst (λ j. Stored (chain j) t) same (subst (Stored (chain h)) (ap (λ z. z.1) e1) kept)
        | inr n' ↦ upload_each-stores hs _ _ e1 k (ground arith)
      ]
