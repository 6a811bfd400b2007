-- ===== src/Upload/Probes/Start.antt =====
-- Where `findUploadStart` lets the upload begin.
use fractal_block_sync.Prelude.{
  ℕ, zero, suc, ◌+◌, ◌≤◌, ◌<◌, ◌≡◌, refl, sym, ap, subst, arith, false, Option, none, some, List,
  [], ◌∷◌, Text, u64, max_u64, ltb, ◌==◌, count, Bool-cases, inl, inr,
}
use fractal_block_sync.Errors.{ok}
use fractal_block_sync.Effects.Laws.{continue-ok}
use fractal_block_sync.Upload.Services.{Provider, IsLawful}
use fractal_block_sync.Upload.Windows.{
  sub64, probes_from, upload_probe_heights, previous_upload_window_start, final_upload_window_start,
}
use fractal_block_sync.Upload.Probes.{
  UploadProbeResult, first_missing, window_start, check_upload_probes, find_upload_start,
}
use fractal_block_sync.Upload.Probes.Ordered.{Probed, check_upload_probes-Probed}

-- The probes between two heights, in ascending order.
abbrev Between : ℕ → ℕ → List ℕ → Type 0
Between a tip [] = Unit
Between a tip (h ∷ hs) = (a ≤ h) × (h ≤ tip) × Between h tip hs

Between-below : (a b tip : ℕ) (hs : List ℕ) → a ≤ b → Between b tip hs → Between a tip hs
Between-below a b tip [] le h = tt
Between-below a b tip (x ∷ hs) le (lo, hi, h) = (omega arith, hi, h)

Between-count : (a tip : ℕ) (hs : List ℕ) (h : ℕ) → Between a tip hs → 0 < count h hs → a ≤ h
Between-count a tip [] h b c = absurd (omega arith)
Between-count a tip (x ∷ hs) h (lo, hi, b) c = elim (Bool-cases (x == h)) [
  | inl y ↦ ground arith
  | inr n ↦ let ih = Between-count x tip hs h b (ground arith) in omega arith
]

probes_from-Between :
    (fuel a tip step : ℕ) → a ≤ tip → tip ≤ max_u64 → Between a tip (probes_from fuel a tip step)
unfolding probes_from
probes_from-Between zero a tip step lo fits = tt
probes_from-Between (suc fuel) a tip step lo fits = elim (Bool-cases (ltb (sub64 tip a) step)) [
  | inl y ↦ rw y (omega arith, lo, tt)
  | inr n ↦
      let next : u64 (a + step) ≡ a + step = ground arith in
      rw n (
        omega arith,
        lo,
        Between-below a (u64 (a + step)) tip _ (omega arith)
            (probes_from-Between fuel (u64 (a + step)) tip step (ground arith) fits),
      )
]

module _ (E : Provider) (chain : ℕ → Text) (Stored : Text → E.State → Type 0) where
  all_found :
      (t : E.State) (rs : List UploadProbeResult) (hs : List ℕ) (h : ℕ)
      → Probed E chain Stored t rs hs
      → first_missing rs ≡ none
      → 0 < count h hs
      → Stored (chain h) t
  unfolding first_missing
  all_found t [] [] h p e c = absurd (omega arith)
  all_found t [] (x ∷ hs) h p e c = absurd p
  all_found t (r ∷ rs) [] h p e c = absurd p
  all_found t (r ∷ rs) (x ∷ hs) h ((here, found), p) e c = elim (Bool-cases r.exists) [
    | inr n ↦ let refused = rw n at e in cc
    | inl y ↦ elim (Bool-cases (x == h)) [
      | inl same ↦ let eq : x ≡ h = ground arith in subst (λ z. Stored (chain z) t) eq (found y)
      | inr other ↦ all_found t rs hs h p (rw y at e) (ground arith)
    ]
  ]

  found_before :
      (t : E.State) (a tip m : ℕ) (rs : List UploadProbeResult) (hs : List ℕ) (h : ℕ)
      → Between a tip hs
      → Probed E chain Stored t rs hs
      → first_missing rs ≡ some m
      → 0 < count h hs
      → h < m
      → Stored (chain h) t
  unfolding first_missing
  found_before t a tip m [] [] h b p e c lt = absurd (omega arith)
  found_before t a tip m [] (x ∷ hs) h b p e c lt = absurd p
  found_before t a tip m (r ∷ rs) [] h b p e c lt = absurd p
  found_before t a tip m (r ∷ rs) (x ∷ hs) h (lo, hi, b) ((here, found), p) e c lt =
      elim (Bool-cases r.exists) [
        | inr n ↦
            let missing : some r.height ≡ some m = rw n at e in
            let at : r.height ≡ m = cc in
            let above : x ≤ h = Between-count x tip (x ∷ hs) h (omega arith, hi, b) c in
            absurd (omega arith)
        | inl y ↦ elim (Bool-cases (x == h)) [
          | inl same ↦ let eq : x ≡ h = ground arith in subst (λ z. Stored (chain z) t) eq (found y)
          | inr other ↦ found_before t x tip m rs hs h b p (rw y at e) (ground arith) lt
        ]
      ]

  missing_bounds :
      (t : E.State) (a tip m : ℕ) (rs : List UploadProbeResult) (hs : List ℕ)
      → Between a tip hs
      → Probed E chain Stored t rs hs
      → first_missing rs ≡ some m
      → (a ≤ m) × (m ≤ tip)
  unfolding first_missing
  missing_bounds t a tip m [] hs b p e = cc
  missing_bounds t a tip m (r ∷ rs) [] b p e = absurd p
  missing_bounds t a tip m (r ∷ rs) (x ∷ hs) (lo, hi, b) ((here, found), p) e =
      elim (Bool-cases r.exists) [
        | inr n ↦
            let missing : some r.height ≡ some m = rw n at e in
            let at : r.height ≡ m = cc in (omega arith, omega arith)
        | inl y ↦
            let (lower, upper) = missing_bounds t x tip m rs hs b p (rw y at e) in
            (omega arith, omega arith)
      ]

  window_start_lem :
      (t : E.State) (from_height tip step h : ℕ) (rs : List UploadProbeResult) (o : Option ℕ)
      → first_missing rs ≡ o
      → from_height ≤ tip
      → tip ≤ max_u64
      → 0 < step
      → Probed E chain Stored t rs (upload_probe_heights from_height tip step)
      → 0 < count h (upload_probe_heights from_height tip step)
      → h < window_start from_height tip step o
      → Stored (chain h) t
  unfolding window_start upload_probe_heights previous_upload_window_start
  window_start_lem t from_height tip step h rs none e lo fits pos p c lt = all_found t rs _ h p e c
  window_start_lem t from_height tip step h rs (some m) e lo fits pos p c lt =
      let b = probes_from-Between (suc (sub64 tip from_height)) from_height tip step lo fits in
      let between = missing_bounds t from_height tip m rs _ b p e in
      found_before t from_height tip m rs _ h b p e c (ground arith)

  window_start-bounds :
      (t : E.State) (from_height tip step : ℕ) (rs : List UploadProbeResult) (o : Option ℕ)
      → first_missing rs ≡ o
      → from_height ≤ tip
      → tip ≤ max_u64
      → 0 < step
      → Probed E chain Stored t rs (upload_probe_heights from_height tip step)
      → (from_height ≤ window_start from_height tip step o)
        × (window_start from_height tip step o ≤ tip)
  unfolding window_start upload_probe_heights previous_upload_window_start final_upload_window_start
  window_start-bounds t from_height tip step rs none e lo fits pos p = ground arith
  window_start-bounds t from_height tip step rs (some m) e lo fits pos p =
      let b = probes_from-Between (suc (sub64 tip from_height)) from_height tip step lo fits in
      let between = missing_bounds t from_height tip m rs _ b p e in ground arith

  window_start-late :
      (t : E.State) (from_height tip step h : ℕ) (rs : List UploadProbeResult) (o : Option ℕ)
      → first_missing rs ≡ o
      → from_height ≤ tip
      → tip ≤ max_u64
      → 0 < step
      → Probed E chain Stored t rs (upload_probe_heights from_height tip step)
      → from_height ≤ h
      → tip < h + step
      → window_start from_height tip step o ≤ h
  unfolding window_start upload_probe_heights previous_upload_window_start final_upload_window_start
  window_start-late t from_height tip step h rs none e lo fits pos p above late = ground arith
  window_start-late t from_height tip step h rs (some m) e lo fits pos p above late =
      let b = probes_from-Between (suc (sub64 tip from_height)) from_height tip step lo fits in
      let between = missing_bounds t from_height tip m rs _ b p e in ground arith

module _ (E : Provider) (chain : ℕ → Text) (Stored : Text → E.State → Type 0)
    (L : IsLawful E chain Stored) where
  find_upload_start-ok :
      (from_height tip step workers : ℕ) (s : E.State) {start : ℕ} {t : E.State}
      → 0 < step
      → find_upload_start E from_height tip step workers s ≡ (ok start, t)
      → (rs : List UploadProbeResult) × Probed E chain Stored t rs
          (upload_probe_heights from_height tip step)
        × (window_start from_height tip step (first_missing rs) ≡ start)
  unfolding find_upload_start
  find_upload_start-ok from_height tip step workers s {start} {t} pos e =
      let nonzero : (step == 0) ≡ false = ground arith in
      let (rs, ran, e1) =
        continue-ok (check_upload_probes E (upload_probe_heights from_height tip step) workers s) _
          (rw nonzero at e) in
      let at : ok (window_start from_height tip step (first_missing rs)) ≡ ok start =
        ap (λ r. r.0) e1 in
      let same : window_start from_height tip step (first_missing rs) ≡ start = cc in
      let p =
        check_upload_probes-Probed E chain Stored L (upload_probe_heights from_height tip step)
          workers s ran in
      (
        rs,
        subst (λ u. Probed E chain Stored u rs (upload_probe_heights from_height tip step))
            (ap (λ r. r.1) e1) p,
        same,
      )

  -- Every probe below the start found its block.
  pub find_upload_start_lem :
      (from_height tip step workers h : ℕ) (s : E.State) {start : ℕ} {t : E.State}
      → from_height ≤ tip
      → tip ≤ max_u64
      → 0 < step
      → find_upload_start E from_height tip step workers s ≡ (ok start, t)
      → 0 < count h (upload_probe_heights from_height tip step)
      → h < start
      → Stored (chain h) t
  find_upload_start_lem from_height tip step workers h s {start} {t} lo fits pos e c lt =
      let (rs, p, same) = find_upload_start-ok from_height tip step workers s pos e in
      window_start_lem E chain Stored t from_height tip step h rs _ refl lo fits pos p c
        (subst (λ x. h < x) (sym same) lt)

  -- The start is never within a step of the tip, unless it is the first height.
  pub find_upload_start-late :
      (from_height tip step workers h : ℕ) (s : E.State) {start : ℕ} {t : E.State}
      → from_height ≤ tip
      → tip ≤ max_u64
      → 0 < step
      → find_upload_start E from_height tip step workers s ≡ (ok start, t)
      → from_height ≤ h
      → tip < h + step
      → start ≤ h
  find_upload_start-late from_height tip step workers h s {start} {t} lo fits pos e above late =
      let (rs, p, same) = find_upload_start-ok from_height tip step workers s pos e in
      subst (λ x. x ≤ h) same
        (window_start-late E chain Stored t from_height tip step h rs _ refl lo fits pos p above
          late)

  -- On a node whose chain does not change and over a store that loses no block, for a probe step
  -- above zero, findUploadStart returns a height from the first height to the tip.
  pub find_upload_start-bounds :
      (from_height tip step workers : ℕ) (s : E.State) {start : ℕ} {t : E.State}
      → from_height ≤ tip
      → tip ≤ max_u64
      → 0 < step
      → find_upload_start E from_height tip step workers s ≡ (ok start, t)
      → (from_height ≤ start) × (start ≤ tip)
  find_upload_start-bounds from_height tip step workers s {start} {t} lo fits pos e =
      let (rs, p, same) = find_upload_start-ok from_height tip step workers s pos e in
      subst (λ x. (from_height ≤ x) × (x ≤ tip)) same
        (window_start-bounds E chain Stored t from_height tip step rs _ refl lo fits pos p)
