-- ===== src/Upload/Follower/Ancestor.antt =====
-- What `findCommonAncestor` finds.
use fractal_block_sync.Prelude.{
  ℕ, zero, suc, ◌+◌, ◌-◌, ◌≤◌, ◌<◌, ◌≡◌, ◌≢◌, sym, ap, subst, ◌∙◌, arith, true, false, Option, none,
  some, List, Text, text_eq, text_eq_iff, ◌==◌, Bool-cases, Option-cases, inl, inr, ◌⊎◌,
}
use fractal_block_sync.Errors.{ok}
use fractal_block_sync.Effects.Laws.{wrapped-ok}
use fractal_block_sync.Upload.Services.{Provider}
use fractal_block_sync.Upload.Follower.{recall}
use fractal_block_sync.Upload.Follower.Recent.{ancestor_from}

-- The ancestor is a remembered height whose hash is still the chain's, and no height above it is one.
-- Where none is found, no height of the search is one.
abbrev pub IsAncestor : (ℕ → Text) → List (ℕ × Text) → ℕ → ℕ → ℕ → Option ℕ → Type 0
IsAncestor chain known rounds start h (some a) =
    (a ≤ start)
    × (start < a + rounds)
    × (recall a known ≡ some (chain a))
    × ((h ≤ a) ⊎ (recall h known ≢ some (chain h)))
IsAncestor chain known rounds start h none = recall h known ≢ some (chain h)

module _ (chain : ℕ → Text) (known : List (ℕ × Text)) where
  -- A height that is not an ancestor above a search.
  above :
      (rounds start h : ℕ) (o : Option ℕ)
      → recall start known ≢ some (chain start)
      → rounds ≤ start
      → h ≤ start
      → start < h + suc rounds
      → (0 < rounds) ⊎ (o ≡ none)
      → ((k : ℕ)
          → k ≤ start - 1
          → start - 1 < k + rounds
          → IsAncestor chain known rounds (start - 1) k o)
      → IsAncestor chain known (suc rounds) start h o
  above rounds start h none miss fits hi lo some_left below = elim (Bool-cases (h == start)) [
    | inl y ↦
        let at : h ≡ start = ground arith in
        subst (λ k. recall k known ≢ some (chain k)) (sym at) miss
    | inr n ↦ below h (ground arith) (ground arith)
  ]
  above rounds start h (some a) miss fits hi lo (inr e) below = cc
  above rounds start h (some a) miss fits hi lo (inl pos) below =
      let (under, over, same, _) = below (start - 1) (omega arith) (omega arith) in
      (
        omega arith,
        omega arith,
        same,
        elim (Bool-cases (h == start)) [
          | inl y ↦
              let at : h ≡ start = ground arith in
              inr (subst (λ k. recall k known ≢ some (chain k)) (sym at) miss)
          | inr n ↦ (below h (ground arith) (ground arith)).3
        ],
      )

  differs :
      (current hash : Text) (start : ℕ)
      → recall start known ≡ some hash
      → current ≡ chain start
      → text_eq current hash ≡ false
      → recall start known ≢ some (chain start)
  differs current hash start q here n m =
      let one : some hash ≡ some (chain start) = sym q ∙ m in
      let two : current ≡ hash = cc in
      let three : text_eq current hash ≡ true = (text_eq_iff current hash).1 two in cc

module _ (E : Provider) (chain : ℕ → Text)
    (hash_reply : (h : ℕ) (s : E.State) (t : Text)
      → (E.get_block_hash h s).0 ≡ ok t
      → t ≡ chain h) where
  none_left :
      (known : List (ℕ × Text)) (rounds start : ℕ) (s : E.State) {found : Option ℕ} {t : E.State}
      → ancestor_from E known rounds start s ≡ (ok found, t)
      → (0 < rounds) ⊎ (found ≡ none)
  unfolding ancestor_from
  none_left known zero start s {found} e = let same : ok none ≡ ok found = ap (λ r. r.0) e in inr cc
  none_left known (suc rounds) start s e = inl (omega arith)

  -- On a node whose chain does not change, the search through a number of remembered heights
  -- from a start downwards finds only a height of the search whose remembered hash is the
  -- chain's hash at that height, and none that lies below another such height; where it finds
  -- none, no height of the search is one.
  pub ancestor_from-IsAncestor :
      (known : List (ℕ × Text)) (rounds start h : ℕ) (s : E.State) {found : Option ℕ} {t : E.State}
      → rounds ≤ suc start
      → ancestor_from E known rounds start s ≡ (ok found, t)
      → h ≤ start
      → start < h + rounds
      → IsAncestor chain known rounds start h found
  unfolding ancestor_from
  ancestor_from-IsAncestor known zero start h s fits e hi lo = absurd (omega arith)
  ancestor_from-IsAncestor known (suc rounds) start h s {found} {t} fits e hi lo =
      elim (Option-cases (recall start known)) [
        | inl none_known ↦
            let e1 : ancestor_from E known rounds (start - 1) s ≡ (ok found, t) =
              rw (none_known, ancestor_from) at e in
            above chain known rounds start h found (λ q. cc) (omega arith) hi lo
              (none_left known rounds (start - 1) s e1)
              (λ k a b. ancestor_from-IsAncestor known rounds (start - 1) k s (omega arith) e1 a b)
        | inr (hash, q) ↦
            let (current, said, e1) =
              wrapped-ok _ (E.get_block_hash start s) _ (rw (q, ancestor_from) at e) in
            let here = hash_reply start s current said in
            elim (Bool-cases (text_eq current hash)) [
              | inl y ↦
                  let same : current ≡ hash = (text_eq_iff current hash).0 y in
                  let got : ok (some start) ≡ ok found = ap (λ r. r.0) (rw y at e1) in
                  let at : some start ≡ found = cc in
                  subst (IsAncestor chain known (suc rounds) start h) at
                    (omega arith, omega arith, q ∙ ap some (sym same ∙ here), inl hi)
              | inr n ↦
                  let e2 : ancestor_from E known rounds (start - 1) _ ≡ (ok found, t) =
                    rw n at e1 in
                  above chain known rounds start h found
                    (λ m. differs chain known current hash start q here n m) (omega arith) hi lo
                    (none_left known rounds (start - 1) _ e2)
                    (λ k a b.
                      ancestor_from-IsAncestor known rounds (start - 1) k _ (omega arith) e2 a b)
            ]
      ]
