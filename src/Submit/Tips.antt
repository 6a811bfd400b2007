-- ===== src/Submit/Tips.antt =====
-- `bestChainTip` and `tipStatusRank`.
use fractal_block_sync.Prelude.{
  ℕ, ◌≤◌, ◌<◌, ◌≡◌, refl, arith, Bool, true, false, ◌&&◌, ◌||◌, Option, none, some, List, [], ◌∷◌,
  Text, codes, ltb, ◌==◌, if◌then◌else◌, text_eq, ◌⊎◌, inl, inr, Bool-cases, All, subst, sym, ◌∙◌,
}
use fractal_block_sync.Text.{trim_space}
use fractal_block_sync.BtcRpc.{ChainTip}

unfoldable pub tip_status_rank : Text → ℕ
tip_status_rank status =
    if text_eq status (codes "active")
    then 3
    else if text_eq status (codes "headers-only")
    then 2
    else if text_eq status (codes "valid-fork") || text_eq status (codes "valid-headers")
    then 1
    else 0

-- `tip.Height < target || strings.TrimSpace(tip.Hash) == ""`
unfoldable pub skipped : ℕ → ChainTip → Bool
skipped target tip = ltb tip.height target || text_eq (trim_space tip.hash) []

-- The second and third test that let a tip replace the best one so far.
unfoldable pub beats : ChainTip → ChainTip → Bool
beats tip best =
    ltb (tip_status_rank best.status) (tip_status_rank tip.status)
    || ltb best.height tip.height && tip_status_rank tip.status == tip_status_rank best.status

-- One round of the loop; `none` stands for `found == false`, when `best` is not read.
unfoldable pub consider : ℕ → Option ChainTip → ChainTip → Option ChainTip
unfolding skipped beats
consider target none tip = if skipped target tip then none else some tip
consider target (some best) tip =
    if skipped target tip then some best else if beats tip best then some tip else some best

tip_loop : ℕ → List ChainTip → Option ChainTip → Option ChainTip
unfolding consider
tip_loop target [] best = best
tip_loop target (tip ∷ tips) best = tip_loop target tips (consider target best tip)

unfoldable pub best_chain_tip : List ChainTip → ℕ → Option ChainTip
unfolding tip_loop
best_chain_tip tips target = tip_loop target tips none

-- A tip occurs in a list.
pub data Occurs (tip : ChainTip) : List ChainTip → Type 0 where
  here : {tips : List ChainTip} → Occurs tip (tip ∷ tips)
  there : {other : ChainTip} {tips : List ChainTip} → Occurs tip tips → Occurs tip (other ∷ tips)

-- Tips that the loop may choose: high enough, and with a hash.
abbrev pub IsEligible : ℕ → ChainTip → Type 0
IsEligible target tip = skipped target tip ≡ false

-- An eligible tip is no better than `best`: of a lower rank, or of the same rank and not higher.
abbrev pub IsNoBetter : ℕ → ChainTip → ChainTip → Type 0
IsNoBetter target best tip =
    IsEligible target tip
    → (tip_status_rank tip.status < tip_status_rank best.status)
      ⊎ ((tip_status_rank tip.status ≡ tip_status_rank best.status) × (tip.height ≤ best.height))

IsNoBetter-trans :
    (target : ℕ) (b c tip : ChainTip)
    → IsEligible target b
    → IsNoBetter target c b
    → IsNoBetter target b tip
    → IsNoBetter target c tip
IsNoBetter-trans target b c tip eb h k et = ground (arith, h eb, k et)

Occurs-first : {r : ChainTip} (t : ChainTip) (tips : List ChainTip) → r ≡ t → Occurs r (t ∷ tips)
Occurs-first t tips p = subst (λ x. Occurs x (t ∷ tips)) (sym p) here

origin :
    {r b c t : ChainTip} {tips : List ChainTip}
    → (r ≡ c) ⊎ Occurs r tips
    → (c ≡ b) ⊎ (c ≡ t)
    → (r ≡ b) ⊎ Occurs r (t ∷ tips)
origin (inl p) (inl q) = inl (p ∙ q)
origin {t = t} {tips = tips} (inl p) (inr q) = inr (Occurs-first t tips (p ∙ q))
origin (inr o) _ = inr (there o)

-- What the loop finds from nothing: a best eligible tip, or that there is none.
abbrev pub Verdict : ℕ → List ChainTip → Option ChainTip → Type 0
Verdict target tips none = All (λ t. skipped target t ≡ true) tips
Verdict target tips (some r) = IsEligible target r × Occurs r tips × All (IsNoBetter target r) tips

module _ (target : ℕ) where
  -- A round keeps an eligible tip that neither the old best nor the new tip beats.
  consider-some :
      (b t : ChainTip)
      → IsEligible target b
      → (c : ChainTip) × (consider target (some b) t ≡ some c)
        × IsEligible target c
        × IsNoBetter target c b
        × IsNoBetter target c t
        × ((c ≡ b) ⊎ (c ≡ t))
  unfolding consider
  consider-some b t eb = elim (Bool-cases (skipped target t)) [
    | inl s ↦ (b, ground (arith, s), eb, λ e. inr (refl, omega arith), λ e. cc (e, s), inl refl)
    | inr s ↦ elim (Bool-cases (beats t b)) [
      | inl w ↦ (
        t,
        ground (arith, s, w),
        s,
        λ e. ground (arith, w),
        λ e. inr (refl, omega arith),
        inr refl,
      )
      | inr w ↦ (
        b,
        ground (arith, s, w),
        eb,
        λ e. inr (refl, omega arith),
        λ e. ground (arith, w),
        inl refl,
      )
    ]
  ]

  tip_loop-some :
      (tips : List ChainTip) (b : ChainTip)
      → IsEligible target b
      → (r : ChainTip) × (tip_loop target tips (some b) ≡ some r)
        × IsEligible target r
        × IsNoBetter target r b
        × All (IsNoBetter target r) tips
        × ((r ≡ b) ⊎ Occurs r tips)
  unfolding tip_loop
  tip_loop-some [] b eb = (b, refl, eb, λ e. inr (refl, omega arith), tt, inl refl)
  tip_loop-some (t ∷ tips) b eb =
      let (c, step, ec, cb, ct, from) = consider-some b t eb in
      let (r, run, er, rc, rest, from') = tip_loop-some tips c ec in
      (
        r,
        rw step run,
        er,
        IsNoBetter-trans target c r b ec rc cb,
        (IsNoBetter-trans target c r t ec rc ct, rest),
        origin from' from,
      )

  skip_first :
      (t : ChainTip) (tips : List ChainTip) (o : Option ChainTip)
      → skipped target t ≡ true
      → Verdict target tips o
      → Verdict target (t ∷ tips) o
  skip_first t tips none s v = (s, v)
  skip_first t tips (some r) s (er, o, n) = (er, there o, (λ e. cc (e, s), n))

  tip_loop-Verdict : (tips : List ChainTip) → Verdict target tips (tip_loop target tips none)
  unfolding tip_loop consider
  tip_loop-Verdict [] = tt
  tip_loop-Verdict (t ∷ tips) = elim (Bool-cases (skipped target t)) [
    | inl s ↦ rw s (skip_first t tips _ s (tip_loop-Verdict tips))
    | inr s ↦
        let (r, run, er, rt, rest, from) = tip_loop-some tips t s in
        rw s (rw run (er, first from, (rt, rest)))
  ]
    where
      first : {r : ChainTip} → (r ≡ t) ⊎ Occurs r tips → Occurs r (t ∷ tips)
      first (inl p) = Occurs-first t tips p
      first (inr o) = there o

-- The tip that is chosen is one of the node's, reaches the target height, has a hash, and no
-- eligible tip has a higher status rank, or the same rank and a greater height. No tip is chosen
-- exactly when every tip is too low or has a blank hash.
pub best_chain_tip-Verdict :
    (tips : List ChainTip) (target : ℕ) → Verdict target tips (best_chain_tip tips target)
unfolding best_chain_tip
best_chain_tip-Verdict tips target = tip_loop-Verdict target tips

pub eligible_height : (target : ℕ) (t : ChainTip) → IsEligible target t → target ≤ t.height
unfolding skipped
eligible_height target t e = ground arith
