-- ===== src/Stats/Drawdown.antt =====
-- The loop of max_drawdown against all declines of the curve.
use kalshi_copilot.Base.{
  ℕ, ◌≡◌, refl, ◌⊎◌, inl, inr, ◌≤◌, false, List, [], ◌∷◌, All, All-map, ltb, ltb→lt, Bool-cases,
  arith,
}
use kalshi_copilot.Base.Int.{ℤ, pos, ◌-ℤ◌, ltb_ℤ, ◌≤ℤ◌, int_laws}
use kalshi_copilot.Stats.{new_peak, new_worst, drawdown_from, max_drawdown}

-- A decline of a curve: from a value to a later one.
pub data IsDecline : List ℤ → ℤ → Type 0 where
  next : (x y : ℤ) (rest : List ℤ) → IsDecline (x ∷ y ∷ rest) (x -ℤ y)
  past : {x y d : ℤ} {rest : List ℤ} → IsDecline (x ∷ rest) d → IsDecline (x ∷ y ∷ rest) d
  later : {x d : ℤ} {rest : List ℤ} → IsDecline rest d → IsDecline (x ∷ rest) d

-- No decline of the curve is more than the bound.
abbrev pub DeclinesWithin : ℤ → List ℤ → Type 0
DeclinesWithin bound [] = Unit
DeclinesWithin bound (x ∷ rest) = All (λ (y : ℤ). x -ℤ y ≤ℤ bound) rest × DeclinesWithin bound rest

at_most : (a b : ℕ) → ltb a b ≡ false → b ≤ a
at_most a b h = ground arith

peak_rises : (peak v : ℤ) → (peak ≤ℤ new_peak peak v) × (v ≤ℤ new_peak peak v)
peak_rises peak v = elim (Bool-cases (ltb_ℤ peak v)) [
  | inl above ↦ let lt = ltb→lt _ _ above in rw above (omega arith, omega arith)
  | inr below ↦ let le = at_most _ _ below in rw below (omega arith, omega arith)
]

worst_grows : (w d : ℤ) → (w ≤ℤ new_worst w d) × (d ≤ℤ new_worst w d)
worst_grows w d = peak_rises w d

trans_ℤ : (a b c : ℤ) → a ≤ℤ b → b ≤ℤ c → a ≤ℤ c
trans_ℤ a b c h k = omega arith

minus_mono : (a b c : ℤ) → a ≤ℤ b → a -ℤ c ≤ℤ b -ℤ c
minus_mono a b c h = omega int_laws

-- The worst decline so far is kept, and so is every decline from the peak and between the values.
drawdown_from-upper :
    (peak worst : ℤ) (vs : List ℤ)
    → (worst ≤ℤ drawdown_from peak worst vs)
      × All (λ (y : ℤ). peak -ℤ y ≤ℤ drawdown_from peak worst vs) vs
      × DeclinesWithin (drawdown_from peak worst vs) vs
unfolding drawdown_from
drawdown_from-upper peak worst [] = (omega arith, tt, tt)
drawdown_from-upper peak worst (v ∷ vs) =
    let p = new_peak peak v in
    let w = new_worst worst (p -ℤ v) in
    let r = drawdown_from p w vs in
    let (over, from_peak, between) = drawdown_from-upper p w vs in
    let (up_peak, up_v) = peak_rises peak v in
    let (up_worst, up_here) = worst_grows worst (p -ℤ v) in
    (
      trans_ℤ worst w r up_worst over,
      (
        trans_ℤ (peak -ℤ v) (p -ℤ v) r (minus_mono peak p v up_peak)
            (trans_ℤ (p -ℤ v) w r up_here over),
        All-map (λ (y : ℤ) h. trans_ℤ (peak -ℤ y) (p -ℤ y) r (minus_mono peak p y up_peak) h) vs
            from_peak,
      ),
      (
        All-map (λ (y : ℤ) h. trans_ℤ (v -ℤ y) (p -ℤ y) r (minus_mono v p y up_v) h) vs from_peak,
        between,
      ),
    )

-- What the loop returns is the worst decline so far or one of those that it meets.
no_decline : (worst v : ℤ) → pos 0 ≤ℤ worst → ltb_ℤ worst (v -ℤ v) ≡ false
no_decline worst v h = elim (Bool-cases (ltb_ℤ worst (v -ℤ v))) [
  | inl deeper ↦ let lt = ltb→lt _ _ deeper in absurd (omega int_laws)
  | inr same ↦ same
]

drawdown_from-attained :
    (peak worst : ℤ) (vs : List ℤ)
    → pos 0 ≤ℤ worst
    → (drawdown_from peak worst vs ≡ worst) ⊎ IsDecline (peak ∷ vs) (drawdown_from peak worst vs)
unfolding drawdown_from
drawdown_from-attained peak worst [] h = inl refl
drawdown_from-attained peak worst (v ∷ vs) h = elim (Bool-cases (ltb_ℤ peak v)) [
  | inl above ↦
      rw (above, no_decline worst v h)
        (elim (drawdown_from-attained v worst vs h) [ inl e ↦ inl e | inr d ↦ inr (later d) ])
  | inr below ↦ elim (Bool-cases (ltb_ℤ worst (peak -ℤ v))) [
    | inl deeper ↦
        let lt = ltb→lt _ _ deeper in
        rw (below, deeper)
          (elim (drawdown_from-attained peak (peak -ℤ v) vs (omega arith)) [
            | inl e ↦ inr (rw e (next peak v vs))
            | inr d ↦ inr (past d)
          ])
    | inr same ↦
        rw (below, same)
          (elim (drawdown_from-attained peak worst vs h) [ inl e ↦ inl e | inr d ↦ inr (past d) ])
  ]
]

-- No decline of an equity curve from a value to a later one is more than max_drawdown, which is one
-- of them, or nothing; and it is never negative.
pub max_drawdown-IsDecline :
    (equity : List ℤ)
    → (pos 0 ≤ℤ max_drawdown equity)
      × DeclinesWithin (max_drawdown equity) equity
      × ((max_drawdown equity ≡ pos 0) ⊎ IsDecline equity (max_drawdown equity))
unfolding max_drawdown
max_drawdown-IsDecline [] = (omega arith, tt, inl refl)
max_drawdown-IsDecline (x ∷ []) = (omega arith, (tt, tt), inl refl)
max_drawdown-IsDecline (x ∷ y ∷ rest) =
    let (over, from_first, between) = drawdown_from-upper x (pos 0) (y ∷ rest) in
    (over, (from_first, between), drawdown_from-attained x (pos 0) (y ∷ rest) (omega arith))
