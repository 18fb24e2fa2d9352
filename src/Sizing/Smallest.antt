-- ===== src/Sizing/Smallest.antt =====
-- The smallest of the caps of sizing.py.
use mathlib.Core.Path.{subst}
use native.Mathlib.Nat.{mul-le-mul_right, le_of_mul-le-mul_right}
use kalshi_copilot.Base.{
  ℕ, ◌*◌, ◌≤◌, ◌<◌, ◌≡◌, refl, ◌⊎◌, inl, inr, Bool, true, false, List, [], ◌∷◌, ltb, All, arith,
  Bool-cases, sym, ltb→lt,
}
use kalshi_copilot.Sizing.{Fraction, Constraint, smallest}

-- A quotient is at most another.
abbrev pub AtMost : Fraction → Constraint × Fraction → Type 0
AtMost f cap = f.above * cap.1.below ≤ cap.1.above * f.below

-- Some cap of the list has the name and the amount.
abbrev pub IsIn : Constraint × Fraction → List (Constraint × Fraction) → Type 0
IsIn c [] = ⊥
IsIn c (x ∷ xs) = (c ≡ x) ⊎ IsIn c xs

abbrev pub Divides : Constraint × Fraction → Type 0
Divides cap = 0 < cap.1.below

-- A product with a factor that is moved to the end.
pub at_most_trans : (a b c d e f : ℕ) → 0 < d → a * d ≤ c * b → c * f ≤ e * d → a * f ≤ e * b
at_most_trans a b c d e f h p q =
    le_of_mul-le-mul_right
      (let left : a * d * f ≤ c * b * f = mul-le-mul_right f p in
        let right : c * f * b ≤ e * d * b = mul-le-mul_right b q in grind (arith, left, right))
      h

module _ (best cap : Constraint × Fraction) (rest : List (Constraint × Fraction)) where
  abbrev less : Bool
  less = ltb (cap.1.above * best.1.below) (best.1.above * cap.1.below)

  smallest-less : less ≡ true → smallest best (cap ∷ rest) ≡ smallest cap rest
  unfolding smallest
  smallest-less h = rw h refl

  smallest_more : less ≡ false → smallest best (cap ∷ rest) ≡ smallest best rest
  unfolding smallest
  smallest_more h = rw h refl

-- The smallest cap is one of the caps, is at most each of them, and divides.
abbrev pub IsSmallest : Constraint × Fraction → List (Constraint × Fraction) → Type 0
IsSmallest c caps = IsIn c caps × All (AtMost c.1) caps × Divides c

pub smallest-IsSmallest :
    (best : Constraint × Fraction) (caps : List (Constraint × Fraction))
    → Divides best
    → All Divides caps
    → IsSmallest (smallest best caps) (best ∷ caps)
unfolding smallest
smallest-IsSmallest best [] h hs = (inl refl, (omega arith, tt), h)
smallest-IsSmallest best (cap ∷ rest) h (hc, hs) = elim (Bool-cases (less best cap rest)) [
  | inl small ↦
      let (found, (own, others), divides) = smallest-IsSmallest cap rest hc hs in
      subst (λ c. IsSmallest c (best ∷ cap ∷ rest)) (sym (smallest-less best cap rest small))
        (
          inr found,
          (
            at_most_trans _ _ cap.1.above cap.1.below _ _ hc own (omega (arith, ltb→lt _ _ small)),
            (own, others),
          ),
          divides,
        )
  | inr large ↦
      let (found, (own, others), divides) = smallest-IsSmallest best rest h hs in
      subst (λ c. IsSmallest c (best ∷ cap ∷ rest)) (sym (smallest_more best cap rest large))
        (
          further found,
          (own, (at_most_trans _ _ best.1.above best.1.below _ _ h own (ground arith), others)),
          divides,
        )
]
  where
    further : {c : Constraint × Fraction} → IsIn c (best ∷ rest) → IsIn c (best ∷ cap ∷ rest)
    further (inl own) = inl own
    further (inr later) = inr (inr later)
