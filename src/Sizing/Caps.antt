-- ===== src/Sizing/Caps.antt =====
-- The size that sizing.py recommends, against every cap.
use kalshi_copilot.Base.{ℕ, ◌+◌, ◌*◌, ◌≤◌, ◌<◌, ◌≡◌, ◌⊎◌, Option, none, some, List, ◌∷◌, All}
use kalshi_copilot.Base.Int.{ℤ, pos_part}
use kalshi_copilot.Settings.{Config}
use kalshi_copilot.Fees.{Ratio}
use kalshi_copilot.Sizing.{
  Fraction, full_kelly_fraction, Constraint, kelly, kelly_cap, other_caps, SizeRecommendation,
}
use kalshi_copilot.Sizing.Smallest.{IsIn}

-- A headroom is an amount: its divisor is positive.
abbrev pub IsAmount : Option Ratio → Type 0
IsAmount none = Unit
IsAmount (some r) = 0 < r.denominator

-- The caps on a stake, by name.
abbrev pub caps : ℤ → ℤ → Config → Option ℤ → Option Ratio → List (Constraint × Fraction)
caps fair cost config available headroom =
    (kelly, kelly_cap config (full_kelly_fraction fair cost))
    ∷ other_caps config cost available headroom

-- A stake of a size is within a cap.
abbrev pub FitsIn : ℕ → Constraint × Fraction → Type 0
FitsIn stake c = stake * c.1.below ≤ c.1.above

-- The size is the largest number of hundredths of a contract whose cost fits the cap that binds.
abbrev pub IsLargest : ℤ → SizeRecommendation → List (Constraint × Fraction) → Type 0
IsLargest cost r cs =
    (limit : Fraction) × IsIn (r.binding_constraint, limit) cs
    × (limit.above < (r.contracts + 1) * pos_part cost * limit.below)

-- The stake is what the size costs, and fits every cap.
abbrev pub Fits : ℤ → SizeRecommendation → List (Constraint × Fraction) → Type 0
Fits cost r cs = (r.stake_cents ≡ r.contracts * pos_part cost) × All (FitsIn r.stake_cents) cs

-- A recommendation against the caps, where there is an edge and where there is none.
abbrev pub IsSized : ℤ → ℤ → SizeRecommendation → List (Constraint × Fraction) → Type 0
IsSized fair cost r cs =
    Fits cost r cs
    × (((full_kelly_fraction fair cost).above ≤ 0) × (r.contracts ≡ 0) ⊎ IsLargest cost r cs)
