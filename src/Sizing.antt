-- ===== src/Sizing.antt =====
-- backend/app/trading/sizing.py: how many contracts an edge is worth, under every cap.
-- A price is in microdollars, a cap in microcents times a million, a fraction of the bankroll an
-- exact quotient. `kelly_fraction` and `max_pct_per_market` are in millionths.
pub mod Smallest
pub mod Caps
mod Tests
use kalshi_copilot.Base.{
  ℕ, ◌+◌, ◌-◌, ◌*◌, ◌/◌, Bool, true, false, ◌&&◌, ◌||◌, Option, none, some, List, [], ◌∷◌, ◌++◌,
  if◌then◌else◌, leb, ltb,
}
use kalshi_copilot.Base.Int.{ℤ, pos, pos_part, ◌-ℤ◌, ltb_ℤ, leb_ℤ}
use kalshi_copilot.Domain.{one}
use kalshi_copilot.Settings.{Config}
use kalshi_copilot.Fees.{Ratio}

-- A stake that the code forms in Decimal, kept exact; the divisor is positive.
pub record Fraction : Type 0 where
  pub above : ℕ
  pub below : ℕ

abbrev pub zero_fraction : Fraction
zero_fraction = record { above = 0; below = 1 }

unfoldable pub full_kelly_fraction : ℤ → ℤ → Fraction
full_kelly_fraction fair_price cost =
    if leb_ℤ one cost || leb_ℤ cost (pos 0)
    then zero_fraction
    else if leb_ℤ fair_price cost
    then zero_fraction
    else record { above = pos_part (fair_price -ℤ cost); below = pos_part (one -ℤ cost) }

pub data Constraint : Type 0 where
  kelly market_cap exposure depth : Constraint

pub record SizeRecommendation : Type 0 where
  pub contracts : ℕ
  pub stake_cents : ℕ
  pub kelly_fraction : Fraction
  pub scaled_fraction : Fraction
  pub binding_constraint : Constraint

abbrev pub is_tradeable : SizeRecommendation → Bool
is_tradeable r = leb 1 r.contracts

-- The caps that apply, in the order of the code; a headroom or a depth that is not given is skipped.
abbrev pub exposure_cap : Option Ratio → List (Constraint × Fraction)
exposure_cap none = []
exposure_cap (some headroom) =
    (exposure, record { above = pos_part headroom.numerator; below = headroom.denominator }) ∷ []

abbrev pub depth_cap : ℤ → Option ℤ → List (Constraint × Fraction)
depth_cap cost none = []
depth_cap cost (some available) =
    (depth, record { above = pos_part available * pos_part cost; below = 1 }) ∷ []

abbrev pub scaled : Config → Fraction → Fraction
scaled config k = record { above = k.above * config.risk.kelly_fraction; below = k.below * 1000000 }

abbrev pub kelly_cap : Config → Fraction → Fraction
kelly_cap config k = record {
  above = (scaled config k).above * (config.risk.bankroll_cents * 1000000);
  below = (scaled config k).below;
}

abbrev pub other_caps : Config → ℤ → Option ℤ → Option Ratio → List (Constraint × Fraction)
other_caps config cost available headroom =
    (
      market_cap,
      record { above = config.risk.bankroll_cents * config.risk.max_pct_per_market; below = 1 },
    )
    ∷ (exposure_cap headroom ++ depth_cap cost available)

-- `min(caps, key=...)`: the first of the smallest.
unfoldable pub smallest :
    Constraint × Fraction → List (Constraint × Fraction) → Constraint × Fraction
smallest best [] = best
smallest best (cap ∷ rest) =
    smallest (if ltb (cap.1.above * best.1.below) (best.1.above * cap.1.below) then cap else best)
      rest

abbrev pub no_size : Fraction → Fraction → Constraint → SizeRecommendation
no_size k s binding = record {
  contracts = 0;
  stake_cents = 0;
  kelly_fraction = k;
  scaled_fraction = s;
  binding_constraint = binding;
}

-- The size under the cap that binds, rounded down to a hundredth of a contract.
abbrev pub size_under : ℤ → Fraction → Fraction → Constraint × Fraction → SizeRecommendation
size_under cost k s (binding, stake) =
    if leb stake.above 0 || leb_ℤ cost (pos 0)
    then no_size k s binding
    else (let contracts = stake.above / (stake.below * pos_part cost) in
        if ltb contracts 1 then no_size k s binding else record {
          contracts = contracts;
          stake_cents = contracts * pos_part cost;
          kelly_fraction = k;
          scaled_fraction = s;
          binding_constraint = binding;
        })

unfoldable pub recommend_size : ℤ → ℤ → Config → Option ℤ → Option Ratio → SizeRecommendation
recommend_size fair_price cost config available headroom =
    let k = full_kelly_fraction fair_price cost in
    if leb k.above 0
    then no_size zero_fraction zero_fraction kelly
    else size_under cost k (scaled config k)
        (smallest (kelly, kelly_cap config k) (other_caps config cost available headroom))
