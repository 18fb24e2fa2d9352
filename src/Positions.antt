-- ===== src/Positions.antt =====
-- backend/app/trading/positions.py: one signed number of contracts for each market, its average
-- price, and the profit that a fill realises. An average is kept as an exact quotient of microdollars.
pub mod Basis
pub mod Branches
pub mod Conservation
mod Tests
use kalshi_copilot.Base.{
  ℕ, suc, ◌+◌, ◌*◌, Bool, true, false, ◌&&◌, ◌||◌, Option, none, some, List, [], ◌∷◌, min,
  if◌then◌else◌,
}
use kalshi_copilot.Base.Int.{ℤ, pos, ◌+ℤ◌, ◌-ℤ◌, ltb_ℤ, leb_ℤ, eqb_ℤ, abs, scale, negate}
use kalshi_copilot.Domain.{same}
use kalshi_copilot.Fees.{Ratio}

abbrev pub whole : ℤ → Ratio
whole z = record { numerator = z; denominator = 1 }

-- What `realized_from_fill` returns.
pub record FillResult : Type 0 where
  pub net_contracts : ℤ
  pub avg_price : Ratio
  pub realized_cents : Ratio

-- `avg * |net| + fill * |delta|` over the total size.
abbrev pub blended : ℤ → Ratio → ℤ → ℤ → Ratio
blended net avg delta fill = record {
  numerator = scale (abs net) avg.numerator +ℤ scale (abs delta * avg.denominator) fill;
  denominator = avg.denominator * (abs net + abs delta);
}

-- `(fill - avg) * closed * direction`, in microcents.
abbrev pub closing_profit : ℤ → Ratio → ℕ → ℤ → Ratio
closing_profit net avg closed fill =
    let gain = scale closed (scale avg.denominator fill -ℤ avg.numerator) in
    record {
      numerator = if ltb_ℤ (pos 0) net then gain else negate gain;
      denominator = avg.denominator;
    }

-- The average after a fill against the position.
abbrev pub remaining_average : ℤ → ℤ → Ratio → ℤ → Ratio
remaining_average new_net net avg fill =
    if eqb_ℤ new_net (pos 0)
    then whole (pos 0)
    else if same (ltb_ℤ (pos 0) new_net) (ltb_ℤ (pos 0) net)
    then avg
    else whole fill

unfoldable pub realized_from_fill : ℤ → Ratio → ℤ → ℤ → FillResult
realized_from_fill net avg delta fill =
    if eqb_ℤ delta (pos 0)
    then record { net_contracts = net; avg_price = avg; realized_cents = whole (pos 0) }
    else if eqb_ℤ net (pos 0) || same (ltb_ℤ (pos 0) net) (ltb_ℤ (pos 0) delta)
    then record {
      net_contracts = net +ℤ delta;
      avg_price = blended net avg delta fill;
      realized_cents = whole (pos 0);
    }
    else record {
      net_contracts = net +ℤ delta;
      avg_price = remaining_average (net +ℤ delta) net avg fill;
      realized_cents = closing_profit net avg (min (abs delta) (abs net)) fill;
    }
