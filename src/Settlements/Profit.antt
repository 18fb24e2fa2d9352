-- ===== src/Settlements/Profit.antt =====
-- What a settlement realises in settlements.py, against closing the position by a fill, and against
-- the capital that risk.py says is at risk.
use kalshi_copilot.Base.{ℕ, suc, ◌≡◌, refl, arith}
use kalshi_copilot.Base.Int.{ℤ, pos, negsuc, ◌-ℤ◌, negate, scale, linear}
use kalshi_copilot.Fees.{Ratio}
use kalshi_copilot.Positions.{whole, realized_from_fill}
use kalshi_copilot.Positions.Branches.{fill_long_closed, fill_short_closed}
use kalshi_copilot.Settlements.{realized_from_settlement}

negate-suc : (m : ℕ) → negate (pos (suc m)) ≡ negsuc m
unfolding negate
negate-suc m = ground arith

negate_negsuc : (m : ℕ) → negate (negsuc m) ≡ pos (suc m)
unfolding negate
negate_negsuc m = ground arith

realized_long :
    (m : ℕ) (avg : Ratio) (v : ℤ)
    → realized_from_settlement (pos (suc m)) avg v ≡ record {
      numerator = scale (suc m) (scale avg.denominator v -ℤ avg.numerator);
      denominator = avg.denominator;
    }
unfolding realized_from_settlement
realized_long m avg v = simp linear

realized_short :
    (m : ℕ) (avg : Ratio) (v : ℤ)
    → realized_from_settlement (negsuc m) avg v ≡ record {
      numerator = negate (scale (suc m) (scale avg.denominator v -ℤ avg.numerator));
      denominator = avg.denominator;
    }
unfolding realized_from_settlement
realized_short m avg v = simp linear

-- Settling an open position, long or short, realises exactly what a fill that closes all of it at
-- the payout would have realised, and either leaves no contracts and no average.
pub realized_from_settlement-realized_from_fill :
    (m : ℕ) (avg : Ratio) (v : ℤ)
    → (realized_from_fill (pos (suc m)) avg (negate (pos (suc m))) v ≡ record {
      net_contracts = pos 0;
      avg_price = whole (pos 0);
      realized_cents = realized_from_settlement (pos (suc m)) avg v;
    })
      × (realized_from_fill (negsuc m) avg (negate (negsuc m)) v ≡ record {
        net_contracts = pos 0;
        avg_price = whole (pos 0);
        realized_cents = realized_from_settlement (negsuc m) avg v;
      })
realized_from_settlement-realized_from_fill m avg v = (
  rw (negate-suc m, fill_long_closed avg v m, realized_long m avg v) refl,
  rw (negate_negsuc m, fill_short_closed avg v m, realized_short m avg v) refl,
)
