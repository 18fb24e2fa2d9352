-- ===== src/Positions/Branches.antt =====
-- realized_from_fill of positions.py on each of its branches, by the signs and sizes of the position
-- and the fill.
use kalshi_copilot.Base.{ℕ, suc, ◌+◌, ◌≡◌, arith}
use kalshi_copilot.Base.Int.{ℤ, pos, negsuc, ◌+ℤ◌, ◌-ℤ◌, scale, negate}
use kalshi_copilot.Fees.{Ratio}
use kalshi_copilot.Positions.{whole, blended, realized_from_fill}

module _ (avg : Ratio) (fill : ℤ) where
  pub fill_long_reduced :
      (m k j : ℕ)
      → suc m ≡ suc k + suc j
      → realized_from_fill (pos (suc m)) avg (negsuc k) fill ≡ record {
        net_contracts = pos (suc j);
        avg_price = avg;
        realized_cents = record {
          numerator = scale (suc k) (scale avg.denominator fill -ℤ avg.numerator);
          denominator = avg.denominator;
        };
      }
  unfolding realized_from_fill ◌+ℤ◌
  fill_long_reduced m k j e = ground arith

  pub fill_long_closed :
      (m : ℕ)
      → realized_from_fill (pos (suc m)) avg (negsuc m) fill ≡ record {
        net_contracts = pos 0;
        avg_price = whole (pos 0);
        realized_cents = record {
          numerator = scale (suc m) (scale avg.denominator fill -ℤ avg.numerator);
          denominator = avg.denominator;
        };
      }
  unfolding realized_from_fill ◌+ℤ◌
  fill_long_closed m = ground arith

  pub fill_long_crossed :
      (m k j : ℕ)
      → suc k ≡ suc m + suc j
      → realized_from_fill (pos (suc m)) avg (negsuc k) fill ≡ record {
        net_contracts = negsuc j;
        avg_price = whole fill;
        realized_cents = record {
          numerator = scale (suc m) (scale avg.denominator fill -ℤ avg.numerator);
          denominator = avg.denominator;
        };
      }
  unfolding realized_from_fill ◌+ℤ◌
  fill_long_crossed m k j e = ground arith

  pub fill_short_reduced :
      (m k j : ℕ)
      → suc m ≡ suc k + suc j
      → realized_from_fill (negsuc m) avg (pos (suc k)) fill ≡ record {
        net_contracts = negsuc j;
        avg_price = avg;
        realized_cents = record {
          numerator = negate (scale (suc k) (scale avg.denominator fill -ℤ avg.numerator));
          denominator = avg.denominator;
        };
      }
  unfolding realized_from_fill ◌+ℤ◌
  fill_short_reduced m k j e = ground arith

  pub fill_short_closed :
      (m : ℕ)
      → realized_from_fill (negsuc m) avg (pos (suc m)) fill ≡ record {
        net_contracts = pos 0;
        avg_price = whole (pos 0);
        realized_cents = record {
          numerator = negate (scale (suc m) (scale avg.denominator fill -ℤ avg.numerator));
          denominator = avg.denominator;
        };
      }
  unfolding realized_from_fill ◌+ℤ◌
  fill_short_closed m = ground arith

  pub fill_short_crossed :
      (m k j : ℕ)
      → suc k ≡ suc m + suc j
      → realized_from_fill (negsuc m) avg (pos (suc k)) fill ≡ record {
        net_contracts = pos (suc j);
        avg_price = whole fill;
        realized_cents = record {
          numerator = negate (scale (suc m) (scale avg.denominator fill -ℤ avg.numerator));
          denominator = avg.denominator;
        };
      }
  unfolding realized_from_fill ◌+ℤ◌
  fill_short_crossed m k j e = ground arith

  pub fill_zero :
      (net : ℤ)
      → realized_from_fill net avg (pos 0) fill
        ≡ record { net_contracts = net; avg_price = avg; realized_cents = whole (pos 0) }
  unfolding realized_from_fill
  fill_zero net = ground arith

  pub fill_long_grows :
      (m k : ℕ)
      → realized_from_fill (pos m) avg (pos (suc k)) fill ≡ record {
        net_contracts = pos (m + suc k);
        avg_price = blended (pos m) avg (pos (suc k)) fill;
        realized_cents = whole (pos 0);
      }
  unfolding realized_from_fill ◌+ℤ◌
  fill_long_grows m k = ground arith

  pub fill_short_grows :
      (m k : ℕ)
      → realized_from_fill (negsuc m) avg (negsuc k) fill ≡ record {
        net_contracts = negsuc (m + suc k);
        avg_price = blended (negsuc m) avg (negsuc k) fill;
        realized_cents = whole (pos 0);
      }
  unfolding realized_from_fill ◌+ℤ◌
  fill_short_grows m k = ground arith

  pub fill_flat_opens_short :
      (k : ℕ)
      → realized_from_fill (pos 0) avg (negsuc k) fill ≡ record {
        net_contracts = negsuc k;
        avg_price = blended (pos 0) avg (negsuc k) fill;
        realized_cents = whole (pos 0);
      }
  unfolding realized_from_fill ◌+ℤ◌
  fill_flat_opens_short k = ground arith
