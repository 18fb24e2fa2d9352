-- ===== src/Positions/Basis.antt =====
-- The cost basis under realized_from_fill of positions.py: what a fill pays and what it realises
-- account for the whole change of the position's cost.
use kalshi_copilot.Base.{ℕ, suc, ◌+◌, ◌*◌, ◌≡◌}
use kalshi_copilot.Base.Int.{ℤ, pos, negsuc, ◌+ℤ◌, ◌-ℤ◌, ◌*ℤ◌, scale, negate, int_laws, linear}
use kalshi_copilot.Fees.{Ratio}
use kalshi_copilot.Positions.{whole, FillResult, blended}

-- The new cost of the position equals the old cost plus what the fill paid plus what it realised,
-- every quotient multiplied out.
abbrev pub Balanced : ℤ → Ratio → ℤ → ℤ → FillResult → Type 0
Balanced net avg delta fill r =
    scale (avg.denominator * r.realized_cents.denominator)
      (r.net_contracts *ℤ r.avg_price.numerator)
    ≡ scale r.avg_price.denominator (
        scale r.realized_cents.denominator
          (net *ℤ avg.numerator +ℤ scale avg.denominator (delta *ℤ fill))
        +ℤ scale avg.denominator r.realized_cents.numerator)

-- Adding to a long position, and to a short one.
pub long_grows :
    (m k : ℕ) (avg : Ratio) (fill : ℤ)
    → Balanced (pos m) avg (pos k) fill (record {
      net_contracts = pos (m + k);
      avg_price = blended (pos m) avg (pos k) fill;
      realized_cents = whole (pos 0);
    })
long_grows m k avg fill = simp linear (omega int_laws)

pub short_grows :
    (m k : ℕ) (avg : Ratio) (fill : ℤ)
    → Balanced (negsuc m) avg (negsuc k) fill (record {
      net_contracts = negsuc (m + suc k);
      avg_price = blended (negsuc m) avg (negsuc k) fill;
      realized_cents = whole (pos 0);
    })
short_grows m k avg fill = simp linear (omega int_laws)

pub flat_opens_short :
    (k : ℕ) (avg : Ratio) (fill : ℤ)
    → Balanced (pos 0) avg (negsuc k) fill (record {
      net_contracts = negsuc k;
      avg_price = blended (pos 0) avg (negsuc k) fill;
      realized_cents = whole (pos 0);
    })
flat_opens_short k avg fill = simp linear (omega int_laws)

pub unchanged :
    (net : ℤ) (avg : Ratio) (fill : ℤ)
    → Balanced net avg
        (pos 0)
        fill
        (record { net_contracts = net; avg_price = avg; realized_cents = whole (pos 0) })
unchanged net avg fill = simp linear (omega int_laws)

-- Reducing a long position, closing it, and crossing through zero.
pub long_reduced :
    (m k j : ℕ) (avg : Ratio) (fill : ℤ)
    → m ≡ k + j
    → Balanced (pos m) avg (negate (pos k)) fill (record {
      net_contracts = pos j;
      avg_price = avg;
      realized_cents = record {
        numerator = scale k (scale avg.denominator fill -ℤ avg.numerator);
        denominator = avg.denominator;
      };
    })
long_reduced m k j avg fill e = rw e (simp linear (omega int_laws))

pub long_crossed :
    (m k j : ℕ) (avg : Ratio) (fill : ℤ)
    → k ≡ m + j
    → Balanced (pos m) avg (negate (pos k)) fill (record {
      net_contracts = negate (pos j);
      avg_price = whole fill;
      realized_cents = record {
        numerator = scale m (scale avg.denominator fill -ℤ avg.numerator);
        denominator = avg.denominator;
      };
    })
long_crossed m k j avg fill e = rw e (simp linear (omega int_laws))

pub long_closed :
    (m : ℕ) (avg : Ratio) (fill : ℤ)
    → Balanced (pos m) avg (negate (pos m)) fill (record {
      net_contracts = pos 0;
      avg_price = whole (pos 0);
      realized_cents = record {
        numerator = scale m (scale avg.denominator fill -ℤ avg.numerator);
        denominator = avg.denominator;
      };
    })
long_closed m avg fill = simp linear (omega int_laws)

-- The same three for a short position, where the profit has the other sign.
pub short_reduced :
    (m k j : ℕ) (avg : Ratio) (fill : ℤ)
    → m ≡ k + j
    → Balanced (negate (pos m)) avg (pos k) fill (record {
      net_contracts = negate (pos j);
      avg_price = avg;
      realized_cents = record {
        numerator = negate (scale k (scale avg.denominator fill -ℤ avg.numerator));
        denominator = avg.denominator;
      };
    })
short_reduced m k j avg fill e = rw e (simp linear (omega int_laws))

pub short_crossed :
    (m k j : ℕ) (avg : Ratio) (fill : ℤ)
    → k ≡ m + j
    → Balanced (negate (pos m)) avg (pos k) fill (record {
      net_contracts = pos j;
      avg_price = whole fill;
      realized_cents = record {
        numerator = negate (scale m (scale avg.denominator fill -ℤ avg.numerator));
        denominator = avg.denominator;
      };
    })
short_crossed m k j avg fill e = rw e (simp linear (omega int_laws))

pub short_closed :
    (m : ℕ) (avg : Ratio) (fill : ℤ)
    → Balanced (negate (pos m)) avg (pos m) fill (record {
      net_contracts = pos 0;
      avg_price = whole (pos 0);
      realized_cents = record {
        numerator = negate (scale m (scale avg.denominator fill -ℤ avg.numerator));
        denominator = avg.denominator;
      };
    })
short_closed m avg fill = simp linear (omega int_laws)
