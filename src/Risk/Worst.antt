-- ===== src/Risk/Worst.antt =====
-- The capital at risk of risk.py against what settlements.py can make of a position.
use kalshi_copilot.Base.{ℕ, zero, suc, ◌*◌, ◌≡◌, refl, false, arith, if◌then◌else◌, ap, ◌∙◌}
use kalshi_copilot.Base.Int.{
  ℤ, pos, negsuc, ◌-ℤ◌, ◌*ℤ◌, ◌≤ℤ◌, negate, scale, eqb_ℤ, ltb_ℤ, int_laws, linear, scale_mono,
  negsuc-*ℤ,
}
use kalshi_copilot.Domain.{one}
use kalshi_copilot.Fees.{Ratio}
use kalshi_copilot.Settlements.{realized_from_settlement}
use kalshi_copilot.Exposure.{position_cost_cents}

-- The payout that is worst for the holder.
abbrev pub worst_payout : ℤ → ℤ
worst_payout net = if ltb_ℤ (pos 0) net then pos 0 else one

module _ (avg : Ratio) where
  cost_long :
      (m : ℕ)
      → position_cost_cents (pos (suc m)) avg
        ≡ record { numerator = scale (suc m) avg.numerator; denominator = avg.denominator }
  unfolding position_cost_cents
  cost_long m = ground arith

  cost_short :
      (m : ℕ)
      → position_cost_cents (negsuc m) avg ≡ record {
        numerator = scale (suc m) (scale avg.denominator one -ℤ avg.numerator);
        denominator = avg.denominator;
      }
  unfolding position_cost_cents
  cost_short m = ground arith

worst_long : (m : ℕ) → worst_payout (pos (suc m)) ≡ pos 0
worst_long m = ground arith

worst_short : (m : ℕ) → worst_payout (negsuc m) ≡ one
worst_short m = ground arith

long_at_zero : (m d : ℕ) (n : ℤ) → pos m *ℤ (scale d (pos 0) -ℤ n) ≡ negate (scale m n)
long_at_zero m d n = simp linear (omega int_laws)

long_above : (m d : ℕ) (n v : ℤ) → pos 0 ≤ℤ v → negate (scale m n) ≤ℤ pos m *ℤ (scale d v -ℤ n)
long_above m d n v h =
    let more = scale_mono (m * d) (pos 0) v h in simp linear (omega (int_laws, more))

short_above :
    (m d : ℕ) (n v : ℤ)
    → v ≤ℤ one
    → negate (scale (suc m) (scale d one -ℤ n)) ≤ℤ negsuc m *ℤ (scale d v -ℤ n)
short_above m d n v h =
    let more = scale_mono (suc m * d) v one h in simp linear (omega (int_laws, more))

-- The capital at risk in an open position is its loss at the worst payout, and settling at any
-- payout from nothing to a dollar loses no more.
pub position_cost_cents_worst :
    (net : ℤ) (avg : Ratio) (payout : ℤ)
    → eqb_ℤ net (pos 0) ≡ false
    → pos 0 ≤ℤ payout
    → payout ≤ℤ one
    → ((realized_from_settlement net avg (worst_payout net)).numerator
        ≡ negate (position_cost_cents net avg).numerator)
      × (negate (position_cost_cents net avg).numerator
          ≤ℤ (realized_from_settlement net avg payout).numerator)
      × ((realized_from_settlement net avg payout).denominator
          ≡ (position_cost_cents net avg).denominator)
unfolding realized_from_settlement
position_cost_cents_worst (pos zero) avg v h low high = cc
position_cost_cents_worst (pos (suc m)) avg v h low high = rw (cost_long avg m) (
  ap (λ (w : ℤ). pos (suc m) *ℤ (scale avg.denominator w -ℤ avg.numerator)) (worst_long m)
      ∙ long_at_zero (suc m) avg.denominator avg.numerator,
  long_above (suc m) avg.denominator avg.numerator v low,
  refl,
)
position_cost_cents_worst (negsuc m) avg v h low high = rw (cost_short avg m) (
  ap (λ (w : ℤ). negsuc m *ℤ (scale avg.denominator w -ℤ avg.numerator)) (worst_short m)
      ∙ negsuc-*ℤ m (scale avg.denominator one -ℤ avg.numerator),
  short_above m avg.denominator avg.numerator v high,
  refl,
)
