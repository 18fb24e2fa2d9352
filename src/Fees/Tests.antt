-- ===== src/Fees/Tests.antt =====
-- Runs and instances for backend/app/core/fees.py.
use kalshi_copilot.Base.{ℕ, ◌+◌, ◌*◌, ◌≤◌, ◌<◌, ◌≡◌, refl, true, none, some, [], ◌∷◌}
use kalshi_copilot.Base.Int.{pos, ◌-ℤ◌, ◌*ℤ◌}
use kalshi_copilot.Base.Text.{codes, strip}
use kalshi_copilot.Base.Outcome.{ok, raise}
use kalshi_copilot.Fees.{
  FeeSchedule, RawSchedule, mapping, series_of, series_key, read_series, from_dict, multipliers,
  taker_rate, maker_side, validate, gross_fee, centicent, round_up_centicents, taker_fee_cents,
  net_edge_cents, unknown_series,
}
use kalshi_copilot.Fees.Bounds.{taker_fee_cents_rounding}

abbrev raw : RawSchedule
raw = record {
  base_taker_rate = none;
  base_maker_rate = none;
  taker_multiplier = none;
  maker_multiplier = none;
  series =
      (codes " kxinx ", mapping none (some 5000)) ∷ (codes "KXNBA", mapping (some 10000) none) ∷ [];
  verified_on = none;
}

abbrev schedule : FeeSchedule
schedule = record {
  base_taker_rate = 700;
  base_maker_rate = 175;
  default_taker_multiplier = 10000;
  default_maker_multiplier = 0;
  series =
      (codes "KXINX", record { maker = 0; taker = 5000 })
      ∷ (codes "KXNBA", record { maker = 10000; taker = 10000 })
      ∷ [];
  verified_on = none;
}

loaded : from_dict raw ≡ ok schedule
unfolding from_dict read_series strip
loaded = refl

series_of_ticker : series_of (some (codes "kxinx-24dec31")) ≡ some (codes "KXINX")
unfolding series_of strip
series_of_ticker = refl

-- 0.07 * 100 * 0.5 * 0.5 = 1.75 dollars.
fee_of_100 : taker_fee_cents schedule (pos 500000) (pos 10000) none ≡ ok 17500
unfolding taker_fee_cents validate taker_rate multipliers series_key strip round_up_centicents ◌-ℤ◌
fee_of_100 = refl

fee_of_one : taker_fee_cents schedule (pos 500000) (pos 100) none ≡ ok 175
unfolding taker_fee_cents validate taker_rate multipliers series_key strip round_up_centicents ◌-ℤ◌
fee_of_one = refl

edge_of_100 :
    net_edge_cents schedule (pos 600000) (pos 500000) (pos 10000) none (pos 0) true
    ≡ ok (record { numerator = pos 825000000; denominator = 10000 })
unfolding net_edge_cents taker_fee_cents validate taker_rate multipliers series_key strip
    round_up_centicents ◌-ℤ◌ ◌*ℤ◌
edge_of_100 = refl

-- An unlisted series has no maker price here: a listed one charges makers more than the default.
unlisted_maker :
    multipliers schedule (some (codes "KXNEW")) maker_side
    ≡ raise (unknown_series (some (codes "KXNEW")))
unfolding multipliers series_key strip
unlisted_maker = refl

taker_fee_cents_rounding_example :
    (r : ℕ) × (taker_rate schedule none ≡ ok r)
    × (gross_fee r (pos 500000) (pos 10000) ≤ 17500 * centicent)
    × (17500 * centicent < gross_fee r (pos 500000) (pos 10000) + centicent)
taker_fee_cents_rounding_example =
    taker_fee_cents_rounding schedule (pos 500000) 9999 none fee_of_100
