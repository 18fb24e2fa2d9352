-- ===== src/Fees.antt =====
-- backend/app/core/fees.py: the fee schedule, the fee of one fill, and the net edge.
-- Rates and multipliers are natural numbers of ten-thousandths (0.0175 is 175), a fee a natural
-- number of centicents, and a slippage an integer number of ten-thousandths of a cent.
pub mod Bounds
pub mod Schedule
pub mod Edge
mod Tests
use kalshi_copilot.Base.{
  ℕ, ◌+◌, ◌-◌, ◌*◌, ◌/◌, ◌^◌, max, Bool, true, false, not, ◌&&◌, ◌||◌, Option, none, some, List, [],
  ◌∷◌, if◌then◌else◌, leb, ◌==◌, is_nil, is_some, or_else,
}
use kalshi_copilot.Base.Int.{ℤ, pos, pos_part, ◌-ℤ◌, ◌*ℤ◌, ltb_ℤ, leb_ℤ, eqb_ℤ}
use kalshi_copilot.Base.Text.{Text, text_eq, strip, upper, before_dash}
use kalshi_copilot.Base.Outcome.{Outcome, ok, raise, ◌>>=◌, ◌>>◌, raise_if}
use kalshi_copilot.Domain.{one}

-- `ValueError` and `UnknownSeries`.
pub data FeeError : Type 0 where
  bad_price bad_contracts bad_series_entry : FeeError
  unknown_series : Option Text → FeeError

-- (maker, taker)
pub record Multipliers : Type 0 where
  pub maker : ℕ
  pub taker : ℕ

pub record FeeSchedule : Type 0 where
  pub base_taker_rate : ℕ
  pub base_maker_rate : ℕ
  pub default_taker_multiplier : ℕ
  pub default_maker_multiplier : ℕ
  pub series : List (Text × Multipliers)
  pub verified_on : Option Text

-- `series_of`
unfoldable pub series_of : Option Text → Option Text
series_of none = none
series_of (some ticker) =
    if is_nil ticker
    then none
    else (let key = upper (strip (before_dash ticker)) in if is_nil key then none else some key)

-- One entry of the YAML table: a mapping with optional multipliers, or something else.
pub data SeriesEntry : Type 0 where
  mapping : Option ℕ → Option ℕ → SeriesEntry
  not_a_mapping : SeriesEntry

-- `table[key] = value` on a dict in insertion order.
abbrev pub put : Text → Multipliers → List (Text × Multipliers) → List (Text × Multipliers)
put k v [] = (k, v) ∷ []
put k v ((j, w) ∷ t) = if text_eq k j then (k, v) ∷ t else (j, w) ∷ put k v t

abbrev pub lookup : Text → List (Text × Multipliers) → Option Multipliers
lookup k [] = none
lookup k ((j, v) ∷ t) = if text_eq k j then some v else lookup k t

-- The loop of `from_dict` over the `series` table.
unfoldable pub read_series :
    List (Text × SeriesEntry)
    → List (Text × Multipliers)
    → Outcome FeeError (List (Text × Multipliers))
read_series [] table = ok table
read_series ((name, not_a_mapping) ∷ rest) table = raise bad_series_entry
read_series ((name, mapping maker taker) ∷ rest) table = read_series rest (
    put (upper (strip name)) (record { maker = or_else maker 0; taker = or_else taker 10000 })
      table)

pub record RawSchedule : Type 0 where
  pub base_taker_rate : Option ℕ
  pub base_maker_rate : Option ℕ
  pub taker_multiplier : Option ℕ
  pub maker_multiplier : Option ℕ
  pub series : List (Text × SeriesEntry)
  pub verified_on : Option Text

-- `FeeSchedule.from_dict`
unfoldable pub from_dict : RawSchedule → Outcome FeeError FeeSchedule
from_dict raw = read_series raw.series [] >>= λ table. ok (record {
  base_taker_rate = or_else raw.base_taker_rate 700;
  base_maker_rate = or_else raw.base_maker_rate 175;
  default_taker_multiplier = or_else raw.taker_multiplier 10000;
  default_maker_multiplier = or_else raw.maker_multiplier 0;
  series = table;
  verified_on = raw.verified_on;
})

abbrev pub is_verified : FeeSchedule → Bool
is_verified s = is_some s.verified_on

abbrev pub max_taker : List (Text × Multipliers) → ℕ
max_taker [] = 0
max_taker ((k, m) ∷ t) = max m.taker (max_taker t)

abbrev pub max_maker : List (Text × Multipliers) → ℕ
max_maker [] = 0
max_maker ((k, m) ∷ t) = max m.maker (max_maker t)

abbrev pub default_taker_is_safe : FeeSchedule → Bool
default_taker_is_safe s =
    if is_nil s.series then true else leb (max_taker s.series) s.default_taker_multiplier

abbrev pub default_maker_is_safe : FeeSchedule → Bool
default_maker_is_safe s =
    if is_nil s.series then true else leb (max_maker s.series) s.default_maker_multiplier

abbrev pub default_is_safe : FeeSchedule → Bool
default_is_safe s = default_taker_is_safe s && default_maker_is_safe s

-- The side that is priced: the argument `need`.
pub data Need : Type 0 where
  taker_side maker_side both_sides : Need

abbrev pub is_unsafe : FeeSchedule → Need → Bool
is_unsafe s taker_side = not (default_taker_is_safe s)
is_unsafe s maker_side = not (default_maker_is_safe s)
is_unsafe s both_sides = not (default_is_safe s)

-- `(series or "").strip().upper()`
unfoldable pub series_key : Option Text → Text
series_key series = upper (strip (or_else series []))

-- `FeeSchedule._multipliers`
unfoldable pub multipliers : FeeSchedule → Option Text → Need → Outcome FeeError Multipliers
multipliers s series need = elim (lookup (series_key series) s.series) [
  | some m ↦ ok m
  | none ↦
      raise_if (is_unsafe s need) (unknown_series series)
      >> ok (record { maker = s.default_maker_multiplier; taker = s.default_taker_multiplier })
]

unfoldable pub taker_rate : FeeSchedule → Option Text → Outcome FeeError ℕ
taker_rate s series = do m ← multipliers s series taker_side; ok (s.base_taker_rate * m.taker)

unfoldable pub maker_rate : FeeSchedule → Option Text → Outcome FeeError ℕ
maker_rate s series = do m ← multipliers s series maker_side; ok (s.base_maker_rate * m.maker)

-- `_validate`
unfoldable pub validate : ℤ → ℤ → Outcome FeeError (Unit {0})
validate price contracts =
    raise_if (not (ltb_ℤ (pos 0) price && ltb_ℤ price one)) bad_price
    >> raise_if (ltb_ℤ contracts (pos 0)) bad_contracts

-- A centicent in the unit of rate * contracts * price * price, which is 10^-22 dollars.
abbrev pub centicent : ℕ
centicent = 10 ^ 18

-- `_round_up_centicents`, the result in centicents.
unfoldable pub round_up_centicents : ℕ → ℕ
round_up_centicents gross = (gross + (centicent - 1)) / centicent

-- rate * qty * price * (1 - price)
abbrev pub gross_fee : ℕ → ℤ → ℤ → ℕ
gross_fee rate price contracts =
    rate * pos_part contracts * (pos_part price * pos_part (one -ℤ price))

unfoldable pub taker_fee_cents : FeeSchedule → ℤ → ℤ → Option Text → Outcome FeeError ℕ
taker_fee_cents s price contracts series =
    validate price contracts
    >> (if eqb_ℤ contracts (pos 0)
        then ok 0
        else (taker_rate s series >>= λ rate.
            ok (round_up_centicents (gross_fee rate price contracts))))

unfoldable pub maker_fee_cents : FeeSchedule → ℤ → ℤ → Option Text → Outcome FeeError ℕ
maker_fee_cents s price contracts series =
    validate price contracts
    >> (if eqb_ℤ contracts (pos 0)
        then ok 0
        else (maker_rate s series >>= λ rate.
            if rate == 0 then ok 0 else ok (round_up_centicents (gross_fee rate price contracts))))

-- `taker_fee_cents if is_taker else maker_fee_cents`
abbrev pub fee_fn : Bool → FeeSchedule → ℤ → ℤ → Option Text → Outcome FeeError ℕ
fee_fn true = taker_fee_cents
fee_fn false = maker_fee_cents

unfoldable pub round_trip_cost_cents :
    FeeSchedule → ℤ → ℤ → Option Text → Option ℤ → Bool → Bool → Outcome FeeError ℕ
round_trip_cost_cents s entry contracts series exit entry_is_taker exit_is_taker = do
  total ← fee_fn entry_is_taker s entry contracts series
  elim exit [
    | none ↦ ok total
    | some price ↦ fee_fn exit_is_taker s price contracts series >>= λ fee. ok (total + fee)
  ]

-- A quotient that the code forms in Decimal, kept exact; the divisor is positive.
pub record Ratio : Type 0 where
  pub numerator : ℤ
  pub denominator : ℕ

-- `net_edge_cents`: the numerator in microcents, the denominator the contracts.
unfoldable pub net_edge_cents :
    FeeSchedule → ℤ → ℤ → ℤ → Option Text → ℤ → Bool → Outcome FeeError Ratio
net_edge_cents s fair price contracts series slippage is_taker =
    if leb_ℤ contracts (pos 0)
    then ok (record { numerator = pos 0; denominator = 1 })
    else (fee_fn is_taker s price contracts series >>= λ fee. ok (record {
      numerator = (fair -ℤ price) *ℤ contracts -ℤ pos (10000 * fee) -ℤ slippage *ℤ contracts;
      denominator = pos_part contracts;
    }))
