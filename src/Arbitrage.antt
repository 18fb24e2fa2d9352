-- ===== src/Arbitrage.antt =====
-- backend/app/detectors/set_arbitrage.py: a mutually exclusive event priced as a whole.
-- A price is in microdollars, a number of contracts in hundredths, money in microcents; the slippage
-- is the adverse move of a price, and a number has been parsed.
pub mod Filled
pub mod Fills
pub mod Order
pub mod Profit
pub mod Riskless
pub mod Taken
mod Tests
use kalshi_copilot.Base.{
  ℕ, ◌*◌, Bool, true, false, not, Option, none, some, List, [], ◌∷◌, ◌++◌, map, if◌then◌else◌,
}
use kalshi_copilot.Base.Int.{ℤ, pos, pos_part, ◌+ℤ◌, ◌-ℤ◌, ◌*ℤ◌, ltb_ℤ, leb_ℤ, min_ℤ}
use kalshi_copilot.Base.Text.{Text}
use kalshi_copilot.Base.Outcome.{Outcome, ok, raise, ◌>>=◌}
use kalshi_copilot.Domain.{one}
use kalshi_copilot.Fees.{FeeError, FeeSchedule, series_of, taker_fee_cents, Ratio}
use kalshi_copilot.Book.{
  Levels, WireLevel, too_short, level, malformed, BookError, money_parse_error, sort_desc, as_offer,
}
use kalshi_copilot.Pricing.{inside, order_fee}

-- Whether YES of every leg is sold or bought.
pub data SetDirection : Type 0 where
  sell_set buy_set : SetDirection

pub record LegBook : Type 0 where
  pub ticker : Text
  pub yes : Levels
  pub no : Levels

-- The loop of `levels` in `from_payload`.
unfoldable pub levels_from : Levels → List WireLevel → Outcome BookError Levels
levels_from out [] = ok out
levels_from out (too_short ∷ rest) = levels_from out rest
levels_from out (malformed ∷ rest) = raise money_parse_error
levels_from out (level price size ∷ rest) =
    levels_from (if ltb_ℤ (pos 0) size then out ++ (price, size) ∷ [] else out) rest

unfoldable pub from_payload : Text → List WireLevel → List WireLevel → Outcome BookError LegBook
from_payload ticker raw_yes raw_no = levels_from [] raw_yes >>= λ yes.
    levels_from [] raw_no >>= λ no. ok (record { ticker = ticker; yes = yes; no = no })

-- `sorted(offers, key=lambda level: level[0])`: stable, lowest price first.
abbrev pub insert_offer : ℤ × ℤ → Levels → Levels
insert_offer e [] = e ∷ []
insert_offer e (x ∷ xs) = if leb_ℤ e.0 x.0 then e ∷ x ∷ xs else x ∷ insert_offer e xs

unfoldable pub sort_offers : Levels → Levels
sort_offers [] = []
sort_offers (e ∷ d) = insert_offer e (sort_offers d)

abbrev pub executable : SetDirection → LegBook → Levels
executable sell_set book = sort_desc book.yes
executable buy_set book = sort_offers (map as_offer book.no)

-- The average price is the cost over the contracts.
pub record LegFill : Type 0 where
  pub ticker : Text
  pub avg_price : Ratio
  pub contracts : ℤ
  pub fee_cents : ℤ

-- `gross_sum` is kept over the size of the set, which divides the average of every leg.
pub record SetOpportunity : Type 0 where
  pub event_ticker : Text
  pub direction : SetDirection
  pub contracts : ℤ
  pub legs : List LegFill
  pub gross_sum : Ratio
  pub total_fee_cents : ℤ
  pub net_edge_cents : ℤ

abbrev pub effective_price : SetDirection → ℤ → ℤ → ℤ
effective_price sell_set slip price = price -ℤ slip
effective_price buy_set slip price = price +ℤ slip

-- The loop of `walk`, on what remains, the cost and the levels consumed so far.
unfoldable pub consume : SetDirection → ℤ → Levels → ℤ → ℤ → Levels → ℤ × ℤ × Levels
consume d slip [] remaining cost consumed = (cost, remaining, consumed)
consume d slip ((price, size) ∷ rest) remaining cost consumed =
    let at = effective_price d slip price in
    let taken = min_ℤ size remaining in
    let passed = consume d slip rest remaining cost consumed in
    let on =
      consume d slip rest (remaining -ℤ taken) (cost +ℤ taken *ℤ at)
        (consumed ++ (at, taken) ∷ []) in
    if leb_ℤ remaining (pos 0)
    then (cost, remaining, consumed)
    else if not (inside at)
    then passed
    else on

-- `walk`: the cost, the contracts filled and the levels, if all of the size is filled.
unfoldable pub walk_set : SetDirection → ℤ → Levels → ℤ → Option (ℤ × ℤ × Levels)
walk_set d slip levels contracts =
    let (cost, remaining, consumed) = consume d slip levels contracts (pos 0) [] in
    if ltb_ℤ (pos 0) remaining then none else some (cost, contracts -ℤ remaining, consumed)

-- The taker fee of each level that is consumed.
unfoldable pub fees_of : FeeSchedule → Text → Levels → Outcome FeeError ℤ
fees_of schedule ticker [] = ok (pos 0)
fees_of schedule ticker ((price, size) ∷ rest) =
    taker_fee_cents schedule price size (series_of (some ticker)) >>= λ fee.
    fees_of schedule ticker rest >>= λ others. ok (order_fee fee +ℤ others)

abbrev pub leg_fill : Text → ℤ → ℤ → ℤ → LegFill
leg_fill ticker cost filled fee = record {
  ticker = ticker;
  avg_price = record { numerator = cost; denominator = pos_part filled };
  contracts = filled;
  fee_cents = fee;
}

-- The legs, what they gross and their fees.
abbrev pub Sums : Type 0
Sums = List LegFill × ℤ × ℤ

abbrev pub with_leg : Text → ℤ → ℤ → ℤ → Option Sums → Option Sums
with_leg ticker cost filled fee none = none
with_leg ticker cost filled fee (some (legs, gross, fees)) =
    some (leg_fill ticker cost filled fee ∷ legs, cost +ℤ gross, fee +ℤ fees)

-- A leg that can be filled, and the legs after it.
abbrev pub fill_leg :
    FeeSchedule
    → Text
    → Option (ℤ × ℤ × Levels)
    → Outcome FeeError (Option Sums)
    → Outcome FeeError (Option Sums)
fill_leg schedule ticker none rest = ok none
fill_leg schedule ticker (some (cost, filled, consumed)) rest =
    fees_of schedule ticker consumed >>= λ fee.
    rest >>= λ sums. ok (with_leg ticker cost filled fee sums)

-- The loop of `price_set`.
unfoldable pub price_legs :
    FeeSchedule → SetDirection → ℤ → ℤ → List LegBook → Outcome FeeError (Option Sums)
price_legs schedule d slip qty [] = ok (some ([], pos 0, pos 0))
price_legs schedule d slip qty (book ∷ rest) =
    fill_leg schedule book.ticker (walk_set d slip (executable d book) qty)
      (price_legs schedule d slip qty rest)

-- What the set grosses, against the dollar that one of its legs is worth.
abbrev pub gross_cents : SetDirection → ℤ → ℤ → ℤ
gross_cents sell_set gross qty = gross -ℤ one *ℤ qty
gross_cents buy_set gross qty = one *ℤ qty -ℤ gross

abbrev pub opportunity : Text → SetDirection → ℤ → Option Sums → Option SetOpportunity
opportunity event_ticker d qty none = none
opportunity event_ticker d qty (some (legs, gross, fees)) = some (record {
  event_ticker = event_ticker;
  direction = d;
  contracts = qty;
  legs = legs;
  gross_sum = record { numerator = gross; denominator = pos_part qty };
  total_fee_cents = fees;
  net_edge_cents = gross_cents d gross qty -ℤ fees;
})

unfoldable pub price_set :
    FeeSchedule
    → Text
    → List LegBook
    → ℤ
    → SetDirection
    → ℤ
    → Outcome FeeError (Option SetOpportunity)
price_set schedule event_ticker [] qty d slip = ok none
price_set schedule event_ticker (book ∷ books) qty d slip =
    if leb_ℤ qty (pos 0)
    then ok none
    else (price_legs schedule d slip qty (book ∷ books) >>= λ sums.
        ok (opportunity event_ticker d qty sums))

abbrev pub depth_of : Levels → ℤ
depth_of [] = pos 0
depth_of ((price, size) ∷ rest) = size +ℤ depth_of rest

-- The depth of the thinnest of some legs.
unfoldable pub max_executable_sets : List LegBook → SetDirection → ℤ
max_executable_sets [] d = pos 0
max_executable_sets (book ∷ []) d = depth_of (executable d book)
max_executable_sets (book ∷ other ∷ rest) d =
    min_ℤ (depth_of (executable d book)) (max_executable_sets (other ∷ rest) d)
