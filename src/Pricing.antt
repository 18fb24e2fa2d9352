-- ===== src/Pricing.antt =====
-- backend/app/trading/pricing.py: a ticket costed end to end, before anything is proposed.
-- A price is in microdollars on the traded side, a number of contracts in hundredths, money in
-- microcents. A number has been parsed; the fee table that the code loads from its file is an argument.
pub mod Settled
pub mod Opposite
mod Tests
use kalshi_copilot.Base.{
  ℕ, ◌*◌, Bool, true, false, not, ◌&&◌, Option, none, some, if◌then◌else◌, or_else,
}
use kalshi_copilot.Base.Int.{ℤ, pos, pos_part, ◌+ℤ◌, ◌-ℤ◌, ◌*ℤ◌, ltb_ℤ, leb_ℤ}
use kalshi_copilot.Base.Text.{Text}
use kalshi_copilot.Base.Outcome.{Outcome, ok, raise, ◌>>=◌, ◌>>◌, raise_if}
use kalshi_copilot.Domain.{Side, Action, is_buy, buy, sell, other_action, BookSide, ValueError, one}
use kalshi_copilot.Settings.{Config}
use kalshi_copilot.Direction.{book_side, to_yes_price}
use kalshi_copilot.Fees.{
  FeeError, FeeSchedule, is_verified, series_of, fee_fn, Ratio, net_edge_cents,
}

pub data PricingError : Type 0 where
  bad_action bad_count bad_limit_price bad_fair_price unverified_schedule : PricingError
  fee_error : FeeError → PricingError

pub record TicketQuote : Type 0 where
  pub ticker : Text
  pub side : Side
  pub action : Action
  pub limit_price : ℤ
  pub contracts : ℤ
  pub category : Option Text
  pub is_taker : Bool
  pub series : Option Text
  pub wire_book_side : BookSide
  pub wire_yes_price : ℤ
  pub notional_cents : ℤ
  pub est_fee_cents : ℤ
  pub total_cost_cents : ℤ
  pub breakeven_cents : Ratio
  pub max_loss_cents : ℤ
  pub max_win_cents : ℤ
  pub net_edge_cents : Option Ratio
  pub fair_price : Option ℤ

-- An exception of a callee, as one of the ticket.
abbrev pub from_fees {ℓ} : {A : Type ℓ} → Outcome FeeError A → Outcome PricingError A
from_fees (ok a) = ok a
from_fees (raise e) = raise (fee_error e)

abbrev pub from_direction {ℓ} : {A : Type ℓ} → Outcome ValueError A → Outcome PricingError A
from_direction (ok a) = ok a
from_direction (raise e) = raise bad_action

abbrev pub known_action : Action → Bool
known_action other_action = false
known_action _ = true

-- 0 < price < 1
abbrev pub inside : ℤ → Bool
inside price = ltb_ℤ (pos 0) price && ltb_ℤ price one

-- What a buy, and a sell, of `qty` at `price` can bring and cost; `fee` is for the whole order.
abbrev pub total_cost : Action → ℤ → ℤ → ℤ → ℤ
total_cost action price qty fee = if is_buy action then price *ℤ qty +ℤ fee else fee -ℤ price *ℤ qty

abbrev pub breakeven : Action → ℤ → ℤ → ℤ → Ratio
breakeven action price qty fee = record {
  numerator = if is_buy action then price *ℤ qty +ℤ fee else price *ℤ qty -ℤ fee;
  denominator = pos_part qty;
}

abbrev pub max_loss : Action → ℤ → ℤ → ℤ → ℤ
max_loss action price qty fee =
    if is_buy action then price *ℤ qty +ℤ fee else (one -ℤ price) *ℤ qty +ℤ fee

abbrev pub max_win : Action → ℤ → ℤ → ℤ → ℤ
max_win action price qty fee =
    if is_buy action then (one -ℤ price) *ℤ qty -ℤ fee else price *ℤ qty -ℤ fee

-- The net edge; a sell is a buy of the opposite contract at what remains of a dollar.
unfoldable pub edge_of :
    Config
    → FeeSchedule
    → Action
    → ℤ
    → ℤ
    → Option Text
    → Bool
    → Option ℤ
    → Outcome PricingError (Option Ratio)
edge_of config schedule action price qty series taker none = ok none
edge_of config schedule action price qty series taker (some fair) =
    raise_if (not (inside fair)) bad_fair_price
    >> (from_fees (
          net_edge_cents schedule (if is_buy action then fair else one -ℤ fair)
            (if is_buy action then price else one -ℤ price) qty series
            config.costs.slippage_buffer_cents taker)
        >>= λ edge. ok (some edge))

abbrev pub order_fee : ℕ → ℤ
order_fee centicents = pos (centicents * 10000)

-- The quote that is returned.
abbrev pub ticket :
    Text
    → Side
    → Action
    → ℤ
    → ℤ
    → Option Text
    → Option ℤ
    → Bool
    → ℕ
    → Option Ratio
    → BookSide
    → TicketQuote
ticket ticker side action price qty category fair_price taker centicents edge wire = record {
  ticker = ticker;
  side = side;
  action = action;
  limit_price = price;
  contracts = qty;
  category = category;
  is_taker = taker;
  series = series_of (some ticker);
  wire_book_side = wire;
  wire_yes_price = to_yes_price side price;
  notional_cents = price *ℤ qty;
  est_fee_cents = order_fee centicents;
  total_cost_cents = total_cost action price qty (order_fee centicents);
  breakeven_cents = breakeven action price qty (order_fee centicents);
  max_loss_cents = max_loss action price qty (order_fee centicents);
  max_win_cents = max_win action price qty (order_fee centicents);
  net_edge_cents = edge;
  fair_price = fair_price;
}

unfoldable pub price_ticket :
    FeeSchedule
    → Text
    → Side
    → Action
    → ℤ
    → ℤ
    → Option Text
    → Config
    → Option ℤ
    → Option Bool
    → Outcome PricingError TicketQuote
price_ticket schedule ticker side action price qty category config fair_price is_taker =
    let series = series_of (some ticker) in
    let taker = or_else is_taker config.costs.assume_taker in
    raise_if (not (known_action action)) bad_action
    >> raise_if (not (is_verified schedule)) unverified_schedule
    >> raise_if (leb_ℤ qty (pos 0)) bad_count
    >> raise_if (not (inside price)) bad_limit_price
    >> (from_fees (fee_fn taker schedule price qty series) >>= λ centicents.
        edge_of config schedule action price qty series taker fair_price >>= λ edge.
        from_direction (book_side side action) >>= λ wire.
        ok (ticket ticker side action price qty category fair_price taker centicents edge wire))
