-- ===== src/Wire.antt =====
-- What backend/app/trading/executor.py says to the exchange through its REST client, and what comes
-- back.
use kalshi_copilot.Base.{ℕ, Option, none, some, List}
use kalshi_copilot.Base.Int.{ℤ}
use kalshi_copilot.Base.Text.{Text}
use kalshi_copilot.Base.Outcome.{Outcome}
use kalshi_copilot.Domain.{BookSide, ValueError}
use kalshi_copilot.Direction.{book_side, to_yes_price}
use kalshi_copilot.Paper.{PaperBook}
use kalshi_copilot.Settings.{TimeInForce}
use kalshi_copilot.Store.{ClientOrderId, Order}

-- A number of a response: missing or empty, not a number, or a number.
pub data WireNumber : Type 0 where
  missing garbled : WireNumber
  number : ℤ → WireNumber

-- The answer to one order. The fee is per contract, in microdollars.
pub record Response : Type 0 where
  pub client_order_id : Option ClientOrderId
  pub order_id : Option Text
  pub fill_count : WireNumber
  pub average_fill_price : WireNumber
  pub average_fee_paid : WireNumber

-- The order as it goes on the wire.
pub record WireOrder : Type 0 where
  pub ticker : Text
  pub book_side : Outcome ValueError BookSide
  pub yes_price : ℤ
  pub count : ℤ
  pub client_order_id : ClientOrderId
  pub time_in_force : TimeInForce

-- An exception of the placement, by its HTTP status if it has one.
pub data Failure : Type 0 where
  failure : Option ℕ → Failure

-- What the REST client answers, errors included.
pub record Rest : Type 0 where
  pub get_orderbook : Text → Option PaperBook
  pub create_order : WireOrder → Outcome Failure Response
  pub create_orders_batch : List WireOrder → Outcome Failure (List Response)
  pub cancel_order : Text → Outcome Failure (Unit {0})

-- `_wire_order`
abbrev pub wire_order : Order → WireOrder
wire_order o = record {
  ticker = o.ticker;
  book_side = book_side o.side o.action;
  yes_price = to_yes_price o.side o.limit_price;
  count = o.contracts;
  client_order_id = o.client_order_id;
  time_in_force = o.time_in_force;
}

abbrev pub number_or : ℤ → WireNumber → Option ℤ
number_or default missing = some default
number_or default garbled = none
number_or default (number z) = some z

-- A number that has to be there.
abbrev pub required : WireNumber → Option ℤ
required (number z) = some z
required _ = none
