-- ===== src/Ledger.antt =====
-- The rows of backend/app/db/models.py that the trading path reads and writes, and the two ledgers of
-- backend/app/trading/positions.py: the position of a market on a route, and the day of a route.
-- Money is in microcents; a time in microseconds since the epoch, a day its number.
pub mod Net
mod Tests
use kalshi_copilot.Base.{
  ℕ, zero, suc, ◌+◌, ◌*◌, ◌/◌, Bool, true, false, ◌&&◌, Option, none, some, List, [], ◌∷◌, ◌++◌,
  if◌then◌else◌, find, or_else, upsert, ◌==◌,
}
use kalshi_copilot.Base.Int.{ℤ, pos, ◌+ℤ◌, scale}
use kalshi_copilot.Base.Text.{Text, text_eq}
use kalshi_copilot.Base.Outcome.{Outcome, ok, raise, ◌>>=◌}
use kalshi_copilot.Domain.{Side, Action, ValueError}
use kalshi_copilot.Direction.{signed_contracts, to_yes_price}
use kalshi_copilot.Fees.{Ratio}
use kalshi_copilot.Positions.{whole, FillResult, realized_from_fill}
use kalshi_copilot.Interlocks.{ExecutionRoute, same_route}

-- The sum of two amounts that are kept as quotients.
unfoldable pub add_amount : Ratio → Ratio → Ratio
add_amount a b = record {
  numerator = scale b.denominator a.numerator +ℤ scale a.denominator b.numerator;
  denominator = a.denominator * b.denominator;
}

pub record Position : Type 0 where
  pub ticker : Text
  pub route : ExecutionRoute
  pub net_contracts : ℤ
  pub avg_price : Ratio
  pub realized_pnl_cents : Ratio
  pub fees_paid_cents : ℤ

pub record Fill : Type 0 where
  pub order_id : ℕ
  pub ticker : Text
  pub side : Side
  pub action : Action
  pub price : ℤ
  pub contracts : ℤ
  pub fee_cents : ℤ
  pub realized_pnl_cents : Ratio
  pub ts : ℕ

pub record Settlement : Type 0 where
  pub ticker : Text
  pub route : ExecutionRoute
  pub settled_yes_value : ℤ
  pub net_contracts : ℤ
  pub avg_price : Ratio
  pub realized_pnl_cents : Ratio
  pub fee_cents : ℤ
  pub created_at : ℕ

pub record PnlDaily : Type 0 where
  pub day : ℕ
  pub route : ExecutionRoute
  pub realized_pnl_cents : Ratio
  pub fees_paid_cents : ℤ
  pub trades : ℕ
  pub settlements : ℕ

-- The tables of the two ledgers.
pub record Books : Type 0 where
  pub positions : List Position
  pub pnl_daily : List PnlDaily
  pub settled : List Settlement

abbrev pub is_position : Text → ExecutionRoute → Position → Bool
is_position ticker route p = text_eq ticker p.ticker && same_route route p.route

abbrev pub new_position : Text → ExecutionRoute → Position
new_position ticker route = record {
  ticker = ticker;
  route = route;
  net_contracts = pos 0;
  avg_price = whole (pos 0);
  realized_pnl_cents = whole (pos 0);
  fees_paid_cents = pos 0;
}

-- The row of a market on a route, or the one that would be added for it.
abbrev pub position_of : Text → ExecutionRoute → Books → Position
position_of ticker route b =
    or_else (find (is_position ticker route) b.positions) (new_position ticker route)

-- `.date()` of a time in UTC.
abbrev pub date : ℕ → ℕ
date ts = ts / 86400000000

pub data RollKind : Type 0 where
  by_fill by_settlement : RollKind

abbrev pub is_day : ℕ → ExecutionRoute → PnlDaily → Bool
is_day day route d = (day == d.day) && same_route route d.route

abbrev pub new_day : ℕ → ExecutionRoute → PnlDaily
new_day day route = record {
  day = day;
  route = route;
  realized_pnl_cents = whole (pos 0);
  fees_paid_cents = pos 0;
  trades = 0;
  settlements = 0;
}

abbrev pub count_roll : RollKind → PnlDaily → PnlDaily
count_roll by_fill d = record d { trades = d.trades + 1 }
count_roll by_settlement d = record d { settlements = d.settlements + 1 }

abbrev pub rolled : Ratio → ℤ → RollKind → PnlDaily → PnlDaily
rolled realized fee kind d = count_roll kind (record d {
  realized_pnl_cents = add_amount d.realized_pnl_cents realized;
  fees_paid_cents = d.fees_paid_cents +ℤ fee;
})

unfoldable pub roll_daily :
    ℕ → ExecutionRoute → Ratio → ℤ → RollKind → List PnlDaily → List PnlDaily
roll_daily day route realized fee kind days =
    upsert (is_day day route) (rolled realized fee kind) (new_day day route) days

-- A position after a fill.
abbrev pub folded : FillResult → ℤ → Position → Position
folded r fee p = record p {
  net_contracts = r.net_contracts;
  avg_price = r.avg_price;
  realized_pnl_cents = add_amount p.realized_pnl_cents r.realized_cents;
  fees_paid_cents = p.fees_paid_cents +ℤ fee;
}

-- `apply_fill`: the fill with its realised profit stamped on it, and the ledgers after it.
unfoldable pub apply_fill : Fill → ExecutionRoute → Books → Outcome ValueError (Fill × Books)
apply_fill fill route b = signed_contracts fill.side fill.action fill.contracts >>= λ delta.
    let p = position_of fill.ticker route b in
    let r =
      realized_from_fill p.net_contracts p.avg_price delta (to_yes_price fill.side fill.price) in
    ok (
      record fill { realized_pnl_cents = r.realized_cents },
      record b {
        positions =
            upsert (is_position fill.ticker route) (folded r fill.fee_cents)
              (new_position fill.ticker route) b.positions;
        pnl_daily =
            roll_daily (date fill.ts) route r.realized_cents fill.fee_cents by_fill b.pnl_daily;
      },
    )
