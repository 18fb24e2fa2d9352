-- ===== src/Domain.antt =====
-- The enums of backend/app/db/models.py and the units of money (backend/app/core/money.py).
-- A price is an integer number of microdollars (`PRICE_QUANTUM`), a contract count an integer number
-- of hundredths (`COUNT_QUANTUM`), and their product an integer number of microcents.
use kalshi_copilot.Base.{Bool, true, false}
use kalshi_copilot.Base.Int.{ℤ, pos}

pub data Side : Type 0 where
  yes_side no_side : Side

-- The strings that name an action; `other_action` is any other string.
pub data Action : Type 0 where
  buy sell other_action : Action

pub data BookSide : Type 0 where
  bid ask : BookSide

pub data ProposalStatus : Type 0 where
  pending approved rejected expired executed partial failed : ProposalStatus

pub data OrderStatus : Type 0 where
  pending resting partially_filled filled canceled rejected : OrderStatus

-- Python's ValueError, with no payload.
pub data ValueError : Type 0 where
  value_error : ValueError

abbrev pub is_yes : Side → Bool
is_yes yes_side = true
is_yes no_side = false

abbrev pub is_buy : Action → Bool
is_buy buy = true
is_buy sell = false
is_buy other_action = false

abbrev pub is_pending : ProposalStatus → Bool
is_pending ProposalStatus.pending = true
is_pending _ = false

-- `a == b` on two Booleans.
abbrev pub same : Bool → Bool → Bool
same true true = true
same false false = true
same _ _ = false

-- `Decimal(1)` as a price.
abbrev pub one : ℤ
one = pos 1000000
