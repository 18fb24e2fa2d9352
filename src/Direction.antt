-- ===== src/Direction.antt =====
-- backend/app/trading/direction.py: the operator's (side, action) against Kalshi's one YES book.
pub mod Economics
mod Tests
use kalshi_copilot.Base.{◌+◌, Bool, true, false, if◌then◌else◌}
use kalshi_copilot.Base.Int.{ℤ, ◌-ℤ◌, negate}
use kalshi_copilot.Base.Outcome.{Outcome, ok, raise, ◌>>◌}
use kalshi_copilot.Domain.{
  Side, yes_side, no_side, Action, buy, sell, other_action, BookSide, bid, ask, ValueError,
  value_error, is_yes, is_buy, same, one,
}

-- `_check_action`
abbrev pub check_action : Action → Outcome ValueError (Unit {0})
check_action buy = ok tt
check_action sell = ok tt
check_action other_action = raise value_error

unfoldable pub book_side : Side → Action → Outcome ValueError BookSide
book_side side action =
    check_action action >> ok (if same (is_yes side) (is_buy action) then bid else ask)

unfoldable pub to_yes_price : Side → ℤ → ℤ
to_yes_price side price = if is_yes side then price else one -ℤ price

unfoldable pub from_yes_price : Side → ℤ → ℤ
unfolding to_yes_price
from_yes_price side price = to_yes_price side price

unfoldable pub opposite_side : Side → Side
opposite_side side = if is_yes side then no_side else yes_side

unfoldable pub signed_contracts : Side → Action → ℤ → Outcome ValueError ℤ
signed_contracts side action contracts =
    check_action action
    >> (let magnitude = if is_buy action then contracts else negate contracts in
        ok (if is_yes side then magnitude else negate magnitude))
