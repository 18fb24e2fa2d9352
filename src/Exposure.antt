-- ===== src/Exposure.antt =====
-- The capital at risk of backend/app/trading/risk.py: of a position, of a route, and of one market.
use kalshi_copilot.Base.{
  ℕ, Bool, true, false, not, ◌&&◌, ◌||◌, Option, none, some, List, [], ◌∷◌, if◌then◌else◌, any,
  or_else, is_nil, ◌==◌,
}
use kalshi_copilot.Base.Int.{ℤ, pos, ◌+ℤ◌, ◌-ℤ◌, abs, scale, ltb_ℤ, eqb_ℤ}
use kalshi_copilot.Base.Text.{Text, text_eq}
use kalshi_copilot.Domain.{is_pending, one}
use kalshi_copilot.Interlocks.{ExecutionRoute, same_route, given, ProposedTrade}
use kalshi_copilot.Fees.{Ratio}
use kalshi_copilot.Positions.{whole}
use kalshi_copilot.Ledger.{Position, add_amount}
use kalshi_copilot.Store.{Store}

unfoldable pub position_cost_cents : ℤ → Ratio → Ratio
position_cost_cents net avg = if eqb_ℤ net (pos 0) then whole (pos 0) else record {
  numerator =
      scale (abs net)
        (if ltb_ℤ (pos 0) net then avg.numerator else scale avg.denominator one -ℤ avg.numerator);
  denominator = avg.denominator;
}

abbrev pub sum_costs : (Position → Bool) → List Position → Ratio
sum_costs p [] = whole (pos 0)
sum_costs p (x ∷ xs) =
    let rest = sum_costs p xs in
    if p x then add_amount (position_cost_cents x.net_contracts x.avg_price) rest else rest

-- The `max_loss_cents` of the pending proposals that pass.
abbrev pub sum_losses : (ProposedTrade → Bool) → List ProposedTrade → ℤ
sum_losses p [] = pos 0
sum_losses p (x ∷ xs) =
    let rest = sum_losses p xs in
    if is_pending x.status && p x then or_else x.max_loss_cents (pos 0) +ℤ rest else rest

abbrev pub holds : ExecutionRoute → Position → Bool
holds route p = same_route route p.route && not (eqb_ℤ p.net_contracts (pos 0))

abbrev pub listed : List Text → Text → Bool
listed tickers t = any (text_eq t) tickers

abbrev pub same_event : Option Text → Option Text → Bool
same_event none _ = false
same_event (some e) none = false
same_event (some e) (some f) = text_eq f e

abbrev pub other_than : Option ℕ → ℕ → Bool
other_than none id = true
other_than (some excluded) id = not (id == excluded)

unfoldable pub market_exposure_cents :
    Store → ExecutionRoute → List Text → Option Text → Option ℕ → Ratio
market_exposure_cents s route tickers event_ticker exclude_proposal_id =
    if is_nil tickers
    then whole (pos 0)
    else add_amount (sum_costs (λ p. holds route p && listed tickers p.ticker) s.books.positions) (
        whole (
          sum_losses
            (λ p.
              (listed tickers p.ticker || same_event (given event_ticker) p.event_ticker)
              && other_than exclude_proposal_id p.id)
            s.proposals))
