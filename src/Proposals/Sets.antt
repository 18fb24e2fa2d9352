-- ===== src/Proposals/Sets.antt =====
-- create_multi_leg_proposal of proposals.py: one proposal over several markets.
use kalshi_copilot.Base.{
  ℕ, suc, Option, none, some, List, [], ◌∷◌, map, leb, length, not, select, is_nil,
}
use kalshi_copilot.Base.Int.{ℤ}
use kalshi_copilot.Base.Text.{Text}
use kalshi_copilot.Base.Outcome.{Outcome, ok, ◌>>=◌, ◌>>◌, raise_if}
use kalshi_copilot.Domain.{ProposalStatus, Side, Action}
use kalshi_copilot.Interlocks.{Actor, ProposedTrade}
use kalshi_copilot.Fees.{Ratio}
use kalshi_copilot.Store.{ProposalLeg, Store}
use kalshi_copilot.Proposals.{
  ProposalError, not_multi_leg, Desk, guard_halted, guard_queue_depth, guard_duplicate,
  guard_market_size, last_proposal, expiry, added,
}

-- A leg as the caller names it, its numbers parsed.
pub record LegSpec : Type 0 where
  pub ticker : Text
  pub side : Side
  pub action : Action
  pub limit_price : ℤ
  pub contracts : ℤ
  pub fair_price : Option ℤ
  pub est_fee_cents : Option ℤ

-- The arguments of `create_multi_leg_proposal` that a caller chooses.
pub record SetRequest : Type 0 where
  pub event_ticker : Text
  pub legs : List LegSpec
  pub source : Text
  pub net_edge_cents : Option Ratio
  pub est_fee_cents : Option ℤ
  pub max_loss_cents : Option ℤ
  pub ttl_sec : Option ℕ
  pub actor : Actor

-- `[leg["ticker"] for leg in legs if leg.get("ticker")]`
abbrev pub tickers_of : List LegSpec → List Text
tickers_of legs = select (λ (t : Text). not (is_nil t)) (map (λ (l : LegSpec). l.ticker) legs)

abbrev pub first_ticker : List LegSpec → Text
first_ticker [] = []
first_ticker (l ∷ rest) = l.ticker

abbrev pub new_set : Desk → Store → SetRequest → Ratio → ℕ → ProposedTrade
new_set d s r pct now = record {
  id = suc (last_proposal s.proposals);
  source = r.source;
  event_ticker = some r.event_ticker;
  ticker = first_ticker r.legs;
  leg_count = length r.legs;
  net_edge_cents = r.net_edge_cents;
  est_fee_cents = r.est_fee_cents;
  max_loss_cents = r.max_loss_cents;
  pct_of_bankroll = pct;
  status = ProposalStatus.pending;
  expires_at = some (expiry d.config r.ttl_sec now);
  created_at = some now;
  decided_at = none;
  decision_reason = none;
}

-- `for seq, leg in enumerate(legs)`
abbrev pub legs_from : ℕ → ℕ → List LegSpec → List ProposalLeg
legs_from id seq [] = []
legs_from id seq (l ∷ rest) =
    record {
      proposal_id = id;
      seq = seq;
      ticker = l.ticker;
      side = l.side;
      action = l.action;
      limit_price = l.limit_price;
      contracts = l.contracts;
      fair_price = l.fair_price;
      est_fee_cents = l.est_fee_cents;
    }
    ∷ legs_from id (suc seq) rest

abbrev pub set_guards : Desk → Store → SetRequest → ℕ → Outcome ProposalError (Unit {0})
set_guards d s r now =
    raise_if (leb (length r.legs) 1) not_multi_leg
    >> guard_halted d s now
    >> guard_queue_depth s d.config
    >> guard_duplicate s r.source r.event_ticker

unfoldable pub create_multi_leg_proposal :
    Desk → Store → SetRequest → ℕ → Outcome ProposalError (Store × ProposedTrade)
create_multi_leg_proposal d s r now =
    set_guards d s r now
    >> (guard_market_size d s r.max_loss_cents (tickers_of r.legs) (some r.event_ticker) >>= λ pct.
        let p = new_set d s r pct now in ok (added p (legs_from p.id 0 r.legs) r.actor now s, p))
