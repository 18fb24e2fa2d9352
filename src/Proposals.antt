-- ===== src/Proposals.antt =====
-- backend/app/trading/proposals.py: the lifecycle of a proposal up to its decision. Nothing is written
-- before the guards of a creation have passed, so a creation that raises leaves the tables alone.
-- Rows are kept in the order of their ids.
pub mod Sets
pub mod Decisions
pub mod Rows
pub mod Lifecycle
pub mod Queue
pub mod Orderly
pub mod Expiry
pub mod Caps
mod Tests
use kalshi_copilot.Base.{
  ℕ, zero, suc, ◌+◌, ◌*◌, max, Bool, true, false, not, ◌&&◌, ◌||◌, Option, none, some, List, [],
  ◌∷◌, ◌++◌, map, if◌then◌else◌, any, count_if, select, or_else, leb, length, ◌==◌,
}
use kalshi_copilot.Base.Int.{ℤ, pos}
use kalshi_copilot.Base.Text.{Text, codes, text_eq}
use kalshi_copilot.Base.Outcome.{Outcome, ok, raise, ◌>>=◌, ◌>>◌, raise_if}
use kalshi_copilot.Domain.{ProposalStatus, is_pending, Side, Action}
use kalshi_copilot.Settings.{Settings, Files, Config, Refusal}
use kalshi_copilot.Interlocks.{
  ExecutionRoute, Actor, system_actor, ttl_elapsed, rejected_by_operator, rejected_for, given,
  ProposedTrade,
}
use kalshi_copilot.Fees.{Ratio, FeeSchedule}
use kalshi_copilot.Positions.{whole}
use kalshi_copilot.Ledger.{add_amount}
use kalshi_copilot.Store.{
  ProposalLeg, AuditLog, proposal_created, proposal_expired, proposal_rejected, Store,
}
use kalshi_copilot.Exposure.{same_event, market_exposure_cents}
use kalshi_copilot.Risk.{check_halted, over, active_route, snapshot}
use kalshi_copilot.Executor.Legs.{row}
use kalshi_copilot.Executor.Approval.{is_proposal, locked, saved}
use kalshi_copilot.Pricing.{PricingError, TicketQuote, price_ticket}

-- The `code` of a ProposalError, or an exception of the pricing.
pub data ProposalError : Type 0 where
  queue_full already_pending exceeds_market_limit unknown_market : ProposalError
  market_not_tradeable not_pending not_multi_leg : ProposalError
  halted : Refusal → ProposalError
  pricing : PricingError → ProposalError

-- A row of the catalog.
pub record CatalogMarket : Type 0 where
  pub status : Option Text
  pub category : Option Text

-- What a creation reads beside the tables: the settings, the fee table and the catalog.
pub record Desk : Type 0 where
  pub settings : Settings
  pub config : Config
  pub files : Files
  pub schedule : FeeSchedule
  pub markets : Text → Option CatalogMarket

-- `_guard_queue_depth`
unfoldable pub guard_queue_depth : Store → Config → Outcome ProposalError (Unit {0})
guard_queue_depth s config =
    raise_if
      (leb config.risk.max_pending_proposals
        (count_if (λ (p : ProposedTrade). is_pending p.status) s.proposals))
      queue_full

-- A pending row of the source for the event or the market.
abbrev pub is_duplicate : Text → Text → ProposedTrade → Bool
is_duplicate source key p =
    is_pending p.status
    && (text_eq source p.source && (same_event (some key) p.event_ticker || text_eq key p.ticker))

unfoldable pub guard_duplicate : Store → Text → Text → Outcome ProposalError (Unit {0})
guard_duplicate s source key = raise_if (any (is_duplicate source key) s.proposals) already_pending

-- A RiskError, as a ProposalError of the same code.
abbrev pub as_halted : Outcome Refusal (Unit {0}) → Outcome ProposalError (Unit {0})
as_halted (ok done) = ok done
as_halted (raise code) = raise (halted code)

abbrev pub halted_on : Store → Config → ℕ → Option ExecutionRoute → Outcome ProposalError (Unit {0})
halted_on s config now none = ok tt
halted_on s config now (some route) = as_halted (check_halted (snapshot s config route now))

unfoldable pub guard_halted : Desk → Store → ℕ → Outcome ProposalError (Unit {0})
guard_halted d s now = halted_on s d.config now (active_route d.files d.settings d.config)

-- What is committed to a market already, on the route that is active.
abbrev pub committed : Store → List Text → Option Text → Option ExecutionRoute → Ratio
committed s tickers event_ticker none = whole (pos 0)
committed s tickers event_ticker (some route) =
    market_exposure_cents s route tickers event_ticker none

abbrev pub fraction_of : Ratio → ℕ → Ratio
fraction_of projected bankroll = record {
  numerator = projected.numerator;
  denominator = projected.denominator * (bankroll * 1000000);
}

-- `_guard_market_size`: the share of the bankroll that the market would reach.
unfoldable pub guard_market_size :
    Desk → Store → Option ℤ → List Text → Option Text → Outcome ProposalError Ratio
guard_market_size d s none tickers event_ticker = ok (whole (pos 0))
guard_market_size d s (some max_loss) tickers event_ticker =
    if leb d.config.risk.bankroll_cents 0
    then ok (whole (pos 0))
    else (let projected =
          add_amount (committed s tickers event_ticker (active_route d.files d.settings d.config))
            (whole max_loss) in
        raise_if (over projected (d.config.risk.bankroll_cents * d.config.risk.max_pct_per_market))
          exceeds_market_limit
        >> ok (fraction_of projected d.config.risk.bankroll_cents))

abbrev pub tradeable : Option Text → Bool
tradeable none = true
tradeable (some status) =
    text_eq status (codes "active")
    || (text_eq status (codes "open") || text_eq status (codes "initialized"))

abbrev pub as_market : Option CatalogMarket → Outcome ProposalError CatalogMarket
as_market none = raise unknown_market
as_market (some market) = raise_if (not (tradeable market.status)) market_not_tradeable >> ok market

-- `_market_or_raise`
abbrev pub market_or_raise : Desk → Text → Outcome ProposalError CatalogMarket
market_or_raise d ticker = as_market (d.markets ticker)

abbrev pub from_pricing {ℓ} : {A : Type ℓ} → Outcome PricingError A → Outcome ProposalError A
from_pricing (ok a) = ok a
from_pricing (raise e) = raise (pricing e)

-- The arguments of `create_proposal` that a caller chooses.
pub record Request : Type 0 where
  pub ticker : Text
  pub side : Side
  pub action : Action
  pub limit_price : ℤ
  pub contracts : ℤ
  pub source : Text
  pub fair_price : Option ℤ
  pub ttl_sec : Option ℕ
  pub actor : Actor

-- The market, which the code returns beside the quote, is not read again.
unfoldable pub quote_for : Desk → Request → Outcome ProposalError TicketQuote
quote_for d r = market_or_raise d r.ticker >>= λ market. from_pricing (
    price_ticket d.schedule r.ticker r.side r.action r.limit_price r.contracts market.category
      d.config r.fair_price none)

abbrev pub last_proposal : List ProposedTrade → ℕ
last_proposal [] = 0
last_proposal (p ∷ rest) = max p.id (last_proposal rest)

abbrev pub is_manual : Text → Bool
is_manual source = text_eq source (codes "manual")

abbrev pub expiry : Config → Option ℕ → ℕ → ℕ
expiry config ttl_sec now = now + or_else ttl_sec config.trading.default_proposal_ttl_sec * 1000000

-- The rows of a creation: the proposal, its legs, and the row of the audit log.
abbrev pub added : ProposedTrade → List ProposalLeg → Actor → ℕ → Store → Store
added p legs actor now s = record s {
  proposals = s.proposals ++ p ∷ [];
  legs = s.legs ++ legs;
  audit_log = row now p.ticker actor (proposal_created p.id) ∷ s.audit_log;
}

abbrev pub new_proposal : Desk → Store → Request → TicketQuote → Ratio → ℕ → ProposedTrade
new_proposal d s r quote pct now = record {
  id = suc (last_proposal s.proposals);
  source = r.source;
  event_ticker = none;
  ticker = r.ticker;
  leg_count = 1;
  net_edge_cents = quote.net_edge_cents;
  est_fee_cents = some quote.est_fee_cents;
  max_loss_cents = some quote.max_loss_cents;
  pct_of_bankroll = pct;
  status = ProposalStatus.pending;
  expires_at = some (expiry d.config r.ttl_sec now);
  created_at = some now;
  decided_at = none;
  decision_reason = none;
}

abbrev pub only_leg : ProposedTrade → Request → TicketQuote → ProposalLeg
only_leg p r quote = record {
  proposal_id = p.id;
  seq = 0;
  ticker = r.ticker;
  side = r.side;
  action = r.action;
  limit_price = quote.limit_price;
  contracts = quote.contracts;
  fair_price = quote.fair_price;
  est_fee_cents = some quote.est_fee_cents;
}

-- The guards of `create_proposal`; a manual ticket may repeat.
abbrev pub single_guards : Desk → Store → Request → ℕ → Outcome ProposalError (Unit {0})
single_guards d s r now =
    guard_halted d s now
    >> guard_queue_depth s d.config
    >> (if is_manual r.source then ok tt else guard_duplicate s r.source r.ticker)

unfoldable pub create_proposal :
    Desk → Store → Request → ℕ → Outcome ProposalError (Store × ProposedTrade × TicketQuote)
create_proposal d s r now = quote_for d r >>= λ quote.
    single_guards d s r now
    >> (guard_market_size d s (some quote.max_loss_cents) (r.ticker ∷ []) none >>= λ pct.
        let p = new_proposal d s r quote pct now in
        ok (added p (only_leg p r quote ∷ []) r.actor now s, p, quote))
