-- ===== src/Executor/Legs.antt =====
-- _place_legs of backend/app/trading/executor.py: the orders of a proposal, placed together, and the
-- handler of a placement that raises.
use kalshi_copilot.Base.{
  ℕ, suc, Bool, true, false, not, ◌&&◌, ◌||◌, Option, none, some, List, [], ◌∷◌, ◌++◌,
  if◌then◌else◌, all, find_last, is_nil, length, leb, ltb, ◌==◌, select, map, max,
}
use kalshi_copilot.Base.Int.{pos, ltb_ℤ}
use kalshi_copilot.Base.Text.{Text}
use kalshi_copilot.Base.Outcome.{Outcome, ok, raise}
use kalshi_copilot.Domain.{
  Action, other_action, ProposalStatus, OrderStatus, executed, partial, failed,
}
use kalshi_copilot.Settings.{Settings, Files, Config, TimeInForce, ioc, Refusal}
use kalshi_copilot.Interlocks.{ExecutionRoute, is_simulated, Actor, ProposedTrade}
use kalshi_copilot.Store.{
  ProposalLeg, ClientOrderId, derived, unpersisted, placement_error, Order, AuditEvent,
  order_submitted, order_failed, order_submit_ambiguous, AuditLog, Store,
}
use kalshi_copilot.Wire.{Failure, failure, Rest}
use kalshi_copilot.Executor.{
  Costs, Written, Placed, each_order, fill_simulated, fill_exchange, fill_exchange_batch,
}

-- What an executor is built with, and what answers it.
pub record Executor : Type 0 where
  pub rest : Option Rest
  pub settings : Settings
  pub config : Config
  pub files : Files
  pub costs : Costs

-- An InterlockError with its code, an ExecutionError, or an exception that nothing catches.
pub data ApproveError : Type 0 where
  interlock : Refusal → ApproveError
  no_legs legs_failed crashed : ApproveError

abbrev pub is_rejected : OrderStatus → Bool
is_rejected OrderStatus.rejected = true
is_rejected _ = false

abbrev pub is_pending_order : OrderStatus → Bool
is_pending_order OrderStatus.pending = true
is_pending_order _ = false

abbrev pub has_filled : Order → Bool
has_filled o = ltb_ℤ (pos 0) o.filled_contracts

-- `_outcome`
unfoldable pub outcome : List Order → ProposalStatus
outcome orders =
    if is_nil orders
    then failed
    else if all (λ (o : Order). is_rejected o.status) orders
    then failed
    else if length orders == 1
    then executed
    else if all has_filled orders || all (λ o. not (has_filled o)) orders
    then executed
    else partial

abbrev pub of_proposal : ℕ → Order → Bool
of_proposal id o = o.proposal_id == id

-- `_existing_order_for`: rows are kept in the order of their ids.
abbrev pub existing_order_for : Store → ProposedTrade → Option Order
existing_order_for s p = find_last (of_proposal p.id) s.orders

abbrev pub insert_seq : ProposalLeg → List ProposalLeg → List ProposalLeg
insert_seq l [] = l ∷ []
insert_seq l (k ∷ ks) = if leb l.seq k.seq then l ∷ k ∷ ks else k ∷ insert_seq l ks

abbrev pub by_seq : List ProposalLeg → List ProposalLeg
by_seq [] = []
by_seq (l ∷ ls) = insert_seq l (by_seq ls)

abbrev pub legs_of : Store → ProposedTrade → List ProposalLeg
legs_of s p = by_seq (select (λ (l : ProposalLeg). l.proposal_id == p.id) s.legs)

-- `_client_order_id`
abbrev pub client_order_id : ProposedTrade → ℕ → ClientOrderId
client_order_id p seq = elim p.created_at [
  | some created ↦ derived p.id seq created
  | none ↦ unpersisted p.id seq
]

abbrev pub new_order : ProposedTrade → ExecutionRoute → TimeInForce → ℕ → ProposalLeg → Order
new_order p route tif id leg = record {
  id = id;
  proposal_id = p.id;
  client_order_id = client_order_id p leg.seq;
  exchange_order_id = none;
  ticker = leg.ticker;
  side = leg.side;
  action = leg.action;
  limit_price = leg.limit_price;
  contracts = leg.contracts;
  filled_contracts = pos 0;
  time_in_force = tif;
  status = OrderStatus.pending;
  route = route;
  error = none;
}

unfoldable pub new_orders :
    ProposedTrade → ExecutionRoute → TimeInForce → ℕ → List ProposalLeg → List Order
new_orders p route tif id [] = []
new_orders p route tif id (leg ∷ rest) =
    new_order p route tif id leg ∷ new_orders p route tif (suc id) rest

abbrev pub last_id : List Order → ℕ
last_id [] = 0
last_id (o ∷ rest) = max o.id (last_id rest)

-- `book_side` raises on an action that names nothing, before the guarded part.
abbrev pub is_action : Action → Bool
is_action other_action = false
is_action _ = true

-- A 4xx is a definite refusal; anything else says nothing.
abbrev pub is_ambiguous : Failure → Bool
is_ambiguous (failure none) = true
is_ambiguous (failure (some status)) = not (leb 400 status && ltb status 500)

-- What the handler of a failed placement does to one order.
abbrev pub fail_order : Bool → Order → Order
fail_order ambiguous o =
    if is_pending_order o.status
    then (if ambiguous
        then record o { error = some placement_error }
        else record o { error = some placement_error; status = OrderStatus.rejected })
    else o

abbrev pub row : ℕ → Text → Actor → AuditEvent → AuditLog
row now ticker actor event = record { ts = now; ticker = ticker; actor = actor; event = event }

abbrev pub place_on : Executor → ExecutionRoute → Bool → ℕ → List Order → Written → Placed
place_on x route multi now orders w =
    if is_simulated route
    then each_order (fill_simulated x.rest x.costs now) orders w
    else if multi
    then fill_exchange_batch x.rest now orders w
    else each_order (fill_exchange x.rest now) orders w

-- The tables after a placement, with the handler of its exception.
abbrev pub place_result :
    Store
    → ProposedTrade
    → Actor
    → ℕ
    → List Order
    → Written
    → Option Failure
    → Store × Outcome ApproveError (List Order)
place_result s p actor now orders w none = (
  record s {
    books = w.books;
    fills = w.fills;
    audit_log = w.audit_log;
    orders = s.orders ++ orders;
  },
  ok orders,
)
place_result s p actor now orders w (some e) = (
  record s {
    books = w.books;
    fills = w.fills;
    audit_log =
        row now p.ticker actor
          (if is_ambiguous e then order_submit_ambiguous p.id else order_failed p.id)
        ∷ w.audit_log;
    orders = s.orders ++ map (fail_order (is_ambiguous e)) orders;
  },
  raise legs_failed,
)

-- A placement and its end.
abbrev pub finish :
    Store → ProposedTrade → Actor → ℕ → Placed → Store × Outcome ApproveError (List Order)
finish s p actor now placed =
    place_result s p actor now placed.orders placed.written placed.failed_with

-- The time in force and the rows of the orders that a proposal is placed with.
abbrev pub is_multi : Store → ProposedTrade → Bool
is_multi s p = ltb 1 (length (legs_of s p))

abbrev pub orders_of : Executor → Store → ProposedTrade → ExecutionRoute → List Order
orders_of x s p route =
    new_orders p route (if is_multi s p then ioc else x.config.trading.time_in_force)
      (suc (last_id s.orders)) (legs_of s p)

abbrev pub actions_valid : List Order → Bool
actions_valid orders = all (λ (o : Order). is_action o.action) orders

-- `_place_legs`
unfoldable pub place_legs :
    Executor
    → Store
    → ProposedTrade
    → ExecutionRoute
    → Actor
    → ℕ
    → Store × Outcome ApproveError (List Order)
place_legs x s p route actor now =
    let orders = orders_of x s p route in
    if is_nil (legs_of s p)
    then (s, raise no_legs)
    else if actions_valid orders
    then finish s p actor now (
        place_on x route (is_multi s p) now orders (record {
          books = s.books;
          fills = s.fills;
          audit_log = row now p.ticker actor (order_submitted p.id) ∷ s.audit_log;
        }))
    else (record s { orders = s.orders ++ orders }, raise crashed)
