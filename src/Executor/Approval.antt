-- ===== src/Executor/Approval.antt =====
-- approve_and_execute and _place_legs of backend/app/trading/executor.py, over the tables.
use kalshi_copilot.Base.{
  ℕ, Bool, not, ◌&&◌, Option, none, some, List, [], ◌∷◌, if◌then◌else◌, find, is_nil, is_some,
  or_else, length, ◌==◌, select, map, count_if,
}
use kalshi_copilot.Base.Int.{pos}
use kalshi_copilot.Base.Text.{Text}
use kalshi_copilot.Base.Outcome.{Outcome, ok, raise}
use kalshi_copilot.Domain.{ProposalStatus, partial, failed, approved}
use kalshi_copilot.Settings.{Refusal, actor_spoofed}
use kalshi_copilot.Interlocks.{
  ExecutionRoute, is_simulated, Actor, autonomous_actor, system_actor, operator, auto_approved,
  approved_by, placement_failed, unbalanced, ProposedTrade, MachineConsent, check_execution,
}
use kalshi_copilot.Store.{ProposalLeg, Order, proposal_approved, AuditLog, Store}
use kalshi_copilot.Risk.{RiskState, guard_approval}
use kalshi_copilot.Autonomy.{is_autonomous}
use kalshi_copilot.Executor.Legs.{
  Executor, ApproveError, interlock, crashed, has_filled, outcome, existing_order_for, row,
  place_legs,
}

abbrev pub is_proposal : ℕ → ProposedTrade → Bool
is_proposal id p = p.id == id

-- Attributes of the row of a proposal, written.
abbrev pub set_proposal : ProposedTrade → List ProposedTrade → List ProposedTrade
set_proposal p [] = []
set_proposal p (q ∷ rest) =
    if is_proposal p.id q then p ∷ set_proposal p rest else q ∷ set_proposal p rest

abbrev pub saved : ProposedTrade → Store → Store
saved p s = record s { proposals = set_proposal p s.proposals }

-- The row under its lock, or the object at hand where there is no row.
abbrev pub locked : Store → ProposedTrade → ProposedTrade
locked s p = or_else (find (is_proposal p.id) s.proposals) p

abbrev pub actor_of : Option MachineConsent → Actor → Actor
actor_of none actor = actor
actor_of (some consent) actor = autonomous_actor

abbrev pub reason_of : Option MachineConsent → Actor → kalshi_copilot.Interlocks.DecisionReason
reason_of none actor = approved_by actor
reason_of (some c) actor = auto_approved c.detector c.trades c.ci_low_cents

abbrev pub leg_tickers : Store → ProposedTrade → List Text
leg_tickers s p =
    let legs = select (λ (l : ProposalLeg). l.proposal_id == p.id) s.legs in
    if not (is_nil legs)
    then map (λ (l : ProposalLeg). l.ticker) legs
    else if is_nil p.ticker
    then []
    else p.ticker ∷ []

-- The status of an approved proposal, and its reason where the legs do not balance.
abbrev pub conclude_as : ProposedTrade → List Order → ProposalStatus → ProposedTrade
conclude_as p orders partial = record p {
  status = partial;
  decision_reason = some (unbalanced (count_if has_filled orders) (length orders));
}
conclude_as p orders status = record p { status = status }

abbrev pub concluded : ProposedTrade → List Order → ProposedTrade
concluded p orders = conclude_as p orders (outcome orders)

-- `return orders[0]`; the legs are not empty.
abbrev pub first_order : List Order → Outcome ApproveError Order
first_order [] = raise crashed
first_order (o ∷ rest) = ok o

-- The end of an approval, by what `_place_legs` did.
abbrev pub conclude :
    ProposedTrade → Store × Outcome ApproveError (List Order) → Store × Outcome ApproveError Order
conclude p (s, ok orders) = (saved (concluded p orders) s, first_order orders)
conclude p (s, raise crashed) = (s, raise crashed)
conclude p (s, raise e) =
    (saved (record p { status = failed; decision_reason = some placement_failed }) s, raise e)

abbrev pub approval_row : ProposedTrade → ExecutionRoute → Actor → ℕ → AuditLog
approval_row p route actor now =
    row now p.ticker actor
      (proposal_approved p.id route p.source (or_else p.max_loss_cents (pos 0)))

abbrev pub marked : ProposedTrade → Option MachineConsent → Actor → ℕ → ProposedTrade
marked p consent actor now = record p {
  status = approved;
  decided_at = some now;
  decision_reason = some (reason_of consent actor);
}

-- An approval on a route that every check has passed.
unfoldable pub carry_out :
    Executor
    → Store
    → ProposedTrade
    → Option MachineConsent
    → Actor
    → ℕ
    → ExecutionRoute
    → Store × Outcome ApproveError Order
carry_out x s p consent actor now route =
    let approved_p = marked p consent actor now in
    let s₁ = record s {
      proposals = set_proposal approved_p s.proposals;
      audit_log = approval_row p route actor now ∷ s.audit_log;
    } in
    conclude approved_p (place_legs x s₁ approved_p route actor now)

-- `if existing is not None: return existing`
abbrev pub unless_existing :
    Executor
    → Store
    → ProposedTrade
    → Option MachineConsent
    → Actor
    → ℕ
    → ExecutionRoute
    → Option Order
    → Store × Outcome ApproveError Order
unless_existing x s p consent actor now route (some order) = (s, ok order)
unless_existing x s p consent actor now route none =
    carry_out x s p consent (actor_of consent actor) now route

-- After the portfolio limits.
abbrev pub after_limits :
    Executor
    → Store
    → ProposedTrade
    → Option MachineConsent
    → Actor
    → ℕ
    → ExecutionRoute
    → Outcome Refusal (Option RiskState)
    → Store × Outcome ApproveError Order
after_limits x s p consent actor now route (raise code) = (s, raise (interlock code))
after_limits x s p consent actor now route (ok state) =
    unless_existing x s p consent actor now route (existing_order_for s p)

-- After the interlocks: who acts, the portfolio limits, and the order that may exist already.
abbrev pub after_interlocks :
    Executor
    → Store
    → ProposedTrade
    → Option MachineConsent
    → Actor
    → ℕ
    → Outcome Refusal ExecutionRoute
    → Store × Outcome ApproveError Order
after_interlocks x s p consent actor now (raise code) = (s, raise (interlock code))
after_interlocks x s p consent actor now (ok route) =
    if not (is_some consent) && is_autonomous actor
    then (s, raise (interlock actor_spoofed))
    else after_limits x s p consent actor now route (
        guard_approval s x.config x.settings x.files p.max_loss_cents now (leg_tickers s p)
          p.event_ticker (some p.id))

-- `approve_and_execute`, with the kill switch and the time that it reads.
unfoldable pub approve_and_execute :
    Executor
    → Store
    → ProposedTrade
    → Bool
    → Option Text
    → Option MachineConsent
    → Actor
    → Bool
    → ℕ
    → Store × Outcome ApproveError Order
approve_and_execute x s proposal confirmed phrase consent actor kill_switch now =
    let p = locked s proposal in
    after_interlocks x s p consent actor now
      (check_execution x.files p x.settings x.config confirmed kill_switch consent phrase now)
