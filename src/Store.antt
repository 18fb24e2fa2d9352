-- ===== src/Store.antt =====
-- The tables of backend/app/db/models.py that an approval reads and writes, as one record.
use kalshi_copilot.Base.{ℕ, Bool, ◌&&◌, Option, List, ◌==◌}
use kalshi_copilot.Base.Int.{ℤ}
use kalshi_copilot.Base.Text.{Text}
use kalshi_copilot.Domain.{Side, Action, OrderStatus}
use kalshi_copilot.Settings.{TimeInForce}
use kalshi_copilot.Interlocks.{ExecutionRoute, ProposedTrade, Actor}
use kalshi_copilot.Ledger.{Books, Fill}

pub record ProposalLeg : Type 0 where
  pub proposal_id : ℕ
  pub seq : ℕ
  pub ticker : Text
  pub side : Side
  pub action : Action
  pub limit_price : ℤ
  pub contracts : ℤ
  pub fair_price : Option ℤ
  pub est_fee_cents : Option ℤ

-- What the UUID of an order is derived from: the proposal, the leg and the creation of the proposal;
-- `unpersisted` stands for a random one, taken to differ for each proposal and leg.
pub data ClientOrderId : Type 0 where
  derived : ℕ → ℕ → ℕ → ClientOrderId
  unpersisted : ℕ → ℕ → ClientOrderId

abbrev pub same_client : ClientOrderId → ClientOrderId → Bool
same_client (derived p s c) (derived q t d) = p == q && s == t && c == d
same_client (unpersisted p s) (unpersisted q t) = p == q && s == t
same_client _ _ = Bool.false

-- The text of an order's `error`, by where it is written.
pub data OrderError : Type 0 where
  placement_error no_batch_result : OrderError

pub record Order : Type 0 where
  pub id : ℕ
  pub proposal_id : ℕ
  pub client_order_id : ClientOrderId
  pub exchange_order_id : Option Text
  pub ticker : Text
  pub side : Side
  pub action : Action
  pub limit_price : ℤ
  pub contracts : ℤ
  pub filled_contracts : ℤ
  pub time_in_force : TimeInForce
  pub status : OrderStatus
  pub route : ExecutionRoute
  pub error : Option OrderError

-- The `kind` of an audit row, with what is read back from its payload.
pub data AuditEvent : Type 0 where
  proposal_created proposal_expired proposal_rejected : (proposal_id : ℕ) → AuditEvent
  proposal_approved :
      (proposal_id : ℕ) → ExecutionRoute → (detector : Text) → (max_loss : ℤ) → AuditEvent
  order_submitted order_failed order_submit_ambiguous : (proposal_id : ℕ) → AuditEvent
  order_canceled fill_recorded : (order_id : ℕ) → AuditEvent

pub record AuditLog : Type 0 where
  pub ts : ℕ
  pub ticker : Text
  pub actor : Actor
  pub event : AuditEvent

pub record Store : Type 0 where
  pub books : Books
  pub proposals : List ProposedTrade
  pub legs : List ProposalLeg
  pub orders : List Order
  pub fills : List Fill
  pub audit_log : List AuditLog
