-- ===== src/Executor.antt =====
-- backend/app/trading/executor.py: the approval of a proposal and the placing of its orders. What the
-- exchange answers is a parameter; a call that raises keeps what it has written so far.
pub mod Legs
pub mod Approval
pub mod Proposals
pub mod Cases
pub mod Trail
pub mod Once
pub mod Audit
pub mod Cancel
mod Tests
use kalshi_copilot.Base.{
  ℕ, zero, suc, ◌+◌, ◌*◌, ◌≡◌, Bool, true, false, not, ◌&&◌, ◌||◌, Option, none, some, List, [],
  ◌∷◌, ◌++◌, if◌then◌else◌, any, all, find, find_last, is_nil, is_some, or_else, length, leb, ltb,
  ◌==◌, select, map,
}
use kalshi_copilot.Base.Int.{ℤ, pos, ◌+ℤ◌, ◌*ℤ◌, ltb_ℤ, leb_ℤ}
use kalshi_copilot.Base.Text.{Text}
use kalshi_copilot.Base.Outcome.{Outcome, ok, raise, ◌>>=◌}
use kalshi_copilot.Domain.{
  Side, Action, BookSide, ProposalStatus, OrderStatus, executed, partial, failed, approved, resting,
  partially_filled, filled, canceled, ValueError,
}
use kalshi_copilot.Direction.{book_side, to_yes_price}
use kalshi_copilot.Positions.{whole}
use kalshi_copilot.Paper.{PaperBook, PaperError, SimulatedFill, simulate_fills, FeeOf}
use kalshi_copilot.Settings.{TimeInForce, gtc, ioc}
use kalshi_copilot.Interlocks.{ExecutionRoute, simulated, is_simulated, system_actor}
use kalshi_copilot.Ledger.{Books, Fill, apply_fill}
use kalshi_copilot.Store.{
  ProposalLeg, ClientOrderId, same_client, OrderError, placement_error, no_batch_result, Order,
  AuditEvent, fill_recorded, AuditLog, Store,
}
use kalshi_copilot.Wire.{Response, Failure, failure, Rest, wire_order, number_or, required}

-- What the fills of an approval are written to.
pub record Written : Type 0 where
  pub books : Books
  pub fills : List Fill
  pub audit_log : List AuditLog

-- An order after a step, what was written, and the exception that ended it, if one did.
pub record Step : Type 0 where
  pub order : Order
  pub written : Written
  pub failed_with : Option Failure

-- `_settle_status`
unfoldable pub settle_status : Order → Order
settle_status o =
    if leb_ℤ o.contracts o.filled_contracts
    then record o { status = filled }
    else if ltb_ℤ (pos 0) o.filled_contracts
    then elim o.time_in_force [
      | ioc ↦ record o { status = canceled }
      | gtc ↦ record o { status = partially_filled }
    ]
    else elim o.time_in_force [
      | ioc ↦ record o { status = canceled }
      | gtc ↦ record o { status = resting }
    ]

-- A fill that is in the ledgers, on its order, in the fills and in the audit log.
abbrev pub write_fill : Order → ℤ → ℕ → Written → Fill × Books → Order × Written
write_fill o contracts now w done = (
  record o { filled_contracts = o.filled_contracts +ℤ contracts },
  record {
    books = done.1;
    fills = w.fills ++ done.0 ∷ [];
    audit_log =
        record { ts = now; ticker = o.ticker; actor = system_actor; event = fill_recorded o.id }
        ∷ w.audit_log;
  },
)

-- `_record_fill`: the fee is in microcents.
unfoldable pub record_fill : Order → ℤ → ℤ → ℤ → ℕ → Written → Outcome ValueError (Order × Written)
record_fill o price contracts fee now w =
    apply_fill
      (record {
        order_id = o.id;
        ticker = o.ticker;
        side = o.side;
        action = o.action;
        price = price;
        contracts = contracts;
        fee_cents = fee;
        realized_pnl_cents = whole (pos 0);
        ts = now;
      })
      o.route w.books
    >>= λ done. ok (write_fill o contracts now w done)

abbrev pub stopped : Order → Written → Failure → Step
stopped o w e = record { order = o; written = w; failed_with = some e }

abbrev pub done_with : Order → Written → Step
done_with o w = record { order = o; written = w; failed_with = none }

-- What follows a fill that is recorded.
abbrev pub after_fill :
    (Order → Written → Step) → Order → Written → Outcome ValueError (Order × Written) → Step
after_fill next o w (raise e) = stopped o w (failure none)
after_fill next o w (ok done) = next done.0 done.1

-- The loop over the simulated fills; a fee of the simulator is in centicents.
unfoldable pub record_fills : List SimulatedFill → ℕ → Order → Written → Step
record_fills [] now o w = done_with (settle_status o) w
record_fills (hit ∷ rest) now o w =
    after_fill (record_fills rest now) o w
      (record_fill o hit.price hit.contracts (pos (hit.fee_cents * 10000)) now w)

abbrev pub current_book : Option Rest → Text → Option PaperBook
current_book none ticker = none
current_book (some rest) ticker = rest.get_orderbook ticker

-- The fee of a fill of a ticker, and the slippage of the configuration in microdollars.
pub record Costs : Type 0 where
  pub fee : Text → FeeOf
  pub slippage : ℤ

abbrev pub fill_hits : ℕ → Order → Written → Outcome PaperError (List SimulatedFill) → Step
fill_hits now o w (raise e) = stopped o w (failure none)
fill_hits now o w (ok hits) = record_fills hits now o w

-- Against a book, or with none to fill against.
abbrev pub fill_on : Costs → ℕ → Order → Written → Option PaperBook → Step
fill_on costs now o w none = done_with (record o { status = resting }) w
fill_on costs now o w (some book) = fill_hits now o w (
    simulate_fills (costs.fee o.ticker) book o.side o.action o.limit_price o.contracts
      costs.slippage)

-- `_fill_simulated`
unfoldable pub fill_simulated : Option Rest → Costs → ℕ → Order → Written → Step
fill_simulated rest costs now o w = fill_on costs now o w (current_book rest o.ticker)

-- The fill of a response, once its numbers are read: the price is a YES price.
abbrev pub respond : Order → ℤ → Option ℤ → Option ℤ → ℕ → Written → Step
respond o count (some price) (some fee) now w =
    after_fill (λ p v. done_with (settle_status p) v) o w
      (record_fill o (to_yes_price o.side price) count (fee *ℤ count) now w)
respond o count _ _ now w = stopped o w (failure none)

abbrev pub on_count : Response → ℕ → Order → Written → Option ℤ → Step
on_count r now o w none = stopped o w (failure none)
on_count r now o w (some count) =
    if ltb_ℤ (pos 0) count
    then respond o count (required r.average_fill_price) (number_or (pos 0) r.average_fee_paid) now
        w
    else done_with (settle_status o) w

-- `_apply_response`
unfoldable pub apply_response : Response → ℕ → Order → Written → Step
apply_response r now o w =
    on_count r now (record o { exchange_order_id = r.order_id }) w (number_or (pos 0) r.fill_count)

abbrev pub on_answer : ℕ → Order → Written → Outcome Failure Response → Step
on_answer now o w (raise e) = stopped o w e
on_answer now o w (ok response) = apply_response response now o w

-- `_fill_exchange`
unfoldable pub fill_exchange : Option Rest → ℕ → Order → Written → Step
fill_exchange none now o w = stopped o w (failure none)
fill_exchange (some rest) now o w = on_answer now o w (rest.create_order (wire_order o))

-- All orders of a proposal after a step.
pub record Placed : Type 0 where
  pub orders : List Order
  pub written : Written
  pub failed_with : Option Failure

-- An order's step, and what became of those after it if it did not end the placement.
abbrev pub joined : Step → List Order → Placed → Option Failure → Placed
joined s rest others (some e) = record {
  orders = s.order ∷ rest;
  written = s.written;
  failed_with = some e;
}
joined s rest others none = record {
  orders = s.order ∷ others.orders;
  written = others.written;
  failed_with = others.failed_with;
}

-- One step for each order in turn, ended by an exception.
unfoldable pub each_order : (Order → Written → Step) → List Order → Written → Placed
each_order f [] w = record { orders = []; written = w; failed_with = none }
each_order f (o ∷ rest) w =
    joined (f o w) rest (each_order f rest (f o w).written) (f o w).failed_with

-- The result of one leg of a batch, matched by client order ID.
abbrev pub matches : ClientOrderId → Response → Bool
matches c r = elim r.client_order_id [ none ↦ false | some d ↦ same_client d c ]

abbrev pub on_result : ℕ → Order → Written → Option Response → Step
on_result now o w none =
    done_with (record o { status = OrderStatus.rejected; error = some no_batch_result }) w
on_result now o w (some response) = apply_response response now o w

abbrev pub batch_step : List Response → ℕ → Order → Written → Step
batch_step results now o w = on_result now o w (find_last (matches o.client_order_id) results)

abbrev pub on_results : ℕ → List Order → Written → Outcome Failure (List Response) → Placed
on_results now orders w (raise e) = record { orders = orders; written = w; failed_with = some e }
on_results now orders w (ok results) = each_order (batch_step results now) orders w

-- `_fill_exchange_batch`
unfoldable pub fill_exchange_batch : Option Rest → ℕ → List Order → Written → Placed
fill_exchange_batch none now orders w = record {
  orders = orders;
  written = w;
  failed_with = some (failure none);
}
fill_exchange_batch (some rest) now orders w =
    on_results now orders w (rest.create_orders_batch (map wire_order orders))
