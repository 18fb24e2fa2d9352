-- ===== src/Executor/Trail.antt =====
-- The audit log while executor.py places the legs of a proposal.
use mathlib.Core.List.{Memᴰ}
use kalshi_copilot.Base.{
  ℕ, inl, inr, Bool, Option, none, some, List, [], ◌∷◌, Bool-cases, is_nil, find_last, map, ◌*◌,
}
use kalshi_copilot.Base.Int.{ℤ, pos, ltb_ℤ, ◌*ℤ◌}
use kalshi_copilot.Base.Outcome.{Outcome, ok, raise, ◌>>=◌}
use kalshi_copilot.Domain.{ValueError}
use kalshi_copilot.Interlocks.{ExecutionRoute, is_simulated, Actor, ProposedTrade}
use kalshi_copilot.Direction.{to_yes_price}
use kalshi_copilot.Paper.{PaperBook, PaperError, SimulatedFill}
use kalshi_copilot.Ledger.{Fill, Books}
use kalshi_copilot.Store.{Order, AuditLog, Store}
use kalshi_copilot.Wire.{Failure, Rest, Response, number_or, wire_order}
use kalshi_copilot.Executor.{
  Written, Step, Costs, record_fill, record_fills, fill_simulated, respond, apply_response,
  fill_exchange, each_order, batch_step, fill_exchange_batch, write_fill, after_fill, fill_on,
  fill_hits, done_with, settle_status, on_count, on_answer, joined, matches, on_result, on_results,
  current_book,
}
use kalshi_copilot.Executor.Legs.{
  Executor, ApproveError, interlock, no_legs, legs_failed, crashed, legs_of, orders_of,
  actions_valid, is_multi, place_on, place_result, place_legs,
}
use kalshi_copilot.Executor.Approval.{conclude}

-- A row that is on record before is on record after.
module _ (r : AuditLog) where
  abbrev Has : Written → Type 0
  Has w = Memᴰ r w.audit_log

  abbrev OkHas : Outcome ValueError (Order × Written) → Type 0
  OkHas (ok done) = Has done.1
  OkHas (raise e) = Unit

  record_fill-Has :
      (o : Order) (price contracts fee : ℤ) (now : ℕ) (w : Written)
      → Has w
      → OkHas (record_fill o price contracts fee now w)
  unfolding record_fill
  record_fill-Has o price contracts fee now w h = written _
    where
      written :
          (m : Outcome ValueError (Fill × Books))
          → OkHas (m >>= λ done. ok (write_fill o contracts now w done))
      written (ok done) = Memᴰ.tail h
      written (raise e) = tt

  after_fill-Has :
      (next : Order → Written → Step) (o : Order) (w : Written)
      (m : Outcome ValueError (Order × Written))
      → ((p : Order) (v : Written) → Has v → Has (next p v).written)
      → Has w
      → OkHas m
      → Has (after_fill next o w m).written
  after_fill-Has next o w (ok done) k h g = k done.0 done.1 g
  after_fill-Has next o w (raise e) k h g = h

  record_fills-Has :
      (hits : List SimulatedFill) (now : ℕ) (o : Order) (w : Written)
      → Has w
      → Has (record_fills hits now o w).written
  unfolding record_fills
  record_fills-Has [] now o w h = h
  record_fills-Has (hit ∷ rest) now o w h =
      after_fill-Has (record_fills rest now) o w
        (record_fill o hit.price hit.contracts (pos (hit.fee_cents * 10000)) now w)
        (λ p v g. record_fills-Has rest now p v g) h (record_fill-Has o _ _ _ now w h)

  fill_on-Has :
      (costs : Costs) (now : ℕ) (o : Order) (w : Written) (b : Option PaperBook)
      → Has w
      → Has (fill_on costs now o w b).written
  fill_on-Has costs now o w none h = h
  fill_on-Has costs now o w (some b) h = hit_by _
    where
      hit_by : (m : Outcome PaperError (List SimulatedFill)) → Has (fill_hits now o w m).written
      hit_by (ok hits) = record_fills-Has hits now o w h
      hit_by (raise e) = h

  respond-Has :
      (o : Order) (count : ℤ) (price fee : Option ℤ) (now : ℕ) (w : Written)
      → Has w
      → Has (respond o count price fee now w).written
  respond-Has o count (some price) (some fee) now w h =
      after_fill-Has (λ p v. done_with (settle_status p) v) o w
        (record_fill o (to_yes_price o.side price) count (fee *ℤ count) now w) (λ p v g. g) h
        (record_fill-Has o _ _ _ now w h)
  respond-Has o count none fee now w h = h
  respond-Has o count (some price) none now w h = h

  apply_response-Has :
      (a : Response) (now : ℕ) (o : Order) (w : Written)
      → Has w
      → Has (apply_response a now o w).written
  unfolding apply_response
  apply_response-Has a now o w h = counted_as (number_or (pos 0) a.fill_count)
    where
      counted_as :
          (c : Option ℤ)
          → Has (on_count a now (record o { exchange_order_id = a.order_id }) w c).written
      counted_as none = h
      counted_as (some count) = elim (Bool-cases (ltb_ℤ (pos 0) count)) [
        | inl some_filled ↦ rw some_filled (respond-Has _ count _ _ now w h)
        | inr unfilled ↦ rw unfilled h
      ]

  fill_exchange-Has :
      (rest : Option Rest) (now : ℕ) (o : Order) (w : Written)
      → Has w
      → Has (fill_exchange rest now o w).written
  unfolding fill_exchange
  fill_exchange-Has none now o w h = h
  fill_exchange-Has (some rest) now o w h = answered (rest.create_order (wire_order o))
    where
      answered : (m : Outcome Failure Response) → Has (on_answer now o w m).written
      answered (ok a) = apply_response-Has a now o w h
      answered (raise e) = h

  each_order-Has :
      (f : Order → Written → Step) (orders : List Order) (w : Written)
      → ((o : Order) (v : Written) → Has v → Has (f o v).written)
      → Has w
      → Has (each_order f orders w).written
  unfolding each_order
  each_order-Has f [] w k h = h
  each_order-Has f (o ∷ rest) w k h =
      ends (f o w).failed_with (each_order-Has f rest (f o w).written k (k o w h))
    where
      ends :
          (e : Option Failure)
          → Has (each_order f rest (f o w).written).written
          → Has (joined (f o w) rest (each_order f rest (f o w).written) e).written
      ends none g = g
      ends (some e) g = k o w h

  batch_step-Has :
      (results : List Response) (now : ℕ) (o : Order) (w : Written)
      → Has w
      → Has (batch_step results now o w).written
  batch_step-Has results now o w h = matched (find_last (matches o.client_order_id) results)
    where
      matched : (a : Option Response) → Has (on_result now o w a).written
      matched none = h
      matched (some a) = apply_response-Has a now o w h

  fill_exchange_batch-Has :
      (rest : Option Rest) (now : ℕ) (orders : List Order) (w : Written)
      → Has w
      → Has (fill_exchange_batch rest now orders w).written
  unfolding fill_exchange_batch
  fill_exchange_batch-Has none now orders w h = h
  fill_exchange_batch-Has (some rest) now orders w h =
      answered (rest.create_orders_batch (map wire_order orders))
    where
      answered : (m : Outcome Failure (List Response)) → Has (on_results now orders w m).written
      answered (ok results) =
          each_order-Has (batch_step results now) orders w (batch_step-Has results now) h
      answered (raise e) = h

  place_on-Has :
      (x : Executor) (route : ExecutionRoute) (multi : Bool) (now : ℕ) (orders : List Order)
      (w : Written)
      → Has w
      → Has (place_on x route multi now orders w).written
  unfolding fill_simulated
  place_on-Has x route multi now orders w h = elim (Bool-cases (is_simulated route)) [
    | inl local ↦ rw local (
        each_order-Has (fill_simulated x.rest x.costs now) orders w
          (λ o v g. fill_on-Has x.costs now o v (current_book x.rest o.ticker) g) h)
    | inr remote ↦ elim (Bool-cases multi) [
      | inl several ↦ rw (remote, several) (fill_exchange_batch-Has x.rest now orders w h)
      | inr single ↦
          rw (remote, single)
            (each_order-Has (fill_exchange x.rest now) orders w (fill_exchange-Has x.rest now) h)
    ]
  ]

  place_result-Has :
      (s : Store) (p : ProposedTrade) (actor : Actor) (now : ℕ) (orders : List Order) (w : Written)
      (e : Option Failure)
      → Has w
      → Memᴰ r (place_result s p actor now orders w e).0.audit_log
  place_result-Has s p actor now orders w none h = h
  place_result-Has s p actor now orders w (some e) h = Memᴰ.tail h

  pub place_legs-Has :
      (x : Executor) (s : Store) (p : ProposedTrade) (route : ExecutionRoute) (actor : Actor)
      (now : ℕ)
      → Memᴰ r s.audit_log
      → Memᴰ r (place_legs x s p route actor now).0.audit_log
  unfolding place_legs
  place_legs-Has x s p route actor now h = elim (Bool-cases (is_nil (legs_of s p))) [
    | inl b ↦ rw b h
    | inr b ↦ elim (Bool-cases (actions_valid (orders_of x s p route))) [
      | inl c ↦
          rw (b, c)
            (place_result-Has s p actor now _ _ _
              (place_on-Has x route (is_multi s p) now (orders_of x s p route) _ (Memᴰ.tail h)))
      | inr c ↦ rw (b, c) h
    ]
  ]

  pub conclude-Has :
      (p : ProposedTrade) (s : Store) (o : Outcome ApproveError (List Order))
      → Memᴰ r s.audit_log
      → Memᴰ r (conclude p (s, o)).0.audit_log
  conclude-Has p s (ok orders) h = h
  conclude-Has p s (raise crashed) h = h
  conclude-Has p s (raise no_legs) h = h
  conclude-Has p s (raise legs_failed) h = h
  conclude-Has p s (raise (interlock code)) h = h
