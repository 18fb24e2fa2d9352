-- ===== src/Sweep.antt =====
-- The sweep of backend/app/trading/autonomy.py: one pass over the pending proposals, each put before
-- the gate and, with its consent, to the executor. Each approval is committed before the next.
pub mod Passes
pub mod Latched
mod Tests
use kalshi_copilot.Base.{
  ℕ, suc, Bool, true, false, not, ◌&&◌, ◌||◌, Option, none, some, List, [], ◌∷◌, if◌then◌else◌, any,
  length, ltb, ◌==◌, select, take,
}
use kalshi_copilot.Base.Text.{Text, codes}
use kalshi_copilot.Base.Outcome.{Outcome, ok, raise, ◌>>=◌}
use kalshi_copilot.Domain.{ProposalStatus, is_pending}
use kalshi_copilot.Settings.{Settings, Config, Refusal, kill_switch_engaged}
use kalshi_copilot.Interlocks.{
  ExecutionRoute, operator, ProposedTrade, MachineConsent, resolve_route,
}
use kalshi_copilot.Store.{Order, AuditEvent, order_submit_ambiguous, AuditLog, Store}
use kalshi_copilot.Autonomy.{Evidence, Latch, disarm, evaluate}
use kalshi_copilot.Executor.Legs.{Executor, ApproveError, interlock, crashed}
use kalshi_copilot.Executor.Approval.{locked, approve_and_execute}

-- What a pass runs on: the executor, the configuration, the evidence in the cache, the kill switch at
-- the start, the kill switch and the clock as each approval reads them, whether Redis answers each read
-- of the latch and takes the write of it, and the time of the pass.
pub record Sweeper : Type 0 where
  pub executor : Executor
  pub settings : Settings
  pub config : Config
  pub evidence : Option Evidence
  pub kill_switch : Bool
  pub kill_switch_at : ProposedTrade → Bool
  pub clock_at : ProposedTrade → ℕ
  pub latch_answers_at : ProposedTrade → Bool
  pub latch_persists : Bool
  pub now : ℕ

-- A code stands in `refusals` as often as it is counted.
pub record SweepResult : Type 0 where
  pub considered : ℕ
  pub approved : ℕ
  pub failed : ℕ
  pub refusals : List Refusal
  pub disarmed : Option Text

abbrev pub no_result : SweepResult
no_result = record { considered = 0; approved = 0; failed = 0; refusals = []; disarmed = none }

-- The tables and what Redis holds of the latch after a pass, with its result or the exception that ended it.
pub record Pass : Type 0 where
  pub store : Store
  pub latch : Option Text
  pub result : Outcome ApproveError SweepResult

abbrev pub tallied : (SweepResult → SweepResult) → Pass → Pass
tallied f pass = record pass { result = pass.result >>= λ r. ok (f r) }

abbrev pub refuse : Refusal → SweepResult → SweepResult
refuse code r = record r { refusals = code ∷ r.refusals }

abbrev pub approve : SweepResult → SweepResult
approve r = record r { approved = suc r.approved }

abbrev pub fail : SweepResult → SweepResult
fail r = record r { failed = suc r.failed }

abbrev pub is_ambiguous_event : ℕ → AuditEvent → Bool
is_ambiguous_event id (order_submit_ambiguous proposal_id) = proposal_id == id
is_ambiguous_event id _ = false

unfoldable pub was_ambiguous : Store → ℕ → Bool
was_ambiguous s id = any (λ (a : AuditLog). is_ambiguous_event id a.event) s.audit_log

abbrev pub is_partial : ProposalStatus → Bool
is_partial ProposalStatus.partial = true
is_partial _ = false

-- `await disarm(disarmed); break`
abbrev pub stop : Bool → Text → Store → Option Text → SweepResult → Pass
stop persists reason s latch r = record {
  store = s;
  latch = disarm persists reason latch;
  result = ok (record r { disarmed = some reason });
}

-- What the executor left of one proposal, and the rest of the pass from it. An exception that ends the
-- pass leaves the tables as they were last committed, which is before this approval.
abbrev pub after_approval :
    Bool
    → (Store → Option Text → Pass)
    → Store
    → Option Text
    → ProposedTrade
    → Store × Outcome ApproveError Order
    → Pass
after_approval persists rest s latch p (s', raise (interlock code)) =
    tallied (refuse code) (rest s latch)
after_approval persists rest s latch p (s', raise crashed) = record {
  store = s;
  latch = latch;
  result = raise crashed;
}
after_approval persists rest s latch p (s', raise execution) =
    if was_ambiguous s' p.id
    then stop persists (codes "submitted ambiguously") s' latch (fail no_result)
    else tallied fail (rest s' latch)
after_approval persists rest s latch p (s', ok order) =
    if is_partial (ProposedTrade.status (locked s' p))
    then stop persists (codes "filled partially") s' latch (approve no_result)
    else tallied approve (rest s' latch)

abbrev pub after_gate :
    Sweeper
    → (Store → Option Text → Pass)
    → Store
    → Option Text
    → ProposedTrade
    → Outcome Refusal MachineConsent
    → Pass
after_gate w rest s latch p (raise code) = tallied (refuse code) (rest s latch)
after_gate w rest s latch p (ok consent) = after_approval w.latch_persists rest s latch p (
    approve_and_execute w.executor s p false none (some consent) operator (w.kill_switch_at p)
      (w.clock_at p))

-- The latch as the gate reads it for one proposal.
abbrev pub latch_at : Sweeper → ProposedTrade → Option Text → Latch
latch_at w p stored = record { reachable = w.latch_answers_at p; reason = stored }

-- `for proposal in candidates`
unfoldable pub consider : Sweeper → ExecutionRoute → List ProposedTrade → Store → Option Text → Pass
consider w route [] s latch = record { store = s; latch = latch; result = ok no_result }
consider w route (p ∷ rest) s latch =
    after_gate w (consider w route rest) s latch p
      (evaluate s (locked s p) w.settings w.config route w.evidence (latch_at w p latch) w.now)

-- `created_at.asc()`, a missing one last.
abbrev pub created_before : Option ℕ → Option ℕ → Bool
created_before (some a) (some b) = ltb a b
created_before (some a) none = true
created_before none b = false

abbrev pub insert_created : ProposedTrade → List ProposedTrade → List ProposedTrade
insert_created p [] = p ∷ []
insert_created p (q ∷ rest) =
    if created_before q.created_at p.created_at then q ∷ insert_created p rest else p ∷ q ∷ rest

abbrev pub sort_created : List ProposedTrade → List ProposedTrade
sort_created [] = []
sort_created (p ∷ rest) = insert_created p (sort_created rest)

abbrev pub max_sweep_candidates : ℕ
max_sweep_candidates = 50

unfoldable pub candidates : Store → List ProposedTrade
candidates s =
    take max_sweep_candidates
      (sort_created (select (λ (p : ProposedTrade). is_pending p.status) s.proposals))

abbrev pub unchanged : SweepResult → Store → Option Text → Pass
unchanged r s latch = record { store = s; latch = latch; result = ok r }

abbrev pub after_route : Sweeper → Store → Option Text → Outcome Refusal ExecutionRoute → Pass
after_route w s latch (raise code) = unchanged (refuse code no_result) s latch
after_route w s latch (ok route) =
    tallied (λ r. record r { considered = length (candidates s) })
      (consider w route (candidates s) s latch)

unfoldable pub sweep : Sweeper → Store → Option Text → Pass
sweep w s latch =
    if not w.config.autonomous.enabled || not w.settings.autonomous_trading
    then unchanged no_result s latch
    else if w.kill_switch || w.config.risk.kill_switch
    then unchanged (refuse kill_switch_engaged no_result) s latch
    else after_route w s latch (resolve_route w.executor.files w.settings w.config)
