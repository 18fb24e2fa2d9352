-- ===== src/Sweep/Passes.antt =====
-- What a pass of the sweep of autonomy.py does to the tables, the latch and its own counts.
use kalshi_copilot.Base.{
  ℕ, suc, ◌≡◌, refl, ◌⊎◌, inl, inr, ◌+◌, ◌≤◌, Bool, true, false, not, ◌||◌, Option, none, some,
  List, [], ◌∷◌, length, arith, is_nil, if◌then◌else◌,
}
use kalshi_copilot.Base.Text.{Text, codes}
use kalshi_copilot.Base.Outcome.{Outcome, ok, raise, ◌>>=◌, Outcome-cases}
use kalshi_copilot.Settings.{Refusal}
use kalshi_copilot.Interlocks.{
  ExecutionRoute, operator, ProposedTrade, MachineConsent, resolve_route,
}
use kalshi_copilot.Store.{Order, Store}
use kalshi_copilot.Autonomy.{disarm, evaluate}
use kalshi_copilot.Executor.Legs.{ApproveError, interlock, no_legs, legs_failed, crashed}
use kalshi_copilot.Executor.Approval.{locked, approve_and_execute}
use kalshi_copilot.Sweep.{
  Sweeper, SweepResult, Pass, refuse, approve, fail, was_ambiguous, is_partial, after_approval,
  after_gate, latch_at, consider, candidates, after_route, sweep,
}

-- The tables that approvals lead to, each with a consent that the gate issues for that proposal on
-- the tables as they are then, while Redis holds what it held of the latch at the start of the pass.
pub data Authorised (w : Sweeper) (route : ExecutionRoute) (latch : Option Text)
    : Store → Store → Type 0 where
  untouched : (s : Store) → Authorised w route latch s s
  approved_next :
      (s t : Store) (p : ProposedTrade) (c : MachineConsent)
      → evaluate s (locked s p) w.settings w.config route w.evidence (latch_at w p latch) w.now
        ≡ ok c
      → Authorised w route latch
          (approve_and_execute w.executor s p false none
            (some c)
            operator
            (w.kill_switch_at p)
            (w.clock_at p)).0
          t
      → Authorised w route latch s t

-- Every candidate is counted once, up to the one that latches the pass.
abbrev pub Accounted :
    Bool → Option Text → ℕ → Outcome ApproveError SweepResult → Option Text → Type 0
Accounted persists before n (raise e) after = after ≡ before
Accounted persists before n (ok r) after =
    ((r.disarmed ≡ none) × (after ≡ before) × (r.approved + r.failed + length r.refusals ≡ n))
    ⊎ ((reason : Text) × (r.disarmed ≡ some reason)
        × (is_nil reason ≡ false)
        × (after ≡ disarm persists reason before)
        × (r.approved + r.failed + length r.refusals ≤ n))

refused_more :
    (persists : Bool) (latch after : Option Text) (n : ℕ) (code : Refusal)
    (m : Outcome ApproveError SweepResult)
    → Accounted persists latch n m after
    → Accounted persists latch (suc n) (m >>= λ r. ok (refuse code r)) after
refused_more persists latch after n code (raise e) h = h
refused_more persists latch after n code (ok r) (inl (a, b, c)) = inl (a, b, omega arith)
refused_more persists latch after n code (ok r) (inr (reason, a, b, c, d)) =
    inr (reason, a, b, c, omega arith)

approved_more :
    (persists : Bool) (latch after : Option Text) (n : ℕ) (m : Outcome ApproveError SweepResult)
    → Accounted persists latch n m after
    → Accounted persists latch (suc n) (m >>= λ r. ok (approve r)) after
approved_more persists latch after n (raise e) h = h
approved_more persists latch after n (ok r) (inl (a, b, c)) = inl (a, b, omega arith)
approved_more persists latch after n (ok r) (inr (reason, a, b, c, d)) =
    inr (reason, a, b, c, omega arith)

failed_more :
    (persists : Bool) (latch after : Option Text) (n : ℕ) (m : Outcome ApproveError SweepResult)
    → Accounted persists latch n m after
    → Accounted persists latch (suc n) (m >>= λ r. ok (fail r)) after
failed_more persists latch after n (raise e) h = h
failed_more persists latch after n (ok r) (inl (a, b, c)) = inl (a, b, omega arith)
failed_more persists latch after n (ok r) (inr (reason, a, b, c, d)) =
    inr (reason, a, b, c, omega arith)

-- Both ends of a test.
either_way : (P : Pass → Type 0) (b : Bool) (x y : Pass) → P x → P y → P (if b then x else y)
either_way P true x y h k = h
either_way P false x y h k = k

abbrev pub AccountedPass : Bool → Option Text → ℕ → Pass → Type 0
AccountedPass persists latch n pass = Accounted persists latch n pass.result pass.latch

after_approval-Accounted :
    (persists : Bool) (rest : Store → Option Text → Pass) (s : Store) (latch : Option Text)
    (p : ProposedTrade) (n : ℕ) (end : Store × Outcome ApproveError Order)
    → ((t : Store) → AccountedPass persists latch n (rest t latch))
    → AccountedPass persists latch (suc n) (after_approval persists rest s latch p end)
after_approval-Accounted persists rest s latch p n (s', raise (interlock code)) h =
    refused_more persists latch (rest s latch).latch n code (rest s latch).result (h s)
after_approval-Accounted persists rest s latch p n (s', raise crashed) h = refl
after_approval-Accounted persists rest s latch p n (s', raise no_legs) h =
    either_way (AccountedPass persists latch (suc n)) (was_ambiguous s' p.id) _ _
      (inr (codes "submitted ambiguously", refl, refl, refl, omega arith))
      (failed_more persists latch (rest s' latch).latch n (rest s' latch).result (h s'))
after_approval-Accounted persists rest s latch p n (s', raise legs_failed) h =
    either_way (AccountedPass persists latch (suc n)) (was_ambiguous s' p.id) _ _
      (inr (codes "submitted ambiguously", refl, refl, refl, omega arith))
      (failed_more persists latch (rest s' latch).latch n (rest s' latch).result (h s'))
after_approval-Accounted persists rest s latch p n (s', ok order) h =
    either_way (AccountedPass persists latch (suc n))
      (is_partial (ProposedTrade.status (locked s' p))) _ _
      (inr (codes "filled partially", refl, refl, refl, omega arith))
      (approved_more persists latch (rest s' latch).latch n (rest s' latch).result (h s'))

after_gate-Accounted :
    (w : Sweeper) (rest : Store → Option Text → Pass) (s : Store) (latch : Option Text)
    (p : ProposedTrade) (n : ℕ) (answer : Outcome Refusal MachineConsent)
    → ((t : Store) → AccountedPass w.latch_persists latch n (rest t latch))
    → AccountedPass w.latch_persists latch (suc n) (after_gate w rest s latch p answer)
after_gate-Accounted w rest s latch p n (raise code) h =
    refused_more w.latch_persists latch (rest s latch).latch n code (rest s latch).result (h s)
after_gate-Accounted w rest s latch p n (ok c) h =
    after_approval-Accounted w.latch_persists rest s latch p n
      (approve_and_execute w.executor s p false none (some c) operator (w.kill_switch_at p)
        (w.clock_at p))
      h

-- A pass of the sweep counts its candidates once, as approved, failed or refused, and touches the
-- latch only where it stops: a pass that reports no reason has counted all of them and left the
-- latch as it was, one that reports a reason has latched it with that reason, where Redis takes the
-- write, and counted no candidate twice, and one that an exception ends has left the latch as it was.
pub consider-Accounted :
    (w : Sweeper) (route : ExecutionRoute) (ps : List ProposedTrade) (s : Store)
    (latch : Option Text)
    → AccountedPass w.latch_persists latch (length ps) (consider w route ps s latch)
unfolding consider
consider-Accounted w route [] s latch = inl (refl, refl, refl)
consider-Accounted w route (p ∷ rest) s latch =
    after_gate-Accounted w (consider w route rest) s latch p (length rest)
      (evaluate s (locked s p) w.settings w.config route w.evidence (latch_at w p latch) w.now)
      (λ t. consider-Accounted w route rest t latch)

after_approval-Authorised :
    (w : Sweeper) (route : ExecutionRoute) (rest : Store → Option Text → Pass) (s : Store)
    (latch : Option Text) (p : ProposedTrade) (end : Store × Outcome ApproveError Order)
    → ((t : Store) → Authorised w route latch end.0 t → Authorised w route latch s t)
    → ((t : Store) → Authorised w route latch t (rest t latch).store)
    → Authorised w route latch s (after_approval w.latch_persists rest s latch p end).store
after_approval-Authorised w route rest s latch p (s', raise (interlock code)) step h = h s
after_approval-Authorised w route rest s latch p (s', raise crashed) step h = untouched s
after_approval-Authorised w route rest s latch p (s', raise no_legs) step h =
    either_way (λ x. Authorised w route latch s x.store) (was_ambiguous s' p.id) _ _
      (step s' (untouched s')) (step (rest s' latch).store (h s'))
after_approval-Authorised w route rest s latch p (s', raise legs_failed) step h =
    either_way (λ x. Authorised w route latch s x.store) (was_ambiguous s' p.id) _ _
      (step s' (untouched s')) (step (rest s' latch).store (h s'))
after_approval-Authorised w route rest s latch p (s', ok order) step h =
    either_way (λ x. Authorised w route latch s x.store)
      (is_partial (ProposedTrade.status (locked s' p))) _ _ (step s' (untouched s'))
      (step (rest s' latch).store (h s'))

after_gate-Authorised :
    (w : Sweeper) (route : ExecutionRoute) (rest : Store → Option Text → Pass) (s : Store)
    (latch : Option Text) (p : ProposedTrade) (answer : Outcome Refusal MachineConsent)
    → evaluate s (locked s p) w.settings w.config route w.evidence (latch_at w p latch) w.now
      ≡ answer
    → ((t : Store) → Authorised w route latch t (rest t latch).store)
    → Authorised w route latch s (after_gate w rest s latch p answer).store
after_gate-Authorised w route rest s latch p (raise code) gate h = h s
after_gate-Authorised w route rest s latch p (ok c) gate h =
    after_approval-Authorised w route rest s latch p
      (approve_and_execute w.executor s p false none (some c) operator (w.kill_switch_at p)
        (w.clock_at p))
      (λ t. approved_next s t p c gate) h

consider-Authorised :
    (w : Sweeper) (route : ExecutionRoute) (ps : List ProposedTrade) (s : Store)
    (latch : Option Text)
    → Authorised w route latch s (consider w route ps s latch).store
unfolding consider
consider-Authorised w route [] s latch = untouched s
consider-Authorised w route (p ∷ rest) s latch =
    after_gate-Authorised w route (consider w route rest) s latch p
      (evaluate s (locked s p) w.settings w.config route w.evidence (latch_at w p latch) w.now) refl
      (λ t. consider-Authorised w route rest t latch)

-- The switches under which a pass considers anything, and the tables it leads to.
abbrev pub Swept : Sweeper → Option Text → Store → Store → Type 0
Swept w latch s t =
    (w.config.autonomous.enabled ≡ true)
    × (w.settings.autonomous_trading ≡ true)
    × (w.kill_switch ≡ false)
    × (w.config.risk.kill_switch ≡ false)
    × ((route : ExecutionRoute) × (resolve_route w.executor.files w.settings w.config ≡ ok route)
        × Authorised w route latch s t)

after_route-Swept :
    (w : Sweeper) (s : Store) (latch : Option Text)
    → (after_route w s latch (resolve_route w.executor.files w.settings w.config)).store ≡ s
      ⊎ ((route : ExecutionRoute) × (resolve_route w.executor.files w.settings w.config ≡ ok route)
          × Authorised w route latch s
              (after_route w s latch (resolve_route w.executor.files w.settings w.config)).store)
after_route-Swept w s latch =
    elim (Outcome-cases (resolve_route w.executor.files w.settings w.config)) [
      | inl (route, h) ↦ inr (route, h, rw h (consider-Authorised w route (candidates s) s latch))
      | inr (code, h) ↦ inl (rw h refl)
    ]

both_switches :
    (Q : Store → Type 0) (enabled armed kill configured : Bool) (s : Store) (x y z : Pass)
    → x.store ≡ s
    → y.store ≡ s
    → (z.store ≡ s) ⊎ Q z.store
    → let end = if not enabled || not armed then x else if kill || configured then y else z in
      (end.store ≡ s)
      ⊎ ((enabled ≡ true) × (armed ≡ true) × (kill ≡ false) × (configured ≡ false) × Q end.store)
both_switches Q true true false false s x y z hx hy (inl h) = inl h
both_switches Q true true false false s x y z hx hy (inr q) = inr (refl, refl, refl, refl, q)
both_switches Q true true false true s x y z hx hy h = inl hy
both_switches Q true true true configured s x y z hx hy h = inl hy
both_switches Q true false kill configured s x y z hx hy h = inl hx
both_switches Q false armed kill configured s x y z hx hy h = inl hx

-- A pass of the sweep either leaves every table as it was, or autonomy is enabled and armed, neither
-- kill switch is engaged at its start, the configuration resolves to a route, and the tables come
-- of approvals on that route alone, one after another, each with a consent that the gate issues for
-- its proposal on the tables that the approvals before it have left.
pub sweep-Swept :
    (w : Sweeper) (s : Store) (latch : Option Text)
    → ((sweep w s latch).store ≡ s) ⊎ Swept w latch s (sweep w s latch).store
unfolding sweep
sweep-Swept w s latch =
    both_switches
      (λ t.
        (route : ExecutionRoute) × (resolve_route w.executor.files w.settings w.config ≡ ok route)
        × Authorised w route latch s t)
      w.config.autonomous.enabled w.settings.autonomous_trading w.kill_switch
      w.config.risk.kill_switch s _ _ _ refl refl (after_route-Swept w s latch)
