-- ===== src/Executor/Audit.antt =====
-- The audit log through an approval of executor.py: the rows it appends, and the row of the authority.
use mathlib.Core.List.{Memᴰ}
use kalshi_copilot.Base.{
  ℕ, ◌≡◌, refl, ◌⊎◌, inl, inr, Bool, false, not, ◌&&◌, Option, none, some, Bool-cases, is_some,
  or_else,
}
use kalshi_copilot.Base.Int.{pos}
use kalshi_copilot.Base.Text.{Text}
use kalshi_copilot.Base.Outcome.{Outcome, ok, raise}
use kalshi_copilot.Settings.{Refusal}
use kalshi_copilot.Interlocks.{
  ExecutionRoute, Actor, ProposedTrade, MachineConsent, check_execution,
}
use kalshi_copilot.Store.{Order, Store, AuditLog, proposal_approved}
use kalshi_copilot.Risk.{RiskState}
use kalshi_copilot.Autonomy.{is_autonomous}
use kalshi_copilot.Executor.Legs.{Executor, existing_order_for}
use kalshi_copilot.Executor.Approval.{
  actor_of, approval_row, marked, carry_out, unless_existing, after_limits, after_interlocks,
  locked, approve_and_execute,
}
use kalshi_copilot.Executor.Trail.{place_legs-Has, conclude-Has}

carry_out-approval_row :
    (x : Executor) (s : Store) (p : ProposedTrade) (consent : Option MachineConsent) (actor : Actor)
    (now : ℕ) (route : ExecutionRoute)
    → Memᴰ (approval_row p route actor now) (carry_out x s p consent actor now route).0.audit_log
unfolding carry_out
carry_out-approval_row x s p consent actor now route =
    conclude-Has (approval_row p route actor now) (marked p consent actor now) _ _ (
      place_legs-Has (approval_row p route actor now) x _ (marked p consent actor now) route actor
        now (Memᴰ.head refl))

-- The row of an approval is on record, written out, by the authority that was checked on this route.
abbrev pub Recorded :
    ProposedTrade → Option MachineConsent → Actor → ℕ → ExecutionRoute → Store → Type 0
Recorded p consent actor now route s =
    Memᴰ {A = AuditLog}
      (record {
        ts = now;
        ticker = p.ticker;
        actor = actor_of consent actor;
        event = proposal_approved p.id route p.source (or_else p.max_loss_cents (pos 0));
      })
      s.audit_log
    × (is_autonomous (actor_of consent actor) ≡ is_some consent)

genuine_actor :
    (consent : Option MachineConsent) (actor : Actor)
    → (not (is_some consent) && is_autonomous actor) ≡ false
    → is_autonomous (actor_of consent actor) ≡ is_some consent
genuine_actor none actor h = h
genuine_actor (some c) actor h = refl

module _ (x : Executor) (s : Store) (p : ProposedTrade) (consent : Option MachineConsent)
    (actor : Actor) (now : ℕ) where
  unless_existing-Recorded :
      (route : ExecutionRoute) (o : Option Order)
      → (not (is_some consent) && is_autonomous actor) ≡ false
      → ((unless_existing x s p consent actor now route o).0 ≡ s)
        ⊎ Recorded p consent actor now route (unless_existing x s p consent actor now route o).0
  unless_existing-Recorded route (some order) h = inl refl
  unless_existing-Recorded route none h = inr (
    carry_out-approval_row x s p consent (actor_of consent actor) now route,
    genuine_actor consent actor h,
  )

  after_limits-Recorded :
      (route : ExecutionRoute) (o : Outcome Refusal (Option RiskState))
      → (not (is_some consent) && is_autonomous actor) ≡ false
      → ((after_limits x s p consent actor now route o).0 ≡ s)
        ⊎ Recorded p consent actor now route (after_limits x s p consent actor now route o).0
  after_limits-Recorded route (raise code) h = inl refl
  after_limits-Recorded route (ok state) h =
      unless_existing-Recorded route (existing_order_for s p) h

  after_interlocks-Recorded :
      (o : Outcome Refusal ExecutionRoute)
      → ((after_interlocks x s p consent actor now o).0 ≡ s)
        ⊎ ((route : ExecutionRoute) × (o ≡ ok route)
            × Recorded p consent actor now route (after_interlocks x s p consent actor now o).0)
  after_interlocks-Recorded (raise code) = inl refl
  after_interlocks-Recorded (ok route) =
      elim (Bool-cases (not (is_some consent) && is_autonomous actor)) [
        | inl spoofed ↦ inl (rw spoofed refl)
        | inr genuine ↦ elim (after_limits-Recorded route _ genuine) [
          | inl unchanged ↦ inl (rw genuine unchanged)
          | inr recorded ↦ inr (route, refl, rw genuine recorded)
        ]
      ]

-- An approval that changes any table has passed every interlock on some route, and has left on the
-- audit log, whatever became of the orders, a row with the time, the market, the id of the proposal,
-- the route, the detector and the largest loss (zero where none is given), by the autonomous actor
-- exactly where a consent of the machine was given.
pub approve_and_execute-Recorded :
    (x : Executor) (s : Store) (proposal : ProposedTrade) (confirmed : Bool) (phrase : Option Text)
    (consent : Option MachineConsent) (actor : Actor) (kill_switch : Bool) (now : ℕ)
    → ((approve_and_execute x s proposal confirmed phrase consent actor kill_switch now).0 ≡ s)
      ⊎ ((route : ExecutionRoute) × (check_execution x.files
              (locked s proposal)
              x.settings
              x.config
              confirmed
              kill_switch
              consent
              phrase
              now
            ≡ ok route)
          × Recorded
              (locked s proposal)
              consent
              actor
              now
              route
              (approve_and_execute x s proposal confirmed phrase consent actor kill_switch now).0)
unfolding approve_and_execute
approve_and_execute-Recorded x s proposal confirmed phrase consent actor kill_switch now =
    after_interlocks-Recorded x s (locked s proposal) consent actor now (
      check_execution x.files (locked s proposal) x.settings x.config confirmed kill_switch consent
        phrase now)
