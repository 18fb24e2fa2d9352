-- ===== src/Executor/Cases.antt =====
-- What an approval of executor.py does to the rows of the proposals: nothing, or one row is decided.
use mathlib.Core.Path.{subst}
use kalshi_copilot.Base.{
  ℕ, ◌≡◌, refl, sym, ap, ◌∙◌, ◌⊎◌, inl, inr, Bool, true, false, not, ◌&&◌, Option, none, some, List,
  [], ◌∷◌, Bool-cases, ==_iff, is_some,
}
use kalshi_copilot.Base.Text.{Text}
use kalshi_copilot.Base.Outcome.{Outcome, ok, raise, Outcome-cases}
use kalshi_copilot.Domain.{ProposalStatus, is_pending, failed}
use kalshi_copilot.Settings.{Refusal}
use kalshi_copilot.Interlocks.{
  ExecutionRoute, Actor, placement_failed, ProposedTrade, MachineConsent, check_execution,
}
use kalshi_copilot.Interlocks.Execution.{check_execution-Cleared}
use kalshi_copilot.Store.{Order, Store}
use kalshi_copilot.Risk.{RiskState}
use kalshi_copilot.Autonomy.{is_autonomous}
use kalshi_copilot.Executor.Legs.{
  Executor, ApproveError, interlock, no_legs, legs_failed, crashed, existing_order_for,
}
use kalshi_copilot.Executor.Approval.{
  is_proposal, set_proposal, locked, actor_of, concluded, conclude, marked, approval_row, carry_out,
  unless_existing, after_limits, after_interlocks, approve_and_execute,
}
use kalshi_copilot.Executor.Proposals.{outcome_values, decided_status, place_legs_proposals}

-- What identifies a row and does not change when it is decided.
abbrev pub SameKeys : ProposedTrade → ProposedTrade → Type 0
SameKeys p q =
    (q.id ≡ p.id)
    × (q.source ≡ p.source)
    × (q.ticker ≡ p.ticker)
    × (q.event_ticker ≡ p.event_ticker)
    × (q.max_loss_cents ≡ p.max_loss_cents)

concluded-SameKeys : (p : ProposedTrade) (orders : List Order) → SameKeys p (concluded p orders)
concluded-SameKeys p orders = elim (outcome_values orders) [
  | inl e ↦ rw e (refl, refl, refl, refl, refl)
  | inr (inl e) ↦ rw e (refl, refl, refl, refl, refl)
  | inr (inr e) ↦ rw e (refl, refl, refl, refl, refl)
]

-- The row that is written last is the one that stays.
pub set_proposal-set_proposal :
    (m p : ProposedTrade) (ps : List ProposedTrade)
    → p.id ≡ m.id
    → set_proposal p (set_proposal m ps) ≡ set_proposal p ps
set_proposal-set_proposal m p [] e = refl
set_proposal-set_proposal m p (q ∷ rest) e = elim (Bool-cases (is_proposal m.id q)) [
  | inl here ↦
      let own : is_proposal p.id m ≡ true = (==_iff m.id p.id).1 (sym e) in
      let there : is_proposal p.id q ≡ true = rw e here in
      rw here (
        rw own (
          rw there (ap (λ (r : List ProposedTrade). p ∷ r) (set_proposal-set_proposal m p rest e))))
  | inr later ↦
      let away : is_proposal p.id q ≡ false = rw e later in
      rw later
        (rw away (ap (λ (r : List ProposedTrade). q ∷ r) (set_proposal-set_proposal m p rest e)))
]

-- Some row with the keys of the proposal, decided, has replaced it.
abbrev pub DecidesRow : ProposedTrade → List ProposedTrade → List ProposedTrade → Type 0
DecidesRow p ps qs =
    (f : ProposedTrade) × SameKeys p f × (is_pending f.status ≡ false) × (qs ≡ set_proposal f ps)

conclude-DecidesRow :
    (m : ProposedTrade) (ps : List ProposedTrade) (s : Store)
    (o : Outcome ApproveError (List Order))
    → is_pending m.status ≡ false
    → s.proposals ≡ set_proposal m ps
    → DecidesRow m ps (conclude m (s, o)).0.proposals
conclude-DecidesRow m ps s (ok orders) h e =
    let f = concluded m orders in
    let keys = concluded-SameKeys m orders in
    (
      f,
      keys,
      decided_status m orders,
      ap (set_proposal f) e ∙ set_proposal-set_proposal m f ps keys.0,
    )
conclude-DecidesRow m ps s (raise crashed) h e = (m, (refl, refl, refl, refl, refl), h, e)
conclude-DecidesRow m ps s (raise no_legs) h e =
    let f : ProposedTrade = record m { status = failed; decision_reason = some placement_failed } in
    (
      f,
      (refl, refl, refl, refl, refl),
      refl,
      ap (set_proposal f) e ∙ set_proposal-set_proposal m f ps refl,
    )
conclude-DecidesRow m ps s (raise legs_failed) h e =
    let f : ProposedTrade = record m { status = failed; decision_reason = some placement_failed } in
    (
      f,
      (refl, refl, refl, refl, refl),
      refl,
      ap (set_proposal f) e ∙ set_proposal-set_proposal m f ps refl,
    )
conclude-DecidesRow m ps s (raise (interlock code)) h e =
    let f : ProposedTrade = record m { status = failed; decision_reason = some placement_failed } in
    (
      f,
      (refl, refl, refl, refl, refl),
      refl,
      ap (set_proposal f) e ∙ set_proposal-set_proposal m f ps refl,
    )

carry_out-DecidesRow :
    (x : Executor) (s : Store) (p : ProposedTrade) (consent : Option MachineConsent) (actor : Actor)
    (now : ℕ) (route : ExecutionRoute)
    → DecidesRow
        (marked p consent actor now)
        s.proposals
        (carry_out x s p consent actor now route).0.proposals
unfolding carry_out
carry_out-DecidesRow x s p consent actor now route =
    let m = marked p consent actor now in
    conclude-DecidesRow m s.proposals _ _ refl (
      place_legs_proposals x
        (record s {
          proposals = set_proposal m s.proposals;
          audit_log = approval_row p route actor now ∷ s.audit_log;
        })
        m route actor now)

-- An approval leaves the tables alone, or decides the row of a proposal that was pending.
abbrev pub Approved : Store → ProposedTrade → Store → Type 0
Approved s p t =
    (t ≡ s) ⊎ ((p.status ≡ ProposalStatus.pending) × DecidesRow p s.proposals t.proposals)

module _ (x : Executor) (s : Store) (p : ProposedTrade) (consent : Option MachineConsent)
    (actor : Actor) (now : ℕ) (pending : p.status ≡ ProposalStatus.pending) where
  unless_existing-Approved :
      (route : ExecutionRoute) (o : Option Order)
      → Approved s p (unless_existing x s p consent actor now route o).0
  unless_existing-Approved route (some order) = inl refl
  unless_existing-Approved route none =
      inr (pending, carry_out-DecidesRow x s p consent (actor_of consent actor) now route)

  after_limits-Approved :
      (route : ExecutionRoute) (o : Outcome Refusal (Option RiskState))
      → Approved s p (after_limits x s p consent actor now route o).0
  after_limits-Approved route (raise code) = inl refl
  after_limits-Approved route (ok state) = unless_existing-Approved route (existing_order_for s p)

  cleared-Approved :
      (route : ExecutionRoute)
      → Approved s p (after_interlocks x s p consent actor now (ok route)).0
  cleared-Approved route = elim (Bool-cases (not (is_some consent) && is_autonomous actor)) [
    | inl spoofed ↦ rw spoofed (inl refl)
    | inr genuine ↦ rw genuine (after_limits-Approved route _)
  ]

pub approve_and_execute-Approved :
    (x : Executor) (s : Store) (proposal : ProposedTrade) (confirmed : Bool) (phrase : Option Text)
    (consent : Option MachineConsent) (actor : Actor) (kill_switch : Bool) (now : ℕ)
    → Approved s
        (locked s proposal)
        (approve_and_execute x s proposal confirmed phrase consent actor kill_switch now).0
unfolding approve_and_execute
approve_and_execute-Approved x s proposal confirmed phrase consent actor kill_switch now =
    let p = locked s proposal in
    let check =
      check_execution x.files p x.settings x.config confirmed kill_switch consent phrase now in
    let run =
      λ (o : Outcome Refusal ExecutionRoute). (after_interlocks x s p consent actor now o).0 in
    elim (Outcome-cases check) [
      | inl (route, passed) ↦
          let cleared =
            (check_execution-Cleared x.files p x.settings x.config confirmed kill_switch consent
                phrase now route).0
              passed in
          subst (λ o. Approved s p (run o)) (sym passed)
            (cleared-Approved x s p consent actor now cleared.still_pending route)
      | inr (code, refused) ↦ inl (ap run refused)
    ]
