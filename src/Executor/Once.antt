-- ===== src/Executor/Once.antt =====
-- What approve_and_execute of executor.py leaves behind, for the next approval of the same proposal.
use mathlib.Core.Path.{subst}
use kalshi_copilot.Base.{
  ℕ, ◌≡◌, refl, sym, ◌∙◌, ap, ◌⊎◌, inl, inr, Bool, false, not, ◌&&◌, Option, none, some, List, [],
  ◌∷◌, arith, find, Bool-cases, is_some,
}
use kalshi_copilot.Base.Text.{Text}
use kalshi_copilot.Base.Outcome.{Outcome, ok, raise, Outcome-cases}
use kalshi_copilot.Domain.{ProposalStatus, failed, is_pending}
use kalshi_copilot.Settings.{Refusal}
use kalshi_copilot.Interlocks.{
  ExecutionRoute, Actor, ProposedTrade, MachineConsent, check_execution, placement_failed,
}
use kalshi_copilot.Interlocks.Execution.{check_execution-Cleared}
use kalshi_copilot.Store.{Order, Store}
use kalshi_copilot.Risk.{RiskState}
use kalshi_copilot.Autonomy.{is_autonomous}
use kalshi_copilot.Executor.Legs.{
  Executor, ApproveError, interlock, no_legs, legs_failed, crashed, existing_order_for,
}
use kalshi_copilot.Executor.Approval.{
  is_proposal, set_proposal, saved, locked, actor_of, concluded, conclude, marked, carry_out,
  after_interlocks, approval_row, approve_and_execute, after_limits, unless_existing,
}
use kalshi_copilot.Executor.Proposals.{
  Decided, set_proposal-find, decided_status, own_id, place_legs_proposals,
}

conclude-Decided :
    (p : ProposedTrade) (s : Store) (o : Outcome ApproveError (List Order))
    → is_pending p.status ≡ false
    → find (is_proposal p.id) s.proposals ≡ some p
    → Decided p.id (conclude p (s, o)).0
conclude-Decided p s (ok orders) h found =
    let q = concluded p orders in
    let there =
      subst (λ (id : ℕ). find (is_proposal id) s.proposals ≡ some p) (sym (own_id p orders))
        found in
    subst (λ (id : ℕ). Decided id (saved q s)) (own_id p orders)
      (q, set_proposal-find q s.proposals there, decided_status p orders)
conclude-Decided p s (raise crashed) h found = (p, found, h)
conclude-Decided p s (raise no_legs) h found =
    let q : ProposedTrade = record p { status = failed; decision_reason = some placement_failed } in
    (q, set_proposal-find q s.proposals found, refl)
conclude-Decided p s (raise legs_failed) h found =
    let q : ProposedTrade = record p { status = failed; decision_reason = some placement_failed } in
    (q, set_proposal-find q s.proposals found, refl)
conclude-Decided p s (raise (interlock code)) h found =
    let q : ProposedTrade = record p { status = failed; decision_reason = some placement_failed } in
    (q, set_proposal-find q s.proposals found, refl)

carry_out-Decided :
    (x : Executor) (s : Store) (p : ProposedTrade) (consent : Option MachineConsent) (actor : Actor)
    (now : ℕ) (route : ExecutionRoute) {q : ProposedTrade}
    → find (is_proposal p.id) s.proposals ≡ some q
    → Decided p.id (carry_out x s p consent actor now route).0
unfolding carry_out
carry_out-Decided x s p consent actor now route found =
    let m = marked p consent actor now in
    let kept =
      place_legs_proposals x
        (record s {
          proposals = set_proposal m s.proposals;
          audit_log = approval_row p route actor now ∷ s.audit_log;
        })
        m route actor now in
    conclude-Decided m _ _ refl (
      ap (λ (ps : List ProposedTrade). find (is_proposal p.id) ps) kept
      ∙ set_proposal-find m s.proposals found)

-- Either nothing has changed, or the proposal is decided.
abbrev Settled : ℕ → Store → Store × Outcome ApproveError Order → Type 0
Settled id s r = (r.0 ≡ s) ⊎ Decided id r.0

module _ (x : Executor) (s : Store) (p : ProposedTrade) (consent : Option MachineConsent)
    (actor : Actor) (now : ℕ) {q : ProposedTrade}
    (found : find (is_proposal p.id) s.proposals ≡ some q) where
  unless_existing-Settled :
      (route : ExecutionRoute) (o : Option Order)
      → Settled p.id s (unless_existing x s p consent actor now route o)
  unless_existing-Settled route (some order) = inl refl
  unless_existing-Settled route none =
      inr (carry_out-Decided x s p consent (actor_of consent actor) now route found)

  after_limits-Settled :
      (route : ExecutionRoute) (o : Outcome Refusal (Option RiskState))
      → Settled p.id s (after_limits x s p consent actor now route o)
  after_limits-Settled route (raise code) = inl refl
  after_limits-Settled route (ok state) = unless_existing-Settled route (existing_order_for s p)

  after_interlocks-Settled :
      (o : Outcome Refusal ExecutionRoute)
      → Settled p.id s (after_interlocks x s p consent actor now o)
  after_interlocks-Settled (raise code) = inl refl
  after_interlocks-Settled (ok route) =
      elim (Bool-cases (not (is_some consent) && is_autonomous actor)) [
        | inl spoofed ↦ rw spoofed (inl refl)
        | inr genuine ↦ rw genuine (after_limits-Settled route _)
      ]

pub find-is_proposal :
    (id : ℕ) (ps : List ProposedTrade) {q : ProposedTrade}
    → find (is_proposal id) ps ≡ some q
    → q.id ≡ id
find-is_proposal id [] h = cc
find-is_proposal id (r ∷ rest) {q} h = elim (Bool-cases (is_proposal id r)) [
  | inl here ↦
      let same : r ≡ q = ground arith in
      let own : r.id ≡ id = ground arith in ap (λ (p : ProposedTrade). p.id) (sym same) ∙ own
  | inr later ↦ find-is_proposal id rest (rw later at h)
]

-- Nothing can be done with a proposal that is decided.
Decided-refused :
    (x : Executor) (s : Store) (proposal : ProposedTrade) (confirmed : Bool) (phrase : Option Text)
    (consent : Option MachineConsent) (actor : Actor) (kill_switch : Bool) (now : ℕ)
    → Decided proposal.id s
    → (approve_and_execute x s proposal confirmed phrase consent actor kill_switch now).0 ≡ s
unfolding approve_and_execute
Decided-refused x s proposal confirmed phrase consent actor kill_switch now (q, found, decided) =
    let p = locked s proposal in
    let row : p ≡ q = rw found refl in
    elim (Outcome-cases
      (check_execution x.files p x.settings x.config confirmed kill_switch consent phrase now)) [
        | inl (route, passed) ↦
            let cleared =
              (check_execution-Cleared x.files p x.settings x.config confirmed kill_switch consent
                  phrase now route).0
                passed in
            absurd (
              still_open q decided
                (sym (ap (λ (r : ProposedTrade). r.status) row) ∙ cleared.still_pending))
        | inr (code, refused) ↦
            ap
              (λ (o : Outcome Refusal ExecutionRoute).
                (after_interlocks x s p consent actor now o).0)
              refused
      ]
  where
    still_open :
        (q : ProposedTrade) → is_pending q.status ≡ false → ¬ (q.status ≡ ProposalStatus.pending)
    still_open q h e = cc

first_approval :
    (x : Executor) (s : Store) (proposal : ProposedTrade) (confirmed : Bool) (phrase : Option Text)
    (consent : Option MachineConsent) (actor : Actor) (kill_switch : Bool) (now : ℕ)
    {q : ProposedTrade}
    → find (is_proposal proposal.id) s.proposals ≡ some q
    → Settled proposal.id s
        (approve_and_execute x s proposal confirmed phrase consent actor kill_switch now)
unfolding approve_and_execute
first_approval x s proposal confirmed phrase consent actor kill_switch now {q} found =
    let row : locked s proposal ≡ q = rw found refl in
    let own = find-is_proposal proposal.id s.proposals found in
    let there : find (is_proposal q.id) s.proposals ≡ some q =
      subst (λ (id : ℕ). find (is_proposal id) s.proposals ≡ some q) (sym own) found in
    let run = λ (p : ProposedTrade).
      after_interlocks x s p consent actor now
        (check_execution x.files p x.settings x.config confirmed kill_switch consent phrase now) in
    subst (λ (p : ProposedTrade). Settled proposal.id s (run p)) (sym row)
      (subst (λ (id : ℕ). Settled id s (run q)) own
        (after_interlocks-Settled x s q consent actor now there
          (check_execution x.files q x.settings x.config confirmed kill_switch consent phrase now)))

-- A proposal is placed at most once. For a proposal that has a row, an approval either leaves every
-- table as it was, or is the last to change one: any later approval of it, by either authority, at
-- any time and by any executor, writes nothing.
pub approve_and_execute_once :
    (x y : Executor) (s : Store) (proposal again : ProposedTrade) (confirmed confirmed_again : Bool)
    (phrase phrase_again : Option Text) (consent consent_again : Option MachineConsent)
    (actor actor_again : Actor) (kill_switch kill_switch_again : Bool) (now later : ℕ)
    {q : ProposedTrade}
    → find (is_proposal proposal.id) s.proposals ≡ some q
    → again.id ≡ proposal.id
    → let s' =
        (approve_and_execute x s proposal confirmed phrase consent actor kill_switch now).0 in
      (s' ≡ s)
      ⊎ ((approve_and_execute y s' again confirmed_again phrase_again consent_again actor_again
            kill_switch_again later).0
          ≡ s')
approve_and_execute_once x y s proposal again confirmed confirmed_again phrase phrase_again consent
      consent_again actor actor_again kill_switch kill_switch_again now later {q} found same_id =
    elim (first_approval x s proposal confirmed phrase consent actor kill_switch now found) [
      | inl unchanged ↦ inl unchanged
      | inr decided ↦ inr (
          Decided-refused y _ again confirmed_again phrase_again consent_again actor_again
            kill_switch_again later
            (subst
              (λ (id : ℕ).
                Decided id
                  (approve_and_execute x s proposal confirmed phrase consent actor kill_switch
                    now).0)
              (sym same_id) decided))
    ]
