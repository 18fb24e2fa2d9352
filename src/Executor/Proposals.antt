-- ===== src/Executor/Proposals.antt =====
-- The row of a proposal through executor.py: what writing it does, and that placing leaves it alone.
use kalshi_copilot.Base.{
  ℕ, ◌≡◌, refl, ◌⊎◌, inl, inr, true, false, not, Option, none, some, List, [], ◌∷◌, find,
  Bool-cases, ◌==◌, is_nil, ==_iff, all, length, ◌||◌,
}
use kalshi_copilot.Domain.{executed, partial, failed, is_pending}
use kalshi_copilot.Interlocks.{ExecutionRoute, Actor, ProposedTrade}
use kalshi_copilot.Store.{Order, Store}
use kalshi_copilot.Wire.{Failure}
use kalshi_copilot.Executor.{Written}
use kalshi_copilot.Executor.Legs.{
  Executor, outcome, legs_of, place_legs, place_result, has_filled, is_rejected, actions_valid,
  orders_of,
}
use kalshi_copilot.Executor.Approval.{is_proposal, set_proposal, concluded}

-- The row of a proposal is there, and it is decided.
abbrev pub Decided : ℕ → Store → Type 0
Decided id s =
    (p : ProposedTrade) × (find (is_proposal id) s.proposals ≡ some p)
    × (is_pending p.status ≡ false)

pub set_proposal-find :
    (p : ProposedTrade) (ps : List ProposedTrade) {q : ProposedTrade}
    → find (is_proposal p.id) ps ≡ some q
    → find (is_proposal p.id) (set_proposal p ps) ≡ some p
set_proposal-find p [] h = cc
set_proposal-find p (r ∷ rest) h = elim (Bool-cases (is_proposal p.id r)) [
  | inl here ↦ let own : (p.id == p.id) ≡ true = (==_iff p.id p.id).1 refl in rw here (rw own refl)
  | inr later ↦ rw later (rw later (set_proposal-find p rest (rw later at h)))
]

pub outcome_values :
    (orders : List Order)
    → (outcome orders ≡ failed) ⊎ (outcome orders ≡ executed) ⊎ (outcome orders ≡ partial)
unfolding outcome
outcome_values orders = elim (Bool-cases (is_nil orders)) [
  | inl b ↦ rw b (inl refl)
  | inr b ↦ elim (Bool-cases (all (λ (o : Order). is_rejected o.status) orders)) [
    | inl c ↦ rw (b, c) (inl refl)
    | inr c ↦ elim (Bool-cases (length orders == 1)) [
      | inl d ↦ rw (b, c, d) (inr (inl refl))
      | inr d ↦
          elim (Bool-cases
            (all has_filled orders || all (λ (o : Order). not (has_filled o)) orders)) [
              | inl e ↦ rw (b, c, d, e) (inr (inl refl))
              | inr e ↦ rw (b, c, d, e) (inr (inr refl))
            ]
    ]
  ]
]

pub decided_status :
    (p : ProposedTrade) (orders : List Order) → is_pending (concluded p orders).status ≡ false
decided_status p orders = elim (outcome_values orders) [
  | inl e ↦ rw e refl
  | inr (inl e) ↦ rw e refl
  | inr (inr e) ↦ rw e refl
]

pub own_id : (p : ProposedTrade) (orders : List Order) → (concluded p orders).id ≡ p.id
own_id p orders = elim (outcome_values orders) [
  | inl e ↦ rw e refl
  | inr (inl e) ↦ rw e refl
  | inr (inr e) ↦ rw e refl
]

place_result_proposals :
    (s : Store) (p : ProposedTrade) (actor : Actor) (now : ℕ) (orders : List Order) (w : Written)
    (e : Option Failure)
    → (place_result s p actor now orders w e).0.proposals ≡ s.proposals
place_result_proposals s p actor now orders w none = refl
place_result_proposals s p actor now orders w (some e) = refl

-- Placing the legs writes no proposal, and is refused by no interlock.
pub place_legs_proposals :
    (x : Executor) (s : Store) (p : ProposedTrade) (route : ExecutionRoute) (actor : Actor)
    (now : ℕ)
    → (place_legs x s p route actor now).0.proposals ≡ s.proposals
unfolding place_legs
place_legs_proposals x s p route actor now = elim (Bool-cases (is_nil (legs_of s p))) [
  | inl b ↦ rw b refl
  | inr b ↦ elim (Bool-cases (actions_valid (orders_of x s p route))) [
    | inl c ↦ rw (b, c) (place_result_proposals s p actor now _ _ _)
    | inr c ↦ rw (b, c) refl
  ]
]
