-- ===== src/Proposals/Lifecycle.antt =====
-- The operations on the queue of proposals as steps, and what a creation adds.
use kalshi_copilot.Base.{
  ℕ, suc, ◌≡◌, refl, sym, ap, ◌⊎◌, inl, inr, Bool, true, false, Option, none, some, [], ◌∷◌, ◌++◌,
  any, count_if, leb, Bool-cases, if◌then◌else◌,
}
use kalshi_copilot.Base.Text.{Text}
use kalshi_copilot.Base.Outcome.{ok, ◌>>◌, >>_ok, >>=-eq-ok, ok_inj, raise_if_ok}
use kalshi_copilot.Domain.{is_pending}
use kalshi_copilot.Interlocks.{Actor, ProposedTrade, MachineConsent}
use kalshi_copilot.Store.{Store}
use kalshi_copilot.Executor.Legs.{Executor}
use kalshi_copilot.Executor.Approval.{approve_and_execute}
use kalshi_copilot.Pricing.{TicketQuote}
use kalshi_copilot.Proposals.{
  Desk, Request, is_duplicate, guard_queue_depth, guard_duplicate, guard_halted, guard_market_size,
  quote_for, last_proposal, is_manual, new_proposal, single_guards, queue_full, already_pending,
  create_proposal,
}
use kalshi_copilot.Proposals.Sets.{
  SetRequest, tickers_of, new_set, set_guards, create_multi_leg_proposal,
}
use kalshi_copilot.Proposals.Decisions.{expire_stale, reject}

-- What may happen to the queue: the two creations, the expiry, a rejection, and an approval by
-- either authority and any executor.
pub data Step (d : Desk) : Store → Store → Type 0 where
  created :
      {s t : Store} {p : ProposedTrade} {q : TicketQuote} (r : Request) (now : ℕ)
      → create_proposal d s r now ≡ ok (t, p, q)
      → Step d s t
  set_created :
      {s t : Store} {p : ProposedTrade} (r : SetRequest) (now : ℕ)
      → create_multi_leg_proposal d s r now ≡ ok (t, p)
      → Step d s t
  swept : (s : Store) (now : ℕ) → Step d s (expire_stale now s).0
  turned_down :
      (s : Store) (p : ProposedTrade) (reason : Option Text) (actor : Actor) (now : ℕ)
      → Step d s (reject s p reason actor now).0
  approval :
      (x : Executor) (s : Store) (p : ProposedTrade) (confirmed : Bool) (phrase : Option Text)
      (consent : Option MachineConsent) (actor : Actor) (kill_switch : Bool) (now : ℕ)
      → Step d s (approve_and_execute x s p confirmed phrase consent actor kill_switch now).0

-- Any number of steps.
pub data Steps (d : Desk) : Store → Store → Type 0 where
  at_rest : (s : Store) → Steps d s s
  then_step : {s t u : Store} → Steps d s t → Step d t u → Steps d s u

-- The key under which a detector may have one proposal in the queue.
abbrev pub key_of : ProposedTrade → Text
key_of p = elim p.event_ticker [ none ↦ p.ticker | some event ↦ event ]

-- What the guards have let into the queue: a pending row with a new id, where there is room, that
-- is no duplicate unless it is manual.
pub record Admitted (d : Desk) (s : Store) (p : ProposedTrade) : Type 0 where
  pub new_id : p.id ≡ suc (last_proposal s.proposals)
  pub room :
      leb d.config.risk.max_pending_proposals
        (count_if (λ (q : ProposedTrade). is_pending q.status) s.proposals)
      ≡ false
  pub no_repeat :
      (is_manual p.source ≡ true) ⊎ (any (is_duplicate p.source (key_of p)) s.proposals ≡ false)

-- The rows after a creation.
abbrev pub Adds : Desk → Store → Store → Type 0
Adds d s t = (p : ProposedTrade) × (t.proposals ≡ s.proposals ++ p ∷ []) × Admitted d s p

room_of :
    (s : Store) (d : Desk)
    → guard_queue_depth s d.config ≡ ok tt
    → leb d.config.risk.max_pending_proposals
        (count_if (λ (q : ProposedTrade). is_pending q.status) s.proposals)
      ≡ false
unfolding guard_queue_depth
room_of s d h = raise_if_ok _ queue_full h

no_duplicate_of :
    (s : Store) (source key : Text)
    → guard_duplicate s source key ≡ ok tt
    → any (is_duplicate source key) s.proposals ≡ false
unfolding guard_duplicate
no_duplicate_of s source key h = raise_if_ok _ already_pending h

-- The last guard of a single creation.
repeat_of :
    (s : Store) (source key : Text)
    → (if is_manual source then ok tt else guard_duplicate s source key) ≡ ok tt
    → (is_manual source ≡ true) ⊎ (any (is_duplicate source key) s.proposals ≡ false)
repeat_of s source key h = elim (Bool-cases (is_manual source)) [
  | inl manual ↦ inl manual
  | inr detector ↦ inr (no_duplicate_of s source key (rw detector at h))
]

pub created-Adds :
    (d : Desk) (s t : Store) (r : Request) (now : ℕ) {p : ProposedTrade} {q : TicketQuote}
    → create_proposal d s r now ≡ ok (t, p, q)
    → Adds d s t
unfolding create_proposal
created-Adds d s t r now {p} {q} h =
    let (quote, quoted, rest) = >>=-eq-ok (quote_for d r) _ h in
    let (guards, rest₁) = >>_ok (single_guards d s r now) _ rest in
    let (pct, sized, same) = >>=-eq-ok (guard_market_size d s _ (r.ticker ∷ []) none) _ rest₁ in
    let (guards₁, repeat) = >>_ok (guard_halted d s now >> guard_queue_depth s d.config) _ guards in
    let (halt, depth) = >>_ok (guard_halted d s now) _ guards₁ in
    (
      new_proposal d s r quote pct now,
      ap (λ (x : Store × ProposedTrade × TicketQuote). x.0.proposals) (sym (ok_inj same)),
      record {
        new_id = refl;
        room = room_of s d depth;
        no_repeat = repeat_of s r.source r.ticker repeat;
      },
    )

pub set_created-Adds :
    (d : Desk) (s t : Store) (r : SetRequest) (now : ℕ) {p : ProposedTrade}
    → create_multi_leg_proposal d s r now ≡ ok (t, p)
    → Adds d s t
unfolding create_multi_leg_proposal
set_created-Adds d s t r now {p} h =
    let (guards, rest) = >>_ok (set_guards d s r now) _ h in
    let (pct, sized, same) =
      >>=-eq-ok (guard_market_size d s r.max_loss_cents (tickers_of r.legs) (some r.event_ticker)) _
        rest in
    let (guards₁, repeat) = >>_ok _ (guard_duplicate s r.source r.event_ticker) guards in
    let (guards₂, depth) = >>_ok _ (guard_queue_depth s d.config) guards₁ in
    (
      new_set d s r pct now,
      ap (λ (x : Store × ProposedTrade). x.0.proposals) (sym (ok_inj same)),
      record {
        new_id = refl;
        room = room_of s d depth;
        no_repeat = inr (no_duplicate_of s r.source r.event_ticker repeat);
      },
    )
