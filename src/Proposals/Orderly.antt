-- ===== src/Proposals/Orderly.antt =====
-- The order of the queue of proposals.py after a creation, and after any sequence of operations.
use mathlib.Core.Path.{subst}
use kalshi_copilot.Base.{
  ℕ, suc, ◌≡◌, refl, sym, ◌⊎◌, inl, inr, ◌≤◌, ◌<◌, Bool, true, false, not, ◌&&◌, ◌||◌, Option, none,
  some, List, [], ◌∷◌, ◌++◌, any, find, leb, All, All-append, Bool-cases, ◌==◌, arith,
}
use kalshi_copilot.Base.Text.{Text, text_eq}
use kalshi_copilot.Domain.{is_pending}
use kalshi_copilot.Interlocks.{ProposedTrade}
use kalshi_copilot.Store.{Store}
use kalshi_copilot.Exposure.{same_event}
use kalshi_copilot.Executor.Approval.{is_proposal}
use kalshi_copilot.Proposals.{Desk, is_duplicate, last_proposal, is_manual}
use kalshi_copilot.Proposals.Rows.{Unique, KeptAll-count, KeptAll-decided}
use kalshi_copilot.Proposals.Lifecycle.{Step, Steps, at_rest, then_step, key_of, Adds}
use kalshi_copilot.Proposals.Queue.{
  pending_count, names_event, repeats, NoRepeats, IsOrderly, step-Change, KeptAll-Unique,
  KeptAll-NoRepeats,
}

ids_below :
    (n : ℕ) (ps : List ProposedTrade)
    → last_proposal ps < n
    → All (λ (q : ProposedTrade). q.id < n) ps
ids_below n [] h = tt
ids_below n (p ∷ ps) h = (omega arith, ids_below n ps (omega arith))

Unique-append :
    (p : ProposedTrade) (ps : List ProposedTrade)
    → All (λ (q : ProposedTrade). q.id < p.id) ps
    → Unique ps
    → Unique (ps ++ p ∷ [])
Unique-append p [] h u = (tt, tt)
Unique-append p (q ∷ qs) (below, h) (fresh, u) = (
  All-append (λ (r : ProposedTrade). (r.id == q.id) ≡ false) qs (p ∷ []) fresh (ground arith, tt),
  Unique-append p qs h u,
)

-- A row that the guard on duplicates has let in repeats none.
any-false :
    (f : ProposedTrade → Bool) (p : ProposedTrade) (ps : List ProposedTrade)
    → any f (p ∷ ps) ≡ false
    → (f p ≡ false) × (any f ps ≡ false)
any-false f p ps h = ground arith

same_event_names :
    (e : ProposedTrade) (key : Text) → same_event (some key) e.event_ticker ≡ names_event e key
same_event_names e key = by_event e.event_ticker
  where
    by_event :
        (event : Option Text)
        → same_event (some key) event ≡ (elim event [ none ↦ false | some t ↦ text_eq t key ])
    by_event none = refl
    by_event (some t) = refl

not_repeated :
    (p e : ProposedTrade) → is_duplicate p.source (key_of p) e ≡ false → repeats e p ≡ false
not_repeated p e h =
    dropped (is_pending e.status) (is_pending p.status) (not (is_manual p.source))
      (text_eq p.source e.source) (names_event e (key_of p) || text_eq (key_of p) e.ticker)
      (rw (sym (same_event_names e (key_of p))) h)
  where
    dropped : (a b c t k : Bool) → (a && (t && k)) ≡ false → (a && (b && (c && (t && k)))) ≡ false
    dropped a b c t k h = ground arith

admitted_repeats :
    (p : ProposedTrade) (ps : List ProposedTrade)
    → (is_manual p.source ≡ true) ⊎ (any (is_duplicate p.source (key_of p)) ps ≡ false)
    → All (λ (e : ProposedTrade). repeats e p ≡ false) ps
admitted_repeats p [] h = tt
admitted_repeats p (e ∷ rest) (inl manual) = (
  rw manual (ends (is_pending e.status) (is_pending p.status)),
  admitted_repeats p rest (inl manual),
)
  where
    ends : (a b : Bool) → (a && (b && false)) ≡ false
    ends a b = ground arith
admitted_repeats p (e ∷ rest) (inr fresh) =
    let (here, there) = any-false (is_duplicate p.source (key_of p)) e rest fresh in
    (not_repeated p e here, admitted_repeats p rest (inr there))

NoRepeats-append :
    (p : ProposedTrade) (ps : List ProposedTrade)
    → All (λ (e : ProposedTrade). repeats e p ≡ false) ps
    → NoRepeats ps
    → NoRepeats (ps ++ p ∷ [])
NoRepeats-append p [] h n = (tt, tt)
NoRepeats-append p (q ∷ qs) (new, h) (old, n) = (
  All-append (λ (r : ProposedTrade). repeats q r ≡ false) qs (p ∷ []) old (new, tt),
  NoRepeats-append p qs h n,
)

pending_count-append :
    (p : ProposedTrade) (ps : List ProposedTrade)
    → pending_count (ps ++ p ∷ []) ≤ suc (pending_count ps)
pending_count-append p [] = ground arith
pending_count-append p (q ∷ qs) = ground (arith, pending_count-append p qs)

Adds-IsOrderly :
    (d : Desk) (s t : Store) → IsOrderly d s.proposals → Adds d s t → IsOrderly d t.proposals
Adds-IsOrderly d s t o (p, rows, a) =
    subst (λ (ps : List ProposedTrade). IsOrderly d ps) (sym rows)
      (record {
        unique =
            Unique-append p s.proposals (ids_below p.id s.proposals (rw a.new_id (omega arith)))
              o.unique;
        bounded =
            omega (
              arith,
              pending_count-append p s.proposals,
              room (pending_count s.proposals) _ a.room,
            );
        no_repeats =
            NoRepeats-append p s.proposals (admitted_repeats p s.proposals a.no_repeat)
              o.no_repeats;
      })
  where
    room : (n k : ℕ) → leb k n ≡ false → n < k
    room n k h = ground arith

step-IsOrderly :
    (d : Desk) (s t : Store) → IsOrderly d s.proposals → Step d s t → IsOrderly d t.proposals
step-IsOrderly d s t o step = elim (step-Change d s t o.unique step) [
  | inr adds ↦ Adds-IsOrderly d s t o adds
  | inl kept ↦ record {
    unique = KeptAll-Unique s.proposals t.proposals kept o.unique;
    bounded = omega (arith, KeptAll-count s.proposals t.proposals kept, o.bounded);
    no_repeats = KeptAll-NoRepeats s.proposals t.proposals kept o.no_repeats;
  }
]

-- On a queue that is in order, through any sequence of creations, expiries, rejections and approvals,
-- in any order and by anyone, the queue of a desk never holds more pending proposals than `max_pending_proposals`, no two rows
-- share an id, and of two pending proposals of one detector the later is about neither the event nor
-- the first market of the earlier. What a proposal is about is its event, or its first market where it
-- names no event; the later legs of a set are not compared.
pub steps-IsOrderly :
    (d : Desk) (s t : Store) → IsOrderly d s.proposals → Steps d s t → IsOrderly d t.proposals
steps-IsOrderly d s _ o (at_rest _) = o
steps-IsOrderly d s t o (then_step {t = mid} steps step) =
    step-IsOrderly d mid t (steps-IsOrderly d s mid o steps) step

find-append :
    (id : ℕ) (ps qs : List ProposedTrade) {p : ProposedTrade}
    → find (is_proposal id) ps ≡ some p
    → find (is_proposal id) (ps ++ qs) ≡ some p
find-append id [] qs h = cc
find-append id (r ∷ rest) qs h = elim (Bool-cases (is_proposal id r)) [
  | inl here ↦ rw here (rw here at h)
  | inr later ↦ rw later (find-append id rest qs (rw later at h))
]

-- A decision is final: once the row of a proposal is not pending, every sequence of creations,
-- expiries, rejections and approvals leaves that row exactly as it is.
pub steps-decided :
    (d : Desk) (s t : Store) (id : ℕ) {r : ProposedTrade}
    → IsOrderly d s.proposals
    → find (is_proposal id) s.proposals ≡ some r
    → is_pending r.status ≡ false
    → Steps d s t
    → find (is_proposal id) t.proposals ≡ some r
steps-decided d s _ id o found decided (at_rest _) = found
steps-decided d s t id {r} o found decided (then_step {t = mid} steps step) =
    let before = steps-decided d s mid id o found decided steps in
    elim (step-Change d mid t (steps-IsOrderly d s mid o steps).unique step) [
      | inl kept ↦ KeptAll-decided id mid.proposals t.proposals kept before decided
      | inr (p, rows, a) ↦
          subst (λ (ps : List ProposedTrade). find (is_proposal id) ps ≡ some r) (sym rows)
            (find-append id mid.proposals (p ∷ []) before)
    ]
