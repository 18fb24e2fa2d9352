-- ===== src/Executor/Cancel.antt =====
-- The ends of an order in executor.py: the outcome over the legs of a proposal, the status after the
-- fills, and cancel.
use kalshi_copilot.Base.{
  ℕ, ◌≡◌, refl, ◌⊎◌, inl, inr, ◌↔◌, Bool, true, false, not, Option, none, some, List, [], ◌∷◌,
  arith, if◌then◌else◌, Bool-cases, all, any, is_nil, length, ◌==◌,
}
use kalshi_copilot.Base.Text.{Text}
use kalshi_copilot.Base.Outcome.{Outcome, ok, raise}
use kalshi_copilot.Domain.{partial, canceled}
use kalshi_copilot.Interlocks.{Actor, is_simulated, given}
use kalshi_copilot.Store.{Order, order_canceled, AuditLog}
use kalshi_copilot.Autonomy.{is_working}
use kalshi_copilot.Wire.{Rest, Failure, failure}
use kalshi_copilot.Executor.Legs.{outcome, has_filled, is_rejected, row}

pub data CancelError : Type 0 where
  no_client : CancelError
  api_error : Failure → CancelError

-- 404 says that the order is gone.
abbrev pub is_gone : Failure → Bool
is_gone (failure none) = false
is_gone (failure (some status)) = status == 404

abbrev pub mark_canceled : Order → Actor → ℕ → List AuditLog → Order × List AuditLog
mark_canceled o actor now audit = (
  record o { status = canceled; error = none },
  row now o.ticker actor (order_canceled o.id) ∷ audit,
)

abbrev pub on_cancel :
    Order
    → Actor
    → ℕ
    → List AuditLog
    → Outcome Failure (Unit {0})
    → Outcome CancelError (Order × List AuditLog)
on_cancel o actor now audit (ok done) = ok (mark_canceled o actor now audit)
on_cancel o actor now audit (raise e) =
    if is_gone e then ok (mark_canceled o actor now audit) else raise (api_error e)

abbrev pub cancel_at :
    Option Rest
    → Order
    → Actor
    → ℕ
    → List AuditLog
    → Option Text
    → Outcome CancelError (Order × List AuditLog)
cancel_at rest o actor now audit none = ok (mark_canceled o actor now audit)
cancel_at none o actor now audit (some id) = raise no_client
cancel_at (some rest) o actor now audit (some id) =
    on_cancel o actor now audit (rest.cancel_order id)

-- `cancel`: the order and the audit log after it.
unfoldable pub cancel :
    Option Rest → Order → Actor → ℕ → List AuditLog → Outcome CancelError (Order × List AuditLog)
cancel rest o actor now audit =
    if is_working o.status
    then (if is_simulated o.route
        then ok (mark_canceled o actor now audit)
        else cancel_at rest o actor now audit (given o.exchange_order_id))
    else ok (o, audit)

-- The exchange does not hold the order: it never had it, it said so, or it does not know it.
abbrev pub NotHeld : Option Rest → Order → Type 0
NotHeld rest o =
    (is_simulated o.route ≡ true)
    ⊎ (given o.exchange_order_id ≡ none)
    ⊎ ((r : Rest) × (id : Text) × (rest ≡ some r)
        × (given o.exchange_order_id ≡ some id)
        × ((r.cancel_order id ≡ ok tt)
            ⊎ ((e : Failure) × (r.cancel_order id ≡ raise e) × (is_gone e ≡ true))))

cancel_at-NotHeld :
    (rest : Option Rest) (o : Order) (actor : Actor) (now : ℕ) (audit : List AuditLog)
    (id : Option Text) {done : Order × List AuditLog}
    → given o.exchange_order_id ≡ id
    → cancel_at rest o actor now audit id ≡ ok done
    → NotHeld rest o
cancel_at-NotHeld rest o actor now audit none e h = inr (inl e)
cancel_at-NotHeld none o actor now audit (some id) e h = cc
cancel_at-NotHeld (some r) o actor now audit (some id) e h =
    inr (inr (r, id, refl, e, answered (r.cancel_order id) h))
  where
    answered :
        (m : Outcome Failure (Unit {0})) {done : Order × List AuditLog}
        → on_cancel o actor now audit m ≡ ok done
        → (m ≡ ok tt) ⊎ ((e : Failure) × (m ≡ raise e) × (is_gone e ≡ true))
    answered (ok tt) h = inl refl
    answered (raise e) h = elim (Bool-cases (is_gone e)) [
      | inl gone ↦ inr (e, refl, gone)
      | inr unknown ↦ let refused = rw unknown at h in cc
    ]

-- A cancel of an order that was working returns only where the exchange does not hold it: a
-- simulated order, one with no exchange ID, one that the exchange has cancelled, or one that it
-- answers 404 for.
pub cancel-NotHeld :
    (rest : Option Rest) (o : Order) (actor : Actor) (now : ℕ) (audit : List AuditLog)
    {done : Order × List AuditLog}
    → is_working o.status ≡ true
    → cancel rest o actor now audit ≡ ok done
    → NotHeld rest o
unfolding cancel
cancel-NotHeld rest o actor now audit working h = elim (Bool-cases (is_simulated o.route)) [
  | inl local ↦ inl local
  | inr remote ↦
      cancel_at-NotHeld rest o actor now audit (given o.exchange_order_id) refl
        (rw (working, remote) at h)
]

module _ {A : Type 0} (p : A → Bool) where
  not-all : (xs : List A) → all p xs ≡ false → any (λ x. not (p x)) xs ≡ true
  not-all [] h = cc
  not-all (x ∷ xs) h = ground (arith, not-all xs)

  not-all_of : (xs : List A) → any (λ x. not (p x)) xs ≡ true → all p xs ≡ false
  not-all_of [] h = cc
  not-all_of (x ∷ xs) h = ground (arith, not-all_of xs)

  not_none : (xs : List A) → all (λ x. not (p x)) xs ≡ false → any p xs ≡ true
  not_none [] h = cc
  not_none (x ∷ xs) h = ground (arith, not_none xs)

  not_none_of : (xs : List A) → any p xs ≡ true → all (λ x. not (p x)) xs ≡ false
  not_none_of [] h = cc
  not_none_of (x ∷ xs) h = ground (arith, not_none_of xs)

  two_kinds :
      (xs : List A)
      → any p xs ≡ true
      → any (λ x. not (p x)) xs ≡ true
      → (is_nil xs ≡ false) × ((length xs == 1) ≡ false)
  two_kinds [] h k = cc
  two_kinds (x ∷ []) h k = absurd (ground arith)
  two_kinds (x ∷ y ∷ xs) h k = (refl, ground arith)

outcome_only :
    (orders : List Order)
    → outcome orders ≡ partial
    → (all (λ (o : Order). is_rejected o.status) orders ≡ false)
      × (all has_filled orders ≡ false)
      × (all (λ (o : Order). not (has_filled o)) orders ≡ false)
unfolding outcome
outcome_only orders h = ground arith

outcome_when :
    (orders : List Order)
    → is_nil orders ≡ false
    → all (λ (o : Order). is_rejected o.status) orders ≡ false
    → (length orders == 1) ≡ false
    → all has_filled orders ≡ false
    → all (λ (o : Order). not (has_filled o)) orders ≡ false
    → outcome orders ≡ partial
unfolding outcome
outcome_when orders a b c d e = rw (a, b, c, d, e) refl

-- A proposal is reported as partial exactly when some leg has filled and some leg has not, unless
-- every leg was rejected.
pub outcome_partial :
    (orders : List Order)
    → (outcome orders ≡ partial) ↔ (
        (any has_filled orders ≡ true)
        × (any (λ (o : Order). not (has_filled o)) orders ≡ true)
        × (all (λ (o : Order). is_rejected o.status) orders ≡ false))
outcome_partial orders = (
  λ h.
      let (accepted, some_not, some_filled) = outcome_only orders h in
      (not_none has_filled orders some_filled, not-all has_filled orders some_not, accepted),
  λ (some_filled, some_not, accepted).
      let (one_at_least, not_one) = two_kinds has_filled orders some_filled some_not in
      outcome_when orders one_at_least accepted not_one (not-all_of has_filled orders some_not)
        (not_none_of has_filled orders some_filled),
)
