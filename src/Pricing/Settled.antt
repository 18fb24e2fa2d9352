-- ===== src/Pricing/Settled.antt =====
-- The worst and the best of a ticket of pricing.py, against what the order that is sent can settle at.
use mathlib.Core.Path.{subst}
use kalshi_copilot.Base.{
  ℕ, ◌*◌, ◌≡◌, refl, sym, ap, Bool, true, false, not, Option, none, some, is_some, or_else, arith,
  if◌then◌else◌,
}
use kalshi_copilot.Base.Int.{
  ℤ, pos, negsuc, ◌+ℤ◌, ◌-ℤ◌, ◌*ℤ◌, negate, leb_ℤ, ◌<ℤ◌, int_laws, linear,
}
use kalshi_copilot.Base.Text.{Text}
use kalshi_copilot.Base.Outcome.{
  Outcome, ok, raise, ◌>>=◌, >>_ok, >>=-eq-ok, raise_if_ok, ok_inj, passed, raise_if,
}
use kalshi_copilot.Domain.{
  Side, yes_side, no_side, Action, buy, sell, other_action, BookSide, ValueError, one,
}
use kalshi_copilot.Settings.{Config}
use kalshi_copilot.Direction.{book_side, signed_contracts, to_yes_price}
use kalshi_copilot.Direction.Economics.{negate-negate}
use kalshi_copilot.Fees.{FeeError, FeeSchedule, is_verified, series_of, fee_fn, Ratio}
use kalshi_copilot.Pricing.{
  is_buy, total_cost, bad_fair_price, bad_action, bad_count, bad_limit_price, unverified_schedule,
  TicketQuote, from_fees, from_direction, known_action, inside, PricingError, order_fee, max_loss,
  max_win, edge_of, ticket, price_ticket,
}

from_fees_ok {ℓ} : {A : Type ℓ} (m : Outcome FeeError A) {a : A} → from_fees m ≡ ok a → m ≡ ok a
from_fees_ok (ok a) h = ground arith
from_fees_ok (raise e) h = cc

from_direction_ok {ℓ} :
    {A : Type ℓ} (m : Outcome ValueError A) {a : A} → from_direction m ≡ ok a → m ≡ ok a
from_direction_ok (ok a) h = ground arith
from_direction_ok (raise e) h = cc

-- What the order that goes out makes at a settlement of YES at `v`, after its fee: the signed
-- position times the move from the price on the wire.
abbrev pub settles_at : TicketQuote → ℤ → Outcome ValueError ℤ
settles_at q v = signed_contracts q.side q.action q.contracts >>= λ d.
    ok (d *ℤ (v -ℤ q.wire_yes_price) -ℤ q.est_fee_cents)

-- The value of YES at which a ticket wins, and the one at which it loses.
abbrev pub winning : Side → Action → ℤ
winning yes_side buy = one
winning yes_side _ = pos 0
winning no_side buy = pos 0
winning no_side _ = one

abbrev pub losing : Side → Action → ℤ
losing side action = one -ℤ winning side action

-- A fair value that is given is a price strictly between nothing and a dollar.
abbrev pub FairValue : Option ℤ → Type 0
FairValue none = Unit
FairValue (some fair) = (pos 0 <ℤ fair) × (fair <ℤ one)

-- What is paid for an order now: the whole of what can be lost on a buy, and on a sell the whole of
-- what can be won, which is received.
abbrev pub paid_now : TicketQuote → ℤ
paid_now q = if is_buy q.action then q.max_loss_cents else negate q.max_win_cents

-- The fields of a quote that say what the order can bring and cost, and where it goes.
pub record Priced (schedule : FeeSchedule) (q : TicketQuote) : Type 0 where
  pub an_action : known_action q.action ≡ true
  pub verified : is_verified schedule ≡ true
  pub some_contracts : pos 0 <ℤ q.contracts
  pub above_nothing : pos 0 <ℤ q.limit_price
  pub below_a_dollar : q.limit_price <ℤ one
  pub fair_value : FairValue q.fair_price
  pub edge_given : is_some q.net_edge_cents ≡ is_some q.fair_price
  pub fee_of_order :
      (f : ℕ) × (fee_fn q.is_taker schedule q.limit_price q.contracts q.series ≡ ok f)
      × (q.est_fee_cents ≡ pos (f * 10000))
  pub best : settles_at q (winning q.side q.action) ≡ ok q.max_win_cents
  pub worst : settles_at q (losing q.side q.action) ≡ ok (negate q.max_loss_cents)
  pub whole_stake : q.max_loss_cents +ℤ q.max_win_cents ≡ one *ℤ q.contracts
  pub cost : q.total_cost_cents ≡ paid_now q

bounds_of : (p : ℤ) → not (inside p) ≡ false → (pos 0 <ℤ p) × (p <ℤ one)
bounds_of p h = ground arith

-- The settlement of an order of `n` hundredths of a contract, as it is computed.
abbrev outcome_at : Side → Action → ℤ → ℕ → ℤ → ℤ → Outcome ValueError ℤ
outcome_at s a p n fee v =
    signed_contracts s a (pos n) >>= λ d. ok (d *ℤ (v -ℤ to_yes_price s p) -ℤ fee)

module _ (p : ℤ) (n : ℕ) (fee : ℤ) where
  best_of :
      (s : Side) (a : Action)
      → known_action a ≡ true
      → outcome_at s a p n fee (winning s a) ≡ ok (max_win a p (pos n) fee)
  unfolding signed_contracts to_yes_price
  best_of yes_side buy h = ap ok (simp linear (omega int_laws))
  best_of yes_side sell h = ap ok (simp linear (omega int_laws))
  best_of no_side buy h = ap ok (simp linear (omega int_laws))
  best_of no_side sell h = ap ok (rw negate-negate (simp linear (omega int_laws)))
  best_of s other_action h = cc

  worst_of :
      (s : Side) (a : Action)
      → known_action a ≡ true
      → outcome_at s a p n fee (losing s a) ≡ ok (negate (max_loss a p (pos n) fee))
  unfolding signed_contracts to_yes_price
  worst_of yes_side buy h = ap ok (simp linear (omega int_laws))
  worst_of yes_side sell h = ap ok (simp linear (omega int_laws))
  worst_of no_side buy h = ap ok (simp linear (omega int_laws))
  worst_of no_side sell h = ap ok (rw negate-negate (simp linear (omega int_laws)))
  worst_of s other_action h = cc

  whole_of : (a : Action) → max_loss a p (pos n) fee +ℤ max_win a p (pos n) fee ≡ one *ℤ pos n
  whole_of buy = simp linear (omega int_laws)
  whole_of sell = simp linear (omega int_laws)
  whole_of other_action = simp linear (omega int_laws)

  cost_of :
      (a : Action)
      → total_cost a p (pos n) fee
        ≡ (if is_buy a then max_loss a p (pos n) fee else negate (max_win a p (pos n) fee))
  cost_of buy = refl
  cost_of sell = simp linear (omega int_laws)
  cost_of other_action = simp linear (omega int_laws)

action_of : (a : Action) → not (known_action a) ≡ false → known_action a ≡ true
action_of buy h = refl
action_of sell h = refl
action_of other_action h = cc

not-false : (b : Bool) → not b ≡ false → b ≡ true
not-false true h = refl
not-false false h = cc

computed_is_some :
    (m : Outcome PricingError Ratio) {edge : Option Ratio}
    → (m >>= λ e. ok (some e)) ≡ ok edge
    → is_some edge ≡ true
computed_is_some (ok e) h = ap is_some (sym (ok_inj h))
computed_is_some (raise e) h = cc

-- The edge that is computed, where a fair value is given, and the check of that value.
edge_of-fair :
    (config : Config) (schedule : FeeSchedule) (action : Action) (price qty : ℤ)
    (series : Option Text) (taker : Bool) (fair_price : Option ℤ) {edge : Option Ratio}
    → edge_of config schedule action price qty series taker fair_price ≡ ok edge
    → FairValue fair_price × (is_some edge ≡ is_some fair_price)
unfolding edge_of
edge_of-fair config schedule action price qty series taker none h =
    (tt, ap is_some (sym (ok_inj h)))
edge_of-fair config schedule action price qty series taker (some fair) h =
    let (checked, rest) = >>_ok (raise_if (not (inside fair)) bad_fair_price) _ h in
    (
      bounds_of fair (raise_if_ok (not (inside fair)) bad_fair_price checked),
      computed_is_some _ rest,
    )

module _ (schedule : FeeSchedule) (ticker : Text) (side : Side) (action : Action) (price : ℤ)
    (category : Option Text) (fair_price : Option ℤ) (taker : Bool) (fee : ℕ) (edge : Option Ratio)
    (wire : BookSide) where
  ticket-Priced :
      (qty : ℤ)
      → leb_ℤ qty (pos 0) ≡ false
      → is_verified schedule ≡ true
      → known_action action ≡ true
      → (pos 0 <ℤ price) × (price <ℤ one)
      → FairValue fair_price × (is_some edge ≡ is_some fair_price)
      → fee_fn taker schedule price qty (series_of (some ticker)) ≡ ok fee
      → Priced schedule
          (ticket ticker side action price qty category fair_price taker fee edge wire)
  ticket-Priced (pos n) counted verified named (low, high) (fair, given) charged = record {
    an_action = named;
    verified = verified;
    some_contracts = ground arith;
    above_nothing = low;
    below_a_dollar = high;
    fair_value = fair;
    edge_given = given;
    fee_of_order = (fee, charged, refl);
    best = best_of price n (order_fee fee) side action named;
    worst = worst_of price n (order_fee fee) side action named;
    whole_stake = whole_of price n (order_fee fee) action;
    cost = cost_of price n (order_fee fee) action;
  }
  ticket-Priced (negsuc n) counted verified named bounds edges charged = absurd (ground arith)

-- A ticket that is priced names an action, a verified fee schedule, some contracts, a limit price and,
-- where one is given, a fair value strictly between nothing and a dollar, and has an edge exactly where
-- a fair value is given. Its largest gain and its largest loss are what the order on the wire makes,
-- after the fee of the order, when the market settles for it and against it, on either side, buying and
-- selling; the two together are a dollar for each contract, and its total cost is the largest loss of a
-- buy and the largest gain of a sell, received.
pub price_ticket-Priced :
    (schedule : FeeSchedule) (ticker : Text) (side : Side) (action : Action) (price qty : ℤ)
    (category : Option Text) (config : Config) (fair_price : Option ℤ) (is_taker : Option Bool)
    {q : TicketQuote}
    → price_ticket schedule ticker side action price qty category config fair_price is_taker ≡ ok q
    → Priced schedule q
unfolding price_ticket
price_ticket-Priced schedule ticker side action price qty category config fair_price is_taker
      quoted =
    let (checks, rest) = >>_ok _ _ quoted in
    let (checks₃, priced) = passed _ (not (inside price)) bad_limit_price checks in
    let (checks₂, counted) = passed _ (leb_ℤ qty (pos 0)) bad_count checks₃ in
    let (check₁, verified) = passed _ (not (is_verified schedule)) unverified_schedule checks₂ in
    let named = action_of action (raise_if_ok (not (known_action action)) bad_action check₁) in
    let taker = or_else is_taker config.costs.assume_taker in
    let series = series_of (some ticker) in
    let (fee, charged, rest₁) =
      >>=-eq-ok (from_fees (fee_fn taker schedule price qty series)) _ rest in
    let (edge, valued, rest₂) =
      >>=-eq-ok (edge_of config schedule action price qty series taker fair_price) _ rest₁ in
    let (wire, sent, same) = >>=-eq-ok (from_direction (book_side side action)) _ rest₂ in
    subst (λ r. Priced schedule r) (ok_inj same)
      (ticket-Priced schedule ticker side action price category fair_price taker fee edge wire qty
        counted (not-false (is_verified schedule) verified) named (bounds_of price priced)
        (edge_of-fair config schedule action price qty series taker fair_price valued)
        (from_fees_ok _ charged))
