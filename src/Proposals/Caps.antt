-- ===== src/Proposals/Caps.antt =====
-- The cap on one market, at the creation of a proposal in proposals.py.
use mathlib.Core.Path.{subst}
use native.Mathlib.Nat.{mul-one as mul_one}
use kalshi_copilot.Base.{
  ℕ, ◌*◌, ◌≡◌, refl, sym, ap, ◌∙◌, inl, inr, Bool, true, false, ◌&&◌, ◌||◌, ◌<◌, Option, none, some,
  List, [], ◌∷◌, ◌++◌, leb, or_else, Bool-cases, arith,
}
use kalshi_copilot.Base.Int.{ℤ, pos, ◌+ℤ◌, scale, int_laws, scale-+ℤ, +ℤ_assoc}
use kalshi_copilot.Base.Text.{Text, text_eq_refl}
use kalshi_copilot.Base.Outcome.{ok, >>_ok, >>=-eq-ok, ok_inj, raise_if, raise_if_ok}
use kalshi_copilot.Domain.{is_pending}
use kalshi_copilot.Fees.{Ratio}
use kalshi_copilot.Interlocks.{ExecutionRoute, Actor, given, ProposedTrade}
use kalshi_copilot.Positions.{whole}
use kalshi_copilot.Ledger.{add_amount}
use kalshi_copilot.Store.{ProposalLeg, Store}
use kalshi_copilot.Exposure.{
  sum_losses, sum_costs, listed, same_event, other_than, holds, market_exposure_cents,
}
use kalshi_copilot.Risk.{active_route, over}
use kalshi_copilot.Risk.AtRisk.{at_risk, market_exposure_cents_lem}
use kalshi_copilot.Risk.Thresholds.{AtMost, not_over}
use kalshi_copilot.Pricing.{TicketQuote}
use kalshi_copilot.Proposals.{
  Desk, Request, committed, exceeds_market_limit, guard_market_size, quote_for, added, new_proposal,
  only_leg, single_guards, create_proposal,
}

sum_losses-append :
    (f : ProposedTrade → Bool) (p : ProposedTrade) (ps : List ProposedTrade)
    → (is_pending p.status && f p) ≡ true
    → sum_losses f (ps ++ p ∷ []) ≡ sum_losses f ps +ℤ or_else p.max_loss_cents (pos 0)
sum_losses-append f p [] h = rw h (omega int_laws)
sum_losses-append f p (q ∷ qs) h = elim (Bool-cases (is_pending q.status && f q)) [
  | inl counted ↦ rw counted (
      ap (λ z. or_else q.max_loss_cents (pos 0) +ℤ z) (sum_losses-append f p qs h)
      ∙ sym (+ℤ_assoc _ _ _))
  | inr skipped ↦ rw skipped (sum_losses-append f p qs h)
]

scale_one : (z : ℤ) → scale 1 z ≡ z
scale_one z = omega int_laws

-- An amount and then another is their sum.
add_twice :
    (c : Ratio) (l m : ℤ)
    → add_amount (add_amount c (whole l)) (whole m) ≡ add_amount c (whole (l +ℤ m))
unfolding add_amount
add_twice c l m =
    let above : scale 1 (scale 1 c.numerator +ℤ scale c.denominator l)
          +ℤ scale (c.denominator * 1) m
        ≡ scale 1 c.numerator +ℤ scale c.denominator (l +ℤ m) =
      simp (scale-+ℤ, scale_one, mul_one) (+ℤ_assoc _ _ _) in
    let below : c.denominator * 1 * 1 ≡ c.denominator * 1 = omega arith in cc (above, below)

-- A pending proposal on a market counts in full towards its exposure.
exposure_added :
    (s : Store) (route : ExecutionRoute) (ticker : Text) (rest : List Text)
    (event_ticker : Option Text) (p : ProposedTrade) (legs : List ProposalLeg) (actor : Actor)
    (now : ℕ)
    → is_pending p.status ≡ true
    → p.ticker ≡ ticker
    → market_exposure_cents (added p legs actor now s) route (ticker ∷ rest) event_ticker none
      ≡ add_amount
          (market_exposure_cents s route (ticker ∷ rest) event_ticker none)
          (whole (or_else p.max_loss_cents (pos 0)))
unfolding market_exposure_cents
exposure_added s route ticker rest event_ticker p legs actor now pending own =
    let counts : (is_pending p.status
          && ((listed (ticker ∷ rest) p.ticker || same_event (given event_ticker) p.event_ticker)
              && other_than none p.id))
        ≡ true =
      rw pending (rw own (rw (text_eq_refl ticker) refl)) in
    let costs =
      sum_costs (λ q. holds route q && listed (ticker ∷ rest) q.ticker) s.books.positions in
    ap (λ z. add_amount costs (whole z)) (sum_losses-append _ p s.proposals counts)
    ∙ sym (add_twice costs _ _)

-- What the guard on the size of a market has established on a route.
size_guarded :
    (d : Desk) (s : Store) (route : ExecutionRoute) (m : ℤ) (tickers : List Text)
    (event_ticker : Option Text) {pct : Ratio}
    → active_route d.files d.settings d.config ≡ some route
    → 0 < d.config.risk.bankroll_cents
    → guard_market_size d s (some m) tickers event_ticker ≡ ok pct
    → AtMost
        (add_amount (market_exposure_cents s route tickers event_ticker none) (whole m))
        (d.config.risk.bankroll_cents * d.config.risk.max_pct_per_market)
unfolding guard_market_size
size_guarded d s route m tickers event_ticker active funded h =
    let some_bankroll : leb d.config.risk.bankroll_cents 0 ≡ false = ground arith in
    let limit = d.config.risk.bankroll_cents * d.config.risk.max_pct_per_market in
    let measured = λ (o : Option ExecutionRoute).
      over (add_amount (committed s tickers event_ticker o) (whole m)) limit in
    let (checked, rest) =
      >>_ok (raise_if (measured (active_route d.files d.settings d.config)) exceeds_market_limit) _
        (rw some_bankroll at h) in
    let within : measured (some route) ≡ false =
      sym (ap measured active) ∙ raise_if_ok _ exceeds_market_limit checked in
    not_over _ limit within

-- A proposal that is created on a desk with a bankroll and a route leaves its market within the cap:
-- the cost of what is held in the market on that route, and the largest losses of the pending
-- proposals whose first market it is, the new one included, are together at most the share of the
-- bankroll that one market may take; a pending set with the market among its later legs is not
-- counted.
pub create_proposal-AtMost :
    (d : Desk) (s t : Store) (r : Request) (now : ℕ) (route : ExecutionRoute) {p : ProposedTrade}
    {q : TicketQuote}
    → active_route d.files d.settings d.config ≡ some route
    → 0 < d.config.risk.bankroll_cents
    → create_proposal d s r now ≡ ok (t, p, q)
    → AtMost
        (at_risk t route (r.ticker ∷ []) none none)
        (d.config.risk.bankroll_cents * d.config.risk.max_pct_per_market)
unfolding create_proposal
create_proposal-AtMost d s t r now route active funded h =
    let limit = d.config.risk.bankroll_cents * d.config.risk.max_pct_per_market in
    let (quote, quoted, rest) = >>=-eq-ok (quote_for d r) _ h in
    let (guards, rest₁) = >>_ok (single_guards d s r now) _ rest in
    let (pct, sized, same) =
      >>=-eq-ok (guard_market_size d s (some quote.max_loss_cents) (r.ticker ∷ []) none) _ rest₁ in
    let within =
      size_guarded d s route quote.max_loss_cents (r.ticker ∷ []) none active funded sized in
    let new = new_proposal d s r quote pct now in
    let stored = ap (λ (x : Store × ProposedTrade × TicketQuote). x.0) (ok_inj same) in
    subst (λ (a : Ratio). AtMost a limit) (market_exposure_cents_lem t route r.ticker [] none none)
      (subst (λ (u : Store). AtMost (market_exposure_cents u route (r.ticker ∷ []) none none) limit)
        stored
        (subst (λ (a : Ratio). AtMost a limit)
          (sym (
            exposure_added s route r.ticker [] none new (only_leg new r quote ∷ []) r.actor now refl
              refl))
          within))
