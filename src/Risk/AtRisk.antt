-- ===== src/Risk/AtRisk.antt =====
-- What risk.py measures, read off the tables in another way: the day, the capital at risk, the closes.
use kalshi_copilot.Base.{
  ℕ, ◌+◌, ◌*◌, ◌≡◌, refl, sym, ap, ◌⊎◌, inl, inr, ◌↔◌, ◌≤◌, ◌<◌, Bool, true, false, not, ◌&&◌, ◌||◌,
  Option, none, some, List, [], ◌∷◌, if◌then◌else◌, any, find, or_else, is_nil, leb, ◌==◌, map,
  select, count_if, Bool-cases, arith,
}
use kalshi_copilot.Base.Int.{ℤ, pos, ◌+ℤ◌, ◌-ℤ◌, scale, negate, eqb_ℤ}
use kalshi_copilot.Base.Text.{Text, text_eq}
use kalshi_copilot.Domain.{is_pending}
use kalshi_copilot.Settings.{Config}
use kalshi_copilot.Interlocks.{ExecutionRoute, same_route, given, ProposedTrade}
use kalshi_copilot.Fees.{Ratio}
use kalshi_copilot.Positions.{whole}
use kalshi_copilot.Ledger.{Position, PnlDaily, add_amount, date, is_day, new_day}
use kalshi_copilot.Store.{Store}
use kalshi_copilot.Exposure.{
  position_cost_cents, sum_costs, sum_losses, same_event, listed, other_than, market_exposure_cents,
}
use kalshi_copilot.Risk.{
  is_loss, consecutive_losses, daily_net_cents, Close, recent_closes, amounts, recent_losses,
  cooldown_end, snapshot,
}
use kalshi_copilot.Risk.Streak.{before_gain, consecutive_losses-before_gain}

-- The sum of amounts, and of whole amounts.
abbrev pub total : List Ratio → Ratio
total [] = whole (pos 0)
total (a ∷ rest) = add_amount a (total rest)

abbrev pub total_ℤ : List ℤ → ℤ
total_ℤ [] = pos 0
total_ℤ (z ∷ rest) = z +ℤ total_ℤ rest

abbrev pub cost_of : Position → Ratio
cost_of p = position_cost_cents p.net_contracts p.avg_price

abbrev pub loss_of : ProposedTrade → ℤ
loss_of p = or_else p.max_loss_cents (pos 0)

abbrev pub of_event : Option Text → Option Text → Bool
of_event (some e) (some f) = not (is_nil e) && text_eq f e
of_event _ _ = false

abbrev pub not_excluded : Option ℕ → ℕ → Bool
not_excluded (some excluded) id = not (id == excluded)
not_excluded none id = true

-- What is realised in a day on a route, after its fees.
abbrev pub net_of : PnlDaily → Ratio
net_of r = record {
  numerator =
      r.realized_pnl_cents.numerator -ℤ scale r.realized_pnl_cents.denominator r.fees_paid_cents;
  denominator = r.realized_pnl_cents.denominator;
}

abbrev pub net_on_record : Option PnlDaily → Ratio
net_on_record none = whole (pos 0)
net_on_record (some r) = net_of r

abbrev pub net_today : Store → ExecutionRoute → ℕ → Ratio
net_today s route now =
    net_on_record
      (find (λ (d : PnlDaily). (date now == d.day) && same_route route d.route) s.books.pnl_daily)

-- The cost of every open position on a route.
abbrev pub open_cost : Store → ExecutionRoute → Ratio
open_cost s route = total (
    map cost_of (
      select (λ (p : Position). same_route route p.route && not (eqb_ℤ p.net_contracts (pos 0)))
        s.books.positions))

-- The cost of the open positions in some markets on a route, and the largest losses of the pending
-- proposals, but for one, whose first market is one of these or whose event is the one given.
abbrev pub at_risk : Store → ExecutionRoute → List Text → Option Text → Option ℕ → Ratio
at_risk s route tickers event_ticker excluded =
    add_amount
      (total (
        map cost_of (
          select
            (λ (p : Position).
              (same_route route p.route && not (eqb_ℤ p.net_contracts (pos 0)))
              && any (text_eq p.ticker) tickers)
            s.books.positions)))
      (whole (
        total_ℤ (
          map loss_of (
            select
              (λ (p : ProposedTrade).
                is_pending p.status
                && ((any (text_eq p.ticker) tickers || of_event event_ticker p.event_ticker)
                    && not_excluded excluded p.id))
              s.proposals))))

-- No pause is running: no loss comes before the newest gain, or too few do, or the pause since the
-- newest close is over.
abbrev pub Rested : Config → ℕ → List Close → Type 0
Rested config now [] = Unit
Rested config now (newest ∷ rest) =
    (count_if is_loss (before_gain (amounts (newest ∷ rest))) ≡ 0)
    ⊎ (count_if is_loss (before_gain (amounts (newest ∷ rest)))
        < config.risk.cooldown_after_consecutive_losses)
    ⊎ (newest.0 + config.risk.cooldown_minutes * 60000000 ≤ now)

pub daily_net_cents_lem :
    (s : Store) (config : Config) (route : ExecutionRoute) (now : ℕ)
    → daily_net_cents (snapshot s config route now) ≡ net_today s route now
unfolding snapshot ◌-ℤ◌ ◌+ℤ◌ scale negate
daily_net_cents_lem s config route now = of_row (find (is_day (date now) route) s.books.pnl_daily)
  where
    of_row : (o : Option PnlDaily) → net_of (or_else o (new_day (date now) route)) ≡ net_on_record o
    of_row none = refl
    of_row (some r) = refl

sum_costs_lem :
    (f : Position → Bool) (ps : List Position) → sum_costs f ps ≡ total (map cost_of (select f ps))
sum_costs_lem f [] = refl
sum_costs_lem f (p ∷ ps) = elim (Bool-cases (f p)) [
  | inl counted ↦ rw counted (ap (λ a. add_amount (cost_of p) a) (sum_costs_lem f ps))
  | inr skipped ↦ rw skipped (sum_costs_lem f ps)
]

sum_losses_lem :
    (f g : ProposedTrade → Bool) (ps : List ProposedTrade)
    → ((p : ProposedTrade) → (is_pending p.status && f p) ≡ g p)
    → sum_losses f ps ≡ total_ℤ (map loss_of (select g ps))
sum_losses_lem f g [] same = refl
sum_losses_lem f g (p ∷ ps) same = elim (Bool-cases (g p)) [
  | inl counted ↦ rw (same p, counted) (ap (λ z. loss_of p +ℤ z) (sum_losses_lem f g ps same))
  | inr skipped ↦ rw (same p, skipped) (sum_losses_lem f g ps same)
]

same_event_lem : (e f : Option Text) → same_event (given e) f ≡ of_event e f
same_event_lem none f = refl
same_event_lem (some e) none = elim (Bool-cases (is_nil e)) [
  | inl empty ↦ rw empty refl
  | inr named ↦ rw named refl
]
same_event_lem (some e) (some f) = elim (Bool-cases (is_nil e)) [
  | inl empty ↦ rw empty refl
  | inr named ↦ rw named refl
]

pub exposure_cents_lem :
    (s : Store) (config : Config) (route : ExecutionRoute) (now : ℕ)
    → (snapshot s config route now).exposure_cents ≡ open_cost s route
unfolding snapshot
exposure_cents_lem s config route now = sum_costs_lem _ s.books.positions

pub market_exposure_cents_lem :
    (s : Store) (route : ExecutionRoute) (t : Text) (ts : List Text) (event_ticker : Option Text)
    (excluded : Option ℕ)
    → market_exposure_cents s route (t ∷ ts) event_ticker excluded
      ≡ at_risk s route (t ∷ ts) event_ticker excluded
unfolding market_exposure_cents
market_exposure_cents_lem s route t ts event_ticker excluded = cc (
  sum_costs_lem
      (λ (p : Position).
        (same_route route p.route && not (eqb_ℤ p.net_contracts (pos 0)))
        && any (text_eq p.ticker) (t ∷ ts))
      s.books.positions,
  sum_losses_lem _ _ s.proposals (λ p. same p excluded),
)
  where
    same :
        (p : ProposedTrade) (excluded : Option ℕ)
        → (is_pending p.status
            && ((listed (t ∷ ts) p.ticker || same_event (given event_ticker) p.event_ticker)
                && other_than excluded p.id))
          ≡ (is_pending p.status
              && ((any (text_eq p.ticker) (t ∷ ts) || of_event event_ticker p.event_ticker)
                  && not_excluded excluded p.id))
    same p none = rw (same_event_lem event_ticker p.event_ticker) refl
    same p (some id) = rw (same_event_lem event_ticker p.event_ticker) refl

abbrev pub CooledDown : Option ℕ → ℕ → Type 0
CooledDown none now = Unit
CooledDown (some t) now = t ≤ now

-- The end of the pause, by the length of the streak.
pause_over :
    (config : Config) (streak t now : ℕ)
    → CooledDown (cooldown_end config (if streak == 0 then (0, none) else (streak, some t))) now ↔ (
        (streak ≡ 0)
        ⊎ (streak < config.risk.cooldown_after_consecutive_losses)
        ⊎ (t + config.risk.cooldown_minutes * 60000000 ≤ now))
pause_over config streak t now = elim (Bool-cases (streak == 0)) [
  | inl zero ↦ (λ h. inl (ground arith), λ h. rw zero tt)
  | inr counted ↦ elim (Bool-cases (leb config.risk.cooldown_after_consecutive_losses streak)) [
    | inl enough ↦
        (λ h. inr (inr (rw (counted, enough) at h)), λ h. rw (counted, enough) (ground arith))
    | inr few ↦ (λ h. inr (inl (ground arith)), λ h. rw (counted, few) tt)
  ]
]

pub recent_losses_lem :
    (s : Store) (config : Config) (route : ExecutionRoute) (now : ℕ)
    → CooledDown (cooldown_end config (recent_losses s route)) now
      ↔ Rested config now (recent_closes s route)
unfolding recent_losses
recent_losses_lem s config route now = of_closes (recent_closes s route)
  where
    of_closes :
        (closes : List Close)
        → CooledDown
            (cooldown_end config (elim closes [
              | [] ↦ (0, none)
              | newest ∷ rest ↦
                  let streak = consecutive_losses (amounts (newest ∷ rest)) in
                  if streak == 0 then (0, none) else (streak, some newest.0)
            ]))
            now
          ↔ Rested config now closes
    of_closes [] = (λ h. tt, λ h. tt)
    of_closes (newest ∷ rest) =
        rw (sym (consecutive_losses-before_gain (amounts (newest ∷ rest))))
          (pause_over config (consecutive_losses (amounts (newest ∷ rest))) newest.0 now)
