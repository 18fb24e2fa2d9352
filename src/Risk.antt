-- ===== src/Risk.antt =====
-- backend/app/trading/risk.py: the limits on the whole portfolio, measured at approval.
-- Money is in microcents: whole cents times a fraction in millionths, or microdollars times hundredths
-- of a contract. A sum of quotients is kept as one.
pub mod AtRisk
pub mod Limits
pub mod Streak
pub mod Thresholds
pub mod Worst
mod Tests
use kalshi_copilot.Base.{
  ℕ, zero, suc, ◌+◌, ◌*◌, Bool, true, false, not, ◌&&◌, ◌||◌, Option, none, some, List, [], ◌∷◌,
  ◌++◌, if◌then◌else◌, any, find, or_else, is_nil, ltb, leb, ◌==◌, take,
}
use kalshi_copilot.Base.Int.{ℤ, pos, ◌+ℤ◌, ◌-ℤ◌, abs, scale, negate, ltb_ℤ, leb_ℤ, eqb_ℤ}
use kalshi_copilot.Base.Text.{Text, text_eq}
use kalshi_copilot.Base.Outcome.{Outcome, ok, raise, ◌>>=◌, ◌>>◌, raise_if}
use kalshi_copilot.Domain.{ProposalStatus, is_pending, one}
use kalshi_copilot.Settings.{
  Settings, Files, Config, Refusal, daily_loss_limit, loss_cooldown, exceeds_total_exposure,
  exceeds_market_limit,
}
use kalshi_copilot.Interlocks.{ExecutionRoute, same_route, given, ProposedTrade, resolve_route}
use kalshi_copilot.Fees.{Ratio}
use kalshi_copilot.Positions.{whole}
use kalshi_copilot.Ledger.{
  Position, Fill, Settlement, PnlDaily, Books, add_amount, date, is_day, new_day,
}
use kalshi_copilot.Store.{Order, Store}
use kalshi_copilot.Exposure.{sum_costs, sum_losses, holds, market_exposure_cents}

-- A realised amount below, and above, zero.
abbrev pub is_loss : Ratio → Bool
is_loss r = ltb_ℤ r.numerator (pos 0)

abbrev pub is_gain : Ratio → Bool
is_gain r = ltb_ℤ (pos 0) r.numerator

unfoldable pub consecutive_losses : List Ratio → ℕ
consecutive_losses [] = 0
consecutive_losses (value ∷ rest) =
    let streak = consecutive_losses rest in
    if is_loss value then suc streak else if is_gain value then 0 else streak

pub record RiskState : Type 0 where
  pub route : ExecutionRoute
  pub bankroll_cents : ℕ
  pub exposure_cents : Ratio
  pub pending_cents : ℤ
  pub exposure_limit_cents : ℕ
  pub daily_realized_cents : Ratio
  pub daily_fees_cents : ℤ
  pub daily_loss_limit_cents : ℕ
  pub losing_streak : ℕ
  pub cooldown_until : Option ℕ
  pub now : ℕ

-- `daily_net_cents`
abbrev pub daily_net_cents : RiskState → Ratio
daily_net_cents st = record {
  numerator =
      st.daily_realized_cents.numerator
      -ℤ scale st.daily_realized_cents.denominator st.daily_fees_cents;
  denominator = st.daily_realized_cents.denominator;
}

-- `daily_net_cents <= -daily_loss_limit_cents`, multiplied out.
abbrev pub daily_loss_breached : RiskState → Bool
daily_loss_breached st =
    if leb st.daily_loss_limit_cents 0
    then false
    else leb_ℤ (daily_net_cents st).numerator
        (negate (pos ((daily_net_cents st).denominator * st.daily_loss_limit_cents)))

abbrev pub in_cooldown : RiskState → Bool
in_cooldown st = elim st.cooldown_until [ none ↦ false | some t ↦ ltb st.now t ]

-- A close that realised something, and when.
abbrev pub Close : Type 0
Close = ℕ × Ratio

abbrev pub insert_newest : Close → List Close → List Close
insert_newest e [] = e ∷ []
insert_newest e (x ∷ xs) = if leb x.0 e.0 then e ∷ x ∷ xs else x ∷ insert_newest e xs

abbrev pub newest_first : List Close → List Close
newest_first [] = []
newest_first (e ∷ rest) = insert_newest e (newest_first rest)

-- The route of the order of a fill.
abbrev pub on_route : ExecutionRoute → List Order → Fill → Bool
on_route route [] f = false
on_route route (o ∷ rest) f =
    if f.order_id == o.id then same_route route o.route else on_route route rest f

abbrev pub fill_closes : ExecutionRoute → List Order → List Fill → List Close
fill_closes route orders [] = []
fill_closes route orders (f ∷ rest) =
    let others = fill_closes route orders rest in
    if on_route route orders f && not (eqb_ℤ f.realized_pnl_cents.numerator (pos 0))
    then (f.ts, f.realized_pnl_cents) ∷ others
    else others

abbrev pub settlement_closes : ExecutionRoute → List Settlement → List Close
settlement_closes route [] = []
settlement_closes route (s ∷ rest) =
    let others = settlement_closes route rest in
    if same_route route s.route then (s.created_at, s.realized_pnl_cents) ∷ others else others

-- The last 50 of each kind, merged.
unfoldable pub recent_closes : Store → ExecutionRoute → List Close
recent_closes s route = newest_first (
    take 50 (newest_first (fill_closes route s.orders s.fills))
    ++ take 50 (newest_first (settlement_closes route s.books.settled)))

abbrev pub amounts : List Close → List Ratio
amounts [] = []
amounts (c ∷ rest) = c.1 ∷ amounts rest

-- `_recent_losses`: the streak, and the time of the newest close where there is one.
unfoldable pub recent_losses : Store → ExecutionRoute → ℕ × Option ℕ
recent_losses s route = elim (recent_closes s route) [
  | [] ↦ (0, none)
  | newest ∷ rest ↦
      let streak = consecutive_losses (amounts (newest ∷ rest)) in
      if streak == 0 then (0, none) else (streak, some newest.0)
]

abbrev pub cooldown_end : Config → ℕ × Option ℕ → Option ℕ
cooldown_end config (streak, none) = none
cooldown_end config (streak, some last_loss_at) =
    if leb config.risk.cooldown_after_consecutive_losses streak
    then some (last_loss_at + config.risk.cooldown_minutes * 60000000)
    else none

unfoldable pub snapshot : Store → Config → ExecutionRoute → ℕ → RiskState
snapshot s config route now =
    let daily =
      or_else (find (is_day (date now) route) s.books.pnl_daily) (new_day (date now) route) in
    record {
      route = route;
      bankroll_cents = config.risk.bankroll_cents;
      exposure_cents = sum_costs (holds route) s.books.positions;
      pending_cents = sum_losses (λ p. true) s.proposals;
      exposure_limit_cents = config.risk.bankroll_cents * config.risk.max_total_exposure_pct;
      daily_realized_cents = daily.realized_pnl_cents;
      daily_fees_cents = daily.fees_paid_cents;
      daily_loss_limit_cents = config.risk.bankroll_cents * config.risk.daily_loss_limit_pct;
      losing_streak = (recent_losses s route).0;
      cooldown_until = cooldown_end config (recent_losses s route);
      now = now;
    }

abbrev pub check_halted : RiskState → Outcome Refusal (Unit {0})
check_halted st =
    raise_if (daily_loss_breached st) daily_loss_limit >> raise_if (in_cooldown st) loss_cooldown

-- An amount above a limit.
abbrev pub over : Ratio → ℕ → Bool
over amount limit = ltb_ℤ (pos (amount.denominator * limit)) amount.numerator

abbrev pub over_exposed : RiskState → ℤ → Bool
over_exposed st additional =
    if leb st.exposure_limit_cents 0
    then false
    else over (add_amount st.exposure_cents (whole additional)) st.exposure_limit_cents

-- The per-market cap; a request that names no market is not measured.
abbrev pub over_market : RiskState → Config → List Text → Ratio → ℤ → Bool
over_market st config tickers committed additional =
    not (is_nil tickers)
    && (ltb 0 st.bankroll_cents
        && over (add_amount committed (whole additional))
            (st.bankroll_cents * config.risk.max_pct_per_market))

-- `active_route`, of the outcome of `resolve_route`.
abbrev pub usable : Outcome Refusal ExecutionRoute → Option ExecutionRoute
usable (ok route) = some route
usable (raise code) = none

abbrev pub active_route : Files → Settings → Config → Option ExecutionRoute
active_route files settings config = usable (resolve_route files settings config)

unfoldable pub check_limits :
    Store → Config → RiskState → ℤ → List Text → Option Text → Option ℕ → Outcome Refusal (Unit {0})
check_limits s config st additional tickers event_ticker proposal_id =
    check_halted st
    >> raise_if (over_exposed st additional) exceeds_total_exposure
    >> raise_if
        (over_market st config tickers
          (market_exposure_cents s st.route tickers event_ticker proposal_id) additional)
        exceeds_market_limit

-- `guard_approval` on the route that is active, if there is one.
abbrev pub guard_on :
    Store
    → Config
    → ℤ
    → ℕ
    → List Text
    → Option Text
    → Option ℕ
    → Option ExecutionRoute
    → Outcome Refusal (Option RiskState)
guard_on s config additional now tickers event_ticker proposal_id none = ok none
guard_on s config additional now tickers event_ticker proposal_id (some route) =
    let st = snapshot s config route now in
    check_limits s config st additional tickers event_ticker proposal_id >> ok (some st)

unfoldable pub guard_approval :
    Store
    → Config
    → Settings
    → Files
    → Option ℤ
    → ℕ
    → List Text
    → Option Text
    → Option ℕ
    → Outcome Refusal (Option RiskState)
guard_approval s config settings files max_loss_cents now tickers event_ticker proposal_id =
    guard_on s config (or_else max_loss_cents (pos 0)) now tickers event_ticker proposal_id
      (active_route files settings config)
