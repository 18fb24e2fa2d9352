-- ===== src/Risk/Limits.antt =====
-- What guard_approval of risk.py has established when it lets an approval through.
use mathlib.Core.Path.{subst}
use kalshi_copilot.Base.{
  ℕ, ◌*◌, ◌≡◌, refl, sym, ◌∙◌, ◌⊎◌, inl, ◌↔◌, Option, some, List, [], ◌∷◌, or_else,
}
use kalshi_copilot.Base.Int.{ℤ, pos}
use kalshi_copilot.Base.Text.{Text}
use kalshi_copilot.Base.Outcome.{ok, ◌>>◌, >>_ok, passed, then_passes, raise_if_ok, raise_if-false}
use kalshi_copilot.Settings.{
  Settings, Files, Config, daily_loss_limit, loss_cooldown, exceeds_total_exposure,
  exceeds_market_limit,
}
use kalshi_copilot.Interlocks.{ExecutionRoute, resolve_route}
use kalshi_copilot.Fees.{Ratio}
use kalshi_copilot.Positions.{whole}
use kalshi_copilot.Ledger.{add_amount}
use kalshi_copilot.Store.{Store}
use kalshi_copilot.Exposure.{market_exposure_cents}
use kalshi_copilot.Risk.{
  RiskState, snapshot, daily_net_cents, recent_closes, check_limits, guard_approval,
}
use kalshi_copilot.Risk.Thresholds.{
  AtMost, DayOpen, Limited, day_test, day_of, total_test, total_of, market_test, market_of,
  cooldown_test, cooldown_of,
}
use kalshi_copilot.Risk.AtRisk.{
  Rested, net_today, open_cost, at_risk, daily_net_cents_lem, exposure_cents_lem, recent_losses_lem,
  market_exposure_cents_lem,
}

-- Every limit of the portfolio holds with `additional` at risk on top of what the tables hold.
pub record Within (s : Store) (config : Config) (route : ExecutionRoute) (now : ℕ) (additional : ℤ)
    (tickers : List Text) (event_ticker : Option Text) (proposal_id : Option ℕ) : Type 0 where
  pub day_open :
      DayOpen
        (config.risk.bankroll_cents * config.risk.daily_loss_limit_pct)
        (net_today s route now)
  pub rested : Rested config now (recent_closes s route)
  pub total :
      Limited
        (config.risk.bankroll_cents * config.risk.max_total_exposure_pct)
        (add_amount (open_cost s route) (whole additional))
  pub market :
      (tickers ≡ [])
      ⊎ (config.risk.bankroll_cents ≡ 0)
      ⊎ AtMost
          (add_amount (at_risk s route tickers event_ticker proposal_id) (whole additional))
          (config.risk.bankroll_cents * config.risk.max_pct_per_market)

-- The market's share, measured in the two ways.
market_measured :
    (s : Store) (route : ExecutionRoute) (additional : ℤ) (bankroll limit : ℕ) (ts : List Text)
    (event_ticker : Option Text) (excluded : Option ℕ)
    → ((ts ≡ [])
        ⊎ (bankroll ≡ 0)
        ⊎ AtMost
            (add_amount (market_exposure_cents s route ts event_ticker excluded) (whole additional))
            limit)
      ↔ ((ts ≡ [])
          ⊎ (bankroll ≡ 0)
          ⊎ AtMost (add_amount (at_risk s route ts event_ticker excluded) (whole additional)) limit)
market_measured s route additional bankroll limit [] event_ticker excluded =
    (λ h. inl refl, λ h. inl refl)
market_measured s route additional bankroll limit (t ∷ ts) event_ticker excluded =
    rw (market_exposure_cents_lem s route t ts event_ticker excluded) (λ h. h, λ h. h)

module _ (s : Store) (config : Config) (route : ExecutionRoute) (now : ℕ) (additional : ℤ)
    (tickers : List Text) (event_ticker : Option Text) (proposal_id : Option ℕ) where
  abbrev state : RiskState
  state = snapshot s config route now

  abbrev loss_limit : ℕ
  loss_limit = config.risk.bankroll_cents * config.risk.daily_loss_limit_pct

  abbrev exposure_limit : ℕ
  exposure_limit = config.risk.bankroll_cents * config.risk.max_total_exposure_pct

  abbrev exposed : Ratio → Ratio
  exposed cost = add_amount cost (whole additional)

  abbrev same_market :
      ((tickers ≡ [])
        ⊎ (config.risk.bankroll_cents ≡ 0)
        ⊎ AtMost
            (exposed (market_exposure_cents s route tickers event_ticker proposal_id))
            (config.risk.bankroll_cents * config.risk.max_pct_per_market))
      ↔ ((tickers ≡ [])
          ⊎ (config.risk.bankroll_cents ≡ 0)
          ⊎ AtMost
              (exposed (at_risk s route tickers event_ticker proposal_id))
              (config.risk.bankroll_cents * config.risk.max_pct_per_market))
  same_market =
      market_measured s route additional config.risk.bankroll_cents _ tickers event_ticker
        proposal_id

  check_limits_only :
      check_limits s config state additional tickers event_ticker proposal_id ≡ ok tt
      → Within s config route now additional tickers event_ticker proposal_id
  unfolding check_limits snapshot
  check_limits_only h =
      let (h₁, market) = passed _ _ _ h in
      let (h₂, total) = passed _ _ _ h₁ in
      let (h₃, cooldown) = passed _ _ _ h₂ in
      record {
        day_open =
            subst (λ (net : Ratio). DayOpen loss_limit net) (daily_net_cents_lem s config route now)
              (day_test loss_limit (daily_net_cents state).numerator _ (raise_if_ok _ _ h₃));
        rested =
            (recent_losses_lem s config route now).0
              (cooldown_test state.cooldown_until now cooldown);
        total =
            subst (λ (cost : Ratio). Limited exposure_limit (exposed cost))
              (exposure_cents_lem s config route now) (total_test _ _ total);
        market = same_market.0 (market_test tickers _ _ _ market);
      }

  check_limits_all :
      Within s config route now additional tickers event_ticker proposal_id
      → check_limits s config state additional tickers event_ticker proposal_id ≡ ok tt
  unfolding check_limits snapshot
  check_limits_all w =
      let day =
        subst (λ (net : Ratio). DayOpen loss_limit net)
          (sym (daily_net_cents_lem s config route now)) w.day_open in
      let opened =
        subst (λ (cost : Ratio). Limited exposure_limit (exposed cost))
          (sym (exposure_cents_lem s config route now)) w.total in
      then_passes exceeds_market_limit
        (then_passes exceeds_total_exposure
          (then_passes loss_cooldown
            (raise_if-false daily_loss_limit
              (day_of loss_limit (daily_net_cents state).numerator _ day))
            (cooldown_of state.cooldown_until now
              ((recent_losses_lem s config route now).1 w.rested)))
          (total_of _ _ opened))
        (market_of tickers _ _ _ (same_market.1 w.market))

guard_of_route :
    (s : Store) (config : Config) (settings : Settings) (files : Files) (max_loss : Option ℤ)
    (now : ℕ) (tickers : List Text) (event_ticker : Option Text) (proposal_id : Option ℕ)
    (route : ExecutionRoute)
    → resolve_route files settings config ≡ ok route
    → guard_approval s config settings files max_loss now tickers event_ticker proposal_id ≡ (
        check_limits s config
          (snapshot s config route now)
          (or_else max_loss (pos 0))
          tickers
          event_ticker
          proposal_id
        >> ok (some (snapshot s config route now)))
unfolding guard_approval
guard_of_route s config settings files max_loss now tickers event_ticker proposal_id route h =
    rw h refl

-- On a usable route, an approval passes the portfolio limits exactly when: the day's profit on that
-- route after fees is above the daily loss limit; no loss, or fewer than start a pause, come before the
-- newest gain among the recent closes, or the pause since the newest close is over; the cost of the
-- open positions with this trade is within the total limit; and the cost of the open positions in the
-- named markets, with the largest losses of the other pending proposals whose first market is among
-- them or whose event is the named one, and with this trade, is within the limit for one market. A
-- daily loss limit or a total limit of zero limits nothing, and where no market is named or there is no
-- bankroll the last is not measured.
pub guard_approval-Within :
    (s : Store) (config : Config) (settings : Settings) (files : Files) (max_loss : Option ℤ)
    (now : ℕ) (tickers : List Text) (event_ticker : Option Text) (proposal_id : Option ℕ)
    (route : ExecutionRoute)
    → resolve_route files settings config ≡ ok route
    → (guard_approval s config settings files max_loss now tickers event_ticker proposal_id
        ≡ ok (some (snapshot s config route now)))
      ↔ Within s config route now (or_else max_loss (pos 0)) tickers event_ticker proposal_id
guard_approval-Within s config settings files max_loss now tickers event_ticker proposal_id route
      h =
    let additional = or_else max_loss (pos 0) in
    let value =
      guard_of_route s config settings files max_loss now tickers event_ticker proposal_id route
        h in
    (
      λ passes.
          check_limits_only s config route now additional tickers event_ticker proposal_id
            (>>_ok _ _ (sym value ∙ passes)).0,
      λ w.
          let checked =
            check_limits_all s config route now additional tickers event_ticker proposal_id w in
          value ∙ rw checked refl,
    )
