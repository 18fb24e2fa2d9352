-- ===== src/Interlocks/Execution.antt =====
-- check_execution of interlocks.py, check by check, against what it is to establish.
use mathlib.Core.Path.{subst}
use kalshi_copilot.Base.{
  ℕ, ◌≡◌, refl, ◌↔◌, Bool, true, false, not, ◌&&◌, ◌||◌, Option, none, some, arith, ◌==◌, is_some,
}
use kalshi_copilot.Base.Text.{Text}
use kalshi_copilot.Base.Outcome.{
  ok, >>_ok, >>=-eq-ok, raise_if_ok, raise_if-false, passed, then_passes, ok_inj,
}
use kalshi_copilot.Domain.{is_pending}
use kalshi_copilot.Settings.{Settings, Files, credentials_present, Config}
use kalshi_copilot.Interlocks.{
  ExecutionRoute, is_live, hits_exchange, same_route, ProposedTrade, MachineConsent, resolve_route,
  check_machine_consent, check_any_consent, phrase_matches, has_expired, check_open, check_route,
  check_execution,
}
use kalshi_copilot.Interlocks.Cleared.{
  MachineCleared, Authorised, NotExpired, Cleared, pending_status, same_route_sound,
  same_route_refl, LiveArmed-of_test, test_of_LiveArmed, Typed-of_test, test_of_Typed,
  Reachable-of_test, test_of_Reachable, not-false, out_of_date-Fresh, Fresh-out_of_date,
}

false_of_true : {b : Bool} → b ≡ true → not b ≡ false
false_of_true h = rw h refl

check_machine_consent-MachineCleared :
    (c : MachineConsent) (settings : Settings) (config : Config) (p : ProposedTrade)
    (route : ExecutionRoute) (now : ℕ)
    → check_machine_consent c settings config p route now ≡ ok tt
    → MachineCleared c settings config p route now
unfolding check_machine_consent
check_machine_consent-MachineCleared c settings config p route now h =
    let (h₁, fresh) = passed _ _ _ h in
    let (h₂, own_route) = passed _ _ _ h₁ in
    let (h₃, own_proposal) = passed _ _ _ h₂ in
    let (h₄, live_armed) = passed _ _ _ h₃ in
    let (h₅, route_armed) = passed _ _ _ h₄ in
    let (h₆, armed) = passed _ _ _ h₅ in
    record {
      enabled = not-false _ (raise_if_ok _ _ h₆);
      environment_armed = not-false _ armed;
      route_armed = not-false _ route_armed;
      live_armed = LiveArmed-of_test settings route live_armed;
      own_proposal = ground arith;
      own_route = same_route_sound _ _ (not-false _ own_route);
      fresh = out_of_date-Fresh _ _ fresh;
    }

MachineCleared-check_machine_consent :
    (c : MachineConsent) (settings : Settings) (config : Config) (p : ProposedTrade)
    (route : ExecutionRoute) (now : ℕ)
    → MachineCleared c settings config p route now
    → check_machine_consent c settings config p route now ≡ ok tt
unfolding check_machine_consent
MachineCleared-check_machine_consent c settings config p route now m =
    let own_proposal : (c.proposal_id == p.id) ≡ true = ground (arith, m.own_proposal) in
    let own_route : same_route c.route route ≡ true = rw m.own_route (same_route_refl route) in
    then_passes _
      (then_passes _
        (then_passes _
          (then_passes _
            (then_passes _
              (then_passes _ (raise_if-false _ (false_of_true m.enabled))
                (false_of_true m.environment_armed))
              (false_of_true m.route_armed))
            (test_of_LiveArmed settings route m.live_armed))
          (false_of_true own_proposal))
        (false_of_true own_route))
      (Fresh-out_of_date _ _ m.fresh)

check_any_consent-Authorised :
    (consent : Option MachineConsent) (confirmed : Bool) (phrase : Option Text)
    (settings : Settings) (config : Config) (p : ProposedTrade) (route : ExecutionRoute) (now : ℕ)
    → (not (is_some consent) && not confirmed) ≡ false
    → (is_some consent && confirmed) ≡ false
    → check_any_consent consent settings config p route now ≡ ok tt
    → (not (is_some consent) && is_live route && not (phrase_matches phrase p)) ≡ false
    → Authorised consent confirmed phrase settings config p route now
check_any_consent-Authorised none confirmed phrase settings config p route now one two checked
      typed =
    (ground arith, Typed-of_test phrase p route typed)
check_any_consent-Authorised (some c) confirmed phrase settings config p route now one two checked
      typed =
    (two, check_machine_consent-MachineCleared c settings config p route now checked)

-- The four checks that an authorised approval passes.
Authorised-passes :
    (consent : Option MachineConsent) (confirmed : Bool) (phrase : Option Text)
    (settings : Settings) (config : Config) (p : ProposedTrade) (route : ExecutionRoute) (now : ℕ)
    → Authorised consent confirmed phrase settings config p route now
    → ((not (is_some consent) && not confirmed) ≡ false)
      × ((is_some consent && confirmed) ≡ false)
      × (check_any_consent consent settings config p route now ≡ ok tt)
      × ((not (is_some consent) && is_live route && not (phrase_matches phrase p)) ≡ false)
Authorised-passes none confirmed phrase settings config p route now a =
    (false_of_true a.0, refl, refl, test_of_Typed phrase p route a.1)
Authorised-passes (some c) confirmed phrase settings config p route now a =
    (refl, a.0, MachineCleared-check_machine_consent c settings config p route now a.1, refl)

NotExpired-of_test : (t : Option ℕ) (now : ℕ) → has_expired t now ≡ false → NotExpired t now
NotExpired-of_test none now h = tt
NotExpired-of_test (some t) now h = ground arith

test_of_NotExpired : (t : Option ℕ) (now : ℕ) → NotExpired t now → has_expired t now ≡ false
test_of_NotExpired none now h = refl
test_of_NotExpired (some t) now h = ground arith

both_off : (a b : Bool) → (a || b) ≡ false → (a ≡ false) × (b ≡ false)
both_off a b h = ground arith

neither : {a b : Bool} → a ≡ false → b ≡ false → (a || b) ≡ false
neither h k = rw (h, k) refl

module _ (files : Files) (p : ProposedTrade) (settings : Settings) (config : Config)
    (confirmed kill_switch : Bool) (consent : Option MachineConsent) (phrase : Option Text)
    (now : ℕ) (route : ExecutionRoute) where
  abbrev Opened : Type 0
  Opened =
      ((not (is_some consent) && not confirmed) ≡ false)
      × ((is_some consent && confirmed) ≡ false)
      × ((kill_switch || config.risk.kill_switch) ≡ false)
      × (not (is_pending p.status) ≡ false)
      × (has_expired p.expires_at now ≡ false)

  check_open_passed : check_open p config confirmed kill_switch consent now ≡ ok tt → Opened
  unfolding check_open
  check_open_passed h =
      let (o₁, expiry) = passed _ _ _ h in
      let (o₂, status) = passed _ _ _ o₁ in
      let (o₃, switches) = passed _ _ _ o₂ in
      let (o₄, not_both) = passed _ _ _ o₃ in
      (raise_if_ok _ _ o₄, not_both, switches, status, expiry)

  check_open_passes : Opened → check_open p config confirmed kill_switch consent now ≡ ok tt
  unfolding check_open
  check_open_passes (one, two, switches, status, expiry) =
      then_passes _
        (then_passes _ (then_passes _ (then_passes _ (raise_if-false _ one) two) switches) status)
        expiry

  abbrev OnRoute : Type 0
  OnRoute =
      (check_any_consent consent settings config p route now ≡ ok tt)
      × ((not (is_some consent) && is_live route && not (phrase_matches phrase p)) ≡ false)
      × ((hits_exchange route && not (credentials_present files settings)) ≡ false)

  check_route_passed :
      check_route files p settings config consent phrase now route ≡ ok tt → OnRoute
  unfolding check_route
  check_route_passed h =
      let (c₁, reachable) = passed _ _ _ h in
      let (consented, typed) = passed _ _ _ c₁ in (consented, typed, reachable)

  check_route_passes :
      OnRoute → check_route files p settings config consent phrase now route ≡ ok tt
  unfolding check_route
  check_route_passes (consented, typed, reachable) =
      then_passes _ (then_passes _ consented typed) reachable

  check_execution_parts :
      check_execution files p settings config confirmed kill_switch consent phrase now ≡ ok route
      → (check_open p config confirmed kill_switch consent now ≡ ok tt)
        × (resolve_route files settings config ≡ ok route)
        × (check_route files p settings config consent phrase now route ≡ ok tt)
  unfolding check_execution
  check_execution_parts h =
      let (opened, rest) = >>_ok (check_open p config confirmed kill_switch consent now) _ h in
      let (r, resolved, routed) = >>=-eq-ok (resolve_route files settings config) _ rest in
      let (checked, named) =
        >>_ok (check_route files p settings config consent phrase now r) _ routed in
      subst
        (λ (r : ExecutionRoute).
          (check_open p config confirmed kill_switch consent now ≡ ok tt)
          × (resolve_route files settings config ≡ ok r)
          × (check_route files p settings config consent phrase now r ≡ ok tt))
        (ok_inj named) (opened, resolved, checked)

  check_execution_of_parts :
      check_open p config confirmed kill_switch consent now ≡ ok tt
      → resolve_route files settings config ≡ ok route
      → check_route files p settings config consent phrase now route ≡ ok tt
      → check_execution files p settings config confirmed kill_switch consent phrase now ≡ ok route
  unfolding check_execution
  check_execution_of_parts opened resolved checked = rw (opened, resolved, checked) refl

  check_execution_only :
      check_execution files p settings config confirmed kill_switch consent phrase now ≡ ok route
      → Cleared files p settings config confirmed kill_switch consent phrase now route
  check_execution_only h =
      let (opened, resolved, checked) = check_execution_parts h in
      let (one, two, switches, status, expiry) = check_open_passed opened in
      let (consented, typed, reachable) = check_route_passed checked in
      record {
        authorised =
            check_any_consent-Authorised consent confirmed phrase settings config p route now one
              two consented typed;
        runtime_switch_off = (both_off _ _ switches).0;
        config_switch_off = (both_off _ _ switches).1;
        still_pending = pending_status _ (not-false _ status);
        not_expired = NotExpired-of_test p.expires_at now expiry;
        own_route = resolved;
        reachable = Reachable-of_test files settings route reachable;
      }

  check_execution_all :
      Cleared files p settings config confirmed kill_switch consent phrase now route
      → check_execution files p settings config confirmed kill_switch consent phrase now ≡ ok route
  check_execution_all c =
      let (one, two, consented, typed) =
        Authorised-passes consent confirmed phrase settings config p route now c.authorised in
      let switches = neither c.runtime_switch_off c.config_switch_off in
      let status : not (is_pending p.status) ≡ false = rw c.still_pending refl in
      check_execution_of_parts
        (check_open_passes
          (one, two, switches, status, test_of_NotExpired p.expires_at now c.not_expired))
        c.own_route
        (check_route_passes (consented, typed, test_of_Reachable files settings route c.reachable))

-- An approval is cleared for a route exactly when one authority and only one has approved it (the
-- operator, with the target typed on the live route, or an armed machine whose fresh consent names
-- this proposal and this route), neither kill switch is engaged, the proposal is pending and has not
-- expired, the route is the configured one, and a route that reaches Kalshi has credentials.
pub check_execution-Cleared :
    (files : Files) (p : ProposedTrade) (settings : Settings) (config : Config)
    (confirmed kill_switch : Bool) (consent : Option MachineConsent) (phrase : Option Text)
    (now : ℕ) (route : ExecutionRoute)
    → (check_execution files p settings config confirmed kill_switch consent phrase now ≡ ok route)
      ↔ Cleared files p settings config confirmed kill_switch consent phrase now route
check_execution-Cleared files p settings config confirmed kill_switch consent phrase now route = (
  check_execution_only files p settings config confirmed kill_switch consent phrase now route,
  check_execution_all files p settings config confirmed kill_switch consent phrase now route,
)
