-- ===== src/Interlocks/Cleared.antt =====
-- What check_execution of interlocks.py is to establish before it names a route, and the Boolean
-- tests of the code for each part of it.
use kalshi_copilot.Base.{
  ℕ, ◌+◌, ◌≤◌, ◌<◌, ◌≡◌, refl, Bool, true, false, not, ◌&&◌, Option, none, some, [], arith, or_else,
}
use kalshi_copilot.Base.Text.{Text, text_eq_sound, text_eq_refl, strip, upper}
use kalshi_copilot.Base.Outcome.{ok}
use kalshi_copilot.Domain.{ProposalStatus, is_pending}
use kalshi_copilot.Settings.{Settings, Files, autonomous_live_armed, credentials_present, Config}
use kalshi_copilot.Interlocks.{
  ExecutionRoute, live_exchange, simulated, demo_exchange, is_live, hits_exchange, same_route,
  armed_route, ProposedTrade, MachineConsent, resolve_route, out_of_date, confirmation_target,
  phrase_matches,
}

-- Neither side of the clock by more than 30 seconds.
abbrev pub Fresh : ℕ → ℕ → Type 0
Fresh issued_at now = (now ≤ issued_at + 30000000) × (issued_at ≤ now + 30000000)

-- On the live route all three environment interlocks are thrown.
abbrev pub LiveArmed : Settings → ExecutionRoute → Type 0
LiveArmed settings live_exchange = autonomous_live_armed settings ≡ true
LiveArmed settings demo_exchange = Unit
LiveArmed settings simulated = Unit

-- On the live route the operator has typed the target.
abbrev pub Typed : Option Text → ProposedTrade → ExecutionRoute → Type 0
Typed phrase p live_exchange = upper (strip (or_else phrase [])) ≡ upper (confirmation_target p)
Typed phrase p demo_exchange = Unit
Typed phrase p simulated = Unit

-- A route that reaches Kalshi has usable credentials.
abbrev pub Reachable : Files → Settings → ExecutionRoute → Type 0
Reachable files settings live_exchange = credentials_present files settings ≡ true
Reachable files settings demo_exchange = credentials_present files settings ≡ true
Reachable files settings simulated = Unit

-- The machine may act on this proposal, on this route, by this consent.
pub record MachineCleared (c : MachineConsent) (settings : Settings) (config : Config)
    (p : ProposedTrade) (route : ExecutionRoute) (now : ℕ) : Type 0 where
  pub enabled : config.autonomous.enabled ≡ true
  pub environment_armed : settings.autonomous_trading ≡ true
  pub route_armed : armed_route config.autonomous.routes route ≡ true
  pub live_armed : LiveArmed settings route
  pub own_proposal : c.proposal_id ≡ p.id
  pub own_route : c.route ≡ route
  pub fresh : Fresh c.issued_at now

-- Exactly one authority has approved: the operator, who types the target on the live route, or the
-- machine.
abbrev pub Authorised :
    Option MachineConsent
    → Bool
    → Option Text
    → Settings
    → Config
    → ProposedTrade
    → ExecutionRoute
    → ℕ
    → Type 0
Authorised none confirmed phrase settings config p route now =
    (confirmed ≡ true) × Typed phrase p route
Authorised (some c) confirmed phrase settings config p route now =
    (confirmed ≡ false) × MachineCleared c settings config p route now

abbrev pub NotExpired : Option ℕ → ℕ → Type 0
NotExpired none now = Unit
NotExpired (some t) now = now < t

pub record Cleared (files : Files) (p : ProposedTrade) (settings : Settings) (config : Config)
    (confirmed : Bool) (kill_switch : Bool) (consent : Option MachineConsent) (phrase : Option Text)
    (now : ℕ) (route : ExecutionRoute) : Type 0 where
  pub authorised : Authorised consent confirmed phrase settings config p route now
  pub runtime_switch_off : kill_switch ≡ false
  pub config_switch_off : config.risk.kill_switch ≡ false
  pub still_pending : p.status ≡ ProposalStatus.pending
  pub not_expired : NotExpired p.expires_at now
  pub own_route : resolve_route files settings config ≡ ok route
  pub reachable : Reachable files settings route

pub pending_status : (s : ProposalStatus) → is_pending s ≡ true → s ≡ ProposalStatus.pending
pending_status s h = ground arith

pub same_route_sound : (a b : ExecutionRoute) → same_route a b ≡ true → a ≡ b
same_route_sound a b h = ground arith

pub same_route_refl : (a : ExecutionRoute) → same_route a a ≡ true
same_route_refl a = ground arith

pub LiveArmed-of_test :
    (s : Settings) (r : ExecutionRoute)
    → (is_live r && not (autonomous_live_armed s)) ≡ false
    → LiveArmed s r
LiveArmed-of_test s live_exchange h = ground arith
LiveArmed-of_test s demo_exchange h = tt
LiveArmed-of_test s simulated h = tt

pub test_of_LiveArmed :
    (s : Settings) (r : ExecutionRoute)
    → LiveArmed s r
    → (is_live r && not (autonomous_live_armed s)) ≡ false
test_of_LiveArmed s live_exchange h = ground arith
test_of_LiveArmed s demo_exchange h = refl
test_of_LiveArmed s simulated h = refl

pub Typed-of_test :
    (phrase : Option Text) (p : ProposedTrade) (r : ExecutionRoute)
    → (is_live r && not (phrase_matches phrase p)) ≡ false
    → Typed phrase p r
Typed-of_test phrase p live_exchange h = text_eq_sound _ _ (ground arith)
Typed-of_test phrase p demo_exchange h = tt
Typed-of_test phrase p simulated h = tt

pub test_of_Typed :
    (phrase : Option Text) (p : ProposedTrade) (r : ExecutionRoute)
    → Typed phrase p r
    → (is_live r && not (phrase_matches phrase p)) ≡ false
test_of_Typed phrase p live_exchange h =
    let typed : phrase_matches phrase p ≡ true =
      rw h (text_eq_refl (upper (confirmation_target p))) in
    rw typed
test_of_Typed phrase p demo_exchange h = refl
test_of_Typed phrase p simulated h = refl

pub Reachable-of_test :
    (files : Files) (s : Settings) (r : ExecutionRoute)
    → (hits_exchange r && not (credentials_present files s)) ≡ false
    → Reachable files s r
Reachable-of_test files s live_exchange h = ground arith
Reachable-of_test files s demo_exchange h = ground arith
Reachable-of_test files s simulated h = tt

pub test_of_Reachable :
    (files : Files) (s : Settings) (r : ExecutionRoute)
    → Reachable files s r
    → (hits_exchange r && not (credentials_present files s)) ≡ false
test_of_Reachable files s live_exchange h = rw h
test_of_Reachable files s demo_exchange h = rw h
test_of_Reachable files s simulated h = refl

pub not-false : (b : Bool) → not b ≡ false → b ≡ true
not-false b h = ground arith

pub out_of_date-Fresh : (i now : ℕ) → out_of_date i now ≡ false → Fresh i now
out_of_date-Fresh i now h = (ground arith, ground arith)

pub Fresh-out_of_date : (i now : ℕ) → Fresh i now → out_of_date i now ≡ false
Fresh-out_of_date i now h = ground arith
