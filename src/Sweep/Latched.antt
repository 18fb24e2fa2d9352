-- ===== src/Sweep/Latched.antt =====
-- The latch of autonomy.py over the passes of its sweep.
use mathlib.Core.Path.{subst}
use kalshi_copilot.Base.{
  ℕ, ◌≡◌, refl, sym, ◌∙◌, ◌⊎◌, inl, inr, Bool, true, false, not, ◌||◌, Option, none, some, length,
  is_nil, if◌then◌else◌, Bool-cases,
}
use kalshi_copilot.Base.Text.{Text, codes}
use kalshi_copilot.Base.Outcome.{Outcome, ok, raise, ◌>>=◌}
use kalshi_copilot.Settings.{Refusal}
use kalshi_copilot.Interlocks.{ExecutionRoute, ProposedTrade, given, resolve_route}
use kalshi_copilot.Store.{Store}
use kalshi_copilot.Autonomy.{disarm, disarm_reason}
use kalshi_copilot.Autonomy.Granted.{evaluate-Granted, Granted}
use kalshi_copilot.Executor.Legs.{ApproveError}
use kalshi_copilot.Executor.Approval.{locked}
use kalshi_copilot.Sweep.{
  Sweeper, SweepResult, Pass, latch_at, consider, candidates, after_route, sweep,
}
use kalshi_copilot.Sweep.Passes.{
  Authorised, untouched, approved_next, Accounted, consider-Accounted, sweep-Swept,
}

none_some : {A : Type 0} {a : A} {B : Type 0} → none ≡ some a → B
none_some h = cc

-- The gate reads the latch as set, for whatever proposal.
abbrev SeenSet : Sweeper → Option Text → Type 0
SeenSet w stored =
    (p : ProposedTrade) → (r : Text) × (given (disarm_reason (latch_at w p stored)) ≡ some r)

-- No approval goes through on a latch that is read as set.
latched-Authorised :
    (w : Sweeper) (route : ExecutionRoute) (latch : Option Text) (s t : Store)
    → SeenSet w latch
    → Authorised w route latch s t
    → t ≡ s
latched-Authorised w route latch s t h (untouched _) = refl
latched-Authorised w route latch s t h (approved_next _ _ p c gate rest) =
    let (r, set) = h p in
    none_some (
      sym (
        Granted.not_latched (
          evaluate-Granted s (locked s p) w.settings w.config route w.evidence (latch_at w p latch)
            w.now gate))
      ∙ set)

sweep_latched :
    (w : Sweeper) (s : Store) (latch : Option Text) → SeenSet w latch → (sweep w s latch).store ≡ s
sweep_latched w s latch h = elim (sweep-Swept w s latch) [
  | inl same ↦ same
  | inr (_, _, _, _, (route, _, swept)) ↦ latched-Authorised w route latch s _ h swept
]

given-some : (reason : Text) → is_nil reason ≡ false → given (some reason) ≡ some reason
given-some reason h = rw h refl

unanswered-SeenSet :
    (w : Sweeper) (stored : Option Text)
    → ((p : ProposedTrade) → w.latch_answers_at p ≡ false)
    → SeenSet w stored
unfolding disarm_reason
unanswered-SeenSet w stored h p = (codes "redis unreachable", rw (h p) refl)

disarmed-SeenSet :
    (w : Sweeper) (persists : Bool) (reason : Text) (stored : Option Text)
    → persists ≡ true
    → is_nil reason ≡ false
    → SeenSet w (disarm persists reason stored)
unfolding disarm_reason disarm
disarmed-SeenSet w persists reason stored kept named p = elim (Bool-cases (w.latch_answers_at p)) [
  | inl up ↦ (reason, rw (up, kept) (given-some reason named))
  | inr down ↦ (codes "redis unreachable", rw down refl)
]

-- Where a pass reports a reason, it has left the latch set with it, if the write went through.
abbrev Reported : Bool → Option Text → Outcome ApproveError SweepResult → Option Text → Type 0
Reported persists before (raise e) after = Unit {0}
Reported persists before (ok r) after =
    (r.disarmed ≡ none)
    ⊎ ((reason : Text) × (is_nil reason ≡ false) × (after ≡ disarm persists reason before))

consider-Reported :
    (persists : Bool) (latch after : Option Text) (n m : ℕ) (out : Outcome ApproveError SweepResult)
    → Accounted persists latch n out after
    → Reported persists latch (out >>= λ r. ok (record r { considered = m })) after
consider-Reported persists latch after n m (raise e) h = tt
consider-Reported persists latch after n m (ok r) (inl (none_of, _, _)) = inl none_of
consider-Reported persists latch after n m (ok r) (inr (reason, _, named, set, _)) =
    inr (reason, named, set)

after_route-Reported :
    (w : Sweeper) (s : Store) (latch : Option Text) (m : Outcome Refusal ExecutionRoute)
    → Reported w.latch_persists latch
        (after_route w s latch m).result
        (after_route w s latch m).latch
after_route-Reported w s latch (raise code) = inl refl
after_route-Reported w s latch (ok route) =
    consider-Reported w.latch_persists latch (consider w route (candidates s) s latch).latch
      (length (candidates s)) (length (candidates s))
      (consider w route (candidates s) s latch).result
      (consider-Accounted w route (candidates s) s latch)

any_switch :
    (P : Pass → Type 0) (off killed : Bool) (x y z : Pass)
    → P x
    → P y
    → P z
    → P (if off then x else if killed then y else z)
any_switch P true killed x y z hx hy hz = hx
any_switch P false true x y z hx hy hz = hy
any_switch P false false x y z hx hy hz = hz

sweep-Reported :
    (w : Sweeper) (s : Store) (latch : Option Text)
    → Reported w.latch_persists latch (sweep w s latch).result (sweep w s latch).latch
unfolding sweep
sweep-Reported w s latch =
    any_switch (λ x. Reported w.latch_persists latch x.result x.latch)
      (not w.config.autonomous.enabled || not w.settings.autonomous_trading)
      (w.kill_switch || w.config.risk.kill_switch) _ _ _ (inl refl) (inl refl)
      (after_route-Reported w s latch (resolve_route w.executor.files w.settings w.config))

Reported-ok :
    (persists : Bool) (before after : Option Text) {out : Outcome ApproveError SweepResult}
    {r : SweepResult}
    → out ≡ ok r
    → Reported persists before out after
    → Reported persists before (ok r) after
Reported-ok persists before after h x = subst (λ o. Reported persists before o after) h x

-- Once a pass of the sweep reports that it has disarmed the machine, a later pass on the latch it
-- leaves, whatever the configuration, the evidence, the time and the tables are by then, leaves every
-- table as it finds it, if Redis took the write of the latch, whether or not it answers later, or if
-- it answers no read of the latch in that later pass.
pub sweep_stopped :
    (v w : Sweeper) (s t : Store) (latch : Option Text) {r : SweepResult} {reason : Text}
    → (sweep v s latch).result ≡ ok r
    → r.disarmed ≡ some reason
    → (v.latch_persists ≡ true) ⊎ ((p : ProposedTrade) → w.latch_answers_at p ≡ false)
    → (sweep w t (sweep v s latch).latch).store ≡ t
sweep_stopped v w s t latch done stopped (inr down) =
    sweep_latched w t (sweep v s latch).latch (unanswered-SeenSet w (sweep v s latch).latch down)
sweep_stopped v w s t latch done stopped (inl kept) =
    elim (Reported-ok v.latch_persists latch (sweep v s latch).latch done
      (sweep-Reported v s latch)) [
        | inl quiet ↦ none_some (sym quiet ∙ stopped)
        | inr (reason', named, set) ↦
            sweep_latched w t (sweep v s latch).latch
              (rw set (disarmed-SeenSet w v.latch_persists reason' latch kept named))
      ]
