-- ===== src/Stats/Verdicts.antt =====
-- What a verdict of stats.py claims.
use kalshi_copilot.Base.{
  ℕ, zero, suc, ◌≡◌, refl, ◌↔◌, inl, inr, ◌≤◌, ◌<◌, ap, false, Option, none, some, ltb, ltb→lt,
  Bool-cases, arith,
}
use kalshi_copilot.Base.Int.{ℤ, pos, ltb_ℤ, ◌<ℤ◌}
use kalshi_copilot.Base.Outcome.{ok, ok_inj}
use kalshi_copilot.Autonomy.{edge_shown}
use kalshi_copilot.Stats.{Expectancy, on_interval, verdict}

-- An interval that is known and lies above zero.
abbrev pub IsAbove : Option ℤ → Option ℤ → Type 0
IsAbove (some low) (some high) = pos 0 <ℤ low
IsAbove _ _ = ⊥

on_interval-edge_shown :
    (low high : Option ℤ) → (on_interval low high ≡ edge_shown) ↔ IsAbove low high
on_interval-edge_shown none high = (λ h. cc, λ h. absurd h)
on_interval-edge_shown (some low) none = (λ h. cc, λ h. absurd h)
on_interval-edge_shown (some low) (some high) = elim (Bool-cases (ltb_ℤ (pos 0) low)) [
  | inl above ↦ rw above (λ h. ltb→lt _ _ above, λ h. refl)
  | inr not_above ↦ elim (Bool-cases (ltb_ℤ high (pos 0))) [
    | inl below ↦ rw (not_above, below) (λ h. cc, λ h. absurd (no_lt _ _ not_above h))
    | inr straddles ↦ rw (not_above, straddles) (λ h. cc, λ h. absurd (no_lt _ _ not_above h))
  ]
]
  where
    no_lt : (a b : ℕ) → ltb a b ≡ false → a < b → ⊥
    no_lt a b h k = ground arith

-- A verdict claims an edge exactly where the floor on the sample is at least one and is met, and the
-- interval is known and lies above zero, whatever the mean is.
pub verdict-edge_shown :
    (exp : Expectancy) (min_trades : ℕ)
    → (verdict exp min_trades ≡ ok edge_shown)
      ↔ ((1 ≤ min_trades) × (min_trades ≤ exp.n) × IsAbove exp.ci_low_cents exp.ci_high_cents)
unfolding verdict
verdict-edge_shown exp zero = (λ h. cc, λ h. absurd (omega (arith, h.0)))
verdict-edge_shown exp (suc k) =
    let claim = on_interval-edge_shown exp.ci_low_cents exp.ci_high_cents in
    elim (Bool-cases (ltb exp.n (suc k))) [
      | inl few ↦ rw few (λ h. cc, λ h. absurd (too_few (ltb→lt _ _ few) h.1))
      | inr enough ↦
          rw enough
            (λ h. (omega arith, at_least _ _ enough, claim.0 (ok_inj h)), λ h. ap ok (claim.1 h.2))
    ]
  where
    too_few : {a b : ℕ} → a < b → b ≤ a → ⊥
    too_few h k = omega arith

    at_least : (a b : ℕ) → ltb a b ≡ false → b ≤ a
    at_least a b h = ground arith
