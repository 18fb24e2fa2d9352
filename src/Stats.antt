-- ===== src/Stats.antt =====
-- backend/app/backtest/stats.py: what a detector's history entitles it to claim, and the drawdown of
-- an equity curve. Money is in centicents; the interval is what the code has measured.
pub mod Drawdown
pub mod Verdicts
mod Tests
use kalshi_copilot.Base.{
  ℕ, zero, suc, Bool, true, false, Option, none, some, List, [], ◌∷◌, ltb, if◌then◌else◌,
}
use kalshi_copilot.Base.Int.{ℤ, pos, ◌-ℤ◌, ltb_ℤ}
use kalshi_copilot.Base.Outcome.{Outcome, ok, raise}
use kalshi_copilot.Domain.{ValueError, value_error}
use kalshi_copilot.Autonomy.{Verdict, insufficient_evidence, no_edge_shown, edge_shown, losing}

-- What the verdict reads of an expectancy.
pub record Expectancy : Type 0 where
  pub n : ℕ
  pub ci_low_cents : Option ℤ
  pub ci_high_cents : Option ℤ

abbrev pub on_interval : Option ℤ → Option ℤ → Verdict
on_interval (some low) (some high) =
    if ltb_ℤ (pos 0) low then edge_shown else if ltb_ℤ high (pos 0) then losing else no_edge_shown
on_interval _ _ = insufficient_evidence

unfoldable pub verdict : Expectancy → ℕ → Outcome ValueError Verdict
verdict exp zero = raise value_error
verdict exp (suc k) = ok (
    if ltb exp.n (suc k)
    then insufficient_evidence
    else on_interval exp.ci_low_cents exp.ci_high_cents)

abbrev pub new_peak : ℤ → ℤ → ℤ
new_peak peak value = if ltb_ℤ peak value then value else peak

abbrev pub new_worst : ℤ → ℤ → ℤ
new_worst worst decline = if ltb_ℤ worst decline then decline else worst

-- The loop of `max_drawdown`, from the peak and the worst decline so far.
unfoldable pub drawdown_from : ℤ → ℤ → List ℤ → ℤ
drawdown_from peak worst [] = worst
drawdown_from peak worst (value ∷ rest) =
    drawdown_from (new_peak peak value) (new_worst worst (new_peak peak value -ℤ value)) rest

unfoldable pub max_drawdown : List ℤ → ℤ
max_drawdown [] = pos 0
max_drawdown (x ∷ []) = pos 0
max_drawdown (x ∷ y ∷ rest) = drawdown_from x (pos 0) (y ∷ rest)
