-- ===== src/Risk/Streak.antt =====
-- The losing streak of risk.py, read off the closes in another way.
use kalshi_copilot.Base.{
  suc, ◌≡◌, refl, ap, inl, inr, true, false, List, [], ◌∷◌, arith, if◌then◌else◌, count_if,
  Bool-cases,
}
use kalshi_copilot.Fees.{Ratio}
use kalshi_copilot.Risk.{is_loss, is_gain, consecutive_losses}

-- The closes before the first gain.
abbrev pub before_gain : List Ratio → List Ratio
before_gain [] = []
before_gain (v ∷ rest) = if is_gain v then [] else v ∷ before_gain rest

not_both : (v : Ratio) → is_loss v ≡ true → is_gain v ≡ false
not_both v h = ground arith

-- The losing streak is the number of losses before the first gain: a scratch neither adds to it nor
-- ends it, and nothing past the first gain counts.
pub consecutive_losses-before_gain :
    (values : List Ratio) → consecutive_losses values ≡ count_if is_loss (before_gain values)
unfolding consecutive_losses
consecutive_losses-before_gain [] = refl
consecutive_losses-before_gain (v ∷ rest) =
    let ih = consecutive_losses-before_gain rest in
    elim (Bool-cases (is_loss v)) [
      | inl loss ↦ rw (loss, not_both v loss) (rw loss (ap suc ih))
      | inr no_loss ↦ elim (Bool-cases (is_gain v)) [
        | inl gain ↦ rw (no_loss, gain) refl
        | inr scratch ↦ rw (no_loss, scratch) (rw no_loss ih)
      ]
    ]
