-- ===== src/Risk/Thresholds.antt =====
-- The thresholds of risk.py: what the test of each limit says, and when it passes.
use kalshi_copilot.Base.{
  ℕ, ◌*◌, ◌≡◌, refl, ◌⊎◌, inl, inr, false, not, ◌&&◌, Option, none, some, List, [], ◌∷◌, arith,
  if◌then◌else◌, is_nil, leb, ltb, Bool-cases,
}
use kalshi_copilot.Base.Int.{ℤ, pos, ◌≤ℤ◌, ◌<ℤ◌, negate, leb_ℤ}
use kalshi_copilot.Base.Text.{Text}
use kalshi_copilot.Fees.{Ratio}
use kalshi_copilot.Risk.{over}
use kalshi_copilot.Risk.AtRisk.{CooledDown}

-- An amount that does not pass a limit.
abbrev pub AtMost : Ratio → ℕ → Type 0
AtMost amount limit = amount.numerator ≤ℤ pos (amount.denominator * limit)

-- A day's profit above the loss that is allowed, and an amount within a limit; zero is no limit.
abbrev pub DayOpen : ℕ → Ratio → Type 0
DayOpen limit net = (limit ≡ 0) ⊎ (negate (pos (net.denominator * limit)) <ℤ net.numerator)

abbrev pub Limited : ℕ → Ratio → Type 0
Limited limit amount = (limit ≡ 0) ⊎ AtMost amount limit

pub not_over : (a : Ratio) (l : ℕ) → over a l ≡ false → AtMost a l
not_over a l h = ground arith

over-AtMost : (a : Ratio) (l : ℕ) → AtMost a l → over a l ≡ false
over-AtMost a l h = ground arith

nothing_listed : (ts : List Text) → not (is_nil ts) ≡ false → ts ≡ []
nothing_listed [] h = refl
nothing_listed (t ∷ ts) h = cc

unlisted : {ts : List Text} → ts ≡ [] → not (is_nil ts) ≡ false
unlisted h = rw h refl

-- The test of each limit, and what it says.
pub day_test :
    (limit : ℕ) (n z : ℤ)
    → (if leb limit 0 then false else leb_ℤ n z) ≡ false
    → (limit ≡ 0) ⊎ (z <ℤ n)
day_test limit n z h = elim (Bool-cases (leb limit 0)) [
  | inl none_set ↦ inl (ground arith)
  | inr is_set ↦ inr (let passed : leb_ℤ n z ≡ false = rw is_set at h in ground arith)
]

pub day_of :
    (limit : ℕ) (n z : ℤ)
    → (limit ≡ 0) ⊎ (z <ℤ n)
    → (if leb limit 0 then false else leb_ℤ n z) ≡ false
day_of limit n z (inl h) = rw h refl
day_of limit n z (inr h) = ground arith

pub total_test :
    (limit : ℕ) (a : Ratio)
    → (if leb limit 0 then false else over a limit) ≡ false
    → (limit ≡ 0) ⊎ AtMost a limit
total_test limit a h = elim (Bool-cases (leb limit 0)) [
  | inl none_set ↦ inl (ground arith)
  | inr is_set ↦ inr (not_over a limit (rw is_set at h))
]

pub total_of :
    (limit : ℕ) (a : Ratio)
    → (limit ≡ 0) ⊎ AtMost a limit
    → (if leb limit 0 then false else over a limit) ≡ false
total_of limit a (inl h) = rw h refl
total_of limit a (inr h) = rw (over-AtMost a limit h) (ground arith)

pub market_test :
    (ts : List Text) (bankroll limit : ℕ) (a : Ratio)
    → (not (is_nil ts) && (ltb 0 bankroll && over a limit)) ≡ false
    → (ts ≡ []) ⊎ (bankroll ≡ 0) ⊎ AtMost a limit
market_test [] bankroll limit a h = inl refl
market_test (t ∷ ts) bankroll limit a h = elim (Bool-cases (ltb 0 bankroll)) [
  | inl some_bankroll ↦ inr (inr (not_over a limit (rw some_bankroll at h)))
  | inr no_bankroll ↦ inr (inl (ground arith))
]

pub market_of :
    (ts : List Text) (bankroll limit : ℕ) (a : Ratio)
    → (ts ≡ []) ⊎ (bankroll ≡ 0) ⊎ AtMost a limit
    → (not (is_nil ts) && (ltb 0 bankroll && over a limit)) ≡ false
market_of ts bankroll limit a (inl h) = rw (unlisted h) refl
market_of ts bankroll limit a (inr (inl h)) = rw h (ground arith)
market_of ts bankroll limit a (inr (inr h)) = rw (over-AtMost a limit h) (ground arith)

pub cooldown_test :
    (until : Option ℕ) (now : ℕ)
    → (elim until [ none ↦ false | some t ↦ ltb now t ]) ≡ false
    → CooledDown until now
cooldown_test none now h = tt
cooldown_test (some t) now h = ground arith

pub cooldown_of :
    (until : Option ℕ) (now : ℕ)
    → CooledDown until now
    → (elim until [ none ↦ false | some t ↦ ltb now t ]) ≡ false
cooldown_of none now h = refl
cooldown_of (some t) now h = ground arith
