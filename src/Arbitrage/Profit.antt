-- ===== src/Arbitrage/Profit.antt =====
-- What the legs of a set bring at settlement, against what they gross.
use kalshi_copilot.Base.{
  ℕ, suc, ◌+◌, ◌*◌, ◌≤◌, ◌≡◌, refl, inl, inr, Bool, List, [], ◌∷◌, count_if, All, Bool-cases, arith,
  if◌then◌else◌,
}
use kalshi_copilot.Base.Int.{
  ℤ, pos, pos_part, ◌+ℤ◌, ◌-ℤ◌, ◌*ℤ◌, *ℤ-pos, pos_part-scale, neg_part-scale, ◌≤ℤ◌, int_laws,
  eq_of_parts,
}
use kalshi_copilot.Base.Text.{Text}
use kalshi_copilot.Domain.{one}
use kalshi_copilot.Arbitrage.{SetDirection, sell_set, buy_set, LegFill, gross_cents}

-- What a leg is worth at settlement: a dollar for each contract if it resolves YES.
abbrev pub leg_value : (Text → Bool) → LegFill → ℤ
leg_value resolves leg = if resolves leg.ticker then one *ℤ leg.contracts else pos 0

-- What a leg brings, with its average price times its contracts as the numerator of the average.
abbrev pub leg_profit : SetDirection → (Text → Bool) → LegFill → ℤ
leg_profit sell_set resolves leg =
    leg.avg_price.numerator -ℤ leg_value resolves leg -ℤ leg.fee_cents
leg_profit buy_set resolves leg = leg_value resolves leg -ℤ leg.avg_price.numerator -ℤ leg.fee_cents

abbrev pub set_profit : SetDirection → (Text → Bool) → List LegFill → ℤ
set_profit d resolves [] = pos 0
set_profit d resolves (leg ∷ rest) = leg_profit d resolves leg +ℤ set_profit d resolves rest

-- What the direction needs of the legs that resolve YES: at most one, or at least one.
abbrev pub Settles : SetDirection → ℕ → Type 0
Settles sell_set count = count ≤ 1
Settles buy_set count = 1 ≤ count

-- A leg of the whole size, whose average is over its contracts.
abbrev pub IsFull : ℤ → LegFill → Type 0
IsFull qty leg = (leg.contracts ≡ qty) × (leg.avg_price.denominator ≡ pos_part qty)

-- The value of the legs that resolve YES, for a size of `n`.
abbrev pub owed : ℕ → (Text → Bool) → List LegFill → ℕ
owed n resolves [] = 0
owed n resolves (leg ∷ rest) =
    let others = owed n resolves rest in
    if resolves leg.ticker then 1000000 * n + others else others

abbrev pub settled_yes : (Text → Bool) → List LegFill → ℕ
settled_yes resolves legs = count_if (λ (l : LegFill). resolves l.ticker) legs

owed_none :
    (n : ℕ) (resolves : Text → Bool) (legs : List LegFill)
    → settled_yes resolves legs ≡ 0
    → owed n resolves legs ≡ 0
owed_none n resolves [] h = refl
owed_none n resolves (leg ∷ rest) h = elim (Bool-cases (resolves leg.ticker)) [
  | inl paid ↦
      let clash : suc (settled_yes resolves rest) ≡ 0 = rw paid at h in absurd (omega arith)
  | inr not_paid ↦ rw not_paid (owed_none n resolves rest (rw not_paid at h))
]

owed_one :
    (n : ℕ) (resolves : Text → Bool) (legs : List LegFill)
    → settled_yes resolves legs ≤ 1
    → owed n resolves legs ≤ 1000000 * n
owed_one n resolves [] h = omega arith
owed_one n resolves (leg ∷ rest) h = elim (Bool-cases (resolves leg.ticker)) [
  | inl paid ↦
      let few : suc (settled_yes resolves rest) ≤ 1 = rw paid at h in
      let others = owed_none n resolves rest (omega arith) in rw (paid, others) (omega arith)
  | inr not_paid ↦ rw not_paid (owed_one n resolves rest (rw not_paid at h))
]

owed_some :
    (n : ℕ) (resolves : Text → Bool) (legs : List LegFill)
    → 1 ≤ settled_yes resolves legs
    → 1000000 * n ≤ owed n resolves legs
owed_some n resolves [] h = omega arith
owed_some n resolves (leg ∷ rest) h = elim (Bool-cases (resolves leg.ticker)) [
  | inl paid ↦ rw paid (omega arith)
  | inr not_paid ↦ rw not_paid (owed_some n resolves rest (rw not_paid at h))
]

abbrev pub gross_of : List LegFill → ℤ
gross_of [] = pos 0
gross_of (leg ∷ rest) = leg.avg_price.numerator +ℤ gross_of rest

abbrev pub fees_in : List LegFill → ℤ
fees_in [] = pos 0
fees_in (leg ∷ rest) = leg.fee_cents +ℤ fees_in rest

dollars : (n : ℕ) → one *ℤ pos n ≡ pos (1000000 * n)
dollars n =
    eq_of_parts (one *ℤ pos n) (pos (1000000 * n))
      (rw (*ℤ-pos one n, pos_part-scale n one, neg_part-scale n one) (omega arith))

-- The profit of a set of full legs, by what they gross and what is owed.
sell_profit :
    (n : ℕ) (resolves : Text → Bool) (legs : List LegFill)
    → All (IsFull (pos n)) legs
    → set_profit sell_set resolves legs
      ≡ gross_of legs -ℤ pos (owed n resolves legs) -ℤ fees_in legs
sell_profit n resolves [] h = eq_of_parts _ _ (omega int_laws)
sell_profit n resolves (leg ∷ rest) ((size, divisor), others) =
    let before = sell_profit n resolves rest others in
    elim (Bool-cases (resolves leg.ticker)) [
      | inl paid ↦ rw (paid, before, size, dollars n) (eq_of_parts _ _ (omega int_laws))
      | inr not_paid ↦ rw (not_paid, before) (eq_of_parts _ _ (omega int_laws))
    ]

buy_profit :
    (n : ℕ) (resolves : Text → Bool) (legs : List LegFill)
    → All (IsFull (pos n)) legs
    → set_profit buy_set resolves legs ≡ pos (owed n resolves legs) -ℤ gross_of legs -ℤ fees_in legs
buy_profit n resolves [] h = eq_of_parts _ _ (omega int_laws)
buy_profit n resolves (leg ∷ rest) ((size, divisor), others) =
    let before = buy_profit n resolves rest others in
    elim (Bool-cases (resolves leg.ticker)) [
      | inl paid ↦ rw (paid, before, size, dollars n) (eq_of_parts _ _ (omega int_laws))
      | inr not_paid ↦ rw (not_paid, before) (eq_of_parts _ _ (omega int_laws))
    ]

pub floor_of :
    (d : SetDirection) (n : ℕ) (resolves : Text → Bool) (legs : List LegFill)
    → All (IsFull (pos n)) legs
    → Settles d (settled_yes resolves legs)
    → gross_cents d (gross_of legs) (pos n) -ℤ fees_in legs ≤ℤ set_profit d resolves legs
floor_of sell_set n resolves legs full few =
    let most = owed_one n resolves legs few in
    rw (sell_profit n resolves legs full, dollars n) (omega int_laws)
floor_of buy_set n resolves legs full some_yes =
    let least = owed_some n resolves legs some_yes in
    rw (buy_profit n resolves legs full, dollars n) (omega int_laws)
