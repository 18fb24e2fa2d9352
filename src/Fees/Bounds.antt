-- ===== src/Fees/Bounds.antt =====
-- The fee of one fill in fees.py: its domain, the rounding, the symmetry in P and 1 - P, and what
-- splitting an order into fills costs.
use kalshi_copilot.Base.{
  ℕ, suc, ◌+◌, ◌*◌, ◌≤◌, ◌<◌, ◌≡◌, refl, inl, inr, Bool, true, false, Option, arith, Bool-cases,
  sym, ap, ◌∙◌,
}
use kalshi_copilot.Base.Int.{ℤ, pos, pos_part, ◌-ℤ◌, eqb_ℤ, ◌≤ℤ◌, ◌<ℤ◌, int_laws}
use kalshi_copilot.Base.Text.{Text}
use kalshi_copilot.Base.Outcome.{ok, >>_ok, >>=-eq-ok}
use kalshi_copilot.Domain.{one}
use kalshi_copilot.Fees.{
  FeeSchedule, validate, centicent, round_up_centicents, gross_fee, taker_rate, taker_fee_cents,
  maker_fee_cents, fee_fn,
}

pub round_up_bounds :
    (g : ℕ)
    → (g ≤ round_up_centicents g * centicent) × (round_up_centicents g * centicent < g + centicent)
unfolding round_up_centicents
round_up_bounds g = (omega arith, omega arith)

round_up_zero : round_up_centicents 0 ≡ 0
unfolding round_up_centicents
round_up_zero = refl

pub validate_ok : (p c : ℤ) → validate p c ≡ ok tt → (pos 0 <ℤ p) × (p <ℤ one) × (pos 0 ≤ℤ c)
unfolding validate
validate_ok p c h = ground arith

zero_contracts : (c : ℤ) → eqb_ℤ c (pos 0) ≡ true → pos_part c ≡ 0
zero_contracts c h = ground arith

gross_fee_zero : (r : ℕ) (p c : ℤ) → pos_part c ≡ 0 → gross_fee r p c ≡ 0
gross_fee_zero r p c h = rw h (omega arith)

-- With a rate at hand the early return on zero contracts is the formula's own value.
taker_fee_of_rate :
    (s : FeeSchedule) (p c : ℤ) (k : Option Text) (r : ℕ)
    → validate p c ≡ ok tt
    → taker_rate s k ≡ ok r
    → taker_fee_cents s p c k ≡ ok (round_up_centicents (gross_fee r p c))
unfolding taker_fee_cents
taker_fee_of_rate s p c k r v e = elim (Bool-cases (eqb_ℤ c (pos 0))) [
  | inl z ↦
      rw (v, z)
        (ap ok (
          sym (ap round_up_centicents (gross_fee_zero r p c (zero_contracts c z)) ∙ round_up_zero)))
  | inr z ↦ rw (v, z, e)
]

fee_fn-validate :
    (b : Bool) (s : FeeSchedule) (p c : ℤ) (k : Option Text) {f : ℕ}
    → fee_fn b s p c k ≡ ok f
    → validate p c ≡ ok tt
unfolding taker_fee_cents maker_fee_cents
fee_fn-validate true s p c k h = (>>_ok (validate p c) _ h).0
fee_fn-validate false s p c k h = (>>_ok (validate p c) _ h).0

-- A taker or maker fee is only ever returned for a price strictly between 0 and 1 dollar and a
-- number of contracts that is not negative.
pub fee_fn_domain :
    (b : Bool) (s : FeeSchedule) (p c : ℤ) (k : Option Text) {f : ℕ}
    → fee_fn b s p c k ≡ ok f
    → (pos 0 <ℤ p) × (p <ℤ one) × (pos 0 ≤ℤ c)
fee_fn_domain b s p c k h = validate_ok p c (fee_fn-validate b s p c k h)

positive : (n : ℕ) → eqb_ℤ (pos (suc n)) (pos 0) ≡ false
positive n = ground arith

-- A fee for a positive number of contracts comes from a rate.
taker_fee_has_rate :
    (s : FeeSchedule) (p : ℤ) (n : ℕ) (k : Option Text) {f : ℕ}
    → taker_fee_cents s p (pos (suc n)) k ≡ ok f
    → (r : ℕ) × (taker_rate s k ≡ ok r)
unfolding taker_fee_cents
taker_fee_has_rate s p n k h =
    let (r, e, rest) =
      >>=-eq-ok (taker_rate s k) _
        (rw (positive n) at ((>>_ok (validate p (pos (suc n))) _ h).1)) in
    (r, e)

-- A taker fee of a fill with contracts is the rate's gross fee rounded up to a whole centicent:
-- never below it, and less than one centicent above it.
pub taker_fee_cents_rounding :
    (s : FeeSchedule) (p : ℤ) (n : ℕ) (k : Option Text) {f : ℕ}
    → taker_fee_cents s p (pos (suc n)) k ≡ ok f
    → (r : ℕ) × (taker_rate s k ≡ ok r)
      × (gross_fee r p (pos (suc n)) ≤ f * centicent)
      × (f * centicent < gross_fee r p (pos (suc n)) + centicent)
taker_fee_cents_rounding s p n k {f} h =
    let (r, e) = taker_fee_has_rate s p n k h in
    let value = taker_fee_of_rate s p (pos (suc n)) k r (fee_fn-validate true s p _ k h) e in
    let same : f ≡ round_up_centicents (gross_fee r p (pos (suc n))) = cc in
    (r, e, rw same (round_up_bounds _).0, rw same (round_up_bounds _).1)

gross_fee-one_minus : (r : ℕ) (p c : ℤ) → gross_fee r (one -ℤ p) c ≡ gross_fee r p c
gross_fee-one_minus r p c = let e : one -ℤ (one -ℤ p) ≡ p = omega int_laws in rw e (omega arith)

validate-one_minus : (p c : ℤ) → validate (one -ℤ p) c ≡ validate p c
unfolding validate ◌-ℤ◌
validate-one_minus p c = ground arith

-- The fee is the same at P and at 1 - P, for takers and for makers, errors included.
pub fee_fn-one_minus :
    (b : Bool) (s : FeeSchedule) (p c : ℤ) (k : Option Text)
    → fee_fn b s (one -ℤ p) c k ≡ fee_fn b s p c k
unfolding taker_fee_cents maker_fee_cents
fee_fn-one_minus true s p c k = rw validate-one_minus (simp gross_fee-one_minus)
fee_fn-one_minus false s p c k = rw validate-one_minus (simp gross_fee-one_minus)

validate-add : (p : ℤ) (a b : ℕ) → validate p (pos (a + b)) ≡ validate p (pos a)
unfolding validate
validate-add p a b = ground arith

gross_fee-add :
    (r : ℕ) (p : ℤ) (a b : ℕ)
    → gross_fee r p (pos (a + b)) ≡ gross_fee r p (pos a) + gross_fee r p (pos b)
gross_fee-add r p a b = omega arith

round_up_split :
    (x y : ℕ)
    → (round_up_centicents (x + y) ≤ round_up_centicents x + round_up_centicents y)
      × (round_up_centicents x + round_up_centicents y ≤ round_up_centicents (x + y) + 1)
unfolding round_up_centicents
round_up_split x y = (omega arith, omega arith)

-- Two fills of one order at one price: priced together they cost no more than priced apart, and at
-- most one centicent less.
pub taker_fee_cents_split :
    (s : FeeSchedule) (p : ℤ) (a b : ℕ) (k : Option Text) {f g : ℕ}
    → taker_fee_cents s p (pos (suc a)) k ≡ ok f
    → taker_fee_cents s p (pos (suc b)) k ≡ ok g
    → (h : ℕ) × (taker_fee_cents s p (pos (suc a + suc b)) k ≡ ok h) × (h ≤ f + g) × (f + g ≤ h + 1)
taker_fee_cents_split s p a b k {f} {g} hf hg =
    let (r, e) = taker_fee_has_rate s p a k hf in
    let va = fee_fn-validate true s p (pos (suc a)) k hf in
    let ef = taker_fee_of_rate s p (pos (suc a)) k r va e in
    let eg = taker_fee_of_rate s p (pos (suc b)) k r (fee_fn-validate true s p _ k hg) e in
    let bounds = round_up_split (gross_fee r p (pos (suc a))) (gross_fee r p (pos (suc b))) in
    let f_is : f ≡ round_up_centicents (gross_fee r p (pos (suc a))) = cc in
    let g_is : g ≡ round_up_centicents (gross_fee r p (pos (suc b))) = cc in
    let total = rw (← gross_fee-add r p (suc a) (suc b)) at bounds in
    (
      round_up_centicents (gross_fee r p (pos (suc a + suc b))),
      taker_fee_of_rate s p _ k r (validate-add p (suc a) (suc b) ∙ va) e,
      omega (arith, total.0),
      omega (arith, total.1),
    )
