-- ===== src/Fees/Edge.antt =====
-- The net edge of fees.py against the costs of the ticket, and the round trip.
use kalshi_copilot.Base.{ℕ, suc, ◌*◌, ◌≡◌, refl, Bool, false, Option, arith, ap, ◌∙◌, sym}
use kalshi_copilot.Base.Int.{ℤ, pos, ◌+ℤ◌, ◌-ℤ◌, leb_ℤ, -ℤ_parts, scale, *ℤ-pos, int_laws}
use kalshi_copilot.Base.Text.{Text}
use kalshi_copilot.Base.Outcome.{ok, >>=-eq-ok, ◌>>=◌}
use kalshi_copilot.Fees.{FeeSchedule, fee_fn, Ratio, net_edge_cents}

not_zero : (n : ℕ) → leb_ℤ (pos (suc n)) (pos 0) ≡ false
not_zero n = ground arith

-- The edge of a ticket for some contracts, with the products by the contracts written as multiples.
net_edge_value :
    (b : Bool) (s : FeeSchedule) (fair p slip : ℤ) (n : ℕ) (k : Option Text)
    → net_edge_cents s fair p (pos (suc n)) k slip b ≡ (
        fee_fn b s p (pos (suc n)) k >>= λ f. ok (record {
          numerator = scale (suc n) (fair -ℤ p) -ℤ pos (10000 * f) -ℤ scale (suc n) slip;
          denominator = suc n;
        }))
unfolding net_edge_cents
net_edge_value b s fair p slip n k = rw (not_zero n) (rw *ℤ-pos (rw *ℤ-pos refl))

edge_sum :
    (fair p slip : ℤ) (m : ℕ) (fee : ℤ)
    → (scale m (fair -ℤ p) -ℤ fee -ℤ scale m slip) +ℤ scale m p +ℤ fee +ℤ scale m slip
      ≡ scale m fair
edge_sum fair p slip m fee = omega (int_laws, ap (λ (t : ℕ). m * t) (-ℤ_parts fair p))

-- The net edge of a positive number of contracts, times the contracts, is what the fair value pays
-- less the price, the fee of the order and the slippage; it is priced exactly when the fee is.
pub net_edge_cents_balance :
    (b : Bool) (s : FeeSchedule) (fair p slip : ℤ) (n : ℕ) (k : Option Text) {e : Ratio}
    → net_edge_cents s fair p (pos (suc n)) k slip b ≡ ok e
    → (f : ℕ) × (fee_fn b s p (pos (suc n)) k ≡ ok f)
      × (e.denominator ≡ suc n)
      × (e.numerator +ℤ scale (suc n) p +ℤ pos (10000 * f) +ℤ scale (suc n) slip
          ≡ scale (suc n) fair)
net_edge_cents_balance b s fair p slip n k {e} h =
    let (f, priced, value) =
      >>=-eq-ok (fee_fn b s p (pos (suc n)) k) _ (sym (net_edge_value b s fair p slip n k) ∙ h) in
    let parts : (e.numerator ≡ scale (suc n) (fair -ℤ p) -ℤ pos (10000 * f) -ℤ scale (suc n) slip)
        × (e.denominator ≡ suc n) =
      ground arith in
    (f, priced, parts.1, rw parts.0 (edge_sum fair p slip (suc n) (pos (10000 * f))))
