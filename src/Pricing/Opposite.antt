-- ===== src/Pricing/Opposite.antt =====
-- Selling a side in pricing.py, against buying the opposite side at what remains of a dollar.
use kalshi_copilot.Base.{ℕ, ◌≡◌, refl, ap, Bool, Option, none, some, or_else, arith}
use kalshi_copilot.Base.Int.{ℤ, ◌-ℤ◌, int_laws}
use kalshi_copilot.Base.Text.{Text}
use kalshi_copilot.Base.Outcome.{Outcome, ok, raise, ◌>>=◌, ◌>>◌}
use kalshi_copilot.Domain.{Side, yes_side, no_side, buy, sell, BookSide, one}
use kalshi_copilot.Settings.{Config}
use kalshi_copilot.Direction.{book_side, to_yes_price, opposite_side}
use kalshi_copilot.Fees.{FeeSchedule, Ratio}
use kalshi_copilot.Fees.Bounds.{fee_fn-one_minus}
use kalshi_copilot.Pricing.{PricingError, TicketQuote, inside, edge_of, ticket, price_ticket}

-- What a quote says of the money and of the order on the wire.
abbrev pub Terms : Type 0
Terms = ℤ × ℤ × ℤ × Option Ratio × BookSide × ℤ

abbrev pub terms : TicketQuote → Terms
terms q = (
  q.est_fee_cents, q.max_loss_cents, q.max_win_cents, q.net_edge_cents, q.wire_book_side,
  q.wire_yes_price,
)

-- What remains of a dollar.
abbrev pub rest_of : Option ℤ → Option ℤ
rest_of none = none
rest_of (some p) = some (one -ℤ p)

twice : (p : ℤ) → one -ℤ (one -ℤ p) ≡ p
twice p = omega int_laws

inside-one_minus : (p : ℤ) → inside (one -ℤ p) ≡ inside p
unfolding ◌-ℤ◌
inside-one_minus p = ground arith

edge_of-rest_of :
    (config : Config) (schedule : FeeSchedule) (p qty : ℤ) (series : Option Text) (taker : Bool)
    (fair : Option ℤ)
    → edge_of config schedule buy (one -ℤ p) qty series taker (rest_of fair)
      ≡ edge_of config schedule sell p qty series taker fair
unfolding edge_of
edge_of-rest_of config schedule p qty series taker none = refl
edge_of-rest_of config schedule p qty series taker (some fair) = rw (inside-one_minus fair) refl

same_book_side : (side : Side) → book_side (opposite_side side) buy ≡ book_side side sell
unfolding book_side opposite_side
same_book_side yes_side = refl
same_book_side no_side = refl

same_wire_price :
    (side : Side) (p : ℤ) → to_yes_price (opposite_side side) (one -ℤ p) ≡ to_yes_price side p
unfolding to_yes_price opposite_side
same_wire_price yes_side p = twice p
same_wire_price no_side p = refl

-- A ticket from its parts: the checks, the fee, the edge and the side of the book.
abbrev assembled :
    Outcome PricingError (Unit {0})
    → Outcome PricingError ℕ
    → Outcome PricingError (Option Ratio)
    → Outcome PricingError BookSide
    → (ℕ → Option Ratio → BookSide → TicketQuote)
    → Outcome PricingError TicketQuote
assembled checks fees edges wires f =
    checks >> (fees >>= λ c. edges >>= λ e. wires >>= λ w. ok (f c e w))

-- Tickets of the same parts agree where what they say of them does.
same_terms :
    (checks : Outcome PricingError (Unit {0})) (fees : Outcome PricingError ℕ)
    (edges : Outcome PricingError (Option Ratio)) (wires : Outcome PricingError BookSide)
    (f g : ℕ → Option Ratio → BookSide → TicketQuote)
    → ((c : ℕ) (e : Option Ratio) (w : BookSide) → terms (f c e w) ≡ terms (g c e w))
    → (assembled checks fees edges wires f >>= λ q. ok (terms q))
      ≡ (assembled checks fees edges wires g >>= λ q. ok (terms q))
same_terms (raise x) fees edges wires f g h = refl
same_terms (ok _) (raise x) edges wires f g h = refl
same_terms (ok _) (ok c) (raise x) wires f g h = refl
same_terms (ok _) (ok c) (ok e) (raise x) f g h = refl
same_terms (ok _) (ok c) (ok e) (ok w) f g h = ap ok (h c e w)

-- Selling a side at a price is the same ticket as buying the opposite side at what remains of a
-- dollar, with the fair value turned the same way: the fee, the largest loss, the largest gain, the
-- net edge, and the side and the price on the wire agree, and so does every refusal.
pub price_ticket-opposite_side :
    (schedule : FeeSchedule) (ticker : Text) (side : Side) (price qty : ℤ) (category : Option Text)
    (config : Config) (fair_price : Option ℤ) (is_taker : Option Bool)
    → (price_ticket schedule ticker
          (opposite_side side)
          buy
          (one -ℤ price)
          qty
          category
          config
          (rest_of fair_price)
          is_taker
        >>= λ q. ok (terms q))
      ≡ (price_ticket schedule ticker side sell price qty category config fair_price is_taker
          >>= λ q. ok (terms q))
unfolding price_ticket
price_ticket-opposite_side schedule ticker side price qty category config fair_price is_taker =
    let taker = or_else is_taker config.costs.assume_taker in
    simp (inside-one_minus, fee_fn-one_minus, edge_of-rest_of, same_book_side)
      (same_terms _ _ _ _
        (ticket ticker (opposite_side side) buy (one -ℤ price) qty category (rest_of fair_price)
          taker)
        (ticket ticker side sell price qty category fair_price taker)
        (λ c e w. simp (same_wire_price, twice)))
