-- ===== src/Direction/Economics.antt =====
-- What the translation of direction.py preserves: the price round trip, the sign of the position
-- against the side of the book, and the profit of the ticket at settlement.
use kalshi_copilot.Base.{◌≡◌, refl}
use kalshi_copilot.Base.Int.{ℤ, ◌-ℤ◌, ◌*ℤ◌, negate, negate-*ℤ, int_laws}
use kalshi_copilot.Base.Outcome.{Outcome, ok, raise, ◌>>=◌}
use kalshi_copilot.Domain.{
  Side, yes_side, no_side, Action, buy, sell, other_action, BookSide, bid, ask, ValueError,
  value_error, one,
}
use kalshi_copilot.Direction.{
  book_side, to_yes_price, from_yes_price, opposite_side, signed_contracts,
}

-- Converting a price to the YES side and back returns it, on either side, and the same price quoted
-- on the opposite side is what remains of a dollar.
pub from_yes_price-to_yes_price :
    (s : Side) (p : ℤ)
    → (from_yes_price s (to_yes_price s p) ≡ p)
      × (to_yes_price (opposite_side s) p ≡ one -ℤ to_yes_price s p)
unfolding from_yes_price to_yes_price opposite_side
from_yes_price-to_yes_price yes_side p = (refl, refl)
from_yes_price-to_yes_price no_side p = (omega int_laws, omega int_laws)

-- The position moves by plus the contracts on a bid, and by minus the contracts on an ask.
abbrev pub moves_with : ℤ → BookSide → ℤ
moves_with c bid = c
moves_with c ask = negate c

pub negate-negate : (c : ℤ) → negate (negate c) ≡ c
negate-negate c = omega int_laws

-- For every side and action, the signed position delta is the contracts with the sign of the book
-- side that the order is sent to; a string that is no action raises in both.
pub signed_contracts-book_side :
    (s : Side) (a : Action) (c : ℤ)
    → signed_contracts s a c ≡ (book_side s a >>= λ b. ok (moves_with c b))
unfolding signed_contracts book_side
signed_contracts-book_side yes_side buy c = refl
signed_contracts-book_side yes_side sell c = refl
signed_contracts-book_side no_side buy c = refl
signed_contracts-book_side no_side sell c = rw (negate-negate c)
signed_contracts-book_side yes_side other_action c = refl
signed_contracts-book_side no_side other_action c = refl

-- What one contract of a side pays when YES settles at `v`.
abbrev pub payoff : Side → ℤ → ℤ
payoff yes_side v = v
payoff no_side v = one -ℤ v

-- The profit of a ticket as a trader reads it: contracts bought at `p` on a side and held to `v`,
-- or sold at `p`.
abbrev pub ticket_profit : Side → Action → ℤ → ℤ → ℤ → Outcome ValueError ℤ
ticket_profit s buy c p v = ok (c *ℤ (payoff s v -ℤ p))
ticket_profit s sell c p v = ok (c *ℤ (p -ℤ payoff s v))
ticket_profit s other_action c p v = raise value_error

flip_difference : (a b : ℤ) → negate (a -ℤ b) ≡ b -ℤ a
flip_difference a b = omega int_laws

no_side_difference : (v p : ℤ) → negate (v -ℤ (one -ℤ p)) ≡ one -ℤ v -ℤ p
no_side_difference v p = omega int_laws

no_side_difference_sell : (v p : ℤ) → v -ℤ (one -ℤ p) ≡ p -ℤ (one -ℤ v)
no_side_difference_sell v p = omega int_laws

-- The profit of a ticket equals the signed YES position times the move from the YES price of the
-- order to the settlement value, for every side, action, size, price and settlement value.
pub signed_contracts_profit :
    (s : Side) (a : Action) (c p v : ℤ)
    → ticket_profit s a c p v ≡ (signed_contracts s a c >>= λ d. ok (d *ℤ (v -ℤ to_yes_price s p)))
unfolding signed_contracts to_yes_price
signed_contracts_profit yes_side buy c p v = refl
signed_contracts_profit yes_side sell c p v = rw (negate-*ℤ c (v -ℤ p), flip_difference v p)
signed_contracts_profit no_side buy c p v =
    rw (negate-*ℤ c (v -ℤ (one -ℤ p)), no_side_difference v p)
signed_contracts_profit no_side sell c p v = rw (negate-negate c, no_side_difference_sell v p)
signed_contracts_profit yes_side other_action c p v = refl
signed_contracts_profit no_side other_action c p v = refl
