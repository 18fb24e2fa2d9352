-- ===== src/Arbitrage/Riskless.antt =====
-- What a set that price_set has costed brings at settlement.
use kalshi_copilot.Base.{
  ℕ, ◌≡◌, refl, ap, inl, inr, Bool, true, Option, none, some, List, [], ◌∷◌, map, All, some_inj,
  sym, Bool-cases, Option-cases, arith,
}
use kalshi_copilot.Base.Int.{ℤ, pos, negsuc, pos_part, ◌+ℤ◌, leb_ℤ, ◌≤ℤ◌}
use kalshi_copilot.Base.Text.{Text}
use kalshi_copilot.Base.Outcome.{Outcome, ok, >>=-eq-ok, ok_inj}
use kalshi_copilot.Fees.{FeeError, FeeSchedule}
use kalshi_copilot.Book.{Levels}
use kalshi_copilot.Arbitrage.{
  SetDirection, LegBook, executable, LegFill, SetOpportunity, leg_fill, walk_set, fees_of, Sums,
  with_leg, price_legs, opportunity, price_set,
}
use kalshi_copilot.Arbitrage.Filled.{
  Charged, IsFilled, AreFilled, fees_of-Charged, IsWalked, walk_set-IsWalked,
}
use kalshi_copilot.Arbitrage.Fills.{walk_set-filled}
use kalshi_copilot.Arbitrage.Order.{executable-Permᴰ, executable-BestFirst}
use kalshi_copilot.Arbitrage.Profit.{
  set_profit, Settles, IsFull, settled_yes, gross_of, fees_in, floor_of,
}

pub record IsRiskless (schedule : FeeSchedule) (d : SetDirection) (slip qty : ℤ)
    (books : List LegBook) (resolves : Text → Bool) (o : SetOpportunity) : Type 0 where
  pub direction : o.direction ≡ d
  pub size : o.contracts ≡ qty
  pub markets : map (λ (l : LegFill). l.ticker) o.legs ≡ map (λ (b : LegBook). b.ticker) books
  pub filled : AreFilled schedule d slip qty books o.legs
  pub full : All (IsFull qty) o.legs
  pub floor : o.net_edge_cents ≤ℤ set_profit d resolves o.legs

-- The legs that the loop has priced.
record ArePriced (schedule : FeeSchedule) (d : SetDirection) (slip : ℤ) (n : ℕ)
    (books : List LegBook) (sums : Sums) : Type 0 where
  tickers : map (λ (l : LegFill). l.ticker) sums.0 ≡ map (λ (b : LegBook). b.ticker) books
  all_filled : AreFilled schedule d slip (pos n) books sums.0
  all_full : All (IsFull (pos n)) sums.0
  gross : sums.1 ≡ gross_of sums.0
  fees : sums.2 ≡ fees_in sums.0

price_legs-ArePriced :
    (schedule : FeeSchedule) (d : SetDirection) (slip : ℤ) (n : ℕ) (books : List LegBook)
    (sums : Sums)
    → price_legs schedule d slip (pos n) books ≡ ok (some sums)
    → ArePriced schedule d slip n books sums
unfolding price_legs
price_legs-ArePriced schedule d slip n [] sums h =
    let same : ([], pos 0, pos 0) ≡ sums = some_inj (ok_inj h) in
    rw (sym same)
      (record { tickers = refl; all_filled = tt; all_full = tt; gross = refl; fees = refl })
price_legs-ArePriced schedule d slip n (book ∷ rest) sums h =
    elim (Option-cases (walk_set d slip (executable d book) (pos n))) [
      | inl short ↦
          let clash : ◌≡◌ {A = Outcome FeeError (Option Sums)} (ok none) (ok (some sums)) =
            rw short at h in
          cc
      | inr ((cost, filled, consumed), walked) ↦
          let (fee, charged, on) =
            >>=-eq-ok (fees_of schedule book.ticker consumed) _ (rw walked at h) in
          let (others, priced, last) = >>=-eq-ok (price_legs schedule d slip (pos n) rest) _ on in
          joined cost filled fee others
            (walk_set-filled d slip _ (pos n) cost filled consumed (omega arith) walked)
            (leg_filled cost filled fee consumed
              (walk_set-IsWalked d slip _ (pos n) cost filled consumed (omega arith) walked)
              (fees_of-Charged schedule book.ticker consumed fee charged))
            (λ legs there. price_legs-ArePriced schedule d slip n rest legs (rw there at priced))
            (ok_inj last)
    ]
  where
    leg_filled :
        (cost filled fee : ℤ) (consumed : Levels)
        → IsWalked d slip (executable d book) (pos n) cost consumed
        → Charged schedule book.ticker consumed fee
        → IsFilled schedule d slip (pos n) book (leg_fill book.ticker cost filled fee)
    leg_filled cost filled fee consumed (taken, size, worth) charged = record {
      levels = executable d book;
      parts = consumed;
      own_side = executable-Permᴰ d book;
      best_first = executable-BestFirst d book;
      taken = taken;
      whole_size = size;
      cost = worth;
      charged = charged;
    }

    joined :
        (cost filled fee : ℤ) (others : Option Sums)
        → filled ≡ pos n
        → IsFilled schedule d slip (pos n) book (leg_fill book.ticker cost filled fee)
        → ((legs : Sums) → others ≡ some legs → ArePriced schedule d slip n rest legs)
        → with_leg book.ticker cost filled fee others ≡ some sums
        → ArePriced schedule d slip n (book ∷ rest) sums
    joined cost filled fee none size own before last = cc
    joined cost filled fee (some (legs, gross, fees)) size own priced last =
        let before = priced (legs, gross, fees) refl in
        rw (sym (some_inj last)) (record {
          tickers = ap (λ (ts : List Text). book.ticker ∷ ts) before.tickers;
          all_filled = (own, before.all_filled);
          all_full = ((size, ap pos_part size), before.all_full);
          gross = ap (λ (g : ℤ). cost +ℤ g) before.gross;
          fees = ap (λ (g : ℤ). fee +ℤ g) before.fees;
        })

nothing_left : (k : ℕ) → leb_ℤ (negsuc k) (pos 0) ≡ true
nothing_left k = ground arith

-- Where price_set costs a set at a size: every leg can be filled at the whole size from its own side of
-- its own book, from the best price on, with no more than its size from any level and a later level
-- touched only where the whole of one before it is taken or passed over for a price that is no price
-- after slippage; the leg's cost is what these parts come to at their prices after slippage, and its fee
-- the sum of their taker fees. And if at most one of the legs that are sold resolves YES, or at least one
-- of those that are bought, then what the legs bring at settlement for that cost, less their fees, is at
-- least the net edge that is claimed.
pub price_set-IsRiskless :
    (schedule : FeeSchedule) (event_ticker : Text) (books : List LegBook) (qty : ℤ)
    (d : SetDirection) (slip : ℤ) (o : SetOpportunity) (resolves : Text → Bool)
    → price_set schedule event_ticker books qty d slip ≡ ok (some o)
    → Settles d (settled_yes resolves o.legs)
    → IsRiskless schedule d slip qty books resolves o
unfolding price_set
price_set-IsRiskless schedule event_ticker [] qty d slip o resolves priced settles = cc
price_set-IsRiskless schedule event_ticker (book ∷ books) (negsuc k) d slip o resolves priced
      settles =
    let clash : ◌≡◌ {A = Outcome FeeError (Option SetOpportunity)} (ok none) (ok (some o)) =
      rw (nothing_left k) at priced in
    cc
price_set-IsRiskless schedule event_ticker (book ∷ books) (pos n) d slip o resolves priced settles =
    elim (Bool-cases (leb_ℤ (pos n) (pos 0))) [
      | inl nothing ↦
          let clash : ◌≡◌ {A = Outcome FeeError (Option SetOpportunity)} (ok none) (ok (some o)) =
            rw nothing at priced in
          cc
      | inr size ↦
          let (sums, legs, last) =
            >>=-eq-ok (price_legs schedule d slip (pos n) (book ∷ books)) _ (rw size at priced) in
          costed sums legs (ok_inj last)
    ]
  where
    costed :
        (sums : Option Sums)
        → price_legs schedule d slip (pos n) (book ∷ books) ≡ ok sums
        → opportunity event_ticker d (pos n) sums ≡ some o
        → IsRiskless schedule d slip (pos n) (book ∷ books) resolves o
    costed none legs last = cc
    costed (some (fills, gross, fees)) legs last =
        let all = price_legs-ArePriced schedule d slip n (book ∷ books) (fills, gross, fees) legs in
        let own = some_inj last in
        rw (sym own) (record {
          direction = refl;
          size = refl;
          markets = all.tickers;
          filled = all.all_filled;
          full = all.all_full;
          floor =
              rw (all.gross, all.fees)
                (floor_of d n resolves fills all.all_full (rw (sym own) at settles));
        })
