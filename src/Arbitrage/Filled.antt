-- ===== src/Arbitrage/Filled.antt =====
-- A leg of set_arbitrage.py that is filled, against its own book and the fee schedule.
use mathlib.Core.Path.{subst}
use mathlib.Core.List.{Permᴰ}
use kalshi_copilot.Base.{
  ℕ, ◌*◌, ◌≡◌, sym, ap, ◌∙◌, inl, inr, Option, none, some, List, [], ◌∷◌, Bool-cases,
}
use kalshi_copilot.Base.Int.{ℤ, pos, ◌+ℤ◌, ◌-ℤ◌, ◌≤ℤ◌, ltb_ℤ, int_laws, eq_of_parts}
use kalshi_copilot.Base.Text.{Text}
use kalshi_copilot.Base.Outcome.{ok, >>=-eq-ok, ok_inj}
use kalshi_copilot.Fees.{FeeSchedule, series_of, taker_fee_cents}
use kalshi_copilot.Book.{Levels}
use kalshi_copilot.Arbitrage.{SetDirection, LegBook, LegFill, consume, walk_set, fees_of}
use kalshi_copilot.Arbitrage.Fills.{walk_set-filled}
use kalshi_copilot.Arbitrage.Order.{met_by, BestFirst}
use kalshi_copilot.Arbitrage.Taken.{Taken, contracts_in, worth, consume-Walked}

-- A fee that is the sum of the taker fees of the parts, each rounded up by itself; a fee of the schedule
-- is in hundredths of a cent.
abbrev pub Charged : FeeSchedule → Text → Levels → ℤ → Type 0
Charged schedule ticker [] fee = fee ≡ pos 0
Charged schedule ticker ((price, amount) ∷ rest) fee =
    (own : ℕ) × (others : ℤ) × (taker_fee_cents schedule price amount (series_of (some ticker))
      ≡ ok own)
    × (fee ≡ pos (own * 10000) +ℤ others)
    × Charged schedule ticker rest others

-- A leg is filled at the whole of a size: its cost is what the parts come to that are taken from its own
-- side of the book, the best price first, and its fee is what they are charged.
pub record IsFilled (schedule : FeeSchedule) (d : SetDirection) (slip qty : ℤ) (book : LegBook)
    (l : LegFill) : Type 0 where
  pub levels : Levels
  pub parts : Levels
  pub own_side : Permᴰ levels (met_by d book)
  pub best_first : BestFirst d levels
  pub taken : Taken d slip levels parts
  pub whole_size : contracts_in parts ≡ qty
  pub cost : l.avg_price.numerator ≡ worth parts
  pub charged : Charged schedule book.ticker parts l.fee_cents

-- Every leg is filled from the book in its place.
abbrev pub AreFilled : FeeSchedule → SetDirection → ℤ → ℤ → List LegBook → List LegFill → Type 0
AreFilled schedule d slip qty [] [] = Unit
AreFilled schedule d slip qty [] (l ∷ ls) = ⊥
AreFilled schedule d slip qty (b ∷ bs) [] = ⊥
AreFilled schedule d slip qty (b ∷ bs) (l ∷ ls) =
    IsFilled schedule d slip qty b l × AreFilled schedule d slip qty bs ls

pub fees_of-Charged :
    (schedule : FeeSchedule) (ticker : Text) (parts : Levels) (fee : ℤ)
    → fees_of schedule ticker parts ≡ ok fee
    → Charged schedule ticker parts fee
unfolding fees_of
fees_of-Charged schedule ticker [] fee h = sym (ok_inj h)
fees_of-Charged schedule ticker ((price, amount) ∷ rest) fee h =
    let (own, charged, on) =
      >>=-eq-ok (taker_fee_cents schedule price amount (series_of (some ticker))) _ h in
    let (others, counted, last) = >>=-eq-ok (fees_of schedule ticker rest) _ on in
    (own, others, charged, sym (ok_inj last), fees_of-Charged schedule ticker rest others counted)

abbrev pub IsWalked : SetDirection → ℤ → Levels → ℤ → ℤ → Levels → Type 0
IsWalked d slip levels qty cost consumed =
    Taken d slip levels consumed × (contracts_in consumed ≡ qty) × (cost ≡ worth consumed)

-- A walk that fills the size has taken parts of that size and worth its cost.
pub walk_set-IsWalked :
    (d : SetDirection) (slip : ℤ) (levels : Levels) (qty cost filled : ℤ) (consumed : Levels)
    → pos 0 ≤ℤ qty
    → walk_set d slip levels qty ≡ some (cost, filled, consumed)
    → IsWalked d slip levels qty cost consumed
unfolding walk_set
walk_set-IsWalked d slip levels qty cost filled consumed h walked =
    let (parts, taken, listed, costs, sizes) = consume-Walked d slip levels qty (pos 0) [] in
    let end = consume d slip levels qty (pos 0) [] in
    let whole = walk_set-filled d slip levels qty cost filled consumed h walked in
    elim (Bool-cases (ltb_ℤ (pos 0) end.1)) [
      | inl short ↦
          let clash : ◌≡◌ {A = Option (ℤ × ℤ × Levels)} none (some (cost, filled, consumed)) =
            rw short at walked in
          cc
      | inr all ↦
          let same = rw all at walked in
          let own : qty -ℤ end.1 ≡ filled = cc in
          let spent : end.0 ≡ cost = cc in
          let parts_on : parts ≡ consumed = cc in
          subst (λ (ls : Levels). IsWalked d slip levels qty cost ls) parts_on
            (
              taken,
              of_sizes end.1 (contracts_in parts) sizes (own ∙ whole),
              sym spent ∙ costs ∙ eq_of_parts _ _ (omega int_laws),
            )
    ]
  where
    of_sizes : (left c : ℤ) → qty ≡ left +ℤ c → qty -ℤ left ≡ qty → c ≡ qty
    of_sizes left c sum whole =
        let back : c ≡ (left +ℤ c) -ℤ left = eq_of_parts _ _ (omega int_laws) in
        back ∙ ap (λ z. z -ℤ left) (sym sum) ∙ whole
