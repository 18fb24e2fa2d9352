-- ===== src/Paper.antt =====
-- backend/app/trading/paper.py: the simulator that fills a paper order against a book of bids.
pub mod Fills
pub mod Crossing
mod Tests
use kalshi_copilot.Base.{
  ℕ, Bool, true, false, not, ◌&&◌, ◌||◌, Option, none, some, List, [], ◌∷◌, if◌then◌else◌,
}
use kalshi_copilot.Base.Int.{ℤ, pos, ◌+ℤ◌, ◌-ℤ◌, ltb_ℤ, leb_ℤ, min_ℤ}
use kalshi_copilot.Base.Outcome.{Outcome, ok, raise, ◌>>=◌}
use kalshi_copilot.Domain.{Side, Action, is_yes, is_buy, same, one}
use kalshi_copilot.Book.{WireLevel, too_short, level, malformed, Levels, sort_desc, insert_desc}

-- The book of the orderbook endpoint: both sides quoted as bids.
pub record PaperBook : Type 0 where
  pub yes_quotes : List WireLevel
  pub no_quotes : List WireLevel

pub data PaperError : Type 0 where
  money_parse_error fee_error : PaperError

pub record SimulatedFill : Type 0 where
  pub price : ℤ
  pub contracts : ℤ
  pub fee_cents : ℕ

-- `Decimal(1) - price if invert else price`
abbrev pub quoted : Bool → ℤ → ℤ
quoted invert price = if invert then one -ℤ price else price

-- The loop of `levels_for`.
unfoldable pub read_levels : Bool → List WireLevel → Outcome PaperError Levels
read_levels invert [] = ok []
read_levels invert (too_short ∷ rest) = read_levels invert rest
read_levels invert (malformed ∷ rest) = raise money_parse_error
read_levels invert (level price size ∷ rest) = read_levels invert rest >>= λ levels.
    ok (if leb_ℤ size (pos 0) then levels else (quoted invert price, size) ∷ levels)

-- `levels.sort(key=..., reverse=not is_buy)`: stable in both directions.
abbrev pub insert_asc : ℤ × ℤ → Levels → Levels
insert_asc e [] = e ∷ []
insert_asc e (x ∷ xs) = if leb_ℤ e.0 x.0 then e ∷ x ∷ xs else x ∷ insert_asc e xs

unfoldable pub sort_asc : Levels → Levels
sort_asc [] = []
sort_asc (e ∷ d) = insert_asc e (sort_asc d)

abbrev pub best_first : Bool → Levels → Levels
best_first true levels = sort_asc levels
best_first false levels = sort_desc levels

abbrev pub source : PaperBook → Side → Action → List WireLevel
source book side action =
    if same (is_yes side) (is_buy action) then book.no_quotes else book.yes_quotes

unfoldable pub levels_for : PaperBook → Side → Action → Outcome PaperError Levels
levels_for book side action = read_levels (is_buy action) (source book side action) >>= λ levels.
    ok (best_first (is_buy action) levels)

-- Adverse slippage, in microdollars a contract.
abbrev pub effective : Bool → ℤ → ℤ → ℤ
effective buying slip price = if buying then price +ℤ slip else price -ℤ slip

-- The effective price is beyond the limit.
abbrev pub beyond : Bool → ℤ → ℤ → Bool
beyond buying limit price = if buying then ltb_ℤ limit price else ltb_ℤ price limit

-- The fee of one level, which `taker_fee_cents` may refuse.
abbrev pub FeeOf : Type 0
FeeOf = ℤ → ℤ → Outcome PaperError ℕ

-- The loop of `simulate_fills`, on what remains.
unfoldable pub fill_levels :
    FeeOf → Bool → ℤ → ℤ → Levels → ℤ → Outcome PaperError (List SimulatedFill)
fill_levels fee buying limit slip [] remaining = ok []
fill_levels fee buying limit slip ((price, size) ∷ rest) remaining =
    let p = effective buying slip price in
    let take = min_ℤ size remaining in
    let skipped = fill_levels fee buying limit slip rest remaining in
    let after = fill_levels fee buying limit slip rest (remaining -ℤ take) in
    if leb_ℤ remaining (pos 0)
    then ok []
    else if not (ltb_ℤ (pos 0) p && ltb_ℤ p one)
    then skipped
    else if beyond buying limit p
    then ok []
    else (fee p take >>= λ cents.
        after >>= λ fills. ok (record { price = p; contracts = take; fee_cents = cents } ∷ fills))

-- `simulate_fills`
unfoldable pub simulate_fills :
    FeeOf → PaperBook → Side → Action → ℤ → ℤ → ℤ → Outcome PaperError (List SimulatedFill)
simulate_fills fee book side action limit contracts slip = levels_for book side action >>= λ levels.
    fill_levels fee (is_buy action) limit slip levels contracts
