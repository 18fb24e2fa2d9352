-- ===== src/Settlements.antt =====
-- backend/app/trading/settlements.py: what a settled market paid, and closing a position at it.
-- A payout is in microdollars a contract, a fee in microcents.
pub mod Once
pub mod Passes
pub mod Profit
mod Tests
use kalshi_copilot.Base.{
  ℕ, suc, Bool, true, false, not, ◌&&◌, ◌||◌, Option, none, some, List, [], ◌∷◌, if◌then◌else◌, any,
  find, is_some, or_else, upsert,
}
use kalshi_copilot.Base.Int.{ℤ, pos, ◌+ℤ◌, ◌-ℤ◌, ◌*ℤ◌, eqb_ℤ, scale}
use kalshi_copilot.Base.Text.{Text, codes, text_eq, strip, lower}
use kalshi_copilot.Base.Outcome.{Outcome, ok, raise, ◌>>=◌}
use kalshi_copilot.Domain.{one}
use kalshi_copilot.Fees.{Ratio}
use kalshi_copilot.Positions.{whole}
use kalshi_copilot.Interlocks.{ExecutionRoute, simulated, is_simulated, same_route, given}
use kalshi_copilot.Ledger.{
  Position, Settlement, Books, is_position, new_position, position_of, add_amount, date, roll_daily,
  by_settlement,
}

pub data SettleError : Type 0 where
  money_parse_error not_from_the_exchange : SettleError

-- The `value` of a payload in cents, kept in ten-thousandths of a cent: as many microdollars as the
-- payout it stands for.
pub data WireValue : Type 0 where
  absent unparsed : WireValue
  cents : ℤ → WireValue

unfoldable pub settled_yes_value :
    Option Text → WireValue → Option ℤ → Outcome SettleError (Option ℤ)
settled_yes_value market_result value settlement_value =
    let result = lower (strip (or_else market_result [])) in
    if text_eq result (codes "yes")
    then ok (some one)
    else if text_eq result (codes "no")
    then ok (some (pos 0))
    else if text_eq result (codes "scalar")
    then elim settlement_value [
      | some v ↦ ok (some v)
      | none ↦ elim value [
        | absent ↦ ok none
        | unparsed ↦ raise money_parse_error
        | cents v ↦ ok (some v)
      ]
    ]
    else ok none

-- `(payout_yes - avg_price) * net_contracts`, in microcents.
unfoldable pub realized_from_settlement : ℤ → Ratio → ℤ → Ratio
realized_from_settlement net avg payout = record {
  numerator = net *ℤ (scale avg.denominator payout -ℤ avg.numerator);
  denominator = avg.denominator;
}

abbrev pub is_settled : Text → ExecutionRoute → Settlement → Bool
is_settled ticker route s = text_eq ticker s.ticker && same_route route s.route

-- What arrives for one market.
pub record Payout : Type 0 where
  pub ticker : Text
  pub payout_yes : ℤ
  pub fee_cents : ℤ
  pub settled_at : Option ℕ

-- The position is gone: settlement does not leave a residue.
abbrev pub closed_out : Ratio → ℤ → Position → Position
closed_out realized fee p = record p {
  net_contracts = pos 0;
  avg_price = whole (pos 0);
  realized_pnl_cents = add_amount p.realized_pnl_cents realized;
  fees_paid_cents = p.fees_paid_cents +ℤ fee;
}

-- What applying a settlement writes, at a time `now`.
unfoldable pub settle : Payout → ExecutionRoute → ℕ → Books → Settlement × Books
settle m route now b =
    let p = position_of m.ticker route b in
    let realized = realized_from_settlement p.net_contracts p.avg_price m.payout_yes in
    let row : Settlement = record {
      ticker = m.ticker;
      route = route;
      settled_yes_value = m.payout_yes;
      net_contracts = p.net_contracts;
      avg_price = p.avg_price;
      realized_pnl_cents = realized;
      fee_cents = m.fee_cents;
      created_at = now;
    } in
    (
      row,
      record {
        positions =
            upsert (is_position m.ticker route) (closed_out realized m.fee_cents)
              (new_position m.ticker route) b.positions;
        pnl_daily =
            roll_daily (date (or_else m.settled_at now)) route realized m.fee_cents by_settlement
              b.pnl_daily;
        settled = row ∷ b.settled;
      },
    )

-- Nothing to do: already applied, or nothing held. A market with no position row has a net of zero.
abbrev pub is_spent : Text → ExecutionRoute → Books → Bool
is_spent ticker route b =
    any (is_settled ticker route) b.settled
    || eqb_ℤ (position_of ticker route b).net_contracts (pos 0)

unfoldable pub apply_settlement : Payout → ExecutionRoute → ℕ → Books → Option Settlement × Books
apply_settlement m route now b =
    let done = settle m route now b in
    if is_spent m.ticker route b then (none, b) else (some done.0, done.1)

-- `if row is not None: applied += 1`
abbrev pub counted : Option Settlement → ℕ → ℕ
counted row applied = if is_some row then suc applied else applied

-- One settlement of the exchange's feed; a missing ticker is skipped.
pub record RawSettlement : Type 0 where
  pub ticker : Option Text
  pub market_result : Option Text
  pub value : WireValue
  pub fee_cost : WireValue
  pub settled_at : Option ℕ

-- `_fee_cents`, where the amount of the wire is in microcents.
abbrev pub fee_of : WireValue → Outcome SettleError ℤ
fee_of absent = ok (pos 0)
fee_of unparsed = raise money_parse_error
fee_of (cents z) = ok z

-- A row of the markets table.
pub record Market : Type 0 where
  pub ticker : Text
  pub result : Option Text
  pub settlement_value : Option ℤ
  pub settlement_ts : Option ℕ

-- `_market_settlement_value`
abbrev pub market_settlement_value : Text → List Market → Option ℤ
market_settlement_value ticker markets =
    elim (find (λ (m : Market). text_eq ticker m.ticker) markets) [
      | none ↦ none
      | some m ↦ m.settlement_value
    ]

-- The loop of `sync_local_settlements` over the markets of open positions.
unfoldable pub settle_markets :
    List Market → ExecutionRoute → ℕ → ℕ × Books → Outcome SettleError (ℕ × Books)
settle_markets [] route now (applied, b) = ok (applied, b)
settle_markets (m ∷ rest) route now (applied, b) =
    settled_yes_value m.result absent m.settlement_value >>= λ payout. elim payout [
      | none ↦ settle_markets rest route now (applied, b)
      | some v ↦
          let (row, c) =
            apply_settlement
              (record {
                ticker = m.ticker;
                payout_yes = v;
                fee_cents = pos 0;
                settled_at = m.settlement_ts;
              })
              route now b in
          settle_markets rest route now (counted row applied, c)
    ]

-- Some row of the market on the simulated route holds contracts.
abbrev pub is_open : List Position → Text → Bool
is_open positions ticker =
    any (λ (p : Position). is_position ticker simulated p && not (eqb_ℤ p.net_contracts (pos 0)))
      positions

abbrev pub open_markets : List Position → List Market → List Market
open_markets positions [] = []
open_markets positions (m ∷ rest) =
    if is_open positions m.ticker
    then m ∷ open_markets positions rest
    else open_markets positions rest

-- `sync_local_settlements`: how many were applied, and the books after it.
unfoldable pub sync_local_settlements : List Market → ℕ → Books → Outcome SettleError (ℕ × Books)
sync_local_settlements markets now b =
    settle_markets (open_markets b.positions markets) simulated now (0, b)

-- The loop of `sync_exchange_settlements` over the feed.
unfoldable pub settle_feed :
    List Market
    → List RawSettlement
    → ExecutionRoute
    → ℕ
    → ℕ × Books
    → Outcome SettleError (ℕ × Books)
settle_feed markets [] route now (applied, b) = ok (applied, b)
settle_feed markets (raw ∷ rest) route now (applied, b) = elim (given raw.ticker) [
  | none ↦ settle_feed markets rest route now (applied, b)
  | some ticker ↦
      settled_yes_value raw.market_result raw.value (market_settlement_value ticker markets)
      >>= λ payout. elim payout [
        | none ↦ settle_feed markets rest route now (applied, b)
        | some v ↦ fee_of raw.fee_cost >>= λ fee.
            let (row, c) =
              apply_settlement
                (record {
                  ticker = ticker;
                  payout_yes = v;
                  fee_cents = fee;
                  settled_at = raw.settled_at;
                })
                route now b in
            settle_feed markets rest route now (counted row applied, c)
      ]
]

unfoldable pub sync_exchange_settlements :
    List Market → List RawSettlement → ExecutionRoute → ℕ → Books → Outcome SettleError (ℕ × Books)
sync_exchange_settlements markets feed route now b =
    if is_simulated route
    then raise not_from_the_exchange
    else settle_feed markets feed route now (0, b)
