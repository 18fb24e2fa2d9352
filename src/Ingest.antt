-- ===== src/Ingest.antt =====
-- backend/app/ingest/normalize.py, for trades and tickers, and the CandleBuilder of
-- backend/app/ingest/streams.py. Times are in microseconds.
pub mod Streams
pub mod Flush
pub mod Effects
pub mod Agreement
pub mod Ohlc
pub mod Waiting
pub mod Covered
pub mod Arrivals
pub mod Delivery
mod Tests
use kalshi_copilot.Base.{
  ℕ, suc, ◌*◌, ◌-◌, ◌/◌, ◌%◌, Bool, true, false, not, ◌&&◌, ◌||◌, Option, none, some, List, [], ◌∷◌,
  map, select, is_some, ltb, ◌==◌, if◌then◌else◌,
}
use kalshi_copilot.Base.Int.{ℤ, ◌+ℤ◌, leb_ℤ}
use kalshi_copilot.Base.Text.{Text, text_eq}
use kalshi_copilot.Base.Dict.{look_up, assign}
use kalshi_copilot.Socket.{RawTrade, TickerUpdate}

-- A row of the tape.
pub record Trade : Type 0 where
  pub trade_id : Option Text
  pub ticker : Text
  pub ts : ℕ
  pub yes_price : ℤ
  pub no_price : Option ℤ
  pub count : ℤ
  pub taker_side : Option Text

-- A text that is there and not empty.
abbrev pub filled_text : Option Text → Option Text
filled_text (some (c ∷ t)) = some (c ∷ t)
filled_text _ = none

-- `raw.get("market_ticker") or raw.get("ticker")`
abbrev pub either_ticker : Option Text → Option Text → Option Text
either_ticker market_ticker ticker = elim (filled_text market_ticker) [
  | none ↦ filled_text ticker
  | some t ↦ some t
]

abbrev pub trade_row : RawTrade → Option Text → Option ℤ → Option ℤ → Option ℕ → Option Trade
trade_row raw (some ticker) (some yes_price) (some count) (some ts) = some (record {
  trade_id = raw.trade_id;
  ticker = ticker;
  ts = ts;
  yes_price = yes_price;
  no_price = raw.no_price;
  count = count;
  taker_side = raw.taker_side;
})
trade_row raw _ _ _ _ = none

unfoldable pub normalize_trade : RawTrade → Option Trade
normalize_trade raw =
    trade_row raw (either_ticker raw.market_ticker raw.ticker) raw.yes_price raw.count raw.ts

-- `len(update) == 1`: no column beside the ticker.
abbrev pub is_bare : TickerUpdate → Bool
is_bare u = not (
    is_some u.last_price
    || (is_some u.yes_bid
        || (is_some u.yes_ask
            || (is_some u.volume
                || (is_some u.open_interest
                    || (is_some u.yes_bid_size || is_some u.yes_ask_size))))))

abbrev pub ticker_update : TickerUpdate → Option Text → Option (Text × TickerUpdate)
ticker_update u none = none
ticker_update u (some ticker) = if is_bare u then none else some (ticker, u)

unfoldable pub normalize_ticker :
    Option Text → Option Text → TickerUpdate → Option (Text × TickerUpdate)
normalize_ticker market_ticker ticker u = ticker_update u (either_ticker market_ticker ticker)

-- The market and the second at which a bucket starts.
abbrev pub BucketKey : Type 0
BucketKey = Text × ℕ

abbrev pub same_bucket : BucketKey → BucketKey → Bool
same_bucket (t, a) (u, b) = text_eq t u && a == b

-- The `open` of a bucket is `open_price` here.
pub record Candle : Type 0 where
  pub open_price : ℤ
  pub high : ℤ
  pub low : ℤ
  pub close : ℤ
  pub volume : ℤ
  pub trades : ℕ

pub record CandleBuilder : Type 0 where
  pub period_sec : ℕ
  pub open_candles : List (BucketKey × Candle)

-- `_bucket`
-- The start of the period of a time; a period has at least a second.
abbrev pub bucket : ℕ → ℕ → ℕ
bucket period_sec ts = let epoch = ts / 1000000 in epoch - epoch % period_sec

abbrev pub max_price : ℤ → ℤ → ℤ
max_price a b = if leb_ℤ a b then b else a

abbrev pub min_price : ℤ → ℤ → ℤ
min_price a b = if leb_ℤ a b then a else b

abbrev pub new_candle : ℤ → ℤ → Candle
new_candle price count = record {
  open_price = price;
  high = price;
  low = price;
  close = price;
  volume = count;
  trades = 1;
}

abbrev pub grown : Candle → ℤ → ℤ → Candle
grown c price count = record c {
  high = max_price c.high price;
  low = min_price c.low price;
  close = price;
  volume = c.volume +ℤ count;
  trades = suc c.trades;
}

-- The candle of a bucket after a trade in it.
abbrev pub with_trade : Option Candle → ℤ → ℤ → Candle
with_trade none price count = new_candle price count
with_trade (some c) price count = grown c price count

unfoldable pub add_trade : CandleBuilder → Text → ℕ → ℤ → ℤ → CandleBuilder
add_trade b ticker ts price count =
    let key : BucketKey = (ticker, bucket b.period_sec ts) in
    record b {
      open_candles =
          assign same_bucket key (with_trade (look_up same_bucket key b.open_candles) price count)
            b.open_candles;
    }

-- Whether a bucket starts before the cutoff.
abbrev pub before : ℕ → BucketKey × Candle → Bool
before cutoff ((ticker, start), candle) = ltb start cutoff

-- `take_closed`: the buckets that have ended, which it removes.
unfoldable pub take_closed : CandleBuilder → ℕ → CandleBuilder × List (BucketKey × Candle)
take_closed b now =
    let cutoff = bucket b.period_sec now in
    (
      record b { open_candles = select (λ e. not (before cutoff e)) b.open_candles },
      select (before cutoff) b.open_candles,
    )

unfoldable pub take_all : CandleBuilder → CandleBuilder × List (BucketKey × Candle)
take_all b = (record b { open_candles = [] }, b.open_candles)
