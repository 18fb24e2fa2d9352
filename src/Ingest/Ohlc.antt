-- ===== src/Ingest/Ohlc.antt =====
-- The candles of CandleBuilder against the trades that were added.
use native.Mathlib.Nat.{mod-add-div as mod_add_div}
use kalshi_copilot.Base.{
  ℕ, suc, ◌+◌, ◌*◌, ◌-◌, ◌/◌, ◌≡◌, refl, sym, ap, ◌∙◌, inl, inr, Bool, true, false, ◌&&◌, Option,
  none, some, List, [], ◌∷◌, select, length, Bool-cases, ◌==◌, ==_iff, arith,
}
use kalshi_copilot.Base.Int.{ℤ, ◌+ℤ◌}
use kalshi_copilot.Base.Text.{text_eq, text_eq_sound, text_eq_refl}
use kalshi_copilot.Base.Dict.{IsEquality, look_up, look_up-assign}
use kalshi_copilot.Ingest.{
  Trade, BucketKey, same_bucket, Candle, CandleBuilder, bucket, max_price, min_price, new_candle,
  grown, with_trade, add_trade,
}

-- Trades in the order in which they arrive.
abbrev pub add_rows : CandleBuilder → List Trade → CandleBuilder
add_rows b [] = b
add_rows b (row ∷ rest) = add_rows (add_trade b row.ticker row.ts row.yes_price row.count) rest

abbrev pub no_candles : ℕ → CandleBuilder
no_candles period_sec = record { period_sec = period_sec; open_candles = [] }

abbrev pub key_at : ℕ → Trade → BucketKey
key_at period_sec row = (row.ticker, bucket period_sec row.ts)

-- A trade of the market of a key, in the period that starts at its second: periods are counted from
-- zero, each of `period_sec` seconds.
abbrev pub falls_in : ℕ → BucketKey → Trade → Bool
falls_in period_sec key row =
    text_eq key.0 row.ticker && key.1 == period_sec * (row.ts / 1000000 / period_sec)

rest_of_division : (n x y : ℕ) → x + y ≡ n → n - x ≡ y
rest_of_division n x y h = omega arith

falls_in-same_bucket :
    (period_sec : ℕ) (key : BucketKey) (row : Trade)
    → falls_in period_sec key row ≡ same_bucket key (key_at period_sec row)
falls_in-same_bucket period_sec key row =
    let start : bucket period_sec row.ts ≡ period_sec * (row.ts / 1000000 / period_sec) =
      rest_of_division _ _ _ (mod_add_div (row.ts / 1000000) period_sec) in
    ap (λ (s : ℕ). text_eq key.0 row.ticker && key.1 == s) (sym start)

-- The highest, the lowest and the last price, and the volume, of what is there and some trades.
abbrev pub highest : ℤ → List Trade → ℤ
highest p [] = p
highest p (row ∷ rest) = highest (max_price p row.yes_price) rest

abbrev pub lowest : ℤ → List Trade → ℤ
lowest p [] = p
lowest p (row ∷ rest) = lowest (min_price p row.yes_price) rest

abbrev pub last_price : ℤ → List Trade → ℤ
last_price p [] = p
last_price p (row ∷ rest) = last_price row.yes_price rest

abbrev pub volume_of : ℤ → List Trade → ℤ
volume_of v [] = v
volume_of v (row ∷ rest) = volume_of (v +ℤ row.count) rest

abbrev pub from_candle : Candle → List Trade → Candle
from_candle c rows = record {
  open_price = c.open_price;
  high = highest c.high rows;
  low = lowest c.low rows;
  close = last_price c.close rows;
  volume = volume_of c.volume rows;
  trades = c.trades + length rows;
}

-- The bar of a bucket: the prices of its trades, their volume and their number.
abbrev pub bar : List Trade → Option Candle
bar [] = none
bar (row ∷ rest) = some (from_candle (new_candle row.yes_price row.count) rest)

abbrev pub extended : Option Candle → List Trade → Option Candle
extended none rows = bar rows
extended (some c) rows = some (from_candle c rows)

same_bucket-IsEquality : IsEquality same_bucket
same_bucket-IsEquality = record { sound = sound; reflexive = reflexive }
  where
    both : (x y : Bool) → (x && y) ≡ true → (x ≡ true) × (y ≡ true)
    both x y h = ground arith

    sound : (j k : BucketKey) → same_bucket j k ≡ true → j ≡ k
    sound (t, a) (u, b) h =
        let (texts, starts) = both (text_eq t u) (a == b) h in
        rw (text_eq_sound t u texts, (==_iff a b).0 starts) refl

    reflexive : (k : BucketKey) → same_bucket k k ≡ true
    reflexive (t, a) = rw (text_eq_refl t, (==_iff a a).1 refl) refl

from_candle-grown :
    (c : Candle) (row : Trade) (rest : List Trade)
    → from_candle (grown c row.yes_price row.count) rest ≡ from_candle c (row ∷ rest)
from_candle-grown c row rest =
    let counted : suc c.trades + length rest ≡ c.trades + suc (length rest) = omega arith in
    ap (λ (n : ℕ). record (from_candle c (row ∷ rest)) { trades = n }) counted

extended_by :
    (o : Option Candle) (row : Trade) (rest : List Trade)
    → extended (some (with_trade o row.yes_price row.count)) rest ≡ extended o (row ∷ rest)
extended_by none row rest = refl
extended_by (some c) row rest = ap some (from_candle-grown c row rest)

extended-nil : (o : Option Candle) → extended o [] ≡ o
extended-nil none = refl
extended-nil (some c) =
    let counted : c.trades + 0 ≡ c.trades = omega arith in
    ap (λ (n : ℕ). some (record c { trades = n })) counted

look_up-add_rows :
    (key : BucketKey) (rows : List Trade) (b : CandleBuilder)
    → look_up same_bucket key (add_rows b rows).open_candles
      ≡ extended (look_up same_bucket key b.open_candles) (select (falls_in b.period_sec key) rows)
unfolding add_trade
look_up-add_rows key [] b = sym (extended-nil (look_up same_bucket key b.open_candles))
look_up-add_rows key (row ∷ rest) b =
    let others = select (falls_in b.period_sec key) rest in
    let next = look_up-add_rows key rest (add_trade b row.ticker row.ts row.yes_price row.count) in
    let at = key_at b.period_sec row in
    let entry =
      look_up-assign same_bucket same_bucket-IsEquality key at
        (with_trade (look_up same_bucket at b.open_candles) row.yes_price row.count)
        b.open_candles in
    elim (Bool-cases (falls_in b.period_sec key row)) [
      | inl here ↦
          let met : same_bucket key at ≡ true =
            sym (falls_in-same_bucket b.period_sec key row) ∙ here in
          let own : at ≡ key = sym (IsEquality.sound same_bucket-IsEquality key at met) in
          rw here (
            next
            ∙ ap (λ (o : Option Candle). extended o others) (rw met at entry)
            ∙ extended_by (look_up same_bucket at b.open_candles) row others
            ∙ ap (λ (k : BucketKey). extended (look_up same_bucket k b.open_candles) (row ∷ others))
                own)
      | inr past ↦
          let unmet : same_bucket key at ≡ false =
            sym (falls_in-same_bucket b.period_sec key row) ∙ past in
          rw past (next ∙ ap (λ (o : Option Candle). extended o others) (rw unmet at entry))
    ]

-- Whatever trades a builder that holds nothing is given, the candle of each market and bucket has
-- the first, the highest, the lowest and the last price of exactly the trades of that market in the
-- period that starts there, of the periods of `period_sec` seconds counted from zero, their total
-- volume and their number, and there is none where there was no trade.
pub add_rows-bar :
    (period_sec : ℕ) (rows : List Trade) (key : BucketKey)
    → look_up same_bucket key (add_rows (no_candles period_sec) rows).open_candles
      ≡ bar (select (falls_in period_sec key) rows)
add_rows-bar period_sec rows key = look_up-add_rows key rows (no_candles period_sec)
