-- ===== src/Socket.antt =====
-- backend/app/kalshi/ws.py: the frames of the websocket, with the sequence numbers of each
-- subscription. A frame is decoded, and a sequence number is a natural number; what a consumer reads
-- of a `__resync__` marker is its reason.

use kalshi_copilot.Base.{
  ℕ, suc, Bool, true, false, ◌||◌, Option, none, some, List, [], ◌∷◌, ◌++◌, or_else, leb, ◌==◌,
  if◌then◌else◌,
}
use kalshi_copilot.Base.Int.{ℤ}
use kalshi_copilot.Base.Text.{Text}
use kalshi_copilot.Base.Dict.{look_up, assign}
use kalshi_copilot.Book.{WireLevel, DeltaMsg, StaleReason, sequence_gap, terminal_error, connected}

pub record Subscription : Type 0 where
  pub channels : List Text
  pub market_tickers : List Text

-- `subscribe`, on the list of the subscriptions.
abbrev pub subscribe : List Text → List Text → List Subscription → List Subscription
subscribe channels tickers subscriptions =
    subscriptions ++ record { channels = channels; market_tickers = tickers } ∷ []

-- A command that is sent: its id, and the parameters of `to_params`; no tickers stand for all.
pub record Command : Type 0 where
  pub id : ℕ
  pub channels : List Text
  pub market_tickers : List Text

pub record SidState : Type 0 where
  pub channel : Option Text
  pub last_seq : Option ℕ
  pub gaps : ℕ

abbrev pub fresh_sid : Option Text → SidState
fresh_sid channel = record { channel = channel; last_seq = none; gaps = 0 }

pub record KalshiWebSocket : Type 0 where
  pub subscriptions : List Subscription
  pub next_id : ℕ
  pub sids : List (ℕ × SidState)

-- A trade and a ticker update as they arrive: a field is `none` where it is missing or does not
-- parse.
pub record RawTrade : Type 0 where
  pub trade_id : Option Text
  pub market_ticker : Option Text
  pub ticker : Option Text
  pub yes_price : Option ℤ
  pub no_price : Option ℤ
  pub count : Option ℤ
  pub ts : Option ℕ
  pub taker_side : Option Text

-- The columns that a ticker update may carry.
pub record TickerUpdate : Type 0 where
  pub last_price : Option ℤ
  pub yes_bid : Option ℤ
  pub yes_ask : Option ℤ
  pub volume : Option ℤ
  pub open_interest : Option ℤ
  pub yes_bid_size : Option ℤ
  pub yes_ask_size : Option ℤ

-- The body of a message, by its type.
pub data Body : Type 0 where
  trade_body : RawTrade → Body
  ticker_body : (market_ticker ticker : Option Text) → TickerUpdate → Body
  snapshot_body : (market_ticker : Option Text) → (raw_yes raw_no : List WireLevel) → Body
  delta_body : (market_ticker : Option Text) → DeltaMsg → Body
  other_body : Body

-- A frame: text that is no JSON, an error with its code, a control frame with the sid of its body,
-- its own, and a channel, or data with a sid and a sequence number.
pub data Frame : Type 0 where
  not_json : Frame
  error_frame : Option ℕ → Frame
  control_frame : (body_sid sid : Option ℕ) → Option Text → Frame
  data_frame : (sid seq : Option ℕ) → Body → Frame

-- What the consumer is handed.
pub data Message : Type 0 where
  resync : StaleReason → Message
  passed_on : Option ℕ → Body → Message

-- `_send_subscriptions`
unfoldable pub send_subscriptions : List Subscription → ℕ → ℕ × List Command
send_subscriptions [] next_id = (next_id, [])
send_subscriptions (sub ∷ rest) next_id =
    let (after, commands) = send_subscriptions rest (suc next_id) in
    (
      after,
      record { id = next_id; channels = sub.channels; market_tickers = sub.market_tickers }
          ∷ commands,
    )

-- A connection of `stream`: the sids are forgotten, the subscriptions are sent again, and the
-- consumer is told that its state is void.
unfoldable pub connect : KalshiWebSocket → KalshiWebSocket × List Command × List Message
connect w =
    let (next_id, commands) = send_subscriptions w.subscriptions w.next_id in
    (record w { next_id = next_id; sids = [] }, commands, resync connected ∷ [])

-- `self._sids.setdefault(sid, _SidState())`
abbrev pub state_of : List (ℕ × SidState) → ℕ → SidState
state_of sids sid = or_else (look_up ◌==◌ sid sids) (fresh_sid none)

-- The state of a subscription after a sequence number, and whether numbers are missing before it.
unfoldable pub next_state : SidState → ℕ → SidState × Bool
next_state state seq = elim state.last_seq [
  | none ↦ (record state { last_seq = some seq }, false)
  | some last ↦
      if seq == suc last
      then (record state { last_seq = some seq }, false)
      else if leb seq last
      then (state, false)
      else (record state { last_seq = some seq; gaps = suc state.gaps }, true)
]

-- `_check_seq`
unfoldable pub check_seq : KalshiWebSocket → ℕ → ℕ → KalshiWebSocket × Bool
check_seq w sid seq =
    let (state, gap) = next_state (state_of w.sids sid) seq in
    (record w { sids = assign ◌==◌ sid state w.sids }, gap)

-- `TERMINAL_ERROR_CODES`
abbrev pub is_terminal : Option ℕ → Bool
is_terminal none = false
is_terminal (some code) = code == 10 || (code == 17 || code == 25)

-- `_handle_error`
unfoldable pub handle_error : Option ℕ → List Message
handle_error code = if is_terminal code then resync terminal_error ∷ [] else []

-- `(message.get("msg") or {}).get("sid") or message.get("sid")`: a sid of 0 counts as none.
abbrev pub sid_of : Option ℕ → Option ℕ → Option ℕ
sid_of (some (suc n)) outer = some (suc n)
sid_of _ outer = outer

abbrev pub on_control : KalshiWebSocket → Option ℕ → Option Text → KalshiWebSocket
on_control w none channel = w
on_control w (some sid) channel = record w { sids = assign ◌==◌ sid (fresh_sid channel) w.sids }

-- The messages for data under a checked number.
abbrev pub after_check : Bool → Option ℕ → Body → List Message
after_check gap seq body =
    if gap then resync sequence_gap ∷ passed_on seq body ∷ [] else passed_on seq body ∷ []

-- `_handle_raw`
unfoldable pub handle_raw : KalshiWebSocket → Frame → KalshiWebSocket × List Message
handle_raw w not_json = (w, [])
handle_raw w (error_frame code) = (w, handle_error code)
handle_raw w (control_frame body_sid sid channel) = (on_control w (sid_of body_sid sid) channel, [])
handle_raw w (data_frame (some sid) (some seq) body) =
    let (w', gap) = check_seq w sid seq in (w', after_check gap (some seq) body)
handle_raw w (data_frame _ seq body) = (w, passed_on seq body ∷ [])
