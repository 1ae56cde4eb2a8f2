-- ===== src/Exchange/Client.antt =====
-- The pure converters of polyperps/exchange/client.py, from what the exchange's client library answers to our
-- types, and what a call of the library raises.
pub mod Calls
pub mod Paged
use perpbot.Base.{ℕ, Bool, Option, none, some, List}
use perpbot.Decimal.{Decimal}
use perpbot.Exchange.{
  SourceType, polymarket_rest, polymarket_ws, Instrument, Tick, BookLevel, BookSnapshot,
  FundingObservation, Candle, FeeSchedule,
}
use perpbot.Execution.Types.{Text, Time}

-- What a call returns or raises: a value, one of TRANSIENT_ERRORS with its suggested wait, or another error, which
-- may be a RuntimeError.
pub data Answer (A : Type 0) : Type 0 where
  answer : A → Answer A
  transient : Option ℕ → Answer A
  failure : (is_runtime : Bool) → Answer A

abbrev pub map_answer : {A B : Type 0} → (A → B) → Answer A → Answer B
map_answer f (answer a) = answer (f a)
map_answer f (transient after) = transient after
map_answer f (failure is_runtime) = failure is_runtime

-- What the library answers, as far as the code reads it.
pub record VenueTicker : Type 0 where
  pub instrument_id : ℕ
  pub mark_price : Decimal
  pub index_price : Decimal
  pub last_price : Decimal
  pub funding_rate : Decimal
  pub next_funding : Time
  pub timestamp : Option Time

pub record TickerEvent : Type 0 where
  pub payload : VenueTicker
  pub timestamp : Time
  pub sequence : ℕ

pub record VenueBook : Type 0 where
  pub instrument_id : ℕ
  pub bids : List BookLevel
  pub asks : List BookLevel
  pub timestamp : Time
  pub sequence : Option ℕ

pub record VenueFunding : Type 0 where
  pub funding_rate : Decimal
  pub timestamp : Time

pub record VenueCandle : Type 0 where
  pub timestamp : Time
  pub open_price : Decimal
  pub high : Decimal
  pub low : Decimal
  pub close : Decimal
  pub volume : Decimal
  pub trades : ℕ

pub record VenueFee : Type 0 where
  pub category : Text
  pub taker_fee_rate : Decimal
  pub maker_fee_rate : Decimal

pub record VenueInstrument : Type 0 where
  pub id : ℕ
  pub symbol : Text
  pub category : Text
  pub funding_interval : Text
  pub max_leverage : ℕ
  pub price_decimals : ℕ
  pub quantity_decimals : ℕ
  pub min_notional : Decimal
  pub isolated_only : Bool

unfoldable pub instrument_from_rest : VenueInstrument → Instrument
instrument_from_rest i = record {
  instrument_id = i.id;
  symbol = i.symbol;
  category = i.category;
  funding_interval = i.funding_interval;
  max_leverage = i.max_leverage;
  price_decimals = i.price_decimals;
  quantity_decimals = i.quantity_decimals;
  min_notional = i.min_notional;
  isolated_only = i.isolated_only;
}

abbrev pub time_or : Option Time → Time → Time
time_or none received_ts = received_ts
time_or (some t) received_ts = t

unfoldable pub tick_from_rest : VenueTicker → (received_ts : Time) → Tick
tick_from_rest t received_ts = record {
  instrument_id = t.instrument_id;
  mark_price = t.mark_price;
  index_price = t.index_price;
  last_price = t.last_price;
  funding_rate = t.funding_rate;
  next_funding = t.next_funding;
  exchange_ts = time_or t.timestamp received_ts;
  received_ts = received_ts;
  source_type = polymarket_rest;
  sequence = none;
}

unfoldable pub tick_from_event : TickerEvent → (received_ts : Time) → Tick
tick_from_event event received_ts = record {
  instrument_id = event.payload.instrument_id;
  mark_price = event.payload.mark_price;
  index_price = event.payload.index_price;
  last_price = event.payload.last_price;
  funding_rate = event.payload.funding_rate;
  next_funding = event.payload.next_funding;
  exchange_ts = event.timestamp;
  received_ts = received_ts;
  source_type = polymarket_ws;
  sequence = some event.sequence;
}

unfoldable pub book_from_rest : VenueBook → (received_ts : Time) → BookSnapshot
book_from_rest b received_ts = record {
  instrument_id = b.instrument_id;
  bids = b.bids;
  asks = b.asks;
  exchange_ts = b.timestamp;
  received_ts = received_ts;
  source_type = polymarket_rest;
  sequence = b.sequence;
}

unfoldable pub funding_from_rest : ℕ → (received_ts : Time) → VenueFunding → FundingObservation
funding_from_rest i received_ts fr = record {
  instrument_id = i;
  funding_rate = fr.funding_rate;
  exchange_ts = fr.timestamp;
  received_ts = received_ts;
  source_type = polymarket_rest;
}

unfoldable pub candle_from_rest : ℕ → Text → (received_ts : Time) → VenueCandle → Candle
candle_from_rest i interval received_ts c = record {
  instrument_id = i;
  interval = interval;
  open_ts = c.timestamp;
  open_price = c.open_price;
  high = c.high;
  low = c.low;
  close = c.close;
  volume = c.volume;
  trades = c.trades;
  received_ts = received_ts;
  source_type = polymarket_rest;
}

unfoldable pub fee_from_rest : (fetched_at : Time) → VenueFee → FeeSchedule
fee_from_rest fetched_at entry = record {
  category = entry.category;
  taker_fee_rate = entry.taker_fee_rate;
  maker_fee_rate = entry.maker_fee_rate;
  fetched_at = fetched_at;
}
