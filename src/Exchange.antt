-- ===== src/Exchange.antt =====
-- The market data of polyperps/exchange/types.py: ticks, books, funding, candles, fees and their source types.
-- The checks that a timestamp is aware and UTC are not modelled: a timestamp is a number of microseconds.
pub mod Client
pub mod TokenBucket
use perpbot.Base.{ℕ, Bool, true, false, Option, List}
use perpbot.Decimal.{Decimal}
use perpbot.Execution.Types.{Text, Time}

pub data SourceType : Type 0 where
  polymarket_ws polymarket_rest proxy_hyperliquid proxy_cex synthetic_test : SourceType

unfoldable pub same_source : SourceType → SourceType → Bool
same_source polymarket_ws polymarket_ws = true
same_source polymarket_rest polymarket_rest = true
same_source proxy_hyperliquid proxy_hyperliquid = true
same_source proxy_cex proxy_cex = true
same_source synthetic_test synthetic_test = true
same_source _ _ = false

-- `source_type in NATIVE_SOURCES` of polyperps/signal/sufficiency.py
unfoldable pub is_native : SourceType → Bool
is_native polymarket_ws = true
is_native polymarket_rest = true
is_native _ = false

pub record Instrument : Type 0 where
  pub instrument_id : ℕ
  pub symbol : Text
  pub category : Text
  pub funding_interval : Text
  pub max_leverage : ℕ
  pub price_decimals : ℕ
  pub quantity_decimals : ℕ
  pub min_notional : Decimal
  pub isolated_only : Bool

pub record Tick : Type 0 where
  pub instrument_id : ℕ
  pub mark_price : Decimal
  pub index_price : Decimal
  pub last_price : Decimal
  pub funding_rate : Decimal
  pub next_funding : Time
  pub exchange_ts : Time
  pub received_ts : Time
  pub source_type : SourceType
  pub sequence : Option ℕ

pub record BookLevel : Type 0 where
  pub price : Decimal
  pub quantity : Decimal

pub record BookSnapshot : Type 0 where
  pub instrument_id : ℕ
  pub bids : List BookLevel
  pub asks : List BookLevel
  pub exchange_ts : Time
  pub received_ts : Time
  pub source_type : SourceType
  pub sequence : Option ℕ

pub record FundingObservation : Type 0 where
  pub instrument_id : ℕ
  pub funding_rate : Decimal
  pub exchange_ts : Time
  pub received_ts : Time
  pub source_type : SourceType

-- The field `open` is `open_price`.
pub record Candle : Type 0 where
  pub instrument_id : ℕ
  pub interval : Text
  pub open_ts : Time
  pub open_price : Decimal
  pub high : Decimal
  pub low : Decimal
  pub close : Decimal
  pub volume : Decimal
  pub trades : ℕ
  pub received_ts : Time
  pub source_type : SourceType

pub record FeeSchedule : Type 0 where
  pub category : Text
  pub taker_fee_rate : Decimal
  pub maker_fee_rate : Decimal
  pub fetched_at : Time
