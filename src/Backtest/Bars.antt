-- ===== src/Backtest/Bars.antt =====
-- polyperps/backtest/bars.py: hourly bars from the stored tables. The source type of a bar and the origin of its
-- spread are left out of the record.
pub mod Backed
use perpbot.Base.{
  ℕ, ◌+◌, ◌-◌, ◌*◌, Bool, true, false, ◌&&◌, Option, none, some, is_some, or_else, List, [], ◌∷◌,
  if◌then◌else◌, leb, filter_by,
}
use perpbot.Base.Dict.{Dict, lookup, insert, nat_key}
use perpbot.Decimal.{Decimal, whole}
use perpbot.Exchange.{SourceType, is_native, FundingObservation, Candle}
use perpbot.Execution.LiveBars.{hour, floor_hour}
use perpbot.Execution.Types.{Bar, Text, Time}
use perpbot.Storage.Market.{Market, query_candles, query_funding}
use perpbot.Storage.Rollup.{query_last_index_by_hour, query_book_spread_bps_by_hour}
use perpbot.Storage.Rollup.Hours.{hours_between}
use perpbot.Storage.Rollup.Writer.{median}

-- `"1h"` and `"1m"`
abbrev pub hourly : Text
hourly = 49 ∷ 104 ∷ []

abbrev pub minutely : Text
minutely = 49 ∷ 109 ∷ []

-- `{c.open_ts: c for c in ...}`
unfoldable pub candles_by_hour : List Candle → Dict Time Candle → Dict Time Candle
candles_by_hour [] d = d
candles_by_hour (c ∷ cs) d = candles_by_hour cs (insert c.open_ts c d)

-- `{floor_hour(f.exchange_ts): f.funding_rate for f in ...}`
unfoldable pub funding_by_hour : List FundingObservation → Dict Time Decimal → Dict Time Decimal
funding_by_hour [] d = d
funding_by_hour (f ∷ fs) d = funding_by_hour fs (insert (floor_hour f.exchange_ts) f.funding_rate d)

-- What the loop of `build_bars` reads.
pub record Sources : Type 0 where
  pub instrument_id : ℕ
  pub candles : Dict Time Candle
  pub funding : Dict Time Decimal
  pub index_by_hour : Dict Time Decimal
  pub spreads_by_hour : Dict Time (List Decimal)
  pub proxy_spread_bps : Decimal

abbrev pub field_of : (Candle → Decimal) → Option Candle → Option Decimal
field_of f none = none
field_of f (some c) = some (f c)

-- The bar of an hour.
unfoldable pub bar_at : Sources → Time → Bar
bar_at s h =
    let c = lookup h s.candles in
    let rate = lookup (h + hour) s.funding in
    record {
      instrument_id = s.instrument_id;
      open_ts = h;
      open_price = field_of (λ c. c.open_price) c;
      high = field_of (λ c. c.high) c;
      low = field_of (λ c. c.low) c;
      close = field_of (λ c. c.close) c;
      index_close = lookup h s.index_by_hour;
      funding_rate = rate;
      spread_bps = or_else (median (or_else (lookup h s.spreads_by_hour) [])) s.proxy_spread_bps;
      complete = is_some c && is_some rate;
    }

unfoldable pub bars_at : Sources → List Time → List Bar
bars_at s [] = []
bars_at s (h ∷ hs) = bar_at s h ∷ bars_at s hs

-- The queries of `build_bars`, of which a proxy leaves out the ticks and the books.
abbrev pub sources_of :
    ℕ → SourceType → (first last_open : Time) → (proxy_spread_bps : Decimal) → Market → Sources
sources_of i source first last_open proxy_spread_bps m =
    let tick_end = last_open + hour - 1 in
    record {
      instrument_id = i;
      candles = candles_by_hour (query_candles i hourly source first last_open m) [];
      funding =
          funding_by_hour
            (query_funding i (first + hour) (last_open + 2 * hour - 1) (some source) m) [];
      index_by_hour = if is_native source then query_last_index_by_hour i first tick_end m else [];
      spreads_by_hour =
          if is_native source then query_book_spread_bps_by_hour i first tick_end m else [];
      proxy_spread_bps = proxy_spread_bps;
    }

unfoldable pub build_bars : ℕ → SourceType → (start end : Time) → Decimal → Market → List Bar
build_bars i source start end proxy_spread_bps m =
    let first = floor_hour start in
    let last_open = floor_hour (end - 1) in
    if leb end first
    then []
    else bars_at (sources_of i source first last_open proxy_spread_bps m)
        (hours_between first 0 last_open)

abbrev pub complete_by_ts : List Bar → Dict Time Bar → Dict Time Bar
complete_by_ts [] d = d
complete_by_ts (b ∷ bs) d = complete_by_ts bs (if b.complete then insert b.open_ts b d else d)

abbrev pub pair_up : Bar → Option Bar → List (Bar × Bar) → List (Bar × Bar)
pair_up n none rest = rest
pair_up n (some p) rest = if n.complete then (n, p) ∷ rest else rest

unfoldable pub pairs_with : Dict Time Bar → List Bar → List (Bar × Bar)
pairs_with d [] = []
pairs_with d (n ∷ ns) = pair_up n (lookup n.open_ts d) (pairs_with d ns)

-- `align_pair`
unfoldable pub align_pair : (native proxy : List Bar) → List (Bar × Bar)
align_pair native proxy = pairs_with (complete_by_ts proxy []) native

abbrev pub closes_of : List Candle → Dict Time Decimal → Dict Time Decimal
closes_of [] d = d
closes_of (c ∷ cs) d = closes_of cs (insert c.open_ts c.close d)

-- `load_minute_closes`
unfoldable pub load_minute_closes : ℕ → SourceType → (start end : Time) → Market → Dict Time Decimal
load_minute_closes i source start end m = closes_of (query_candles i minutely source start end m) []
