-- ===== src/Tests/Markets.antt =====
-- Runs of the market data tables, of prune, of the bars and of the backfill.
use perpbot.Base.{
  ℕ, zero, suc, length, ◌+◌, ◌-◌, ◌*◌, ◌/◌, ◌<◌, ◌≡◌, refl, Bool, true, false, Option, none, some,
  List, [], ◌∷◌, In, All, any, map, arith, pos,
}
use perpbot.Base.Dict.{lookup, nat_key}
use perpbot.Decimal.{whole}
use perpbot.Exchange.{
  Tick, FundingObservation, Candle, SourceType, polymarket_ws, polymarket_rest, is_native,
}
use perpbot.Execution.LiveBars.{hour, floor_hour}
use perpbot.Execution.Types.{Bar, Time}
use perpbot.Backtest.Bars.{build_bars, hourly, minutely}
use perpbot.Backtest.Bars.Backed.{IsHonest, build_bars-IsHonest}
use perpbot.Dashboard.Gaps.{count_gaps, count_gaps_lem}
use perpbot.Exchange.Client.{answer, transient}
use perpbot.Ingest.Backfill.{Client, Job, day, pull_instrument, no_progress, pulled, pull_once}
use perpbot.Ingest.Backfill.Again.{pull_once_again}
use perpbot.Ingest.Backfill.Windows.{Tiles, pull_each, pull_instrument_lem}
use perpbot.Ingest.Intervals.{closed, parse_interval, interval, unparsed}
use perpbot.Storage.Gaps.{find_gaps}
use perpbot.Storage.Market.{Market, insert_tick}
use perpbot.Storage.Prune.{prune, run_prune, tick_id, tick_stamp, book_id, book_stamp}
use perpbot.Storage.Prune.Batches.{count, is_before, pruned, prune_lem}
use perpbot.Storage.Prune.Nightly.{run_prune-query}
use perpbot.Storage.Rollup.{query_last_index_by_hour}
use perpbot.Storage.Rollup.Hours.{IsHour, hours_between}
use perpbot.Storage.Rollup.Rows.{IsSettled}
use perpbot.Storage.Rollup.Writer.{last_hour, sort, median}

abbrev quote : Time → ℕ → Tick
quote at price = record {
  instrument_id = 7;
  mark_price = whole price;
  index_price = whole price;
  last_price = whole price;
  funding_rate = pos 0;
  next_funding = 0;
  exchange_ts = at;
  received_ts = at;
  source_type = polymarket_ws;
  sequence = none;
}

abbrev candle : Time → Candle
candle at = record {
  instrument_id = 7;
  interval = hourly;
  open_ts = at;
  open_price = whole 100;
  high = whole 103;
  low = whole 99;
  close = whole 102;
  volume = whole 5;
  trades = 3;
  received_ts = at;
  source_type = polymarket_rest;
}

abbrev payment : Time → FundingObservation
payment at = record {
  instrument_id = 7;
  funding_rate = pos 1;
  exchange_ts = at;
  received_ts = at;
  source_type = polymarket_rest;
}

-- Two ticks in the first hour, one in the second, and the candle and payment of the first hour.
abbrev market : Market
market = record {
  ticks = quote 10 100 ∷ quote 20 101 ∷ quote (hour + 5) 102 ∷ [];
  funding = payment hour ∷ [];
  books = [];
  candles = candle 0 ∷ [];
  rejections = [];
  fees = [];
  rollups = [];
}

market-IsSettled : IsSettled market
unfolding is_native last_hour
market-IsSettled = record { whole = tt; in_time = refl }

run_prune-query_example :
    (n k l : ℕ) × (m' : Market) × (run_prune (3 * day) 1 market ≡ some (n, k, l, m'))
    × IsSettled m'
    × (lookup hour (query_last_index_by_hour 7 0 (2 * hour - 1) m')
        ≡ lookup hour (query_last_index_by_hour 7 0 (2 * hour - 1) market))
run_prune-query_example =
    run_prune-query (3 * day) 1 market 7 0 (2 * hour - 1) hour market-IsSettled (omega arith)
      (omega arith) (omega arith) (omega arith)

prune_lem_example :
    prune hour 2 market
    ≡ some (
      count (is_before tick_id tick_stamp hour) market.ticks,
      count (is_before book_id book_stamp hour) market.books,
      pruned hour market,
    )
prune_lem_example = prune_lem hour 2 market (omega arith)

two_deleted : count (is_before tick_id tick_stamp hour) market.ticks ≡ 2
two_deleted = refl

same_tick_ignored : (insert_tick (quote 20 999) market).0 ≡ false
unfolding insert_tick perpbot.Exchange.same_source
same_tick_ignored = refl

build_bars-IsHonest_example :
    All
      (IsHonest market 7 polymarket_rest)
      (build_bars 7 polymarket_rest 5 (2 * hour) (whole 5) market)
    × (map (λ (b : Bar). b.open_ts) (build_bars 7 polymarket_rest 5 (2 * hour) (whole 5) market)
        ≡ hours_between (floor_hour 5) 0 (floor_hour (2 * hour - 1)))
    × ((h : Time)
        → IsHour h
        → h < 2 * hour
        → 5 < h + hour
        → In h (
            map
              (λ (b : Bar). b.open_ts)
              (build_bars 7 polymarket_rest 5 (2 * hour) (whole 5) market)))
build_bars-IsHonest_example =
    build_bars-IsHonest 7 polymarket_rest 5 (2 * hour) (whole 5) market (omega arith)

middle_of_two : median (whole 3 ∷ whole 1 ∷ []) ≡ some (whole 2)
unfolding median sort perpbot.Base.◌+ℤ◌ perpbot.Decimal.◌/ᴰ◌ perpbot.Decimal.round_half_even
middle_of_two = refl

-- A client that times out once and then has nothing.
instance abbrev once_late : Client ℕ
once_late = record {
  fetch_funding = λ i a b n. elim n [ zero ↦ (answer [], 0) | suc k ↦ (transient none, k) ];
  fetch_candles = λ i t a b n. (answer [], n);
  sleep = λ w n. n;
}

abbrev job : Job
job = record { instrument_id = 7; candle_interval = minutely; now = 3 * day }

pull_instrument_lem_example :
    (ws : List (Time × Time)) × Tiles day (2 * day + 7) ws
    × (pull_instrument ⦃c = once_late⦄ job day (2 * day + 7) market 1
        ≡ some (pull_each ⦃c = once_late⦄ job ws (no_progress market 1)))
pull_instrument_lem_example =
    pull_instrument_lem ⦃c = once_late⦄ job day (2 * day + 7) market 1 (omega arith)

-- A client that serves a payment that is stored and one that is not, and a candle.
abbrev steady : Client ℕ
steady = record {
  fetch_funding = λ i a b n. (answer (payment hour ∷ payment (2 * hour) ∷ []), suc n);
  fetch_candles = λ i t a b n. (answer (candle (2 * hour) ∷ []), suc n);
  sleep = λ w n. n;
}

abbrev hourly_job : Job
hourly_job = record { instrument_id = 7; candle_interval = hourly; now = 3 * day }

first_pull : (pull_once ⦃c = steady⦄ hourly_job 0 day market 0).0 ≡ pulled 1 1
unfolding pull_once closed parse_interval perpbot.Ingest.Intervals.parse_from
    perpbot.Ingest.Backfill.insert_payments perpbot.Ingest.Backfill.insert_candles
    perpbot.Storage.Market.insert_funding perpbot.Storage.Market.insert_candle
    perpbot.Exchange.same_source
first_pull = refl

pull_once_again_example :
    let m' = (pull_once ⦃c = steady⦄ hourly_job 0 day market 0).1 in
    pull_once ⦃c = steady⦄ (record hourly_job { now = 5 * day }) 0 day m' 7 ≡ (pulled 0 0, m', 9)
unfolding closed parse_interval perpbot.Ingest.Intervals.parse_from
pull_once_again_example =
    pull_once_again ⦃c = steady⦄ hourly_job (5 * day) 0 day market 0 7
      (payment hour ∷ payment (2 * hour) ∷ []) (candle (2 * hour) ∷ []) (candle (2 * hour) ∷ [])
      refl refl refl refl refl refl

eight_hours : parse_interval (b'8' ∷ b'h' ∷ []) ≡ interval (8 * hour)
unfolding parse_interval perpbot.Ingest.Intervals.parse_from
eight_hours = refl

no_unit : parse_interval (b'8' ∷ []) ≡ unparsed
unfolding parse_interval perpbot.Ingest.Intervals.parse_from
no_unit = refl

abbrev to_millis : Time → Time
to_millis t = t / 1_000 * 1_000

count_gaps_lem_example :
    count_gaps to_millis 30_000_000 0 100_000_000 (5_000_000 ∷ 36_000_000 ∷ 40_000_000 ∷ [])
    ≡ length (find_gaps 30_000_000 0 100_000_000 (5_000_000 ∷ 36_000_000 ∷ 40_000_000 ∷ []))
count_gaps_lem_example =
    count_gaps_lem to_millis (λ t e. omega arith) 30_000_000 (omega arith) 100_000_000 0
      (5_000_000 ∷ 36_000_000 ∷ 40_000_000 ∷ []) (omega arith)

two_gaps :
    count_gaps to_millis 30_000_000 0 100_000_000 (5_000_000 ∷ 36_000_000 ∷ 40_000_000 ∷ []) ≡ 2
unfolding count_gaps perpbot.Dashboard.Gaps.internal_gaps
two_gaps = refl
