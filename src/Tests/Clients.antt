-- ===== src/Tests/Clients.antt =====
-- Runs of the exchange's client, of its rate limiter and of a backfill through it.
use perpbot.Base.{
  ℕ, ◌≤◌, ◌*◌, ◌+◌, ◌-◌, true, false, none, List, [], ◌∷◌, ◌++◌, ◌≡◌, refl, arith, map, pos,
}
use perpbot.Exchange.Client.{
  answer, VenueTicker, TickerEvent, VenueFunding, funding_from_rest, tick_from_event,
}
use perpbot.Exchange.Client.Calls.{
  Page, Sdk, PerpsClient, ticker, other_topic, stream_ticks, fetch_funding_history, fetch_candles,
}
use perpbot.Exchange.Client.Paged.{all_items, readings, fetch_funding_history_paced}
use perpbot.Backtest.Bars.{hourly}
use perpbot.Ingest.Backfill.{pulled, pull_once}
use perpbot.Ingest.Backfill.Venue.{perps_client}
use perpbot.Ingest.Intervals.{closed}
use perpbot.Storage.Market.{Market}
use perpbot.Exchange.TokenBucket.{Bucket, new_bucket, refill, acquire, is_clocked}

-- Two tokens, one more for each ten ticks.
abbrev small_bucket : Bucket
small_bucket = new_bucket 1 10 2 0

abbrev venue_payment : ℕ → VenueFunding
venue_payment t = record { funding_rate = pos 1; timestamp = t }

abbrev first_pages : List (Page VenueFunding)
first_pages =
    record { items = venue_payment 1 ∷ venue_payment 2 ∷ []; has_more = true }
    ∷ record { items = venue_payment 3 ∷ []; has_more = true }
    ∷ []

abbrev last_page : Page VenueFunding
last_page = record { items = venue_payment 4 ∷ []; has_more = false }

abbrev quoted : VenueTicker
quoted = record {
  instrument_id = 7;
  mark_price = pos 5;
  index_price = pos 5;
  last_price = pos 5;
  funding_rate = pos 0;
  next_funding = 0;
  timestamp = none;
}

-- A venue whose state is the tick of the limiter's clock: a sleep of ten ticks around each call.
instance abbrev quiet_venue : Sdk ℕ
quiet_venue = record {
  clock = λ n. (100, n);
  pace = λ n. ((n, n + 10), n + 10);
  fetch_perps_instruments = λ n. (answer [], n);
  fetch_perps_ticker = λ i n. (answer quoted, n);
  fetch_perps_book = λ i d n. (
    answer (record { instrument_id = i; bids = []; asks = []; timestamp = n; sequence = none }),
    n,
  );
  list_perps_funding_history = λ i a b n. (map answer first_pages ++ (answer last_page ∷ []), n);
  list_perps_candles = λ i t a b n. (answer (record { items = []; has_more = false }) ∷ [], n);
  fetch_perps_fees = λ n. (answer [], n);
}

abbrev fresh_client : PerpsClient ℕ
fresh_client = record { limiter = small_bucket; sdk = 0 }

readings_clocked : is_clocked (readings ⦃x = quiet_venue⦄ 3 0) small_bucket ≡ true
unfolding readings is_clocked acquire refill perpbot.Base.◌-ℤ◌ perpbot.Base.◌+ℤ◌
readings_clocked = refl

fetch_funding_history_paced_example :
    let r = fetch_funding_history 7 0 50 fresh_client in
    (r.0 ≡ answer (map (funding_from_rest 7 100) (all_items first_pages ++ last_page.items)))
    × (3 * 10 ≤ 2 * 10 + (r.1.limiter.last - 0) * 1)
fetch_funding_history_paced_example =
    fetch_funding_history_paced 7 0 50 fresh_client first_pages last_page [] 20 refl
      (refl, (refl, tt)) refl refl (omega arith) (omega arith) readings_clocked

abbrev update : TickerEvent
update = record { payload = quoted; timestamp = 9; sequence = 3 }

other_topics_skipped :
    (stream_ticks (other_topic ∷ ticker update ∷ []) fresh_client).0
    ≡ tick_from_event update 100 ∷ []
unfolding stream_ticks
other_topics_skipped = refl

abbrev no_market : Market
no_market = record {
  ticks = [];
  funding = [];
  books = [];
  candles = [];
  rejections = [];
  fees = [];
  rollups = [];
}

-- The rows of all three pages are stored.
pages_pulled :
    (pull_once ⦃c = perps_client ⦃x = quiet_venue⦄ (λ seconds s. s)⦄
      (record { instrument_id = 7; candle_interval = hourly; now = 100 })
      0
      50
      no_market
      fresh_client).0
    ≡ pulled 4 0
unfolding pull_once closed fetch_funding_history fetch_candles
    perpbot.Exchange.Client.Calls.collect_pages perpbot.Exchange.Client.Calls.acquire_token
    perpbot.Ingest.Backfill.insert_payments perpbot.Ingest.Backfill.insert_candles
    perpbot.Storage.Market.insert_funding perpbot.Exchange.same_source funding_from_rest
pages_pulled = refl
