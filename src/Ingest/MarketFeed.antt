-- ===== src/Ingest/MarketFeed.antt =====
-- MarketFeed of polyperps/data_ingest/market_feed.py over the list of ticks that the stream yields. The
-- calls of `on_accept` and `on_reject` are kept, newest first; the counter of rejections by reason is
-- the list of the reasons. The wall clock of the last event is left out.
pub mod Accepted
use perpbot.Base.{
  ℕ, suc, ◌+◌, Bool, true, false, Option, none, some, List, [], ◌∷◌, if◌then◌else◌, leb, ◌==◌,
}
use perpbot.Base.Dict.{Dict, lookup, insert, nat_key}
use perpbot.Exchange.{Tick}
use perpbot.Execution.Types.{Time}
use perpbot.Ingest.Filters.{SanityBounds, Rejection, check_tick}

pub record Feed : Type 0 where
  pub previous : Dict ℕ Tick
  pub received : ℕ
  pub accepted : ℕ
  pub rejected : List Rejection
  pub last_accepted : Dict ℕ Time
  pub accepted_ticks : List Tick

-- The body of the loop for one tick, after the filter's answer.
unfoldable pub settle_tick : Tick → Option Rejection → Feed → Feed
settle_tick tick none f = record f {
  received = suc f.received;
  previous = insert tick.instrument_id tick f.previous;
  accepted = suc f.accepted;
  last_accepted = insert tick.instrument_id tick.exchange_ts f.last_accepted;
  accepted_ticks = tick ∷ f.accepted_ticks;
}
settle_tick tick (some r) f = record f { received = suc f.received; rejected = r ∷ f.rejected }

unfoldable pub feed_tick : SanityBounds → Tick → Feed → Feed
unfolding settle_tick
feed_tick bounds tick f =
    settle_tick tick (check_tick tick bounds (lookup tick.instrument_id f.previous)) f

abbrev pub is_reached : Option ℕ → ℕ → Bool
is_reached none n = false
is_reached (some limit) n = leb limit n

-- `MarketFeed.run`
unfoldable pub run_feed : SanityBounds → Option ℕ → List Tick → Feed → Feed
run_feed bounds max_events [] f = f
run_feed bounds max_events (t ∷ ts) f =
    let f' = feed_tick bounds t f in
    let rest = run_feed bounds max_events ts f' in
    if is_reached max_events f'.received then f' else rest

abbrev pub empty_feed : Feed
empty_feed = record {
  previous = [];
  received = 0;
  accepted = 0;
  rejected = [];
  last_accepted = [];
  accepted_ticks = [];
}
