-- ===== src/Execution/LiveBars.antt =====
-- LiveBarBuilder of polyperps/execution/live_bars.py: accepted ticks into closed hourly bars. A history is
-- kept newest first. An instant is a number of microseconds, and an hour starts at a multiple of
-- 3_600_000_000.
pub mod Chained
use perpbot.Base.{
  ℕ, zero, suc, ◌+◌, ◌*◌, ◌/◌, Bool, true, false, Option, none, some, or_else, List, [], ◌∷◌, ◌++◌,
  if◌then◌else◌, ◌==◌, ltb, min_ℤ, max_ℤ,
}
use perpbot.Base.Dict.{Dict, lookup, insert, erase, nat_key}
use perpbot.Decimal.{Decimal}
use perpbot.Exchange.{Tick}
use perpbot.Execution.Types.{Bar, Time}

abbrev pub hour : ℕ
hour = 3_600_000_000

-- `floor_hour`
abbrev pub floor_hour : Time → Time
floor_hour t = t / hour * hour

-- `_Acc`
pub record Acc : Type 0 where
  pub open_ts : Time
  pub first : Decimal
  pub high : Decimal
  pub low : Decimal
  pub last : Decimal
  pub index : Decimal
  pub funding : Decimal
  pub complete : Bool

abbrev pub new_acc : Tick → Bool → Acc
new_acc t complete = record {
  open_ts = floor_hour t.exchange_ts;
  first = t.mark_price;
  high = t.mark_price;
  low = t.mark_price;
  last = t.mark_price;
  index = t.index_price;
  funding = t.funding_rate;
  complete = complete;
}

-- `_Acc.add`
unfoldable pub add_tick : Acc → Tick → Acc
add_tick a t = record a {
  high = max_ℤ a.high t.mark_price;
  low = min_ℤ a.low t.mark_price;
  last = t.mark_price;
  index = t.index_price;
  funding = t.funding_rate;
}

pub record Builder : Type 0 where
  pub spread : Decimal
  pub max_history : ℕ
  pub accs : Dict ℕ Acc
  pub histories : Dict ℕ (List Bar)

abbrev pub bars_of : ℕ → Builder → List Bar
bars_of i b = or_else (lookup i b.histories) []

abbrev pub take_bars : ℕ → List Bar → List Bar
take_bars n [] = []
take_bars zero (b ∷ bs) = []
take_bars (suc n) (b ∷ bs) = b ∷ take_bars n bs

-- `del h[:-max]`, which deletes nothing where `max` is 0
abbrev pub trim : ℕ → List Bar → List Bar
trim n bs = if n == 0 then bs else take_bars n bs

abbrev pub closed_bar : ℕ → Decimal → Acc → Bar
closed_bar i spread a = record {
  instrument_id = i;
  open_ts = a.open_ts;
  open_price = some a.first;
  high = some a.high;
  low = some a.low;
  close = some a.last;
  index_close = some a.index;
  funding_rate = some a.funding;
  spread_bps = spread;
  complete = a.complete;
}

-- `_close`
unfoldable pub close_acc : ℕ → Acc → Builder → Bar × Builder
close_acc i a b =
    let bar = closed_bar i b.spread a in
    (
      bar,
      record b {
        accs = erase i b.accs;
        histories = insert i (trim b.max_history (bar ∷ bars_of i b)) b.histories;
      },
    )

abbrev pub put_acc : ℕ → Acc → Builder → Builder
put_acc i a b = record b { accs = insert i a b.accs }

abbrev pub tick_into : ℕ → Tick → Option Acc → Builder → Option Bar × Builder
tick_into i t none b = (none, put_acc i (new_acc t true) b)
tick_into i t (some a) b =
    let now = floor_hour t.exchange_ts in
    let (bar, b') = close_acc i a b in
    if ltb a.open_ts now
    then (some bar, put_acc i (new_acc t (now == a.open_ts + hour)) b')
    else (none, put_acc i (add_tick a t) b)

-- `on_tick`
unfoldable pub on_tick : Tick → Builder → Option Bar × Builder
unfolding close_acc
on_tick t b = tick_into t.instrument_id t (lookup t.instrument_id b.accs) b

unfoldable pub feed_all : List Tick → Builder → Builder
feed_all [] b = b
feed_all (t ∷ ts) b = feed_all ts (on_tick t b).1

-- `seed`, with the bars oldest first
abbrev pub push_all : List Bar → List Bar → List Bar
push_all [] h = h
push_all (b ∷ bs) h = push_all bs (b ∷ h)

unfoldable pub seed : ℕ → List Bar → Builder → Builder
seed i bars b = record b {
  histories = insert i (trim b.max_history (push_all bars (bars_of i b))) b.histories;
}

abbrev pub empty_builder : Decimal → ℕ → Builder
empty_builder spread max_history = record {
  spread = spread;
  max_history = max_history;
  accs = [];
  histories = [];
}

abbrev pub close_each : Dict ℕ Acc → Builder → List Bar × Builder
close_each [] b = ([], b)
close_each ((i, a) ∷ as_open) b =
    let (bar, c) = close_acc i a b in let (bars, d) = close_each as_open c in (bar ∷ bars, d)

-- `close_all`
unfoldable pub close_all : Builder → List Bar × Builder
close_all b = close_each b.accs b
