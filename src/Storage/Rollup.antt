-- ===== src/Storage/Rollup.antt =====
-- The readers of hours, and rollup_hours, of polyperps/storage/db.py. A `while` over the hours is a recursion on
-- their number. One row of two with the same newest time stamp is read: here the later in the table.
pub mod Hours
pub mod Writer
pub mod Reads
pub mod Inserted
pub mod Rows
pub mod Done
use perpbot.Base.{
  ℕ, zero, suc, ◌+◌, ◌-◌, ◌/◌, ◌%◌, Bool, true, false, not, ◌&&◌, ◌||◌, Option, none, some, is_some,
  or_else, List, [], ◌∷◌, ◌++◌, if◌then◌else◌, ltb, leb, ◌==◌, any, filter_by, length, leb_ℤ, min_ℤ,
  max_ℤ, ◌+ℤ◌, ◌-ℤ◌, map,
}
use perpbot.Base.Dict.{Dict, lookup, insert, nat_key}
use perpbot.Decimal.{Decimal, whole, ◌*ᴰ◌, ◌/ᴰ◌}
use perpbot.Exchange.{Tick, is_native, BookLevel, BookSnapshot}
use perpbot.Execution.LiveBars.{hour, floor_hour}
use perpbot.Execution.Types.{Time}
use perpbot.Storage.Market.{Market, Rollup, between, newest_row}
use perpbot.Storage.Rollup.Hours.{hours_between}

abbrev pub earliest : Time → Time → Time
earliest a b = if leb a b then a else b

abbrev pub latest : Time → Time → Time
latest a b = if leb a b then b else a

abbrev pub put_value : Time → Option Decimal → Dict Time Decimal → Dict Time Decimal
put_value h none out = out
put_value h (some v) out = insert h v out

-- The row is one of this instrument for an hour that lies in [start, end].
abbrev pub is_whole : ℕ → (start end : Time) → Rollup → Bool
is_whole i start end r =
    r.instrument_id == i
    && between start end r.hour_ts
    && leb start r.hour_ts
    && leb (r.hour_ts + hour - 1) end

-- `_rollup_hours`
unfoldable pub rolled_hours :
    (Rollup → Option Decimal)
    → ℕ
    → (start end : Time) → List Rollup
    → Dict Time Decimal
    → Dict Time Decimal
rolled_hours column i start end [] out = out
rolled_hours column i start end (r ∷ rs) out =
    rolled_hours column i start end rs
      (put_value r.hour_ts (if is_whole i start end r then column r else none) out)

abbrev pub is_native_tick : ℕ → (lo hi : Time) → Tick → Bool
is_native_tick i lo hi t =
    t.instrument_id == i && between lo hi t.exchange_ts && is_native t.source_type

-- The newest native tick with a time stamp from `lo` to `hi`.
unfoldable pub newest_tick : ℕ → (lo hi : Time) → List Tick → Option Tick
newest_tick i lo hi ticks =
    newest_row (λ (t : Tick). t.exchange_ts) (filter_by (is_native_tick i lo hi) ticks)

abbrev pub index_of : Option Tick → Option Decimal
index_of none = none
index_of (some t) = some t.index_price

abbrev pub tick_mark : Option Tick → Option Decimal
tick_mark none = none
tick_mark (some t) = some t.mark_price

-- The loop over the hours, with one seek for an hour that has no rollup.
unfoldable pub index_hours :
    ℕ → (start end : Time) → List Tick → List Time → Dict Time Decimal → Dict Time Decimal
index_hours i start end ticks [] out = out
index_hours i start end ticks (h ∷ hs) out =
    let tick = newest_tick i (latest h start) (earliest (h + hour - 1) end) ticks in
    index_hours i start end ticks hs
      (if is_some (lookup h out) then out else put_value h (index_of tick) out)

abbrev pub index_column : Rollup → Option Decimal
index_column r = r.index_close

abbrev pub spread_column : Rollup → Option Decimal
spread_column r = r.spread_bps

unfoldable pub query_last_index_by_hour : ℕ → (start end : Time) → Market → Dict Time Decimal
query_last_index_by_hour i start end m =
    index_hours i start end m.ticks (hours_between (floor_hour start) 0 end)
      (rolled_hours index_column i start end m.rollups [])

abbrev pub best_bid : Decimal → List BookLevel → Decimal
best_bid p [] = p
best_bid p (l ∷ ls) = best_bid (max_ℤ p l.price) ls

abbrev pub best_ask : Decimal → List BookLevel → Decimal
best_ask p [] = p
best_ask p (l ∷ ls) = best_ask (min_ℤ p l.price) ls

-- `_spread_bps`
unfoldable pub spread_of : (bids asks : List BookLevel) → Option Decimal
spread_of [] asks = none
spread_of (b ∷ bids) [] = none
spread_of (b ∷ bids) (a ∷ asks) =
    let bid = best_bid b.price bids in
    let ask = best_ask a.price asks in
    some ((ask -ℤ bid) /ᴰ ((bid +ℤ ask) /ᴰ whole 2) *ᴰ whole 10_000)

-- `runs[-1][1] = hour + _HOUR` or a new run, with the newest run first
abbrev pub extend_runs : Time → List (Time × Time) → List (Time × Time)
extend_runs h [] = (h, h + hour) ∷ []
extend_runs h ((first, stop) ∷ rs) =
    if stop == h then (first, h + hour) ∷ rs else (h, h + hour) ∷ (first, stop) ∷ rs

-- The runs of hours that the rollup has not, from the hour of the first book on.
unfoldable pub runs_of :
    Time → Dict Time (List Decimal) → List Time → List (Time × Time) → List (Time × Time)
runs_of first_hour out [] runs = runs
runs_of first_hour out (h ∷ hs) runs =
    runs_of first_hour out hs
      (if not (is_some (lookup h out)) && leb first_hour h then extend_runs h runs else runs)

-- `out.setdefault(h, []).append(bps)`
abbrev pub append_spread :
    Time → Option Decimal → Dict Time (List Decimal) → Dict Time (List Decimal)
append_spread h none out = out
append_spread h (some bps) out = insert h (or_else (lookup h out) [] ++ (bps ∷ [])) out

unfoldable pub read_books : List BookSnapshot → Dict Time (List Decimal) → Dict Time (List Decimal)
read_books [] out = out
read_books (b ∷ bs) out =
    read_books bs (append_spread (floor_hour b.exchange_ts) (spread_of b.bids b.asks) out)

abbrev pub is_book : ℕ → (lo hi : Time) → BookSnapshot → Bool
is_book i lo hi b = b.instrument_id == i && between lo hi b.exchange_ts

-- One query for each run, the oldest run first.
unfoldable pub read_runs :
    ℕ
    → (start end : Time) → List BookSnapshot
    → List (Time × Time)
    → Dict Time (List Decimal)
    → Dict Time (List Decimal)
read_runs i start end books [] out = out
read_runs i start end books ((first, stop) ∷ older) out =
    read_books (filter_by (is_book i (latest first start) (earliest (stop - 1) end)) books)
      (read_runs i start end books older out)

-- `MIN(exchange_ts)`
abbrev pub first_stamp : List Time → Option Time
first_stamp [] = none
first_stamp (t ∷ ts) = elim (first_stamp ts) [ none ↦ some t | some u ↦ some (earliest t u) ]

abbrev pub book_stamps : ℕ → List BookSnapshot → List Time
book_stamps i books =
    map (λ (b : BookSnapshot). b.exchange_ts)
      (filter_by (λ (b : BookSnapshot). b.instrument_id == i) books)

abbrev pub tick_stamps : ℕ → List Tick → List Time
tick_stamps i ticks =
    map (λ (t : Tick). t.exchange_ts) (filter_by (λ (t : Tick). t.instrument_id == i) ticks)

abbrev pub singles : Dict Time Decimal → Dict Time (List Decimal)
singles [] = []
singles ((h, v) ∷ d) = (h, v ∷ []) ∷ singles d

abbrev pub first_hour_of : Option Time → Time → Time
first_hour_of none end = end + hour
first_hour_of (some t) end = floor_hour t

unfoldable pub query_book_spread_bps_by_hour :
    ℕ → (start end : Time) → Market → Dict Time (List Decimal)
query_book_spread_bps_by_hour i start end m =
    let out = singles (rolled_hours spread_column i start end m.rollups []) in
    let first_hour = first_hour_of (first_stamp (book_stamps i m.books)) end in
    read_runs i start end m.books
      (runs_of first_hour out (hours_between (floor_hour start) 0 end) []) out
