-- ===== src/Storage/Rollup/Writer.antt =====
-- `_median` and rollup_hours of polyperps/storage/db.py. Every row is computed from the tables as they were, and
-- the rows are inserted at the end.
use perpbot.Base.{
  ℕ, zero, suc, ◌+◌, ◌-◌, ◌/◌, ◌%◌, Bool, ◌&&◌, ◌||◌, Option, none, some, is_some, or_else, List,
  [], ◌∷◌, ◌++◌, if◌then◌else◌, ltb, ◌==◌, any, length, leb_ℤ, pos, ◌+ℤ◌, map,
}
use perpbot.Base.Dict.{lookup, nat_key}
use perpbot.Decimal.{Decimal, whole, ◌/ᴰ◌}
use perpbot.Exchange.{Tick, BookSnapshot}
use perpbot.Execution.LiveBars.{hour, floor_hour}
use perpbot.Execution.Types.{Time}
use perpbot.Storage.Market.{Market, Rollup}
use perpbot.Storage.Rollup.Hours.{hours_between}
use perpbot.Storage.Rollup.{
  latest, newest_tick, tick_mark, query_last_index_by_hour, query_book_spread_bps_by_hour,
  first_stamp, book_stamps, tick_stamps,
}

abbrev pub put_sorted : Decimal → List Decimal → List Decimal
put_sorted x [] = x ∷ []
put_sorted x (y ∷ ys) = if leb_ℤ x y then x ∷ y ∷ ys else y ∷ put_sorted x ys

-- `sorted(xs)`
unfoldable pub sort : List Decimal → List Decimal
sort [] = []
sort (x ∷ xs) = put_sorted x (sort xs)

abbrev pub at : ℕ → List Decimal → Decimal
at n [] = pos 0
at zero (x ∷ xs) = x
at (suc n) (x ∷ xs) = at n xs

abbrev pub middle : List Decimal → Decimal
middle xs =
    let n = length xs in
    if n % 2 == 1 then at (n / 2) xs else (at (n / 2 - 1) xs +ℤ at (n / 2) xs) /ᴰ whole 2

-- `_median`
unfoldable pub median : List Decimal → Option Decimal
median [] = none
median (x ∷ xs) = some (middle (sort (x ∷ xs)))

-- `_ROLLUP_GRACE` and `_FILL_LATENCY`
abbrev pub rollup_grace : Time
rollup_grace = 300_000_000

abbrev pub fill_latency : Time
fill_latency = 2_000_000

-- The row for an hour.
unfoldable pub rollup_row : Market → ℕ → Time → Rollup
rollup_row m i h =
    let end = h + hour - 1 in
    record {
      instrument_id = i;
      hour_ts = h;
      index_close = lookup h (query_last_index_by_hour i h end m);
      spread_bps = median (or_else (lookup h (query_book_spread_bps_by_hour i h end m)) []);
      open_mark = tick_mark (newest_tick i (h - hour) (h + fill_latency) m.ticks);
    }

abbrev pub is_filled : Rollup → Bool
is_filled r = is_some r.index_close || is_some r.spread_bps || is_some r.open_mark

unfoldable pub rows_at : Market → ℕ → List Time → List Rollup
rows_at m i [] = []
rows_at m i (h ∷ hs) =
    let row = rollup_row m i h in if is_filled row then row ∷ rows_at m i hs else rows_at m i hs

-- `MAX(hour_ts)` of the instrument
unfoldable pub last_hour : ℕ → List Rollup → Option Time
last_hour i [] = none
last_hour i (r ∷ rs) =
    if r.instrument_id == i
    then elim (last_hour i rs) [ none ↦ some r.hour_ts | some h ↦ some (latest r.hour_ts h) ]
    else last_hour i rs

abbrev pub resumed : Time → Option Time → Time
resumed first none = first
resumed first (some last) = latest first (last + hour)

-- The hours after the newest rollup of the instrument that are closed, from its first row on.
abbrev pub hours_from : Option Time → Option Time → Time → List Time
hours_from none last now = []
hours_from (some first) last now =
    hours_between (resumed (floor_hour first) last) (hour + rollup_grace) now

unfoldable pub open_hours : Market → ℕ → Time → List Time
open_hours m i now =
    hours_from (first_stamp (tick_stamps i m.ticks ++ book_stamps i m.books))
      (last_hour i m.rollups) now

-- `SELECT DISTINCT instrument_id`, sorted
abbrev pub add_id : ℕ → List ℕ → List ℕ
add_id i [] = i ∷ []
add_id i (j ∷ js) = if ltb i j then i ∷ j ∷ js else if i == j then j ∷ js else j ∷ add_id i js

unfoldable pub distinct : List ℕ → List ℕ
distinct [] = []
distinct (i ∷ is) = add_id i (distinct is)

abbrev pub stored_ids : Market → List ℕ
stored_ids m = distinct (
    map (λ (t : Tick). t.instrument_id) m.ticks
    ++ map (λ (b : BookSnapshot). b.instrument_id) m.books)

unfoldable pub new_rows : Market → Time → List ℕ → List Rollup
new_rows m now [] = []
new_rows m now (i ∷ is) = rows_at m i (open_hours m i now) ++ new_rows m now is

abbrev pub same_rollup : Rollup → Rollup → Bool
same_rollup a b = a.instrument_id == b.instrument_id && a.hour_ts == b.hour_ts

-- `INSERT OR IGNORE`, row by row
abbrev pub insert_rollup : Rollup → List Rollup → List Rollup
insert_rollup r rows = if any (same_rollup r) rows then rows else rows ++ (r ∷ [])

unfoldable pub insert_rollups : List Rollup → List Rollup → List Rollup
insert_rollups [] rows = rows
insert_rollups (r ∷ rs) rows = insert_rollups rs (insert_rollup r rows)

-- `rollup_hours`, with the number of rows that it inserts
unfoldable pub rollup_hours : Time → Market → ℕ × Market
rollup_hours now m =
    let rows = insert_rollups (new_rows m now (stored_ids m)) m.rollups in
    (length rows - length m.rollups, record m { rollups = rows })
