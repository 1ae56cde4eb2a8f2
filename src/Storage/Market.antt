-- ===== src/Storage/Market.antt =====
-- The market data tables of polyperps/storage/db.py: the inserts that ignore a row whose key is there, and the
-- queries. A table is a list of its rows in the order of their time stamp, as the index that a query walks
-- gives them; the text of a time stamp sorts as its time does. The name of an interval is a text.
use perpbot.Base.{
  ℕ, zero, suc, Bool, true, false, ◌&&◌, Option, none, some, List, [], ◌∷◌, if◌then◌else◌, ltb, leb,
  ◌==◌, any, filter_by, eqb_text,
}
use perpbot.Base.Dict.{Dict, lookup, insert, text_key}
use perpbot.Decimal.{Decimal}
use perpbot.Exchange.{
  SourceType, same_source, Tick, BookLevel, BookSnapshot, FundingObservation, Candle, FeeSchedule,
}
use perpbot.Execution.Types.{Text, Time}

-- A row of `hourly_rollup`.
pub record Rollup : Type 0 where
  pub instrument_id : ℕ
  pub hour_ts : Time
  pub index_close : Option Decimal
  pub spread_bps : Option Decimal
  pub open_mark : Option Decimal

-- A row of `rejections`, without its detail.
pub record Rejected : Type 0 where
  pub instrument_id : ℕ
  pub rejected_at : Time
  pub reason : Text

pub record Market : Type 0 where
  pub ticks : List Tick
  pub funding : List FundingObservation
  pub books : List BookSnapshot
  pub candles : List Candle
  pub rejections : List Rejected
  pub fees : List FeeSchedule
  pub rollups : List Rollup

-- The row goes behind the rows that are not later.
abbrev pub place : {A : Type 0} → (A → Time) → A → List A → List A
place stamp r [] = r ∷ []
place stamp r (x ∷ xs) = if ltb (stamp r) (stamp x) then r ∷ x ∷ xs else x ∷ place stamp r xs

-- `INSERT OR IGNORE`, and whether a row was inserted
abbrev pub insert_new : {A : Type 0} → (A → A → Bool) → (A → Time) → A → List A → Bool × List A
insert_new same stamp r rows =
    if any (same r) rows then (false, rows) else (true, place stamp r rows)

abbrev pub same_tick : Tick → Tick → Bool
same_tick a b =
    a.instrument_id == b.instrument_id
    && same_source a.source_type b.source_type
    && a.exchange_ts == b.exchange_ts

unfoldable pub insert_tick : Tick → Market → Bool × Market
insert_tick t m =
    let (added, rows) = insert_new same_tick (λ (r : Tick). r.exchange_ts) t m.ticks in
    (added, record m { ticks = rows })

abbrev pub same_funding : FundingObservation → FundingObservation → Bool
same_funding a b =
    a.instrument_id == b.instrument_id
    && same_source a.source_type b.source_type
    && a.exchange_ts == b.exchange_ts

unfoldable pub insert_funding : FundingObservation → Market → Bool × Market
insert_funding f m =
    let (added, rows) =
      insert_new same_funding (λ (r : FundingObservation). r.exchange_ts) f m.funding in
    (added, record m { funding = rows })

abbrev pub take_levels : ℕ → List BookLevel → List BookLevel
take_levels zero ls = []
take_levels (suc n) [] = []
take_levels (suc n) (l ∷ ls) = l ∷ take_levels n ls

abbrev pub same_book : BookSnapshot → BookSnapshot → Bool
same_book a b =
    a.instrument_id == b.instrument_id
    && same_source a.source_type b.source_type
    && a.exchange_ts == b.exchange_ts

-- `insert_book`, with the first ten levels of each side
unfoldable pub insert_book : BookSnapshot → Market → Bool × Market
insert_book b m =
    let top : BookSnapshot = record b {
      bids = take_levels 10 b.bids;
      asks = take_levels 10 b.asks;
    } in
    let (added, rows) = insert_new same_book (λ (r : BookSnapshot). r.exchange_ts) top m.books in
    (added, record m { books = rows })

abbrev pub same_candle : Candle → Candle → Bool
same_candle a b =
    a.instrument_id == b.instrument_id
    && eqb_text a.interval b.interval
    && same_source a.source_type b.source_type
    && a.open_ts == b.open_ts

unfoldable pub insert_candle : Candle → Market → Bool × Market
insert_candle c m =
    let (added, rows) = insert_new same_candle (λ (r : Candle). r.open_ts) c m.candles in
    (added, record m { candles = rows })

abbrev pub insert_rejection : Rejected → Market → Market
insert_rejection r m = record m {
  rejections = place (λ (x : Rejected). x.rejected_at) r m.rejections;
}

abbrev pub same_fee : FeeSchedule → FeeSchedule → Bool
same_fee a b = eqb_text a.category b.category && a.fetched_at == b.fetched_at

unfoldable pub insert_fee : FeeSchedule → Market → Bool × Market
insert_fee f m =
    let (added, rows) = insert_new same_fee (λ (r : FeeSchedule). r.fetched_at) f m.fees in
    (added, record m { fees = rows })

-- `ORDER BY ... DESC LIMIT 1`
abbrev pub later : {A : Type 0} → (A → Time) → A → Option A → Option A
later stamp r none = some r
later stamp r (some x) = if ltb (stamp x) (stamp r) then some r else some x

abbrev pub newest_row : {A : Type 0} → (A → Time) → List A → Option A
newest_row stamp [] = none
newest_row stamp (r ∷ rs) = later stamp r (newest_row stamp rs)

unfoldable pub latest_fee : Text → Market → Option FeeSchedule
latest_fee category m =
    newest_row (λ (f : FeeSchedule). f.fetched_at)
      (filter_by (λ (f : FeeSchedule). eqb_text f.category category) m.fees)

-- `t BETWEEN lo AND hi`
abbrev pub between : Time → Time → Time → Bool
between lo hi t = leb lo t && leb t hi

-- `_source_clause`
abbrev pub source_clause : Option SourceType → SourceType → Bool
source_clause none s = true
source_clause (some want) s = same_source want s

unfoldable pub query_ticks : ℕ → (start end : Time) → Option SourceType → Market → List Tick
query_ticks i start end source m =
    filter_by
      (λ (t : Tick).
        t.instrument_id == i
        && between start end t.exchange_ts
        && source_clause source t.source_type)
      m.ticks

unfoldable pub query_funding :
    ℕ → (start end : Time) → Option SourceType → Market → List FundingObservation
query_funding i start end source m =
    filter_by
      (λ (f : FundingObservation).
        f.instrument_id == i
        && between start end f.exchange_ts
        && source_clause source f.source_type)
      m.funding

unfoldable pub query_candles : ℕ → Text → SourceType → (start end : Time) → Market → List Candle
query_candles i interval source start end m =
    filter_by
      (λ (c : Candle).
        c.instrument_id == i
        && eqb_text c.interval interval
        && same_source c.source_type source
        && between start end c.open_ts)
      m.candles

abbrev pub add_one : Text → Dict Text ℕ → Dict Text ℕ
add_one k d = elim (lookup k d) [ none ↦ insert k 1 d | some n ↦ insert k (suc n) d ]

abbrev pub count_reasons : List Rejected → Dict Text ℕ → Dict Text ℕ
count_reasons [] d = d
count_reasons (r ∷ rs) d = count_reasons rs (add_one r.reason d)

-- `count_rejections`
unfoldable pub count_rejections : ℕ → Market → Dict Text ℕ
count_rejections i m =
    count_reasons (filter_by (λ (r : Rejected). r.instrument_id == i) m.rejections) []
