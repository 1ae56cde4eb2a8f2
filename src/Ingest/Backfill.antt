-- ===== src/Ingest/Backfill.antt =====
-- scripts/backfill.py: history in windows of a day, with retries, then the gap check. The client is a parameter:
-- its answers, and the sleep between two attempts. What is printed is kept as a report.
pub mod Again
pub mod Venue
pub mod Windows
use perpbot.Base.{
  ℕ, zero, suc, ◌+◌, ◌-◌, ◌*◌, ◌/◌, Bool, true, false, ◌&&◌, ◌||◌, not, Option, none, some, List,
  [], ◌∷◌, ◌++◌, if◌then◌else◌, ltb, leb, ◌==◌, eqb_text, filter_by, map,
}
use perpbot.Base.Dict.{Dict, lookup, nat_key}
use perpbot.Exchange.{FundingObservation, Candle}
use perpbot.Exchange.Client.{Answer, answer, transient, failure}
use perpbot.Execution.LiveBars.{hour}
use perpbot.Execution.Types.{Text, Time}
use perpbot.Ingest.Intervals.{Parsed, interval, unparsed, out_of_range, parse_interval, closed}
use perpbot.Storage.Gaps.{find_gaps}
use perpbot.Storage.Market.{Market, between, insert_funding, insert_candle}
use perpbot.Storage.Rollup.{earliest}

-- The client of the exchange, and the sleep.
pub record Client (S : Type 0) : Type 0 where
  pub fetch_funding : ℕ → (start end : Time) → S → Answer (List FundingObservation) × S
  pub fetch_candles : ℕ → Text → (start end : Time) → S → Answer (List Candle) × S
  pub sleep : ℕ → S → S

unfoldable pub insert_payments : List FundingObservation → Market → ℕ × Market
insert_payments [] m = (0, m)
insert_payments (f ∷ fs) m =
    let (added, m') = insert_funding f m in
    let (n, m'') = insert_payments fs m' in ((if added then suc n else n), m'')

unfoldable pub insert_candles : List Candle → Market → ℕ × Market
insert_candles [] m = (0, m)
insert_candles (c ∷ cs) m =
    let (added, m') = insert_candle c m in
    let (n, m'') = insert_candles cs m' in ((if added then suc n else n), m'')

pub data Attempt : Type 0 where
  pulled : (n_f n_c : ℕ) → Attempt
  again : Option ℕ → Attempt
  broken : (is_runtime : Bool) → Attempt

-- How a window ends for `main`: with its rows, with a RuntimeError, which lists the window as failed, or with
-- another error, which aborts the run.
pub data Outcome : Type 0 where
  fetched : (n_f n_c : ℕ) → Outcome
  exhausted aborted : Outcome

-- What one window needs: the instrument, the interval of the candles, and the time of the run.
pub record Job : Type 0 where
  pub instrument_id : ℕ
  pub candle_interval : Text
  pub now : Time

-- `retry_after_seconds(exc) or _RETRY_SLEEP_S`
abbrev pub wait_of : Option ℕ → ℕ
wait_of none = 60
wait_of (some zero) = 60
wait_of (some (suc n)) = suc n

abbrev pub max_attempts : ℕ
max_attempts = 3

module _ {S : Type 0} ⦃c : Client S⦄ where
  abbrev pub store_candles : ℕ → Option (List Candle) → Market → S → Attempt × Market × S
  store_candles n_f none m s = (broken false, m, s)
  store_candles n_f (some cs) m s = let (n_c, m') = insert_candles cs m in (pulled n_f n_c, m', s)

  abbrev pub with_candles : Time → ℕ → Answer (List Candle) × S → Market → Attempt × Market × S
  with_candles now n_f (answer cs, s) m = store_candles n_f (closed now cs) m s
  with_candles now n_f (transient after, s) m = (again after, m, s)
  with_candles now n_f (failure is_runtime, s) m = (broken is_runtime, m, s)

  abbrev pub with_funding :
      Job
      → (start end : Time) → Answer (List FundingObservation) × S
      → Market
      → Attempt × Market × S
  with_funding j start end (answer fs, s) m =
      let (n_f, m') = insert_payments fs m in
      with_candles j.now n_f (c.fetch_candles j.instrument_id j.candle_interval start end s) m'
  with_funding j start end (transient after, s) m = (again after, m, s)
  with_funding j start end (failure is_runtime, s) m = (broken is_runtime, m, s)

  -- The body of the `try`.
  unfoldable pub pull_once : Job → (start end : Time) → Market → S → Attempt × Market × S
  pull_once j start end m s =
      with_funding j start end (c.fetch_funding j.instrument_id start end s) m

  -- `_fetch_window`, with the attempts left
  unfoldable pub fetch_attempts : ℕ → Job → (start end : Time) → Market → S → Outcome × Market × S
  fetch_attempts zero j start end m s = (exhausted, m, s)
  fetch_attempts (suc n) j start end m s =
      let (r, m', s') = pull_once j start end m s in
      elim r [
        | pulled n_f n_c ↦ (fetched n_f n_c, m', s')
        | broken is_runtime ↦ ((if is_runtime then exhausted else aborted), m', s')
        | again after ↦ elim (n == 0) [
          | true ↦ (exhausted, m', s')
          | false ↦ fetch_attempts n j start end m' (c.sleep (wait_of after) s')
        ]
      ]

-- What the loop over the windows changes.
pub record Progress (S : Type 0) : Type 0 where
  pub market : Market
  pub client : S
  pub n_f : ℕ
  pub n_c : ℕ
  pub failed_windows : List (Time × Time)
  pub is_aborted : Bool

abbrev pub day : Time
day = 24 * hour

abbrev pub no_progress : {S : Type 0} → Market → S → Progress S
no_progress m s = record {
  market = m;
  client = s;
  n_f = 0;
  n_c = 0;
  failed_windows = [];
  is_aborted = false;
}

abbrev pub note_outcome : {S : Type 0} → Time × Time → Outcome → Progress S → Progress S
note_outcome w (fetched a b) p = record p { n_f = p.n_f + a; n_c = p.n_c + b }
note_outcome w exhausted p = record p { failed_windows = p.failed_windows ++ (w ∷ []) }
note_outcome w aborted p = record p { is_aborted = true }

module _ {S : Type 0} ⦃c : Client S⦄ where
  -- One round of the loop.
  unfoldable pub pull_window : Job → Time × Time → Progress S → Progress S
  pull_window j (start, end) p =
      let (o, m, s) = fetch_attempts max_attempts j start end p.market p.client in
      note_outcome (start, end) o (record p { market = m; client = s })

  -- `while w_start < end`; `none` is fuel that ran out
  unfoldable pub window_loop : ℕ → Job → (w_start end : Time) → Progress S → Option (Progress S)
  window_loop zero j w_start end p = none
  window_loop (suc fuel) j w_start end p = elim (ltb w_start end) [
    | false ↦ some p
    | true ↦
        let w_end = earliest (w_start + day) end in
        let p' = pull_window j (w_start, w_end) p in
        elim p'.is_aborted [ true ↦ some p' | false ↦ window_loop fuel j w_end end p' ]
  ]

  -- The number of days, and two more, is enough.
  unfoldable pub pull_instrument : Job → (start end : Time) → Market → S → Option (Progress S)
  pull_instrument j start end m s =
      window_loop (suc (suc ((end - start) / day))) j start end (no_progress m s)

-- What is printed of an instrument; the gaps of funding are `none` where its interval does not parse.
pub record Report : Type 0 where
  pub instrument_id : ℕ
  pub funding_rows : ℕ
  pub candle_rows : ℕ
  pub funding_gaps : Option (List (Time × Time))
  pub candle_gaps : List (Time × Time)
  pub failed : List (Time × Time)

-- The query of `find_gaps`.
abbrev pub funding_stamps : ℕ → (start end : Time) → Market → List Time
funding_stamps i start end m =
    map (λ (f : FundingObservation). f.exchange_ts)
      (filter_by
        (λ (f : FundingObservation). f.instrument_id == i && between start end f.exchange_ts)
        m.funding)

abbrev pub candle_stamps : ℕ → Text → (start end : Time) → Market → List Time
candle_stamps i candle_interval start end m =
    map (λ (c : Candle). c.open_ts)
      (filter_by
        (λ (c : Candle).
          c.instrument_id == i
          && eqb_text c.interval candle_interval
          && between start end c.open_ts)
        m.candles)

abbrev pub funding_gaps_of : ℕ → (start end : Time) → Market → Parsed → Option (List (Time × Time))
funding_gaps_of i start end m (interval span) =
    some (find_gaps (2 * span) start end (funding_stamps i start end m))
funding_gaps_of i start end m unparsed = none
funding_gaps_of i start end m out_of_range = none

-- The gap check of one instrument; the span of the candles' interval is that of one of the choices.
unfoldable pub report_of :
    {S : Type 0}
    → Job
    → (funding_interval : Text) (candle_span : Time) (start end : Time) → Progress S
    → Report
report_of j funding_interval candle_span start end p = record {
  instrument_id = j.instrument_id;
  funding_rows = p.n_f;
  candle_rows = p.n_c;
  funding_gaps =
      funding_gaps_of j.instrument_id start end p.market (parse_interval funding_interval);
  candle_gaps =
      find_gaps (2 * candle_span) start end
        (candle_stamps j.instrument_id j.candle_interval start end p.market);
  failed = p.failed_windows;
}
