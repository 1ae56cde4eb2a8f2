-- ===== src/Backtest/Harness/Turns.antt =====
-- The loop of run_backtest. An instant is a number of microseconds.
use perpbot.Base.{
  ℕ, zero, suc, ◌+◌, ◌-◌, ◌/◌, ◌%◌, Bool, true, false, not, ◌&&◌, ◌||◌, Option, none, some, List,
  [], ◌∷◌, ◌++◌, if◌then◌else◌, ltb, leb, pos, neg_ℤ, leb_ℤ, eqb_ℤ, ◌+ℤ◌,
}
use perpbot.Base.Dict.{Dict, lookup, nat_key}
use perpbot.Decimal.{Decimal, ◌*ᴰ◌, ◌/ᴰ◌}
use perpbot.Backtest.Harness.{
  funding, fill, fill_unavailable, gap_flatten, stop, guard_exit, BacktestResult, Settings, Book,
  Run, book_view, logged, sign, trade_to, mark_to,
}
use perpbot.Execution.Router.Bars.{clamp_target}
use perpbot.Execution.Router.Rows.{is_zero, is_long}
use perpbot.Execution.Types.{Bar, Time}
use perpbot.Execution.World.{Strategy}
use perpbot.Risk.LiquidationGuard.{
  Hold, flatten, hold, check_open, default_limits, funding_exit_due, stop_price,
}

abbrev pub minute : Time
minute = 60_000_000

abbrev pub floor_minute : Time → Time
floor_minute t = t - t % minute

-- The latest key at or before an instant: what bisect_right finds in the sorted keys.
unfoldable pub latest_before : Time → Dict Time Decimal → Option (Time × Decimal)
latest_before at [] = none
latest_before at ((k, v) ∷ d) = later (latest_before at d)
  where
    later : Option (Time × Decimal) → Option (Time × Decimal)
    later none = if leb k at then some (k, v) else none
    later (some (j, u)) = if leb k at && ltb j k then some (k, v) else some (j, u)

abbrev pub if_fresh : Time → Time → Option (Time × Decimal) → Option (Time × Decimal)
if_fresh at max_age none = none
if_fresh at max_age (some (k, v)) = if leb (at - k) max_age then some (k, v) else none

-- `last_trade`, with its close
abbrev pub last_trade : Settings → Time → Option (Time × Decimal)
last_trade c at =
    if c.use_last_trade then if_fresh at c.max_age (latest_before at c.minute_closes) else none

abbrev pub count_last_trade : ℕ → BacktestResult → BacktestResult
count_last_trade age r = record r {
  fills_at_last_trade = r.fills_at_last_trade + 1;
  max_last_trade_age_min =
      if ltb r.max_last_trade_age_min age then age else r.max_last_trade_age_min;
}

abbrev pub flips : (target position : Decimal) → Bool
flips target position =
    not (is_zero position) && (not (is_zero target) && not (eqb_ℤ (sign target) (sign position)))

abbrev pub is_hit : Bool → (low high trigger : Decimal) → Bool
is_hit true low high trigger = leb_ℤ low trigger
is_hit false low high trigger = leb_ℤ trigger high

abbrev pub is_flatten : Hold → Bool
is_flatten flatten = true
is_flatten hold = false

module _ {S : Type 0} ⦃y : Strategy S⦄ where
  abbrev pub stop_at : Settings → Bar → Option Decimal → Option Decimal → Run S → Run S
  stop_at c bar none _ r = r
  stop_at c bar (some high) none r = r
  stop_at c bar (some high) (some low) r =
      let long = is_long r.book.position in
      let trigger = stop_price long r.book.entry default_limits in
      if not (is_zero r.book.position) && is_hit long low high trigger
      then trade_to c (pos 0) trigger bar.spread_bps bar.open_ts stop r
      else r

  -- 1. The stop within the bar.
  unfoldable pub check_stop : Settings → Bar → Run S → Run S
  check_stop c bar r = stop_at c bar bar.high bar.low r

  abbrev pub funding_at : Settings → Bar → Option Decimal → Option Decimal → Run S → Run S
  funding_at c bar none _ r = r
  funding_at c bar (some rate) none r = r
  funding_at c bar (some rate) (some close) r =
      let b = r.book in
      let paid = neg_ℤ b.position *ᴰ c.notional *ᴰ (close /ᴰ b.entry) *ᴰ rate in
      let b' : Book = record b { cash = b.cash +ℤ paid; funding = b.funding +ℤ paid } in
      if is_zero b.position then r else record r {
        book = b';
        result = logged c bar.open_ts funding (some close) paid b' r.result;
      }

  -- 2. Funding at the close.
  unfoldable pub pay_funding : Settings → Bar → Run S → Run S
  pay_funding c bar r = funding_at c bar bar.funding_rate bar.close r

  abbrev pub flatten_gap : Settings → Bar → Bar → Option Decimal → Run S → Run S
  flatten_gap c bar nxt none r = r
  flatten_gap c bar nxt (some close) r =
      if is_zero r.book.position
      then r
      else trade_to c (pos 0) close bar.spread_bps nxt.open_ts gap_flatten r

  -- 4. The protective exits at the close. A bar without one, where the source raises, is left alone.
  abbrev pub guard_at : Settings → Bar → Bar → Option Decimal → Run S → Run S
  guard_at c bar nxt none r = r
  guard_at c bar nxt (some close) r =
      let view = book_view c bar.instrument_id close r.book in
      if not (is_zero r.book.position)
        && (is_flatten (check_open view close default_limits)
            || funding_exit_due view default_limits)
      then trade_to c (pos 0) close bar.spread_bps nxt.open_ts guard_exit r
      else r

  unfoldable pub check_guards : Settings → Bar → Bar → Run S → Run S
  check_guards c bar nxt r = guard_at c bar nxt bar.close r

  abbrev pub fill_at_open : Settings → Bar → Bar → Decimal → Option Decimal → Run S → Run S
  fill_at_open c bar nxt target none r = record r {
    result =
        logged c nxt.open_ts fill_unavailable none (pos 0) r.book
          (record (r.result) { fills_unavailable = r.result.fills_unavailable + 1 });
  }
  fill_at_open c bar nxt target (some price) r =
      trade_to c target price bar.spread_bps nxt.open_ts fill (record r {
        result = record (r.result) { fills_at_hourly_open = r.result.fills_at_hourly_open + 1 };
      })

  abbrev pub fill_at_last :
      Settings → Bar → Bar → Decimal → Time → Option (Time × Decimal) → Run S → Run S
  fill_at_last c bar nxt target at none r = fill_at_open c bar nxt target nxt.open_price r
  fill_at_last c bar nxt target at (some (k, price)) r =
      trade_to c target price bar.spread_bps nxt.open_ts fill
        (record r { result = count_last_trade ((at - k) / minute) r.result })

  abbrev pub fill_at_minute : Settings → Bar → Bar → Decimal → Time → Option Decimal → Run S → Run S
  fill_at_minute c bar nxt target at none r = fill_at_last c bar nxt target at (last_trade c at) r
  fill_at_minute c bar nxt target at (some price) r =
      trade_to c target price bar.spread_bps nxt.open_ts fill r

  -- The fill of a decision: at the minute's close, else at the last trade, else at the hourly open.
  unfoldable pub fill_target : Settings → Bar → Bar → Decimal → Run S → Run S
  fill_target c bar nxt target r =
      let at = floor_minute (nxt.open_ts + c.latency) in
      if eqb_ℤ target r.book.position
      then r
      else fill_at_minute c bar nxt target at (lookup at c.minute_closes) r

  -- 5. The strategy's target; a flip is an exit.
  unfoldable pub decide : Settings → List Bar → Bar → Bar → Run S → Run S
  decide c history bar nxt r =
      let (t, s) = y.target history r.strategy in
      let target = clamp_target t in
      fill_target c bar nxt (if flips target r.book.position then pos 0 else target)
        (record r { strategy = s })

  -- From 3. on, for a bar that is whole and has a priced one after it, and for a gap.
  abbrev pub act : Settings → List Bar → Bar → Bar → Option Decimal → Run S → Run S
  act c history bar nxt none r = flatten_gap c bar nxt bar.close r
  act c history bar nxt (some _) r =
      if not bar.complete
      then flatten_gap c bar nxt bar.close r
      else decide c history bar nxt (check_guards c bar nxt r)

  -- One turn of the loop.
  unfoldable pub step : Settings → List Bar → Bar → Bar → Run S → Run S
  step c history bar nxt r =
      mark_to c nxt.open_ts nxt.close
        (act c history bar nxt nxt.close (pay_funding c bar (check_stop c bar r)))

  -- The loop from index `skip` on; `seen` are the bars before.
  unfoldable pub loop : Settings → ℕ → List Bar → List Bar → Run S → Run S
  loop c skip seen [] r = r
  loop c skip seen (bar ∷ []) r = r
  loop c (suc n) seen (bar ∷ nxt ∷ bars) r = loop c n (seen ++ (bar ∷ [])) (nxt ∷ bars) r
  loop c zero seen (bar ∷ nxt ∷ bars) r =
      let history = seen ++ (bar ∷ []) in
      loop c zero history (nxt ∷ bars) (step c history bar nxt r)

abbrev pub empty_result : BacktestResult
empty_result = record {
  ledger = [];
  equity = [];
  returns = [];
  trade_pnls = [];
  fill_notionals = [];
  trades = [];
  fills = 0;
  fills_unavailable = 0;
  fills_at_hourly_open = 0;
  fills_at_last_trade = 0;
  max_last_trade_age_min = 0;
}

abbrev pub fresh : {S : Type 0} → S → Run S
fresh s = record {
  book = record { cash = pos 0; position = pos 0; entry = pos 0; funding = pos 0 };
  result = empty_result;
  last_equity = pos 0;
  strategy = s;
}

-- `run_backtest`
unfoldable pub run_backtest : {S : Type 0} → ⦃y : Strategy S⦄ → Settings → ℕ → List Bar → S → Run S
run_backtest c warmup bars s = loop c warmup [] bars (fresh s)
