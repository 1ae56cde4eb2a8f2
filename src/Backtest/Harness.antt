-- ===== src/Backtest/Harness.antt =====
-- run_backtest of polyperps/backtest/harness.py: the book, the result, trade_to and mark. The text of a row's
-- note and the parameters that the result repeats are left out. A quotient by the notional or by an entry
-- price that is zero, where the source raises, is zero.
pub mod Turns
pub mod Accounts
pub mod Steps
pub mod Extended
pub mod Unseen
pub mod Gaps
use perpbot.Base.{
  ℕ, suc, ◌+◌, Bool, true, false, not, ◌&&◌, ◌||◌, Option, none, some, List, [], ◌∷◌, ◌++◌,
  if◌then◌else◌, ltb, pos, neg_ℤ, abs_ℤ, ltb_ℤ, eqb_ℤ, ◌+ℤ◌, ◌-ℤ◌,
}
use perpbot.Base.Dict.{Dict}
use perpbot.Decimal.{Decimal, whole, ◌*ᴰ◌, ◌/ᴰ◌, quantize_down, q8}
use perpbot.Execution.Router.Rows.{is_zero, is_long}
use perpbot.Execution.SimExecutor.{fill_cost}
use perpbot.Execution.Types.{Side, buy, sell, Time, PositionView}
use perpbot.Execution.World.{Strategy}
use perpbot.Risk.LiquidationGuard.{default_limits, liquidation_price}

-- `Kind`
pub data Kind : Type 0 where
  funding fill fill_unavailable gap_flatten mark stop guard_exit : Kind

-- `LedgerRow`
pub record LedgerRow : Type 0 where
  pub ts : Time
  pub kind : Kind
  pub position : Decimal
  pub price : Option Decimal
  pub cash_delta : Decimal
  pub equity : Decimal

-- The lists and counters of `BacktestResult` that the loop fills.
pub record BacktestResult : Type 0 where
  pub ledger : List LedgerRow
  pub equity : List (Time × Decimal)
  pub returns : List Decimal
  pub trade_pnls : List Decimal
  pub fill_notionals : List Decimal
  pub trades : List (Time × Side × Decimal)
  pub fills : ℕ
  pub fills_unavailable : ℕ
  pub fills_at_hourly_open : ℕ
  pub fills_at_last_trade : ℕ
  pub max_last_trade_age_min : ℕ

-- The arguments of `run_backtest` that stay the same; the times are in microseconds.
pub record Settings : Type 0 where
  pub minute_closes : Dict Time Decimal
  pub taker_fee_rate : Decimal
  pub latency : Time
  pub impact_bps : Decimal
  pub notional : Decimal
  pub use_last_trade : Bool
  pub max_age : Time

-- `_Book`; the notional is a setting.
pub record Book : Type 0 where
  pub cash : Decimal
  pub position : Decimal
  pub entry : Decimal
  pub funding : Decimal

-- What the loop changes.
pub record Run (S : Type 0) : Type 0 where
  pub book : Book
  pub result : BacktestResult
  pub last_equity : Decimal
  pub strategy : S

abbrev pub unrealised : Settings → Book → Decimal → Decimal
unrealised c b price =
    if is_zero b.position then pos 0 else b.position *ᴰ c.notional *ᴰ (price /ᴰ b.entry -ℤ whole 1)

-- `_Book.equity`
abbrev pub equity_at : Settings → Book → Option Decimal → Decimal
equity_at c b none = b.cash +ℤ pos 0
equity_at c b (some price) = b.cash +ℤ unrealised c b price

-- `_Book.view`
abbrev pub book_view : Settings → ℕ → Decimal → Book → PositionView
book_view c i price b =
    let size = b.position *ᴰ c.notional /ᴰ b.entry in
    record {
      instrument_id = i;
      size = size;
      entry_price = b.entry;
      notional = abs_ℤ size *ᴰ price;
      leverage = default_limits.max_leverage;
      liquidation_price = some (liquidation_price size b.entry default_limits);
      unrealised_pnl = size *ᴰ (price -ℤ b.entry);
      cumulative_funding = b.funding;
    }

-- `_units`
abbrev pub units : (fraction notional price : Decimal) → Decimal
units fraction notional price = quantize_down q8 (abs_ℤ fraction *ᴰ notional /ᴰ price)

-- `_sign`
abbrev pub sign : Decimal → Decimal
sign x = if ltb_ℤ (pos 0) x then whole 1 else if ltb_ℤ x (pos 0) then neg_ℤ (whole 1) else pos 0

-- `log`
abbrev pub logged :
    Settings → Time → Kind → Option Decimal → Decimal → Book → BacktestResult → BacktestResult
logged c ts kind price cash_delta b r =
    let row : LedgerRow = record {
      ts = ts;
      kind = kind;
      position = b.position;
      price = price;
      cash_delta = cash_delta;
      equity = equity_at c b price;
    } in
    record r { ledger = r.ledger ++ (row ∷ []) }

abbrev pub is_reducing : (old target : Decimal) → Bool
is_reducing old target = not (is_zero old) && ltb_ℤ (abs_ℤ target) (abs_ℤ old)

-- What a trade realises: the whole position, the closed part of it, or nothing.
abbrev pub realised : Settings → Book → (target price : Decimal) → Option Decimal
realised c b target price =
    let move = price /ᴰ b.entry -ℤ whole 1 in
    if not (is_zero b.position) && is_zero target
    then some (b.position *ᴰ c.notional *ᴰ move)
    else if is_reducing b.position target
    then some ((abs_ℤ b.position -ℤ abs_ℤ target) *ᴰ sign b.position *ᴰ c.notional *ᴰ move)
    else none

abbrev pub entry_after : Book → (target price : Decimal) → Decimal
entry_after b target price =
    if not (is_zero b.position) && is_zero target
    then pos 0
    else if is_reducing b.position target
    then b.entry
    else (abs_ℤ b.position *ᴰ b.entry +ℤ abs_ℤ (target -ℤ b.position) *ᴰ price) /ᴰ abs_ℤ target

abbrev pub traded_value : Settings → Book → (target price : Decimal) → Decimal
traded_value c b target price =
    let delta = target -ℤ b.position in
    if is_reducing b.position target
    then abs_ℤ delta *ᴰ c.notional *ᴰ price /ᴰ b.entry
    else abs_ℤ delta *ᴰ c.notional

abbrev pub traded_units : Settings → Book → (target price : Decimal) → Decimal
traded_units c b target price =
    units (target -ℤ b.position) c.notional
      (if is_reducing b.position target then b.entry else price)

-- `book.cash += realised; res.trade_pnls.append(realised)`
abbrev pub take_pnl : {S : Type 0} → Option Decimal → Run S → Run S
take_pnl none r = r
take_pnl (some pnl) r = record r {
  book = record (r.book) { cash = r.book.cash +ℤ pnl };
  result = record (r.result) { trade_pnls = r.result.trade_pnls ++ (pnl ∷ []) };
}

abbrev pub is_buy_delta : Decimal → Side
is_buy_delta delta = if ltb_ℤ (pos 0) delta then buy else sell

-- Cost, position and entry of a fill, its row, and the counters.
abbrev pub book_fill :
    {S : Type 0}
    → Settings
    → (target entry value cost qty price : Decimal) → Time
    → Kind
    → Side
    → Run S
    → Run S
book_fill c target entry value cost qty price ts kind side r =
    let b : Book = record (r.book) {
      cash = r.book.cash -ℤ cost;
      position = target;
      entry = entry;
    } in
    let res : BacktestResult = record (r.result) {
      fill_notionals = r.result.fill_notionals ++ (value ∷ []);
      trades = r.result.trades ++ ((ts, side, qty) ∷ []);
      fills = r.result.fills + 1;
    } in
    record r { book = b; result = logged c ts kind (some price) (neg_ℤ cost) b res }

module _ {S : Type 0} ⦃y : Strategy S⦄ where
  -- `if target == 0: book.funding = 0; strategy.on_flatten()`
  abbrev pub flattened : Decimal → Run S → Run S
  flattened target r =
      if is_zero target
      then record r {
        book = record (r.book) { funding = pos 0 };
        strategy = y.on_flatten r.strategy;
      }
      else r

  -- `trade_to`
  unfoldable pub trade_to :
      Settings → (target price spread_bps : Decimal) → Time → Kind → Run S → Run S
  trade_to c target price spread_bps ts kind r =
      let b = r.book in
      let delta = target -ℤ b.position in
      let value = traded_value c b target price in
      let cost = fill_cost value c.notional spread_bps c.taker_fee_rate c.impact_bps in
      if is_zero delta
      then r
      else flattened target (
          book_fill c target (entry_after b target price) value cost (traded_units c b target price)
            price ts kind (is_buy_delta delta) (take_pnl (realised c b target price) r))

-- `mark`
unfoldable pub mark_to : {S : Type 0} → Settings → Time → Option Decimal → Run S → Run S
mark_to c ts price r =
    let eq = equity_at c r.book price in
    let res : BacktestResult = record (r.result) {
      equity = r.result.equity ++ ((ts, eq) ∷ []);
      returns = r.result.returns ++ (((eq -ℤ r.last_equity) /ᴰ c.notional) ∷ []);
    } in
    record r { last_equity = eq; result = logged c ts mark price (pos 0) r.book res }
