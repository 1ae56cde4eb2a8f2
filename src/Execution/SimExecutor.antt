-- ===== src/Execution/SimExecutor.antt =====
-- SimExecutor of polyperps/execution/sim_executor.py, the paper account, and fill_cost of
-- polyperps/backtest/costs.py. The queue of events is a list, oldest first; the persisting callback and JSON
-- are not modelled. A missing mark, a KeyError in the source, raises.
pub mod Orders
pub mod Venue
pub mod Positions
pub mod Stops
use perpbot.Base.{
  ℕ, suc, ◌+◌, Bool, true, false, not, ◌&&◌, ◌||◌, Option, none, some, List, [], ◌∷◌, ◌++◌,
  if◌then◌else◌, pos, ◌+ℤ◌, ◌-ℤ◌, neg_ℤ, abs_ℤ, min_ℤ, eqb_ℤ, sum_by, ltb_ℤ, leb_ℤ,
}
use perpbot.Base.Dict.{Dict, lookup, insert, erase, nat_key}
use perpbot.Decimal.{Decimal, whole, ◌*ᴰ◌, ◌/ᴰ◌}
use perpbot.Execution.ClientId.{cid}
use perpbot.Execution.Types.{
  Side, buy, sell, AckStatus, Text, Time, OrderRequest, OrderAck, OrderUpdate, OrderStatus,
  FillUpdate, PositionView, AccountSnapshot,
}
use perpbot.Execution.World.{failed, Result, ok, err, Submitted, acked, timed_out, raised, Executor}
use perpbot.Risk.LiquidationGuard.{default_limits, liquidation_price}

-- `fill_cost`
unfoldable pub fill_cost :
    (notional_delta notional spread_bps taker_fee_rate impact_bps : Decimal) → Decimal
fill_cost notional_delta notional spread_bps taker_fee_rate impact_bps =
    if eqb_ℤ notional_delta (pos 0)
    then pos 0
    else (let turnover_fraction = notional_delta /ᴰ notional in
        notional_delta
        *ᴰ (taker_fee_rate
            +ℤ spread_bps /ᴰ whole 20_000
            +ℤ impact_bps /ᴰ whole 10_000 *ᴰ turnover_fraction))

-- `_Pos`
pub record Pos : Type 0 where
  pub size : Decimal
  pub entry : Decimal
  pub funding : Decimal

abbrev pub empty_pos : Pos
empty_pos = record { size = pos 0; entry = pos 0; funding = pos 0 }

-- What a test injects into `submit`.
pub data Failure : Type 0 where
  timeout reject drop : Failure

pub data Event : Type 0 where
  order : OrderUpdate → Event
  fill : FillUpdate → Event

pub record Account : Type 0 where
  pub cash : Decimal
  pub fee : Decimal
  pub spread : Decimal
  pub impact : Decimal
  pub notional : Decimal
  pub marks : Dict ℕ Decimal
  pub positions : Dict ℕ Pos
  pub stops : Dict ℕ Decimal
  pub queue : List Event
  pub n : ℕ
  pub fail_next : Option Failure
  pub fail_queue : List Failure
  pub clock : Time

abbrev pub is_positive : Decimal → Bool
is_positive x = ltb_ℤ (pos 0) x

abbrev pub is_nil : Decimal → Bool
is_nil x = eqb_ℤ x (pos 0)

abbrev pub same_bool : Bool → Bool → Bool
same_bool true b = b
same_bool false b = not b

abbrev pub is_buy : Side → Bool
is_buy buy = true
is_buy sell = false

abbrev pub signed_quantity : Side → Decimal → Decimal
signed_quantity buy q = q
signed_quantity sell q = neg_ℤ q

abbrev pub pos_of : Option Pos → Pos
pos_of none = empty_pos
pos_of (some p) = p

-- The position after a trade of `delta` at `price`, and what it realises in cash.
unfoldable pub trade : Pos → (delta price : Decimal) → Pos × Decimal
trade p delta price =
    let old = p.size in
    let new = p.size +ℤ delta in
    let same = same_bool (is_positive old) (is_positive new) in
    if is_nil old
    then (record p { size = new; entry = price }, pos 0)
    else if same && ltb_ℤ (abs_ℤ old) (abs_ℤ new)
    then (
      record p { size = new; entry = (abs_ℤ old *ᴰ p.entry +ℤ abs_ℤ delta *ᴰ price) /ᴰ abs_ℤ new },
      pos 0,
    )
    else if same && not (is_nil new)
    then (
      record p { size = new },
      (if is_positive old then abs_ℤ old -ℤ abs_ℤ new else neg_ℤ (abs_ℤ old -ℤ abs_ℤ new))
          *ᴰ (price -ℤ p.entry),
    )
    else (
      record p { size = new; entry = if is_nil new then pos 0 else price },
      old *ᴰ (price -ℤ p.entry),
    )

abbrev pub reset_funding : Pos → Pos
reset_funding p = if is_nil p.size then record p { funding = pos 0 } else p

-- `_apply_position`
unfoldable pub apply_position : ℕ → (delta price : Decimal) → Account → Account
unfolding trade
apply_position i delta price a =
    let (p, gain) = trade (pos_of (lookup i a.positions)) delta price in
    record a { cash = a.cash +ℤ gain; positions = insert i (reset_funding p) a.positions }

abbrev pub fill_update : OrderRequest → (qty px cost : Decimal) → Time → FillUpdate
fill_update o qty px cost now = record {
  client_order_id = o.client_order_id;
  instrument_id = o.instrument_id;
  side = o.side;
  quantity = qty;
  price = px;
  fee = cost;
  ts = now;
}

-- `_fill`, at a given price
unfoldable pub fill_at : OrderRequest → (qty px : Decimal) → Account → FillUpdate × Account
unfolding apply_position
fill_at o qty px a =
    let cost = fill_cost (qty *ᴰ px) a.notional a.spread a.fee a.impact in
    (
      fill_update o qty px cost a.clock,
      apply_position o.instrument_id (signed_quantity o.side qty) px
          (record a { cash = a.cash -ℤ cost }),
    )
