-- ===== src/Execution/Types.antt =====
-- polyperps/execution/types.py and the Bar of polyperps/backtest/bars.py. A timestamp is a number of
-- microseconds; the check that it carries a time zone is not modelled. A text that the code compares
-- (a client order id) is the list of its character codes; a text that it only stores is a String.
use perpbot.Base.{ℕ, Bool, ◌==◌, if◌then◌else◌, Option, none, some, List, [], ◌∷◌, String}
use perpbot.Base.Dict.{Dict}
use perpbot.Decimal.{Decimal}
use perpbot.Risk.Verdict.{Verdict}

pub data State : Type 0 where
  flat entry_pending open_position exit_pending liquidated halted : State

pub data Side : Type 0 where
  buy sell : Side

pub data AckStatus : Type 0 where
  accepted rejected : AckStatus

-- `OrderStatus`, the statuses that a venue reports
pub data OrderStatus : Type 0 where
  accepted resting partial filled cancelled auto_cancelled rejected : OrderStatus

abbrev pub Text : Type 0
Text = List ℕ

abbrev pub Time : Type 0
Time = ℕ

pub record Intent : Type 0 where
  pub instrument_id : ℕ
  pub side : Side
  pub quantity : Decimal
  pub notional : Decimal
  pub reduce_only : Bool
  pub reason : String

pub record OrderRequest : Type 0 where
  pub client_order_id : Text
  pub instrument_id : ℕ
  pub side : Side
  pub quantity : Decimal
  pub reduce_only : Bool
  pub ts : Time

pub record OrderAck : Type 0 where
  pub client_order_id : Text
  pub exchange_order_id : Option String
  pub status : AckStatus
  pub reason : String
  pub ts : Time

pub record OrderUpdate : Type 0 where
  pub client_order_id : Text
  pub status : OrderStatus
  pub filled_quantity : Decimal
  pub ts : Time

pub record FillUpdate : Type 0 where
  pub client_order_id : Text
  pub instrument_id : ℕ
  pub side : Side
  pub quantity : Decimal
  pub price : Decimal
  pub fee : Decimal
  pub ts : Time

pub record PositionView : Type 0 where
  pub instrument_id : ℕ
  pub size : Decimal
  pub entry_price : Decimal
  pub notional : Decimal
  pub leverage : ℕ
  pub liquidation_price : Option Decimal
  pub unrealised_pnl : Decimal
  pub cumulative_funding : Decimal

pub record AccountSnapshot : Type 0 where
  pub equity : Decimal
  pub positions : List PositionView
  pub open_orders : List Text
  pub stops : Dict ℕ Decimal
  pub in_liquidation : Bool
  pub ts : Time

find_position : ℕ → List PositionView → Option PositionView
find_position i [] = none
find_position i (p ∷ ps) = if p.instrument_id == i then some p else find_position i ps

-- `AccountSnapshot.position`
unfoldable pub position : AccountSnapshot → ℕ → Option PositionView
unfolding find_position
position s i = find_position i s.positions

-- The status of a stored order row: a venue status, or one that the router gives.
pub data RowStatus : Type 0 where
  submitting lost error shadow_refused timeout_adopted adopted abandoned : RowStatus
  venue : OrderStatus → RowStatus

pub record DecisionRow : Type 0 where
  pub instrument_id : ℕ
  pub seq : ℕ
  pub ts : Time
  pub state_before : State
  pub target : Option Decimal
  pub verdicts : List (String × Verdict)
  pub intent : Option Intent
  pub client_order_id : Option Text
  pub note : String

pub record OrderRow : Type 0 where
  pub client_order_id : Text
  pub instrument_id : ℕ
  pub side : Side
  pub quantity : Decimal
  pub reduce_only : Bool
  pub status : RowStatus
  pub exchange_order_id : Option String
  pub filled_quantity : Decimal
  pub avg_price : Option Decimal
  pub submitted_at : Time
  pub updated_at : Time
  pub reason : String

pub record PositionLocalRow : Type 0 where
  pub instrument_id : ℕ
  pub state : State
  pub size : Decimal
  pub entry_price : Option Decimal
  pub stop_trigger : Option Decimal
  pub cumulative_funding : Decimal
  pub updated_at : Time

-- `Bar`, with the source type and the origin of the spread left out: nothing here reads them.
pub record Bar : Type 0 where
  pub instrument_id : ℕ
  pub open_ts : Time
  pub open_price : Option Decimal
  pub high : Option Decimal
  pub low : Option Decimal
  pub close : Option Decimal
  pub index_close : Option Decimal
  pub funding_rate : Option Decimal
  pub spread_bps : Decimal
  pub complete : Bool
