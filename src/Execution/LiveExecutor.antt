-- ===== src/Execution/LiveExecutor.antt =====
-- polyperps/execution/live_executor.py: the reading side of the live account, and the tables between the
-- venue's words and ours. The session of the exchange's client library is a parameter, a record of calls on
-- its state. The texts of error messages, closing and the heartbeat are left out.
pub mod Orders
pub mod Events
pub mod Gated
pub mod Stops
use perpbot.Base.{
  ℕ, Bool, true, false, Option, none, some, List, [], ◌∷◌, ◌++◌, String, if◌then◌else◌, abs_ℤ,
}
use perpbot.Base.Dict.{Dict, insert, nat_key}
use perpbot.Decimal.{Decimal}
use perpbot.Execution.Router.Rows.{is_zero}
use perpbot.Execution.Types.{Text, Time, OrderStatus, OrderRequest, PositionView, AccountSnapshot}
use perpbot.Execution.World.{Result, ok, err}
use perpbot.Gates.{GateDecision}

-- The venue's order statuses: the keys of `_SDK_ORDER_STATUS` (`resting` is the text "open"), and any
-- other text.
pub data VenueStatus : Type 0 where
  accepted resting partial filled cancelled auto_cancelled post_only_rejected fok_unfilled :
      VenueStatus
  ioc_no_fill ioc_expired stp_cancelled zero_quantity duplicate_order : VenueStatus
  order_not_found reduce_only_invalid reduce_only_expired order_expired expired : VenueStatus
  untriggered armed triggered parent_cancelled position_closed position_flipped : VenueStatus
  reduce_only_invalid_at_trigger : VenueStatus
  unknown_status : String → VenueStatus

-- What the table says: one of our statuses, None, or no such key.
pub data Mapped : Type 0 where
  mapped : OrderStatus → Mapped
  not_ours unmapped : Mapped

-- `_SDK_ORDER_STATUS.get(status, _UNMAPPED)`
unfoldable pub map_status : VenueStatus → Mapped
map_status accepted = mapped OrderStatus.accepted
map_status resting = mapped OrderStatus.resting
map_status partial = mapped OrderStatus.partial
map_status filled = mapped OrderStatus.filled
map_status cancelled = mapped OrderStatus.cancelled
map_status auto_cancelled = mapped OrderStatus.auto_cancelled
map_status post_only_rejected = mapped OrderStatus.rejected
map_status fok_unfilled = mapped OrderStatus.rejected
map_status ioc_no_fill = mapped OrderStatus.rejected
map_status ioc_expired = mapped OrderStatus.rejected
map_status stp_cancelled = mapped OrderStatus.rejected
map_status zero_quantity = mapped OrderStatus.rejected
map_status duplicate_order = not_ours
map_status order_not_found = mapped OrderStatus.rejected
map_status reduce_only_invalid = mapped OrderStatus.rejected
map_status reduce_only_expired = mapped OrderStatus.rejected
map_status order_expired = mapped OrderStatus.rejected
map_status expired = mapped OrderStatus.rejected
map_status untriggered = not_ours
map_status armed = not_ours
map_status triggered = not_ours
map_status parent_cancelled = not_ours
map_status position_closed = not_ours
map_status position_flipped = not_ours
map_status reduce_only_invalid_at_trigger = not_ours
map_status (unknown_status _) = unmapped

-- `str(raw_status)`
abbrev pub status_text : VenueStatus → String
status_text accepted = "accepted"
status_text resting = "open"
status_text partial = "partial"
status_text filled = "filled"
status_text cancelled = "cancelled"
status_text auto_cancelled = "auto_cancelled"
status_text post_only_rejected = "post_only_rejected"
status_text fok_unfilled = "fok_unfilled"
status_text ioc_no_fill = "ioc_no_fill"
status_text ioc_expired = "ioc_expired"
status_text stp_cancelled = "stp_cancelled"
status_text zero_quantity = "zero_quantity"
status_text duplicate_order = "duplicate_order"
status_text order_not_found = "order_not_found"
status_text reduce_only_invalid = "reduce_only_invalid"
status_text reduce_only_expired = "reduce_only_expired"
status_text order_expired = "order_expired"
status_text expired = "expired"
status_text untriggered = "untriggered"
status_text armed = "armed"
status_text triggered = "triggered"
status_text parent_cancelled = "parent_cancelled"
status_text position_closed = "position_closed"
status_text position_flipped = "position_flipped"
status_text reduce_only_invalid_at_trigger = "reduce_only_invalid_at_trigger"
status_text (unknown_status t) = t

-- What the library answers, as far as the code reads it.
pub record VenuePosition : Type 0 where
  pub instrument_id : ℕ
  pub size : Decimal
  pub entry_price : Decimal
  pub position_value : Decimal
  pub leverage : ℕ
  pub liquidation_price : Option Decimal
  pub unrealized_pnl : Decimal
  pub cumulative_funding : Decimal

pub record VenuePortfolio : Type 0 where
  pub total_account_value : Decimal
  pub positions : List VenuePosition
  pub in_liquidation : Bool

-- The `tp_sl` of an order, with its trigger price.
pub data TpSl : Type 0 where
  take_profit stop_loss : Decimal → TpSl

pub record VenueOrder : Type 0 where
  pub id : ℕ
  pub client_order_id : Option Text
  pub instrument_id : ℕ
  pub tp_sl : Option TpSl

-- How `place_order` ends: a placement with its order's id and status, a rejection, another raise, or no answer
-- within the time that the router waits.
pub data Placement : Type 0 where
  placed : Option String → VenueStatus → Placement
  request_rejected : String → Placement
  place_raised no_answer : Placement

-- The calls of a session of the client library, on its state `V`.
pub record Session (V : Type 0) : Type 0 where
  pub fetch_portfolio : V → Result VenuePortfolio × V
  pub fetch_open_orders : V → Result (List VenueOrder) × V
  pub place_order : OrderRequest → V → Placement × V
  pub cancel_client_order : Text → V → Result (Unit {0}) × V
  pub cancel_order_id : ℕ → V → Result (Unit {0}) × V
  pub place_position_stop : ℕ → Decimal → V → Result (Option ℕ) × V

-- The fields of `LiveReader` and `LiveExecutor`: `gate` is what `self._gate` answers when it is asked.
pub record Live (V : Type 0) : Type 0 where
  pub session : V
  pub stop_ids : Dict ℕ ℕ
  pub gate : ℕ → GateDecision
  pub now : Time

abbrev pub view_of : VenuePosition → PositionView
view_of p = record {
  instrument_id = p.instrument_id;
  size = p.size;
  entry_price = p.entry_price;
  notional = abs_ℤ p.position_value;
  leverage = p.leverage;
  liquidation_price = p.liquidation_price;
  unrealised_pnl = p.unrealized_pnl;
  cumulative_funding = p.cumulative_funding;
}

-- `... for p in pf.positions if p.size != 0`
unfoldable pub views_of : List VenuePosition → List PositionView
views_of [] = []
views_of (p ∷ ps) = if is_zero p.size then views_of ps else view_of p ∷ views_of ps

-- `o.client_order_id for o in orders if o.client_order_id and o.tp_sl is None`
abbrev pub open_id : Option Text → Option TpSl → List Text
open_id none _ = []
open_id (some []) _ = []
open_id (some (c ∷ id)) none = (c ∷ id) ∷ []
open_id (some (c ∷ id)) (some _) = []

unfoldable pub open_ids : List VenueOrder → List Text
open_ids [] = []
open_ids (o ∷ os) = open_id o.client_order_id o.tp_sl ++ open_ids os

abbrev pub add_stop :
    VenueOrder → Option TpSl → Dict ℕ Decimal × Dict ℕ ℕ → Dict ℕ Decimal × Dict ℕ ℕ
add_stop o none d = d
add_stop o (some (take_profit _)) d = d
add_stop o (some (stop_loss trigger)) (stops, ids) =
    (insert o.instrument_id trigger stops, insert o.instrument_id o.id ids)

-- The loop over the orders: the stops of the snapshot and `self._stop_ids`.
unfoldable pub read_stops : List VenueOrder → Dict ℕ Decimal × Dict ℕ ℕ → Dict ℕ Decimal × Dict ℕ ℕ
read_stops [] d = d
read_stops (o ∷ os) d = read_stops os (add_stop o o.tp_sl d)

module _ {V : Type 0} where
  abbrev pub read_account : VenuePortfolio → List VenueOrder → Live V → AccountSnapshot × Live V
  read_account pf orders l =
      let (stops, ids) = read_stops orders ([], l.stop_ids) in
      (
        record {
          equity = pf.total_account_value;
          positions = views_of pf.positions;
          open_orders = open_ids orders;
          stops = stops;
          in_liquidation = pf.in_liquidation;
          ts = l.now;
        },
        record l { stop_ids = ids },
      )

  abbrev pub read_orders :
      VenuePortfolio → Result (List VenueOrder) → Live V → Result AccountSnapshot × Live V
  read_orders pf (err e) l = (err e, l)
  read_orders pf (ok orders) l = let (s, l') = read_account pf orders l in (ok s, l')

module _ {V : Type 0} ⦃v : Session V⦄ where
  -- A call of the session.
  abbrev pub on_session : {A : Type 0} → (V → A × V) → Live V → A × Live V
  on_session f l = let (a, s) = f l.session in (a, record l { session = s })

  abbrev pub read_portfolio : Result VenuePortfolio → Live V → Result AccountSnapshot × Live V
  read_portfolio (err e) l = (err e, l)
  read_portfolio (ok pf) l = let (r, l') = on_session v.fetch_open_orders l in read_orders pf r l'

  -- `snapshot`
  unfoldable pub live_snapshot : Live V → Result AccountSnapshot × Live V
  live_snapshot l = let (r, l') = on_session v.fetch_portfolio l in read_portfolio r l'
