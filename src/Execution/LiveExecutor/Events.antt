-- ===== src/Execution/LiveExecutor/Events.antt =====
-- events of polyperps/execution/live_executor.py: the venue's events as ours.
use perpbot.Base.{ℕ, Option, none, some, List, [], ◌∷◌}
use perpbot.Decimal.{Decimal}
use perpbot.Execution.ClientId.{dash, show}
use perpbot.Execution.LiveExecutor.{VenueStatus, Mapped, mapped, map_status}
use perpbot.Execution.Portfolio.Reconcile.{Event, filled, updated, reconcile_now}
use perpbot.Execution.Types.{Side, Text, Time, FillUpdate}

-- The events of the session. A side that is none of the four words of `_FILL_SIDE_MAP` is left out.
pub data VenueSide : Type 0 where
  long short buy sell : VenueSide

pub record VenueFill : Type 0 where
  pub client_order_id : Option Text
  pub order_id : ℕ
  pub instrument_id : ℕ
  pub side : VenueSide
  pub quantity : Decimal
  pub price : Decimal
  pub fee : Decimal

pub data VenueEvent : Type 0 where
  resync other_event : VenueEvent
  order_event : Option Text → VenueStatus → Decimal → Time → VenueEvent
  fill_event : List VenueFill → Time → VenueEvent

-- `_FILL_SIDE_MAP`
abbrev pub fill_side : VenueSide → Side
fill_side long = Side.buy
fill_side short = Side.sell
fill_side VenueSide.buy = Side.buy
fill_side VenueSide.sell = Side.sell

-- `f.client_order_id or f"venue-{f.order_id}"`
abbrev pub fill_cid : Option Text → ℕ → Text
fill_cid none n = b'v' ∷ b'e' ∷ b'n' ∷ b'u' ∷ b'e' ∷ dash ∷ show n
fill_cid (some []) n = b'v' ∷ b'e' ∷ b'n' ∷ b'u' ∷ b'e' ∷ dash ∷ show n
fill_cid (some (c ∷ id)) n = c ∷ id

abbrev pub fill_of : Time → VenueFill → FillUpdate
fill_of ts f = record {
  client_order_id = fill_cid f.client_order_id f.order_id;
  instrument_id = f.instrument_id;
  side = fill_side f.side;
  quantity = f.quantity;
  price = f.price;
  fee = f.fee;
  ts = ts;
}

unfoldable pub read_fills : Time → List VenueFill → List Event
read_fills ts [] = []
read_fills ts (f ∷ fs) = filled (fill_of ts f) ∷ read_fills ts fs

abbrev pub read_update : Option Text → Mapped → Decimal → Time → List Event
read_update (some (c ∷ id)) (mapped st) q ts =
    updated (record { client_order_id = c ∷ id; status = st; filled_quantity = q; ts = ts }) ∷ []
read_update _ _ q ts = []

-- What `events` yields for one event of the session.
unfoldable pub read_event : VenueEvent → List Event
read_event resync = reconcile_now ∷ []
read_event other_event = []
read_event (order_event id st q ts) = read_update id (map_status st) q ts
read_event (fill_event fs ts) = read_fills ts fs
