-- ===== src/Storage.antt =====
-- The execution tables of polyperps/storage/db.py, for one run: orders keyed by client order id,
-- positions_local keyed by instrument id, decisions in insertion order. SQL, JSON and the text form of
-- the columns are not modelled; nor is the error that a repeated decision key raises.
pub mod Gaps
pub mod Market
pub mod Rollup
pub mod Prune
use perpbot.Base.{ℕ, suc, Bool, Option, none, some, List, [], ◌∷◌, ◌++◌, if◌then◌else◌, ◌==◌}
use perpbot.Base.Dict.{Dict, lookup, insert, nat_key, text_key}
use perpbot.Execution.Types.{Text, OrderRow, PositionLocalRow, DecisionRow}
use perpbot.Monitor.{Alert}

pub record Store : Type 0 where
  pub orders : Dict Text OrderRow
  pub positions : Dict ℕ PositionLocalRow
  pub decisions : List DecisionRow
  pub alerts : List Alert

-- `ON CONFLICT(client_order_id) DO UPDATE`: what an upsert leaves of the old row
abbrev pub merged : OrderRow → OrderRow → OrderRow
merged old new = record old {
  status = new.status;
  exchange_order_id = new.exchange_order_id;
  filled_quantity = new.filled_quantity;
  avg_price = new.avg_price;
  updated_at = new.updated_at;
  reason = new.reason;
}

abbrev pub upserted : Option OrderRow → OrderRow → OrderRow
upserted none new = new
upserted (some old) new = merged old new

unfoldable pub get_order : Text → Store → Option OrderRow
get_order k s = lookup k s.orders

unfoldable pub upsert_order : OrderRow → Store → Store
upsert_order o s =
    let k = o.client_order_id in
    record s { orders = insert k (upserted (lookup k s.orders) o) s.orders }

unfoldable pub upsert_position_local : PositionLocalRow → Store → Store
upsert_position_local p s = record s { positions = insert p.instrument_id p s.positions }

-- `get_positions_local`
abbrev pub get_positions_local : Store → Dict ℕ PositionLocalRow
get_positions_local s = s.positions

unfoldable pub insert_decision : DecisionRow → Store → Store
insert_decision d s = record s { decisions = s.decisions ++ (d ∷ []) }

unfoldable pub insert_alert : Alert → Store → Store
insert_alert a s = record s { alerts = s.alerts ++ (a ∷ []) }

-- `list_orders` and `list_decisions` for one instrument
abbrev pub order_rows : Dict Text OrderRow → List OrderRow
order_rows [] = []
order_rows ((k, o) ∷ d) = o ∷ order_rows d

abbrev pub decisions_of : ℕ → List DecisionRow → List DecisionRow
decisions_of i [] = []
decisions_of i (d ∷ ds) = if d.instrument_id == i then d ∷ decisions_of i ds else decisions_of i ds
