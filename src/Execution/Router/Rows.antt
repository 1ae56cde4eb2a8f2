-- ===== src/Execution/Router/Rows.antt =====
-- The router's bookkeeping: stored rows, state changes and fills.
use perpbot.Base.{
  ℕ, ◌+◌, Bool, true, false, not, ◌&&◌, ◌||◌, Option, none, some, or_else, String, List, [], ◌∷◌,
  if◌then◌else◌, ◌==◌, ltb, ◌+ℤ◌, neg_ℤ, abs_ℤ, ltb_ℤ, leb_ℤ, eqb_ℤ, pos,
}
use perpbot.Decimal.{Decimal, ◌*ᴰ◌, ◌/ᴰ◌}
use perpbot.Execution.ClientId.{cid_number}
use perpbot.Execution.Types.{
  State, flat, entry_pending, open_position, exit_pending, liquidated, halted, Side, buy, sell,
  Text, Time, OrderStatus, RowStatus, venue, lost, error, shadow_refused, timeout_adopted, OrderRow,
  PositionLocalRow, DecisionRow, FillUpdate, Intent,
}
use perpbot.Execution.World.{Router, Action, assign, write, ◌>>◌}
use perpbot.Risk.Verdict.{Verdict}
use perpbot.Storage.{
  Store, get_order, upsert_order, upsert_position_local, insert_decision, order_rows, decisions_of,
}

-- `state in _FROZEN`
abbrev pub is_frozen : State → Bool
is_frozen halted = true
is_frozen liquidated = true
is_frozen _ = false

-- `state in (State.ENTRY_PENDING, State.EXIT_PENDING)`
abbrev pub is_pending : State → Bool
is_pending entry_pending = true
is_pending exit_pending = true
is_pending _ = false

abbrev pub is_open : State → Bool
is_open open_position = true
is_open _ = false

abbrev pub is_flat : State → Bool
is_flat flat = true
is_flat _ = false

abbrev pub is_entry_pending : State → Bool
is_entry_pending entry_pending = true
is_entry_pending _ = false

-- `status in _TERMINAL_ORDER_STATUSES`; "adopted", "abandoned" and "submitting" are not in it
abbrev pub is_terminal : RowStatus → Bool
is_terminal (venue OrderStatus.filled) = true
is_terminal (venue OrderStatus.cancelled) = true
is_terminal (venue OrderStatus.auto_cancelled) = true
is_terminal (venue OrderStatus.rejected) = true
is_terminal lost = true
is_terminal error = true
is_terminal shadow_refused = true
is_terminal timeout_adopted = true
is_terminal _ = false

-- `status in _GAVE_UP_STATUSES`
abbrev pub gave_up : RowStatus → Bool
gave_up lost = true
gave_up error = true
gave_up shadow_refused = true
gave_up timeout_adopted = true
gave_up _ = false

-- The row that `_persist` writes.
abbrev pub local_row : {S : Type 0} → Router S → Time → PositionLocalRow
local_row r now = record {
  instrument_id = r.instrument_id;
  state = r.state;
  size = r.size;
  entry_price = r.entry;
  stop_trigger = r.stop_trigger;
  cumulative_funding = r.cumulative_funding;
  updated_at = now;
}

-- The average price of an order after one more fill.
abbrev pub fill_average : Option Decimal → (before after : Decimal) → FillUpdate → Decimal
fill_average none before after ev = ev.price
fill_average (some old) before after ev =
    if eqb_ℤ before (pos 0) then ev.price else (old *ᴰ before +ℤ ev.price *ᴰ ev.quantity) /ᴰ after

-- The greatest counter among the order rows of an instrument, and among its decision rows.
unfoldable pub max_order_seq : ℕ → List OrderRow → ℕ
max_order_seq i [] = 0
max_order_seq i (o ∷ os) =
    let rest = max_order_seq i os in
    if o.instrument_id == i
    then (let n = or_else (cid_number o.client_order_id) 0 in if ltb rest n then n else rest)
    else rest

unfoldable pub max_decision_seq : List DecisionRow → ℕ
max_decision_seq [] = 0
max_decision_seq (d ∷ ds) = let rest = max_decision_seq ds in if ltb rest d.seq then d.seq else rest

abbrev pub change_row : Option OrderRow → Bool → (OrderRow → OrderRow) → Time → Store → Store
change_row none skip_if_terminal f now s = s
change_row (some row) skip_if_terminal f now s =
    if skip_if_terminal && is_terminal row.status
    then s
    else upsert_order (record (f row) { updated_at = now }) s

-- The store after `_update_order`.
unfoldable pub update_row : Text → Bool → (OrderRow → OrderRow) → Time → Store → Store
update_row id skip_if_terminal f now s = change_row (get_order id s) skip_if_terminal f now s

module _ {E S : Type 0} where
  unfoldable pub persist : Action E S (Unit {0})
  persist w = write (upsert_position_local (local_row w.router w.now)) w

  unfoldable pub set_state : State → Action E S (Unit {0})
  unfolding persist
  set_state st = do assign (λ r. record r { state = st }); persist

  unfoldable pub load_local : PositionLocalRow → Action E S (Unit {0})
  load_local row w =
      let i = w.router.instrument_id in
      assign
        (λ r. record r {
          state = row.state;
          size = row.size;
          entry = row.entry_price;
          stop_trigger = row.stop_trigger;
          cumulative_funding = row.cumulative_funding;
          dseq = max_decision_seq (decisions_of i w.store.decisions);
          seq = max_order_seq i (order_rows w.store.orders);
        })
        w

  -- `_record`
  unfoldable pub record_decision :
      Option Decimal
      → List (String × Verdict)
      → Option Intent
      → Option Text
      → String
      → Action E S (Unit {0})
  record_decision target verdicts intent cid note w =
      let r = w.router in
      let d : DecisionRow = record {
        instrument_id = r.instrument_id;
        seq = r.dseq + 1;
        ts = w.now;
        state_before = r.state;
        target = target;
        verdicts = verdicts;
        intent = intent;
        client_order_id = cid;
        note = note;
      } in
      (assign (λ q. record q { dseq = q.dseq + 1 }) >> write (insert_decision d)) w

  -- `_update_order(cid, skip_if_terminal=…, **changes)`
  abbrev pub update_order : Text → Bool → (OrderRow → OrderRow) → Action E S (Unit {0})
  update_order id skip_if_terminal f w = write (update_row id skip_if_terminal f w.now) w

  -- `_record_fill`
  unfoldable pub record_fill : OrderRow → FillUpdate → Action E S (Unit {0})
  record_fill row ev =
      let filled = row.filled_quantity +ℤ ev.quantity in
      let avg = fill_average row.avg_price row.filled_quantity filled ev in
      let status =
        if is_terminal row.status
        then row.status
        else if leb_ℤ row.quantity filled
        then venue OrderStatus.filled
        else venue OrderStatus.partial in
      update_order row.client_order_id false
        (λ r. record r { status = status; filled_quantity = filled; avg_price = some avg })

abbrev pub fill_delta : Side → Decimal → Decimal
fill_delta buy q = q
fill_delta sell q = neg_ℤ q

abbrev pub is_long : Decimal → Bool
is_long x = ltb_ℤ (pos 0) x

abbrev pub is_zero : Decimal → Bool
is_zero x = eqb_ℤ x (pos 0)

abbrev pub same : Bool → Bool → Bool
same true b = b
same false b = not b

-- The entry price after a fill that takes the size from `old` to `new`.
abbrev pub new_entry : (old new delta price : Decimal) → Option Decimal → Option Decimal
new_entry old new delta price entry =
    if is_zero old || is_zero new || not (same (is_long old) (is_long new))
    then (if is_zero new then none else some price)
    else if ltb_ℤ (abs_ℤ old) (abs_ℤ new)
    then some ((abs_ℤ old *ᴰ or_else entry (pos 0) +ℤ abs_ℤ delta *ᴰ price) /ᴰ abs_ℤ new)
    else entry

module _ {E S : Type 0} where
  -- `_apply_fill`
  unfoldable pub apply_fill : FillUpdate → Action E S (Unit {0})
  unfolding persist
  apply_fill ev = do
    assign (λ r.
        let delta = fill_delta ev.side ev.quantity in
        let new = r.size +ℤ delta in
        record r {
          entry = new_entry r.size new delta ev.price r.entry;
          size = new;
          cumulative_funding = if is_zero new then pos 0 else r.cumulative_funding;
          last_margin_level = if is_zero new then none else r.last_margin_level;
        })
    persist
