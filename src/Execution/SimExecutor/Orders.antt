-- ===== src/Execution/SimExecutor/Orders.antt =====
-- Marks, funding, orders and stops of the paper account: update_mark, apply_funding, submit, place_stop and
-- cancel_stop.
use perpbot.Base.{
  ℕ, ◌+◌, Bool, ◌&&◌, ◌||◌, Option, none, some, [], ◌∷◌, ◌++◌, if◌then◌else◌, ◌+ℤ◌, neg_ℤ, abs_ℤ,
  min_ℤ,
}
use perpbot.Base.Dict.{lookup, insert, erase, nat_key}
use perpbot.Decimal.{Decimal, ◌*ᴰ◌}
use perpbot.Execution.Types.{AckStatus, Time, OrderRequest, OrderAck, OrderUpdate, OrderStatus}
use perpbot.Execution.World.{failed, Result, ok, err, Submitted, acked, timed_out, raised}
use perpbot.Execution.SimExecutor.{
  Pos, Failure, Account, is_positive, is_nil, same_bool, is_buy, pos_of, fill_at, timeout, reject,
  drop, order, fill,
}

-- `update_mark` and `apply_funding`
unfoldable pub update_mark : ℕ → Decimal → Account → Account
update_mark i mark a = record a { marks = insert i mark a.marks }

abbrev pub pay_funding :
    ℕ → Option Pos → Option Decimal → Decimal → Account → Result (Unit {0}) × Account
pay_funding i none mark rate a = (ok tt, a)
pay_funding i (some p) none rate a = if is_nil p.size then (ok tt, a) else (err failed, a)
pay_funding i (some p) (some mark) rate a =
    let paid = neg_ℤ p.size *ᴰ mark *ᴰ rate in
    if is_nil p.size then (ok tt, a) else (
      ok tt,
      record a {
        cash = a.cash +ℤ paid;
        positions = insert i (record p { funding = p.funding +ℤ paid }) a.positions;
      },
    )

unfoldable pub apply_funding : ℕ → Decimal → Account → Result (Unit {0}) × Account
apply_funding i rate a = pay_funding i (lookup i a.positions) (lookup i a.marks) rate a

-- The injected failure of the next `submit`.
abbrev pub take_failure : Account → Option Failure × Account
take_failure a = elim a.fail_queue [
  | [] ↦ (a.fail_next, record a { fail_next = none })
  | m ∷ ms ↦ (some m, record a { fail_queue = ms })
]

-- `order.reduce_only and (p.size == 0 or (p.size > 0) == (order.side == "buy"))`
abbrev pub is_refused : OrderRequest → Decimal → Bool
is_refused o size = o.reduce_only && (is_nil size || same_bool (is_positive size) (is_buy o.side))

abbrev pub fill_quantity : OrderRequest → Decimal → Decimal
fill_quantity o size = if o.reduce_only then min_ℤ o.quantity (abs_ℤ size) else o.quantity

abbrev pub ack_of : OrderRequest → AckStatus → Time → OrderAck
ack_of o status now = record {
  client_order_id = o.client_order_id;
  exchange_order_id = none;
  status = status;
  reason = "";
  ts = now;
}

abbrev pub filled_update : OrderRequest → Decimal → Time → OrderUpdate
filled_update o qty now = record {
  client_order_id = o.client_order_id;
  status = OrderStatus.filled;
  filled_quantity = qty;
  ts = now;
}

abbrev pub answer_of : Option Failure → OrderRequest → Time → Submitted
answer_of (some timeout) o now = timed_out
answer_of _ o now = acked (ack_of o AckStatus.accepted now)

abbrev pub fill_order :
    OrderRequest → Option Failure → Option Decimal → Decimal → Account → Submitted × Account
fill_order o mode none size a = (raised failed, record a { n = a.n + 1 })
fill_order o mode (some mark) size a =
    let qty = fill_quantity o size in
    let (f, b) = fill_at o qty mark (record a { n = a.n + 1 }) in
    (
      answer_of mode o a.clock,
      record b { queue = b.queue ++ (order (filled_update o qty a.clock) ∷ fill f ∷ []) },
    )

-- From the lookup of the position on.
unfoldable pub execute : OrderRequest → Option Failure → Account → Submitted × Account
unfolding fill_at
execute o mode a =
    let p = pos_of (lookup o.instrument_id a.positions) in
    let a' = record a { positions = insert o.instrument_id p a.positions } in
    if is_refused o p.size
    then (acked (ack_of o AckStatus.rejected a.clock), a')
    else fill_order o mode (lookup o.instrument_id a.marks) p.size a'

abbrev pub submit_as : OrderRequest → Option Failure → Account → Submitted × Account
submit_as o (some drop) a = (timed_out, a)
submit_as o (some reject) a = (acked (ack_of o AckStatus.rejected a.clock), a)
submit_as o (some timeout) a = execute o (some timeout) a
submit_as o none a = execute o none a

-- `submit`; the texts of an acknowledgement are left out.
unfoldable pub submit : OrderRequest → Account → Submitted × Account
unfolding execute
submit o a = let (mode, b) = take_failure a in submit_as o mode b

unfoldable pub place_stop : ℕ → Decimal → Account → Result (Unit {0}) × Account
place_stop i trigger a = (ok tt, record a { stops = insert i trigger a.stops })

unfoldable pub cancel_stop : ℕ → Account → Result (Unit {0}) × Account
cancel_stop i a = (ok tt, record a { stops = erase i a.stops })
