-- ===== src/Execution/SimExecutor/Positions.antt =====
-- What an order does to a position of the paper account.
use perpbot.Base.{
  ℕ, true, false, ◌||◌, Option, none, some, ◌≡◌, ap, ◌∙◌, arith, Bool-cases, Option-cases, min_ℤ,
  abs_ℤ, inl, inr, ◌⊎◌, ◌≤ℤ◌, pos, ◌+ℤ◌, ◌-ℤ◌, ◌+◌, neg_ℤ, +ℤ_parts,
}
use mathlib.Core.Path.{subst}
use perpbot.Base.Dict.{lookup, insert, nat_key, lookup-insert_self}
use perpbot.Decimal.{Decimal, ◌*ᴰ◌}
use perpbot.Execution.SimExecutor.{
  is_nil, same_bool, is_positive, is_buy, Account, Pos, Failure, timeout, reject, drop, pos_of,
  trade, reset_funding, apply_position, fill_at, signed_quantity, fill_cost,
}
use perpbot.Execution.SimExecutor.Orders.{
  is_refused, fill_quantity, fill_order, execute, take_failure, submit_as, submit,
}
use perpbot.Execution.Types.{OrderRequest, Side, buy, sell}

-- The size of the position of an instrument; without a position it is zero.
abbrev pub size_at : ℕ → Account → Decimal
size_at i a = (pos_of (lookup i a.positions)).size

-- Between zero and the other size, on its side.
abbrev pub IsReduced : (new old : Decimal) → Type 0
IsReduced new old = (((pos 0) ≤ℤ new) × (new ≤ℤ old)) ⊎ ((old ≤ℤ new) × (new ≤ℤ (pos 0)))

IsReduced-refl : (a : Decimal) → IsReduced a a
IsReduced-refl a = ground arith

trade-size : (p : Pos) (d price : Decimal) → (reset_funding (trade p d price).0).size ≡ p.size +ℤ d
unfolding trade
trade-size p d price = ground arith

pub apply_position-size :
    (i : ℕ) (d price : Decimal) (a : Account)
    → size_at i (apply_position i d price a) ≡ size_at i a +ℤ d
unfolding apply_position
apply_position-size i d price a =
    ap (λ p. (pos_of p).size)
      (lookup-insert_self i (reset_funding (trade (pos_of (lookup i a.positions)) d price).0)
        a.positions)
    ∙ trade-size (pos_of (lookup i a.positions)) d price

insert_same-size :
    (i : ℕ) (a : Account)
    → (pos_of (lookup i (insert i (pos_of (lookup i a.positions)) a.positions))).size ≡ size_at i a
insert_same-size i a =
    ap (λ p. (pos_of p).size) (lookup-insert_self i (pos_of (lookup i a.positions)) a.positions)

closing_reduces :
    (side : Side) (q old : Decimal)
    → pos 0 ≤ℤ q
    → (is_nil old || same_bool (is_positive old) (is_buy side)) ≡ false
    → IsReduced (old +ℤ signed_quantity side (min_ℤ q (abs_ℤ old))) old
closing_reduces buy q old h r = ground (arith, +ℤ_parts old (min_ℤ q (abs_ℤ old)))
closing_reduces sell q old h r = ground (arith, +ℤ_parts old (neg_ℤ (min_ℤ q (abs_ℤ old))))

fill_order-size :
    (o : OrderRequest) (mode : Option Failure) (mark size : Decimal) (a : Account)
    → size_at o.instrument_id (fill_order o mode (some mark) size a).1
      ≡ size_at o.instrument_id a +ℤ signed_quantity o.side (fill_quantity o size)
unfolding fill_at
fill_order-size o mode mark size a =
    let qty = fill_quantity o size in
    let cost = fill_cost (qty *ᴰ mark) a.notional a.spread a.fee a.impact in
    apply_position-size o.instrument_id (signed_quantity o.side qty) mark
      (record a { n = a.n + 1; cash = a.cash -ℤ cost })

execute_reduces :
    (o : OrderRequest) (mode : Option Failure) (a : Account)
    → o.reduce_only ≡ true
    → pos 0 ≤ℤ o.quantity
    → IsReduced (size_at o.instrument_id (execute o mode a).1) (size_at o.instrument_id a)
unfolding execute fill_at
execute_reduces o mode a c h =
    let i = o.instrument_id in
    let old = size_at i a in
    let a' : Account = record a {
      positions = insert i (pos_of (lookup i a.positions)) a.positions;
    } in
    let kept : IsReduced (size_at i a') old = rw (insert_same-size i a) (IsReduced-refl old) in
    elim (Bool-cases (is_refused o old)) [
      | inl r ↦ rw r kept
      | inr r ↦ elim (Option-cases (lookup i a.marks)) [
        | inl m ↦ rw (r, m) kept
        | inr (mark, m) ↦
            rw (r, m, fill_order-size o mode mark old a', insert_same-size i a, c)
              (closing_reduces o.side o.quantity old h (rw c at r))
      ]
    ]

-- A reduce-only order of a quantity that is not negative leaves the position between what it was and zero:
-- it never opens, enlarges or flips it, whatever failure is injected and also where the fill raises.
pub submit_reduces :
    (o : OrderRequest) (a : Account)
    → o.reduce_only ≡ true
    → pos 0 ≤ℤ o.quantity
    → IsReduced (size_at o.instrument_id (submit o a).1) (size_at o.instrument_id a)
unfolding submit
submit_reduces o a c h =
    subst
      (λ ps.
        IsReduced (size_at o.instrument_id (submit o a).1)
          (pos_of (lookup o.instrument_id ps)).size)
      (take_failure-positions a) (by_mode (take_failure a).0 (take_failure a).1)
  where
    take_failure-positions : (a : Account) → (take_failure a).1.positions ≡ a.positions
    take_failure-positions a = ground arith

    by_mode :
        (mode : Option Failure) (b : Account)
        → IsReduced (size_at o.instrument_id (submit_as o mode b).1) (size_at o.instrument_id b)
    by_mode none b = execute_reduces o none b c h
    by_mode (some timeout) b = execute_reduces o (some timeout) b c h
    by_mode (some reject) b = IsReduced-refl (size_at o.instrument_id b)
    by_mode (some drop) b = IsReduced-refl (size_at o.instrument_id b)
