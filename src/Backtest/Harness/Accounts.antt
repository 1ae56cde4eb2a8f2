-- ===== src/Backtest/Harness/Accounts.antt =====
-- The books of a backtest: cash against the rows, and the counters against the lists.
use perpbot.Base.{
  ℕ, zero, suc, ◌+◌, Bool, true, false, Option, none, some, List, [], ◌∷◌, ◌++◌, ◌≡◌, refl, sym, ap,
  ◌∙◌, arith, int_laws, Bool-cases, inl, inr, if◌then◌else◌, pos, neg_ℤ, ◌+ℤ◌, ◌-ℤ◌, sum_by, length,
  length-append, +ℤ_assoc, +ℤ-zero,
}
use perpbot.Base.Dict.{nat_key}
use perpbot.Backtest.Harness.{
  Kind, LedgerRow, BacktestResult, Settings, Run, take_pnl, realised, book_fill, flattened,
  trade_to, mark_to, stop, gap_flatten, guard_exit, fill,
}
use perpbot.Backtest.Harness.Turns.{
  check_stop, stop_at, pay_funding, funding_at, flatten_gap, check_guards, guard_at, fill_at_open,
  fill_at_last, fill_at_minute, fill_target, decide, act, step, loop, run_backtest, fresh,
  last_trade,
}
use perpbot.Decimal.{Decimal}
use perpbot.Execution.Router.Rows.{is_zero}
use perpbot.Execution.Types.{Bar, Time, Side}
use perpbot.Execution.World.{Strategy}

abbrev pub total : List Decimal → Decimal
total xs = sum_by (λ x. x) xs

abbrev pub deltas : List LedgerRow → Decimal
deltas rows = sum_by (λ row. row.cash_delta) rows

-- The cash is what was realised and what the rows say, each fill is one trade and one notional, and each
-- mark one value and one return.
pub record IsAccounted {S : Type 0} (r : Run S) : Type 0 where
  pub cash_explained : r.book.cash ≡ total r.result.trade_pnls +ℤ deltas r.result.ledger
  pub trades_counted : r.result.fills ≡ length r.result.trades
  pub notionals_counted : r.result.fills ≡ length r.result.fill_notionals
  pub marks_paired : length r.result.equity ≡ length r.result.returns

sum_by-append :
    {A : Type 0} (f : A → Decimal) (xs : List A) (x : A)
    → sum_by f (xs ++ (x ∷ [])) ≡ sum_by f xs +ℤ f x
sum_by-append f [] x = omega int_laws
sum_by-append f (y ∷ ys) x =
    ap (λ t. f y +ℤ t) (sum_by-append f ys x) ∙ sym (+ℤ_assoc (f y) (sum_by f ys) (f x))

add_to_first : (a b p : Decimal) → a +ℤ b +ℤ p ≡ a +ℤ p +ℤ b
add_to_first a b p = omega int_laws

add_to_second : (a b p : Decimal) → a +ℤ b +ℤ p ≡ a +ℤ (b +ℤ p)
add_to_second a b p = +ℤ_assoc a b p

sub_as_add : (a p : Decimal) → a -ℤ p ≡ a +ℤ neg_ℤ p
sub_as_add a p = grind int_laws

length-one : {A : Type 0} (xs : List A) (x : A) → length (xs ++ (x ∷ [])) ≡ length xs + 1
length-one xs x = omega (arith, length-append xs (x ∷ []))

if_either : {R : Type 0} (b : Bool) (a d : R) (P : R → Type 0) → P a → P d → P (if b then a else d)
if_either true a d P p q = p
if_either false a d P p q = q

-- One more row that moves the cash by its delta.
row_added :
    (cash : Decimal) (pnls : List Decimal) (rows : List LedgerRow) (row : LedgerRow)
    → cash ≡ total pnls +ℤ deltas rows
    → cash +ℤ row.cash_delta ≡ total pnls +ℤ deltas (rows ++ (row ∷ []))
row_added cash pnls rows row h =
    ap (λ t. t +ℤ row.cash_delta) h
    ∙ add_to_second (total pnls) (deltas rows) row.cash_delta
    ∙ sym (ap (λ t. total pnls +ℤ t) (sum_by-append (λ (q : LedgerRow). q.cash_delta) rows row))

module _ {S : Type 0} where
  take_pnl-IsAccounted :
      (pnl : Option Decimal) (r : Run S) → IsAccounted r → IsAccounted (take_pnl pnl r)
  take_pnl-IsAccounted none r h = h
  take_pnl-IsAccounted (some p) r h = record {
    cash_explained =
        ap (λ t. t +ℤ p) h.cash_explained
        ∙ add_to_first (total r.result.trade_pnls) (deltas r.result.ledger) p
        ∙ sym
            (ap (λ t. t +ℤ deltas r.result.ledger) (sum_by-append (λ x. x) r.result.trade_pnls p));
    trades_counted = h.trades_counted;
    notionals_counted = h.notionals_counted;
    marks_paired = h.marks_paired;
  }

  book_fill-IsAccounted :
      (c : Settings) (target entry value cost qty price : Decimal) (ts : Time) (kind : Kind)
      (side : Side) (r : Run S)
      → IsAccounted r
      → IsAccounted (book_fill c target entry value cost qty price ts kind side r)
  book_fill-IsAccounted c target entry value cost qty price ts kind side r h = record {
    cash_explained =
        sub_as_add r.book.cash cost
        ∙ row_added r.book.cash r.result.trade_pnls r.result.ledger _ h.cash_explained;
    trades_counted =
        ap (λ n. n + 1) h.trades_counted ∙ sym (length-one r.result.trades (ts, side, qty));
    notionals_counted =
        ap (λ n. n + 1) h.notionals_counted ∙ sym (length-one r.result.fill_notionals value);
    marks_paired = h.marks_paired;
  }

  mark_to-IsAccounted :
      (c : Settings) (ts : Time) (price : Option Decimal) (r : Run S)
      → IsAccounted r
      → IsAccounted (mark_to c ts price r)
  unfolding mark_to
  mark_to-IsAccounted c ts price r h = record {
    cash_explained =
        sym (+ℤ-zero r.book.cash)
        ∙ row_added r.book.cash r.result.trade_pnls r.result.ledger _ h.cash_explained;
    trades_counted = h.trades_counted;
    notionals_counted = h.notionals_counted;
    marks_paired =
        length-one r.result.equity _
        ∙ ap (λ n. n + 1) h.marks_paired
        ∙ sym (length-one r.result.returns _);
  }

module _ {S : Type 0} ⦃y : Strategy S⦄ where
  flattened-IsAccounted :
      (target : Decimal) (r : Run S) → IsAccounted r → IsAccounted (flattened target r)
  flattened-IsAccounted target r h = elim (Bool-cases (is_zero target)) [
    | inl z ↦ rw z (record {
      cash_explained = h.cash_explained;
      trades_counted = h.trades_counted;
      notionals_counted = h.notionals_counted;
      marks_paired = h.marks_paired;
    })
    | inr n ↦ rw n h
  ]

  trade_to-IsAccounted :
      (c : Settings) (target price spread : Decimal) (ts : Time) (kind : Kind) (r : Run S)
      → IsAccounted r
      → IsAccounted (trade_to c target price spread ts kind r)
  unfolding trade_to
  trade_to-IsAccounted c target price spread ts kind r h =
      elim (Bool-cases (is_zero (target -ℤ r.book.position))) [
        | inl z ↦ rw z h
        | inr n ↦ rw n (
            flattened-IsAccounted target _ (
              book_fill-IsAccounted c target _ _ _ _ price ts kind _ _
                (take_pnl-IsAccounted (realised c r.book target price) r h)))
      ]

  aside-IsAccounted :
      (r : Run S) (s : S) (res : BacktestResult)
      → IsAccounted r
      → res.ledger ≡ r.result.ledger
      → res.trade_pnls ≡ r.result.trade_pnls
      → res.fills ≡ r.result.fills
      → res.trades ≡ r.result.trades
      → res.fill_notionals ≡ r.result.fill_notionals
      → res.equity ≡ r.result.equity
      → res.returns ≡ r.result.returns
      → IsAccounted (record r { strategy = s; result = res })
  aside-IsAccounted r s res h a b d e f g i = record {
    cash_explained = rw (a, b) h.cash_explained;
    trades_counted = rw (d, e) h.trades_counted;
    notionals_counted = rw (d, f) h.notionals_counted;
    marks_paired = rw (g, i) h.marks_paired;
  }

  check_stop-IsAccounted :
      (c : Settings) (bar : Bar) (r : Run S) → IsAccounted r → IsAccounted (check_stop c bar r)
  unfolding check_stop
  check_stop-IsAccounted c bar r h = at bar.high bar.low
    where
      at : (high low : Option Decimal) → IsAccounted (stop_at c bar high low r)
      at none low = h
      at (some high) none = h
      at (some high) (some low) =
          if_either _ _ _ IsAccounted
            (trade_to-IsAccounted c (pos 0) _ bar.spread_bps bar.open_ts stop r h) h

  funding_at-IsAccounted :
      (c : Settings) (bar : Bar) (rate close : Option Decimal) (r : Run S)
      → IsAccounted r
      → IsAccounted (funding_at c bar rate close r)
  funding_at-IsAccounted c bar none close r h = h
  funding_at-IsAccounted c bar (some rate) none r h = h
  funding_at-IsAccounted c bar (some rate) (some close) r h =
      if_either _ _ _ IsAccounted h (record {
        cash_explained =
            row_added r.book.cash r.result.trade_pnls r.result.ledger _ h.cash_explained;
        trades_counted = h.trades_counted;
        notionals_counted = h.notionals_counted;
        marks_paired = h.marks_paired;
      })

  flatten_gap-IsAccounted :
      (c : Settings) (bar nxt : Bar) (close : Option Decimal) (r : Run S)
      → IsAccounted r
      → IsAccounted (flatten_gap c bar nxt close r)
  flatten_gap-IsAccounted c bar nxt none r h = h
  flatten_gap-IsAccounted c bar nxt (some close) r h =
      if_either _ _ _ IsAccounted h
        (trade_to-IsAccounted c (pos 0) close bar.spread_bps nxt.open_ts gap_flatten r h)

  guard_at-IsAccounted :
      (c : Settings) (bar nxt : Bar) (close : Option Decimal) (r : Run S)
      → IsAccounted r
      → IsAccounted (guard_at c bar nxt close r)
  guard_at-IsAccounted c bar nxt none r h = h
  guard_at-IsAccounted c bar nxt (some close) r h =
      if_either _ _ _ IsAccounted
        (trade_to-IsAccounted c (pos 0) close bar.spread_bps nxt.open_ts guard_exit r h) h

  fill_at_open-IsAccounted :
      (c : Settings) (bar nxt : Bar) (target : Decimal) (price : Option Decimal) (r : Run S)
      → IsAccounted r
      → IsAccounted (fill_at_open c bar nxt target price r)
  fill_at_open-IsAccounted c bar nxt target none r h = record {
    cash_explained =
        sym (+ℤ-zero r.book.cash)
        ∙ row_added r.book.cash r.result.trade_pnls r.result.ledger _ h.cash_explained;
    trades_counted = h.trades_counted;
    notionals_counted = h.notionals_counted;
    marks_paired = h.marks_paired;
  }
  fill_at_open-IsAccounted c bar nxt target (some price) r h =
      trade_to-IsAccounted c target price bar.spread_bps nxt.open_ts fill _
        (aside-IsAccounted r r.strategy _ h refl refl refl refl refl refl refl)

  fill_at_last-IsAccounted :
      (c : Settings) (bar nxt : Bar) (target : Decimal) (at : Time) (last : Option (Time × Decimal))
      (r : Run S)
      → IsAccounted r
      → IsAccounted (fill_at_last c bar nxt target at last r)
  fill_at_last-IsAccounted c bar nxt target at none r h =
      fill_at_open-IsAccounted c bar nxt target nxt.open_price r h
  fill_at_last-IsAccounted c bar nxt target at (some (k, price)) r h =
      trade_to-IsAccounted c target price bar.spread_bps nxt.open_ts fill _
        (aside-IsAccounted r r.strategy _ h refl refl refl refl refl refl refl)

  fill_at_minute-IsAccounted :
      (c : Settings) (bar nxt : Bar) (target : Decimal) (at : Time) (price : Option Decimal)
      (r : Run S)
      → IsAccounted r
      → IsAccounted (fill_at_minute c bar nxt target at price r)
  fill_at_minute-IsAccounted c bar nxt target at none r h =
      fill_at_last-IsAccounted c bar nxt target at (last_trade c at) r h
  fill_at_minute-IsAccounted c bar nxt target at (some price) r h =
      trade_to-IsAccounted c target price bar.spread_bps nxt.open_ts fill r h

  act-IsAccounted :
      (c : Settings) (history : List Bar) (bar nxt : Bar) (close : Option Decimal) (r : Run S)
      → IsAccounted r
      → IsAccounted (act c history bar nxt close r)
  unfolding check_guards decide fill_target
  act-IsAccounted c history bar nxt none r h = flatten_gap-IsAccounted c bar nxt bar.close r h
  act-IsAccounted c history bar nxt (some _) r h =
      let g = check_guards c bar nxt r in
      let guarded = guard_at-IsAccounted c bar nxt bar.close r h in
      let told =
        aside-IsAccounted g (y.target history g.strategy).1 g.result guarded refl refl refl refl
          refl refl refl in
      if_either _ _ _ IsAccounted (flatten_gap-IsAccounted c bar nxt bar.close r h)
        (if_either _ _ _ IsAccounted told (fill_at_minute-IsAccounted c bar nxt _ _ _ _ told))

  loop-IsAccounted :
      (c : Settings) (skip : ℕ) (seen bars : List Bar) (r : Run S)
      → IsAccounted r
      → IsAccounted (loop c skip seen bars r)
  unfolding loop step pay_funding
  loop-IsAccounted c skip seen [] r h = h
  loop-IsAccounted c skip seen (bar ∷ []) r h = h
  loop-IsAccounted c (suc n) seen (bar ∷ nxt ∷ bars) r h =
      loop-IsAccounted c n (seen ++ (bar ∷ [])) (nxt ∷ bars) r h
  loop-IsAccounted c zero seen (bar ∷ nxt ∷ bars) r h =
      let history = seen ++ (bar ∷ []) in
      loop-IsAccounted c zero history (nxt ∷ bars) (step c history bar nxt r) (
        mark_to-IsAccounted c nxt.open_ts nxt.close _ (
          act-IsAccounted c history bar nxt nxt.close _ (
            funding_at-IsAccounted c bar bar.funding_rate bar.close _
              (check_stop-IsAccounted c bar r h))))

  -- At the end of every backtest the cash is the sum of what the trades realised and of the cash deltas of
  -- the ledger, every fill is one trade and one notional, and every mark is one equity and one return.
  pub run_backtest-IsAccounted :
      (c : Settings) (warmup : ℕ) (bars : List Bar) (s : S)
      → IsAccounted (run_backtest c warmup bars s)
  unfolding run_backtest
  run_backtest-IsAccounted c warmup bars s = loop-IsAccounted c warmup [] bars (fresh s) (record {
    cash_explained = sym (+ℤ-zero (pos 0));
    trades_counted = refl;
    notionals_counted = refl;
    marks_paired = refl;
  })
