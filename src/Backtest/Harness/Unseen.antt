-- ===== src/Backtest/Harness/Unseen.antt =====
-- What a turn of run_backtest may see of the bar that follows: when it opens, at what price, and whether it closes.
use perpbot.Base.{
  ℕ, Option, none, some, is_some, List, [], ◌∷◌, ◌++◌, ◌≡◌, refl, sym, ap, ap₂, ◌∙◌, ltb, length,
  Bool-cases, inl, inr,
}
use perpbot.Backtest.Harness.{Settings, Run, mark_to}
use perpbot.Backtest.Harness.Turns.{
  act, step, run_backtest, check_guards, decide, fill_target, pay_funding, check_stop,
}
use perpbot.Backtest.Harness.Extended.{run_backtest-extended}
use perpbot.Decimal.{Decimal}
use perpbot.Execution.Types.{Bar, Time}
use perpbot.Execution.World.{Strategy}

-- Two bars open at the same time and price, and both close or neither does.
pub record OpenAlike (x y : Bar) : Type 0 where
  pub same_time : x.open_ts ≡ y.open_ts
  pub same_open : x.open_price ≡ y.open_price
  pub both_close : is_some x.close ≡ is_some y.close

-- Two runs have done the same, up to their marks.
pub record SameDeeds {S : Type 0} (p q : Run S) : Type 0 where
  pub book : p.book ≡ q.book
  pub strategy : p.strategy ≡ q.strategy
  pub trades : p.result.trades ≡ q.result.trades
  pub trade_pnls : p.result.trade_pnls ≡ q.result.trade_pnls
  pub fill_notionals : p.result.fill_notionals ≡ q.result.fill_notionals
  pub fills : p.result.fills ≡ q.result.fills
  pub fills_unavailable : p.result.fills_unavailable ≡ q.result.fills_unavailable

abbrev opened : Bar → Time → Option Decimal → Bar
opened b at price = record b { open_ts = at; open_price = price }

module _ {S : Type 0} ⦃y : Strategy S⦄ where
  -- A turn reads of the next bar its time and its price, and nothing else where it is known whether it closes.
  act-opened :
      (c : Settings) (history : List Bar) (b x : Bar) (close : Option Decimal) (r : Run S)
      → act c history b x close r ≡ act c history b (opened b x.open_ts x.open_price) close r
  unfolding decide check_guards fill_target
  act-opened c history b x none r = refl
  act-opened c history b x (some _) r = refl

  act-closed :
      (c : Settings) (history : List Bar) (b x : Bar) (p q : Option Decimal) (r : Run S)
      → is_some p ≡ is_some q
      → act c history b x p r ≡ act c history b x q r
  act-closed c history b x none none r e = refl
  act-closed c history b x none (some _) r e = cc
  act-closed c history b x (some _) none r e = cc
  act-closed c history b x (some _) (some _) r e = refl

  act-OpenAlike :
      (c : Settings) (history : List Bar) (b x z : Bar) (r : Run S)
      → OpenAlike x z
      → act c history b x x.close r ≡ act c history b z z.close r
  act-OpenAlike c history b x z r a =
      act-opened c history b x x.close r
      ∙ ap₂ (λ at price. act c history b (opened b at price) x.close r) a.same_time a.same_open
      ∙ sym (act-opened c history b z x.close r)
      ∙ act-closed c history b z x.close z.close r a.both_close

  SameDeeds-refl : (r : Run S) → SameDeeds r r
  SameDeeds-refl r = record {
    book = refl;
    strategy = refl;
    trades = refl;
    trade_pnls = refl;
    fill_notionals = refl;
    fills = refl;
    fills_unavailable = refl;
  }

  SameDeeds-mark_to :
      (c : Settings) (s t : Time) (p q : Option Decimal) (u v : Run S)
      → u ≡ v
      → SameDeeds (mark_to c s p u) (mark_to c t q v)
  unfolding mark_to
  SameDeeds-mark_to c s t p q u v e = record {
    book = ap (λ (r : Run S). r.book) e;
    strategy = ap (λ (r : Run S). r.strategy) e;
    trades = ap (λ (r : Run S). r.result.trades) e;
    trade_pnls = ap (λ (r : Run S). r.result.trade_pnls) e;
    fill_notionals = ap (λ (r : Run S). r.result.fill_notionals) e;
    fills = ap (λ (r : Run S). r.result.fills) e;
    fills_unavailable = ap (λ (r : Run S). r.result.fills_unavailable) e;
  }

  step-SameDeeds :
      (c : Settings) (history : List Bar) (b x z : Bar) (r : Run S)
      → OpenAlike x z
      → SameDeeds (step c history b x r) (step c history b z r)
  unfolding step
  step-SameDeeds c history b x z r a =
      SameDeeds-mark_to c x.open_ts z.open_ts x.close z.close _ _
        (act-OpenAlike c history b x z (pay_funding c b (check_stop c b r)) a)

  -- Two backtests on the same bars and one more, where the last bars open at the same time and price and both close or
  -- neither does, have the same book, the same state of the strategy, and the same trades, results and fills: nothing
  -- else of a bar is seen before it is over.
  pub run_backtest-SameDeeds :
      (c : Settings) (warmup : ℕ) (front : List Bar) (b x z : Bar) (s : S)
      → OpenAlike x z
      → SameDeeds
          (run_backtest c warmup (front ++ (b ∷ x ∷ [])) s)
          (run_backtest c warmup (front ++ (b ∷ z ∷ [])) s)
  run_backtest-SameDeeds c warmup front b x z s a =
      rw (run_backtest-extended c warmup front b x s, run_backtest-extended c warmup front b z s)
        (elim (Bool-cases (ltb (length front) warmup)) [
          | inl e ↦ rw e (SameDeeds-refl _)
          | inr e ↦ rw e (step-SameDeeds c (front ++ (b ∷ [])) b x z _ a)
        ])
