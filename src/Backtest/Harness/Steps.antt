-- ===== src/Backtest/Harness/Steps.antt =====
-- What a turn of the backtest does to the position.
use perpbot.Base.{
  ℕ, zero, suc, Bool, true, false, not, ◌&&◌, Option, none, some, is_some, List, [], ◌∷◌, ◌++◌, ◌≡◌,
  refl, sym, ap, ◌∙◌, ◌⊎◌, inl, inr, arith, Bool-cases, if◌then◌else◌, pos, ◌-ℤ◌, eqb_ℤ_iff,
}
use perpbot.Base.Dict.{nat_key}
use perpbot.Backtest.Harness.{
  Kind, Settings, Run, take_pnl, flattened, trade_to, mark_to, stop, gap_flatten,
}
use perpbot.Backtest.Harness.Turns.{
  check_stop, stop_at, pay_funding, funding_at, flatten_gap, act, step, loop, run_backtest, fresh,
}
use perpbot.Decimal.{Decimal}
use perpbot.Execution.Router.Rows.{is_zero}
use perpbot.Execution.Types.{Bar, Time}
use perpbot.Execution.World.{Strategy}

difference_zero : (a b : Decimal) → is_zero (a -ℤ b) ≡ true → a ≡ b
unfolding ◌-ℤ◌
difference_zero a b h = ground arith

module _ {S : Type 0} where
  take_pnl-position :
      (pnl : Option Decimal) (r : Run S) → (take_pnl pnl r).book.position ≡ r.book.position
  take_pnl-position none r = refl
  take_pnl-position (some p) r = refl

  mark_to-position :
      (c : Settings) (ts : Time) (price : Option Decimal) (r : Run S)
      → (mark_to c ts price r).book.position ≡ r.book.position
  unfolding mark_to
  mark_to-position c ts price r = refl

module _ {S : Type 0} ⦃y : Strategy S⦄ where
  flattened-position :
      (target : Decimal) (r : Run S) → (flattened target r).book.position ≡ r.book.position
  flattened-position target r = ground arith

  -- A trade ends at its target.
  trade_to-position :
      (c : Settings) (target price spread : Decimal) (ts : Time) (kind : Kind) (r : Run S)
      → (trade_to c target price spread ts kind r).book.position ≡ target
  unfolding trade_to
  trade_to-position c target price spread ts kind r =
      elim (Bool-cases (is_zero (target -ℤ r.book.position))) [
        | inl z ↦ rw z (sym (difference_zero target r.book.position z))
        | inr n ↦ rw n (flattened-position target _)
      ]

  -- The stop and the funding leave the position, or close it.
  stop_at-position :
      (c : Settings) (bar : Bar) (high low : Option Decimal) (r : Run S)
      → ((stop_at c bar high low r).book.position ≡ r.book.position)
        ⊎ ((stop_at c bar high low r).book.position ≡ pos 0)
  stop_at-position c bar none low r = inl refl
  stop_at-position c bar (some high) none r = inl refl
  stop_at-position c bar (some high) (some low) r =
      either _ _ _ (inr (trade_to-position c (pos 0) _ bar.spread_bps bar.open_ts stop r))
        (inl refl)
    where
      either :
          (b : Bool) (q p : Run S)
          → ((q.book.position ≡ r.book.position) ⊎ (q.book.position ≡ pos 0))
          → ((p.book.position ≡ r.book.position) ⊎ (p.book.position ≡ pos 0))
          → (((if b then q else p).book.position ≡ r.book.position)
              ⊎ ((if b then q else p).book.position ≡ pos 0))
      either true q p h k = h
      either false q p h k = k

  funding_at-position :
      (c : Settings) (bar : Bar) (rate close : Option Decimal) (r : Run S)
      → (funding_at c bar rate close r).book.position ≡ r.book.position
  funding_at-position c bar none close r = refl
  funding_at-position c bar (some rate) none r = refl
  funding_at-position c bar (some rate) (some close) r = ground arith

  -- The position is closed, or the close of the bar is there.
  abbrev pub IsPriced : Option Decimal → Run S → Type 0
  IsPriced close r = (r.book.position ≡ pos 0) ⊎ (is_some close ≡ true)

  -- What the turn has before the gap is looked at.
  before_gap :
      (c : Settings) (bar : Bar) (r : Run S)
      → IsPriced bar.close r
      → IsPriced bar.close (pay_funding c bar (check_stop c bar r))
  unfolding pay_funding check_stop
  before_gap c bar r (inr h) = inr h
  before_gap c bar r (inl h) = inl (
      funding_at-position c bar bar.funding_rate bar.close _
      ∙ stopped (stop_at-position c bar bar.high bar.low r))
    where
      stopped :
          ((stop_at c bar bar.high bar.low r).book.position ≡ r.book.position)
            ⊎ ((stop_at c bar bar.high bar.low r).book.position ≡ pos 0)
          → (stop_at c bar bar.high bar.low r).book.position ≡ pos 0
      stopped (inl e) = e ∙ h
      stopped (inr e) = e

  flatten_gap-position :
      (c : Settings) (bar nxt : Bar) (close : Option Decimal) (r : Run S)
      → IsPriced close r
      → (flatten_gap c bar nxt close r).book.position ≡ pos 0
  flatten_gap-position c bar nxt none r (inl h) = h
  flatten_gap-position c bar nxt none r (inr h) = cc
  flatten_gap-position c bar nxt (some close) r h = elim (Bool-cases (is_zero r.book.position)) [
    | inl z ↦ rw z (zero_position r.book.position z)
    | inr n ↦ rw n (trade_to-position c (pos 0) close bar.spread_bps nxt.open_ts gap_flatten r)
  ]
    where
      zero_position : (p : Decimal) → is_zero p ≡ true → p ≡ pos 0
      zero_position p z = (eqb_ℤ_iff p (pos 0)).0 z

  unless : (b : Bool) (q p : Run S) → b ≡ false → (if not b then q else p) ≡ q
  unless b q p h = rw h refl

  act_flat :
      (c : Settings) (history : List Bar) (bar nxt : Bar) (close : Option Decimal) (r : Run S)
      → IsPriced bar.close r
      → (bar.complete && is_some close) ≡ false
      → (act c history bar nxt close r).book.position ≡ pos 0
  act_flat c history bar nxt none r p g = flatten_gap-position c bar nxt bar.close r p
  act_flat c history bar nxt (some k) r p g =
      ap (λ (q : Run S). q.book.position) (unless bar.complete _ _ (ground arith))
      ∙ flatten_gap-position c bar nxt bar.close r p

  -- A turn whose bar is not complete, or whose next bar has no close, ends flat if it began priced.
  pub step_flat :
      (c : Settings) (history : List Bar) (bar nxt : Bar) (r : Run S)
      → IsPriced bar.close r
      → (bar.complete && is_some nxt.close) ≡ false
      → (step c history bar nxt r).book.position ≡ pos 0
  unfolding step
  step_flat c history bar nxt r p g =
      mark_to-position c nxt.open_ts nxt.close _
      ∙ act_flat c history bar nxt nxt.close _ (before_gap c bar r p) g

  step-IsPriced :
      (c : Settings) (history : List Bar) (bar nxt : Bar) (r : Run S)
      → IsPriced bar.close r
      → IsPriced nxt.close (step c history bar nxt r)
  step-IsPriced c history bar nxt r p = elim (Bool-cases (bar.complete && is_some nxt.close)) [
    | inl w ↦ inr (ground arith)
    | inr g ↦ inl (step_flat c history bar nxt r p g)
  ]

  -- What holds of the last bar that the loop has reached.
  abbrev pub EndsPriced : List Bar → Run S → Type 0
  EndsPriced [] r = Unit
  EndsPriced (b ∷ []) r = IsPriced b.close r
  EndsPriced (a ∷ b ∷ bs) r = EndsPriced (b ∷ bs) r

  loop-EndsPriced :
      (c : Settings) (skip : ℕ) (seen : List Bar) (bar : Bar) (bars : List Bar) (r : Run S)
      → (r.book.position ≡ pos 0) ⊎ ((skip ≡ 0) × (is_some bar.close ≡ true))
      → EndsPriced (bar ∷ bars) (loop c skip seen (bar ∷ bars) r)
  unfolding loop
  loop-EndsPriced c skip seen bar [] r (inl h) = inl h
  loop-EndsPriced c skip seen bar [] r (inr (_, h)) = inr h
  loop-EndsPriced c (suc n) seen bar (nxt ∷ bars) r (inl h) =
      loop-EndsPriced c n (seen ++ (bar ∷ [])) nxt bars r (inl h)
  loop-EndsPriced c (suc n) seen bar (nxt ∷ bars) r (inr (e, _)) = absurd (omega arith)
  loop-EndsPriced c zero seen bar (nxt ∷ bars) r h =
      let history = seen ++ (bar ∷ []) in
      loop-EndsPriced c zero history nxt bars (step c history bar nxt r)
        (at_zero (step c history bar nxt r) (step-IsPriced c history bar nxt r (priced h)))
    where
      priced :
          (r.book.position ≡ pos 0) ⊎ ((zero ≡ 0) × (is_some bar.close ≡ true))
          → IsPriced bar.close r
      priced (inl h) = inl h
      priced (inr (_, h)) = inr h

      at_zero :
          (q : Run S)
          → IsPriced nxt.close q
          → (q.book.position ≡ pos 0) ⊎ ((zero ≡ 0) × (is_some nxt.close ≡ true))
      at_zero q (inl h) = inl h
      at_zero q (inr h) = inr (refl, h)

  -- A backtest that ends with a position ends on a bar that has a close.
  pub run_backtest-EndsPriced :
      (c : Settings) (warmup : ℕ) (bars : List Bar) (s : S)
      → EndsPriced bars (run_backtest c warmup bars s)
  unfolding run_backtest
  run_backtest-EndsPriced c warmup [] s = tt
  run_backtest-EndsPriced c warmup (bar ∷ bars) s =
      loop-EndsPriced c warmup [] bar bars (fresh s) (inl refl)
