-- ===== src/Backtest/Harness/Gaps.antt =====
-- A backtest holds no position across a gap in the data.
use perpbot.Base.{
  ℕ, ◌≤◌, Bool, false, ◌&&◌, is_some, List, [], ◌∷◌, ◌++◌, ◌≡◌, refl, ap, ◌∙◌, arith, if◌then◌else◌,
  ltb, length, pos,
}
use perpbot.Backtest.Harness.{Settings, Run}
use perpbot.Backtest.Harness.Extended.{run_backtest-extended}
use perpbot.Backtest.Harness.Steps.{IsPriced, EndsPriced, step_flat, run_backtest-EndsPriced}
use perpbot.Backtest.Harness.Turns.{step, run_backtest}
use perpbot.Execution.Types.{Bar}
use perpbot.Execution.World.{Strategy}

module _ {S : Type 0} ⦃y : Strategy S⦄ where
  last-EndsPriced :
      (front : List Bar) (b : Bar) (r : Run S)
      → EndsPriced (front ++ (b ∷ [])) r
      → IsPriced b.close r
  last-EndsPriced [] b r h = h
  last-EndsPriced (a ∷ []) b r h = h
  last-EndsPriced (a ∷ d ∷ front) b r h = last-EndsPriced (d ∷ front) b r h

  second : (p : Bool) (q r : Run S) → p ≡ false → (if p then q else r) ≡ r
  second p q r h = rw h refl

  -- Once the warm-up is over, a backtest whose last bar but one is not complete, or whose last bar has no
  -- close, ends flat.
  pub run_backtest_flat :
      (c : Settings) (warmup : ℕ) (front : List Bar) (b x : Bar) (s : S)
      → warmup ≤ length front
      → (b.complete && is_some x.close) ≡ false
      → (run_backtest c warmup (front ++ (b ∷ x ∷ [])) s).book.position ≡ pos 0
  run_backtest_flat c warmup front b x s w g =
      let before = run_backtest c warmup (front ++ (b ∷ [])) s in
      ap (λ (q : Run S). q.book.position)
        (run_backtest-extended c warmup front b x s
          ∙ second (ltb (length front) warmup) before (step c (front ++ (b ∷ [])) b x before)
              (ground arith))
      ∙ step_flat c (front ++ (b ∷ [])) b x before
          (last-EndsPriced front b before (run_backtest-EndsPriced c warmup (front ++ (b ∷ [])) s))
          g
