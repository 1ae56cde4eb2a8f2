-- ===== src/Backtest/Harness/Extended.antt =====
-- One more bar is one more turn of the loop of run_backtest.
use perpbot.Base.{
  ℕ, zero, suc, Bool, List, [], ◌∷◌, ◌++◌, ◌≡◌, refl, ap, ◌∙◌, arith, if◌then◌else◌, ltb, length,
}
use perpbot.Backtest.Harness.{Settings, Run}
use perpbot.Backtest.Harness.Turns.{step, loop, run_backtest, fresh}
use perpbot.Execution.Types.{Bar}
use perpbot.Execution.World.{Strategy}

append_assoc : (xs ys zs : List Bar) → (xs ++ ys) ++ zs ≡ xs ++ (ys ++ zs)
append_assoc [] ys zs = refl
append_assoc (x ∷ xs) ys zs = ap (λ t. x ∷ t) (append_assoc xs ys zs)

never_shorter : (m : ℕ) → ltb m 0 ≡ ltb (suc m) 0
never_shorter m = ground arith

both_longer : (m n : ℕ) → ltb m n ≡ ltb (suc m) (suc n)
both_longer m n = ground arith

module _ {S : Type 0} ⦃y : Strategy S⦄ where
  -- The run that a run on `front` and `b` becomes with the bar `x`.
  abbrev pub extended : Settings → ℕ → (seen front : List Bar) → (b x : Bar) → Run S → Run S
  extended c skip seen front b x r =
      let before = loop c skip seen (front ++ (b ∷ [])) r in
      if ltb (length front) skip then before else step c (seen ++ (front ++ (b ∷ []))) b x before

  -- The same run under an equal test and an equal history.
  moved :
      (c : Settings) (b x : Bar) (before : Run S) (p q : Bool) (xs ys : List Bar)
      → p ≡ q
      → xs ≡ ys
      → (if p then before else step c xs b x before) ≡ (if q then before else step c ys b x before)
  moved c b x before p q xs ys h e = rw (h, e) refl

  loop-extended :
      (c : Settings) (skip : ℕ) (seen front : List Bar) (b x : Bar) (r : Run S)
      → loop c skip seen (front ++ (b ∷ x ∷ [])) r ≡ extended c skip seen front b x r
  unfolding loop
  loop-extended c zero seen [] b x r = refl
  loop-extended c (suc n) seen [] b x r = ground arith
  loop-extended c zero seen (a ∷ []) b x r =
      loop-extended c zero (seen ++ (a ∷ [])) [] b x (step c (seen ++ (a ∷ [])) a b r)
      ∙ moved c b x _ _ _ _ _ (never_shorter 0) (append_assoc seen (a ∷ []) (b ∷ []))
  loop-extended c (suc n) seen (a ∷ []) b x r =
      loop-extended c n (seen ++ (a ∷ [])) [] b x r
      ∙ moved c b x _ _ _ _ _ (both_longer 0 n) (append_assoc seen (a ∷ []) (b ∷ []))
  loop-extended c zero seen (a ∷ d ∷ front) b x r =
      loop-extended c zero (seen ++ (a ∷ [])) (d ∷ front) b x (step c (seen ++ (a ∷ [])) a d r)
      ∙ moved c b x _ _ _ _ _ (never_shorter (length (d ∷ front)))
          (append_assoc seen (a ∷ []) ((d ∷ front) ++ (b ∷ [])))
  loop-extended c (suc n) seen (a ∷ d ∷ front) b x r =
      loop-extended c n (seen ++ (a ∷ [])) (d ∷ front) b x r
      ∙ moved c b x _ _ _ _ _ (both_longer (length (d ∷ front)) n)
          (append_assoc seen (a ∷ []) ((d ∷ front) ++ (b ∷ [])))

  -- A backtest with one more bar is the backtest without it, and then, once the warm-up is over, one turn from
  -- the bar that was the last: no bar changes what was done before it.
  pub run_backtest-extended :
      (c : Settings) (warmup : ℕ) (front : List Bar) (b x : Bar) (s : S)
      → run_backtest c warmup (front ++ (b ∷ x ∷ [])) s ≡ (
          if ltb (length front) warmup
          then run_backtest c warmup (front ++ (b ∷ [])) s
          else step c (front ++ (b ∷ [])) b x (run_backtest c warmup (front ++ (b ∷ [])) s))
  unfolding run_backtest
  run_backtest-extended c warmup front b x s = loop-extended c warmup [] front b x (fresh s)
