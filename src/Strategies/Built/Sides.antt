-- ===== src/Strategies/Built/Sides.antt =====
-- The targets of the strategies are full positions or none.
use perpbot.Base.{
  ℕ, Bool, true, false, Option, none, some, List, [], ◌∷◌, ◌≡◌, refl, ◌⊎◌, inl, inr, All, sym, ◌+◌,
  if◌then◌else◌, pos, leb_ℤ, ltb_ℤ, neg_ℤ, abs_ℤ, ltb, length, last?,
}
use mathlib.Core.Option.{some-injective}
use perpbot.Decimal.{Decimal}
use perpbot.Execution.Types.{Bar}
use perpbot.Execution.World.{Strategy}
use perpbot.Strategies.{Statistics, one, minus_one, sign_of, fade_if}
use perpbot.Strategies.Built.{
  Spec, h1, h2, h3, h4, h5, h6, Built, build_strategy, Op, decide, flatten, recover, targets,
  run_built,
}
use perpbot.Strategies.Faded.{
  basis_exit_z, positional, reversion_target, basis_from, basis_target, carry_from, carry_target,
  Closes,
}
use perpbot.Strategies.Timed.{
  Held, at_rest, hold_on, timed, overshoot_lookback, lag_step, lag_at, index_lag_next, lead_entry,
  lead_at, lead_lag_next, overshoot_entry, overshoot_from, overshoot_at, overshoot_next,
}

-- Short, flat or long, for the whole notional.
abbrev pub IsSide : Decimal → Type 0
IsSide d = (d ≡ minus_one) ⊎ ((d ≡ pos 0) ⊎ (d ≡ one))

choose-IsSide : (c : Bool) (a b : Decimal) → IsSide a → IsSide b → IsSide (if c then a else b)
choose-IsSide true a b p q = p
choose-IsSide false a b p q = q

sign_of-IsSide : (long : Bool) → IsSide (sign_of long)
sign_of-IsSide true = inr (inr refl)
sign_of-IsSide false = inl refl

module _ {S : Type 0} ⦃x : Strategy S⦄ where
  -- An invariant of the state that makes the targets sides.
  targets-IsSide :
      (I : S → Type 0) (ops : List Op) (s : S)
      → ((history : List Bar) (s : S)
          → I s
          → IsSide (x.target history s).0 × I (x.target history s).1)
      → ((s : S) → I s → I (x.on_flatten s))
      → ((long : Bool) (s : S) → I s → I (x.on_recover long s))
      → I s
      → All IsSide (targets ops s)
  unfolding targets
  targets-IsSide I [] s t f r h = tt
  targets-IsSide I (decide history ∷ ops) s t f r h =
      let (side, next) = t history s h in (side, targets-IsSide I ops _ t f r next)
  targets-IsSide I (flatten ∷ ops) s t f r h = targets-IsSide I ops _ t f r (f s h)
  targets-IsSide I (recover long ∷ ops) s t f r h = targets-IsSide I ops _ t f r (r long s h)

positional-IsSide :
    (warmup : ℕ) (next : List Bar → Decimal → Decimal) (ops : List Op)
    → ((history : List Bar) (s : Decimal) → IsSide s → IsSide (next history s))
    → All IsSide (targets ⦃x = positional warmup next⦄ ops (pos 0))
positional-IsSide warmup next ops n =
    targets-IsSide ⦃x = positional warmup next⦄ IsSide ops (pos 0)
      (λ history s h. (n history s h, n history s h)) (λ s h. inr (inl refl))
      (λ long s h. sign_of-IsSide long) (inr (inl refl))

timed-IsSide :
    (warmup : ℕ) (next : List Bar → Held → Held) (ops : List Op)
    → ((history : List Bar) (s : Held) → IsSide s.position → IsSide (next history s).position)
    → All IsSide (targets ⦃x = timed warmup next⦄ ops at_rest)
timed-IsSide warmup next ops n =
    targets-IsSide ⦃x = timed warmup next⦄ (λ s. IsSide s.position) ops at_rest
      (λ history s h. (n history s h, n history s h)) (λ s h. inr (inl refl))
      (λ long s h. sign_of-IsSide long) (inr (inl refl))

fade_if-IsSide :
    (entry_z exit_z : Decimal) (z : Option Decimal) (s : Decimal)
    → IsSide s
    → IsSide (fade_if entry_z exit_z z s)
fade_if-IsSide entry_z exit_z none s h = h
fade_if-IsSide entry_z exit_z (some z) s h = choose-IsSide (leb_ℤ entry_z z) _ _ (inl refl) (
    choose-IsSide (leb_ℤ z (neg_ℤ entry_z)) _ _ (inr (inr refl))
      (choose-IsSide (ltb_ℤ (abs_ℤ z) exit_z) _ _ (inr (inl refl)) h))

carry_from-IsSide :
    (entry : Decimal) (hours : ℕ) (rates : List Decimal) (s : Decimal)
    → IsSide s
    → IsSide (carry_from entry hours rates s)
carry_from-IsSide entry hours rates s h = choose-IsSide (ltb (length rates) hours) _ _ h (
    choose-IsSide _ _ _ (inl refl)
      (choose-IsSide _ _ _ (inr (inr refl)) (choose-IsSide _ _ _ (inr (inl refl)) h)))

basis_from-IsSide :
    (st : Statistics) (lookback : ℕ) (entry_z : Decimal) (v : Option Decimal)
    (vs : List (Option Decimal)) (s : Decimal)
    → IsSide s
    → IsSide (basis_from st lookback entry_z v vs s)
basis_from-IsSide st lookback entry_z none vs s h = inr (inl refl)
basis_from-IsSide st lookback entry_z (some _) vs s h =
    choose-IsSide _ _ _ (inr (inl refl)) (fade_if-IsSide entry_z basis_exit_z _ s h)

abbrev IsSided : Held → Type 0
IsSided s = IsSide s.position

choose-IsSided : (c : Bool) (a b : Held) → IsSided a → IsSided b → IsSided (if c then a else b)
choose-IsSided true a b p q = p
choose-IsSided false a b p q = q

hold_on-IsSided : (n : ℕ) (s : Held) → IsSided s → IsSided (hold_on n s)
hold_on-IsSided n s h = choose-IsSided _ at_rest (record s { held = _ }) (inr (inl refl)) h

lag_step-IsSided :
    (n : ℕ) (entry_bps : Decimal) (index close : Option Decimal) (s : Held)
    → IsSided s
    → IsSided (lag_step n entry_bps index close s)
lag_step-IsSided n entry_bps none close s h = inr (inl refl)
lag_step-IsSided n entry_bps (some i) none s h = inr (inl refl)
lag_step-IsSided n entry_bps (some i) (some c) s h = choose-IsSided _ _ _ (inr (inl refl)) (
    choose-IsSided _ _ _ (hold_on-IsSided n s h)
      (choose-IsSided _ _ _ (inr (inr refl)) (choose-IsSided _ _ _ (inl refl) h)))

lag_at-IsSided :
    (n : ℕ) (entry_bps : Decimal) (b : Option Bar) (s : Held)
    → IsSided s
    → IsSided (lag_at n entry_bps b s)
lag_at-IsSided n entry_bps none s h = h
lag_at-IsSided n entry_bps (some b) s h = lag_step-IsSided n entry_bps b.index_close b.close s h

lead_entry-IsSided :
    (gap_bps : Decimal) (r : Option (Decimal × Decimal)) (s : Held)
    → IsSided s
    → IsSided (lead_entry gap_bps r s)
lead_entry-IsSided gap_bps none s h = h
lead_entry-IsSided gap_bps (some (r_hl, r_pm)) s h =
    choose-IsSided _ _ _ (choose-IsSide _ _ _ (inr (inr refl)) (inl refl)) h

lead_at-IsSided :
    (gap_bps : Decimal) (proxy : Closes) (p : Option (Bar × Bar)) (s : Held)
    → IsSided s
    → IsSided (lead_at gap_bps proxy p s)
lead_at-IsSided gap_bps proxy none s h = h
lead_at-IsSided gap_bps proxy (some (p, c)) s h = lead_entry-IsSided gap_bps _ s h

overshoot_entry-IsSided :
    (entry_z r : Decimal) (z : Option Decimal) (s : Held)
    → IsSided s
    → IsSided (overshoot_entry entry_z r z s)
overshoot_entry-IsSided entry_z r none s h = h
overshoot_entry-IsSided entry_z r (some z) s h =
    choose-IsSided _ _ _ (choose-IsSide _ _ _ (inl refl) (inr (inr refl))) h

overshoot_from-IsSided :
    (st : Statistics) (entry_z : Decimal) (r : Option Decimal) (history : List Bar) (s : Held)
    → IsSided s
    → IsSided (overshoot_from st entry_z r history s)
overshoot_from-IsSided st entry_z none history s h = h
overshoot_from-IsSided st entry_z (some r) history s h =
    choose-IsSided _ _ _ h (overshoot_entry-IsSided entry_z r _ s h)

overshoot_at-IsSided :
    (st : Statistics) (entry_z : Decimal) (p : Option (Bar × Bar)) (history : List Bar) (s : Held)
    → IsSided s
    → IsSided (overshoot_at st entry_z p history s)
overshoot_at-IsSided st entry_z none history s h = h
overshoot_at-IsSided st entry_z (some (p, c)) history s h =
    overshoot_from-IsSided st entry_z _ history s h

-- Whatever histories a strategy is given, and wherever it is flattened or recovered in between, each target
-- is a full short, flat or a full long.
pub run_built-IsSide :
    (st : Statistics) (spec : Spec) (proxy : Option Closes) (b : Built) (ops : List Op)
    → build_strategy st spec proxy ≡ some b
    → All IsSide (run_built b ops)
unfolding build_strategy run_built reversion_target basis_target carry_target index_lag_next
    lead_lag_next overshoot_next
run_built-IsSide st (h1 lookback entry_z exit_z) proxy b ops e = rw (sym (some-injective _ _ e)) (
    positional-IsSide lookback (reversion_target st lookback entry_z exit_z) ops
      (λ history s h. fade_if-IsSide entry_z exit_z _ s h))
run_built-IsSide st (h2 lookback entry_z) none b ops e = cc
run_built-IsSide st (h2 lookback entry_z) (some proxy) b ops e = rw (sym (some-injective _ _ e)) (
    positional-IsSide lookback (basis_target st lookback entry_z proxy) ops
      (λ history s h. basis_from-IsSide st lookback entry_z _ _ s h))
run_built-IsSide st (h3 entry_bps n) proxy b ops e = rw (sym (some-injective _ _ e)) (
    timed-IsSide 1 (index_lag_next entry_bps n) ops
      (λ history s h. lag_at-IsSided n entry_bps (last? history) s h))
run_built-IsSide st (h4 gap_bps n) none b ops e = cc
run_built-IsSide st (h4 gap_bps n) (some proxy) b ops e = rw (sym (some-injective _ _ e)) (
    timed-IsSide 2 (lead_lag_next gap_bps n proxy) ops (λ history s h.
      choose-IsSided _ _ _ (hold_on-IsSided n s h) (lead_at-IsSided gap_bps proxy _ s h)))
run_built-IsSide st (h5 entry_z n) proxy b ops e = rw (sym (some-injective _ _ e)) (
    timed-IsSide (overshoot_lookback + 1) (overshoot_next st entry_z n) ops (λ history s h.
      choose-IsSided _ _ _ (hold_on-IsSided n s h) (overshoot_at-IsSided st entry_z _ history s h)))
run_built-IsSide st (h6 entry hours) proxy b ops e = rw (sym (some-injective _ _ e)) (
    positional-IsSide hours (carry_target entry hours) ops
      (λ history s h. carry_from-IsSide entry hours _ s h))
