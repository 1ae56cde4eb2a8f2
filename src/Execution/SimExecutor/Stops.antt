-- ===== src/Execution/SimExecutor/Stops.antt =====
-- A stop that is hit closes its position.
use perpbot.Base.{
  ℕ, ◌+◌, true, false, ◌&&◌, some, [], ◌∷◌, ◌≡◌, refl, ap, ◌∙◌, if◌then◌else◌, ◌==◌, arith,
  Bool-cases, Option-cases, inl, inr, pos, ◌+ℤ◌, ◌-ℤ◌, abs_ℤ, not,
}
use mathlib.Core.Option.{some-injective}
use perpbot.Base.Dict.{Dict, lookup, nat_key, lookup-insert_ne}
use perpbot.Decimal.{Decimal, ◌*ᴰ◌}
use perpbot.Execution.SimExecutor.{
  Account, pos_of, trade, reset_funding, apply_position, fill_at, fill_cost, signed_quantity,
  is_nil, is_positive,
}
use perpbot.Execution.SimExecutor.Positions.{size_at, apply_position-size}
use perpbot.Execution.SimExecutor.Venue.{is_fired, fire, trigger_one, trigger_all, check_triggers}
use perpbot.Execution.Types.{buy, sell}

closed :
    (old : Decimal)
    → old +ℤ signed_quantity (if is_positive old then sell else buy) (abs_ℤ old) ≡ pos 0
unfolding ◌+ℤ◌
closed old = ground arith

fire-size :
    (i : ℕ) (trigger : Decimal) (a : Account) → size_at i (fire i (size_at i a) trigger a).1 ≡ pos 0
unfolding fill_at
fire-size i trigger a =
    let old = size_at i a in
    let cost = fill_cost (abs_ℤ old *ᴰ trigger) a.notional a.spread a.fee a.impact in
    apply_position-size i (signed_quantity (if is_positive old then sell else buy) (abs_ℤ old))
      trigger (record a { n = a.n + 1; cash = a.cash -ℤ cost })
    ∙ closed old

-- A stop of another instrument, hit or not, leaves the position and every mark alone.
trigger_one_ne :
    (i j : ℕ) (trigger : Decimal) (a : Account)
    → (j == i) ≡ false
    → lookup i (trigger_one j trigger a).1.positions ≡ lookup i a.positions
unfolding trigger_one apply_position fill_at
trigger_one_ne i j trigger a ne =
    let old = size_at j a in
    let p =
      reset_funding
        (trade (pos_of (lookup j a.positions))
          (signed_quantity (if is_positive old then sell else buy) (abs_ℤ old)) trigger).0 in
    let other = lookup-insert_ne i j p a.positions ne in
    elim (Option-cases (lookup j a.marks)) [
      | inl m ↦ rw m refl
      | inr (mark, m) ↦ elim (Bool-cases (not (is_nil old) && is_fired old mark trigger)) [
        | inl f ↦ rw (m, f) other
        | inr f ↦ rw (m, f) refl
      ]
    ]

trigger_one-marks :
    (j : ℕ) (trigger : Decimal) (a : Account) → (trigger_one j trigger a).1.marks ≡ a.marks
unfolding trigger_one apply_position fill_at
trigger_one-marks j trigger a = elim (Option-cases (lookup j a.marks)) [
  | inl m ↦ rw m refl
  | inr (mark, m) ↦
      let old = size_at j a in
      elim (Bool-cases (not (is_nil old) && is_fired old mark trigger)) [
        | inl f ↦ rw (m, f) refl
        | inr f ↦ rw (m, f) refl
      ]
]

trigger_one_hit :
    (i : ℕ) (trigger mark : Decimal) (a : Account)
    → lookup i a.marks ≡ some mark
    → is_fired (size_at i a) mark trigger ≡ true
    → size_at i (trigger_one i trigger a).1 ≡ pos 0
unfolding trigger_one
trigger_one_hit i trigger mark a m f =
    let held : not (is_nil (size_at i a)) ≡ true = ground arith in
    rw (m, held, f) (fire-size i trigger a)

trigger_one_idle :
    (i : ℕ) (trigger : Decimal) (a : Account)
    → size_at i a ≡ pos 0
    → size_at i (trigger_one i trigger a).1 ≡ pos 0
unfolding trigger_one
trigger_one_idle i trigger a z = elim (Option-cases (lookup i a.marks)) [
  | inl m ↦ rw m z
  | inr (mark, m) ↦ rw (m, z) z
]

-- A flat position stays flat.
trigger_one_flat :
    (i j : ℕ) (trigger : Decimal) (a : Account)
    → size_at i a ≡ pos 0
    → size_at i (trigger_one j trigger a).1 ≡ pos 0
trigger_one_flat i j trigger a z = elim (Bool-cases (j == i)) [
  | inl e ↦ let same : j ≡ i = ground arith in rw same (trigger_one_idle i trigger a z)
  | inr e ↦ ap (λ p. (pos_of p).size) (trigger_one_ne i j trigger a e) ∙ z
]

trigger_all_flat :
    (i : ℕ) (stops : Dict ℕ Decimal) (a : Account)
    → size_at i a ≡ pos 0
    → size_at i (trigger_all stops a).1 ≡ pos 0
unfolding trigger_all
trigger_all_flat i [] a z = z
trigger_all_flat i ((j, t) ∷ stops) a z =
    trigger_all_flat i stops (trigger_one j t a).1 (trigger_one_flat i j t a z)

trigger_all_hit :
    (i : ℕ) (stops : Dict ℕ Decimal) (trigger mark : Decimal) (a : Account)
    → lookup i stops ≡ some trigger
    → lookup i a.marks ≡ some mark
    → is_fired (size_at i a) mark trigger ≡ true
    → size_at i (trigger_all stops a).1 ≡ pos 0
unfolding trigger_all
trigger_all_hit i [] trigger mark a s m f = cc
trigger_all_hit i ((j, t) ∷ stops) trigger mark a s m f = elim (Bool-cases (j == i)) [
  | inl e ↦
      let same : j ≡ i = ground arith in
      let hit : t ≡ trigger = some-injective _ _ (rw e at s) in
      trigger_all_flat i stops (trigger_one j t a).1
        (rw (same, hit) (trigger_one_hit i trigger mark a m f))
  | inr e ↦
      trigger_all_hit i stops trigger mark (trigger_one j t a).1 (rw e at s)
        (ap (lookup i) (trigger_one-marks j t a) ∙ m)
        (ap (λ p. is_fired (pos_of p).size mark trigger) (trigger_one_ne i j t a e) ∙ f)
]

-- After check_triggers a position whose stop was hit by the mark is closed, whatever stops of other
-- instruments are hit in the same pass.
pub check_triggers_closes :
    (i : ℕ) (trigger mark : Decimal) (a : Account)
    → lookup i a.stops ≡ some trigger
    → lookup i a.marks ≡ some mark
    → is_fired (size_at i a) mark trigger ≡ true
    → size_at i (check_triggers a).1 ≡ pos 0
unfolding check_triggers
check_triggers_closes i trigger mark a s m f = trigger_all_hit i a.stops trigger mark a s m f
