-- ===== src/Risk/LiquidationGuard/Entry.antt =====
-- What an entry that `vet_entry` lets through can use: the room under the leverage cap and the
-- liquidation-distance floor.
use native.Mathlib.Nat.{mul-le-mul, le_refl, mul_comm}
use perpbot.Base.{
  ◌+ℤ◌, ◌-ℤ◌, [], ◌∷◌, true, sum_by, filter_by, ap, refl, ℕ, ◌+◌, ◌*◌, ◌≤◌, ◌<◌, ◌/◌, ◌≡◌, arith,
  ◌≤ℤ◌, ◌<ℤ◌, pos, negsuc, mag, List, min_ℤ, ◌⊎◌, leb_ℤ, Bool-cases, inl, inr, false, if◌then◌else◌,
  String,
}
use perpbot.Decimal.{Decimal, whole, ◌*ᴰ◌, scale, ◌/ᴰ◌, q8, quantize_down, round_half_even}
use perpbot.Decimal.Laws.{round_half_even_near}
use perpbot.Execution.Types.{Intent, PositionView, AccountSnapshot}
use perpbot.Risk.Verdict.{Verdict, allow, resize, reject}
use perpbot.Risk.LiquidationGuard.{
  RiskLimits, position_notional, intent_notional, is_entry, existing_notional, leverage_room,
  floor_room, settle, vet_entry,
}

-- An order of the verdict fits the room: the whole notional is at most the room, or the quantity it is
-- cut to is worth at most the room at the mark, which is positive, up to half a unit of the last place times the
-- mark.
abbrev pub Fits : Verdict → (notional mark room : Decimal) → Type 0
Fits allow notional mark room = notional ≤ℤ room
Fits (resize q) notional mark room =
    (pos 0 ≤ℤ q) × (pos 0 <ℤ room) × (2 * (mag q * mag mark) ≤ 2 * (mag room * scale) + mag mark)
Fits (reject _) notional mark room = Unit

bought : (a m : ℕ) → ℕ
bought a m = round_half_even (a * scale) m / q8 * q8

bought-le : (a m : ℕ) → 0 < m → 2 * (bought a m * m) ≤ 2 * (a * scale) + m
unfolding bought
bought-le a m h =
    let n = round_half_even (a * scale) m in
    let cut : n / q8 * q8 ≤ n = omega arith in
    let step = mul-le-mul cut (le_refl m) in
    omega (arith, step, round_half_even_near (a * scale) m h, mul_comm m n)

quantize_bought : (a m : ℕ) → 0 < m → quantize_down q8 (pos a /ᴰ pos m) ≡ pos (bought a m)
unfolding bought quantize_down ◌/ᴰ◌
quantize_bought a m h = ground arith

-- Both guards end in `settle`; whatever it lets through fits every room above what it allowed.
settle-Fits :
    (allowed notional mark room : Decimal)
    → pos 0 <ℤ mark
    → (notional ≤ℤ allowed) ⊎ (pos 0 <ℤ allowed)
    → allowed ≤ℤ room
    → Fits (settle allowed notional mark) notional mark room
unfolding settle
settle-Fits allowed notional mark room hm ha h = elim (Bool-cases (leb_ℤ notional allowed)) [
  | inl e ↦ rw e (ground arith)
  | inr e ↦ rw e (cut allowed mark room hm (ground arith) h)
]
  where
    cut :
        (allowed mark room : Decimal)
        → pos 0 <ℤ mark
        → pos 0 <ℤ allowed
        → allowed ≤ℤ room
        → Fits (resize (quantize_down q8 (allowed /ᴰ mark))) notional mark room
    cut (pos a) (pos m) (pos r) hm ha h =
        rw (quantize_bought a m (omega arith))
          (omega arith, omega arith, omega (arith, bought-le a m (omega arith)))
    cut (negsuc a) mark room hm ha h = absurd (omega arith)
    cut (pos a) (negsuc m) room hm ha h = absurd (omega arith)
    cut (pos a) (pos m) (negsuc r) hm ha h = absurd (omega arith)

-- The three tests of a guard and what follows them, for the two rooms `a` and `b`.
abbrev guarded : (equity a b notional mark : Decimal) → (no_equity no_a no_b : String) → Verdict
guarded equity a b notional mark no_equity no_a no_b =
    if leb_ℤ equity (pos 0)
    then reject no_equity
    else if leb_ℤ a (pos 0)
    then reject no_a
    else if leb_ℤ b (pos 0)
    then reject no_b
    else settle (min_ℤ (min_ℤ notional a) b) notional mark

pub guarded-Fits :
    (equity a b notional mark : Decimal) (r1 r2 r3 : String)
    → pos 0 <ℤ mark
    → let v = guarded equity a b notional mark r1 r2 r3 in
      Fits v notional mark a × Fits v notional mark b
guarded-Fits equity a b notional mark r1 r2 r3 hm =
    let allowed = min_ℤ (min_ℤ notional a) b in
    elim (Bool-cases (leb_ℤ equity (pos 0))) [
      | inl e ↦ rw e (tt, tt)
      | inr e ↦ rw e (elim (Bool-cases (leb_ℤ a (pos 0))) [
        | inl f ↦ rw f (tt, tt)
        | inr f ↦ rw f (elim (Bool-cases (leb_ℤ b (pos 0))) [
          | inl g ↦ rw g (tt, tt)
          | inr g ↦ rw g (
            settle-Fits allowed notional mark a hm (room_left f g) (ground arith),
            settle-Fits allowed notional mark b hm (room_left f g) (ground arith),
          )
        ])
      ])
    ]
  where
    room_left :
        leb_ℤ a (pos 0) ≡ false
        → leb_ℤ b (pos 0) ≡ false
        → (notional ≤ℤ min_ℤ (min_ℤ notional a) b) ⊎ (pos 0 <ℤ min_ℤ (min_ℤ notional a) b)
    room_left f g = ground arith

-- The notional of all positions, and that of all intents that may open one.
abbrev pub held_worth : List PositionView → Decimal
held_worth [] = pos 0
held_worth (p ∷ ps) = p.notional +ℤ held_worth ps

abbrev pub entries_worth : List Intent → Decimal
entries_worth [] = pos 0
entries_worth (i ∷ is) = elim i.reduce_only [
  | true ↦ entries_worth is
  | false ↦ i.notional +ℤ entries_worth is
]

held_worth_lem : (ps : List PositionView) → sum_by position_notional ps ≡ held_worth ps
held_worth_lem [] = refl
held_worth_lem (p ∷ ps) = ap (λ (t : Decimal). p.notional +ℤ t) (held_worth_lem ps)

entries_worth_lem :
    (is : List Intent) → sum_by intent_notional (filter_by is_entry is) ≡ entries_worth is
entries_worth_lem [] = refl
entries_worth_lem (i ∷ is) = elim (Bool-cases i.reduce_only) [
  | inl e ↦ rw e (entries_worth_lem is)
  | inr e ↦ rw e (ap (λ (t : Decimal). i.notional +ℤ t) (entries_worth_lem is))
]

pub existing_notional-held_worth :
    (ps : List PositionView) (is : List Intent)
    → existing_notional ps is ≡ held_worth ps +ℤ entries_worth is
unfolding existing_notional
existing_notional-held_worth ps is = rw (held_worth_lem ps, entries_worth_lem is) refl

-- For a positive mark, an entry that `vet_entry` allows or cuts down fits what the notional of all positions and of
-- all pending entries leaves of the account's equity times the leverage, and of its equity over the least
-- liquidation distance and the maintenance rate, up to rounding.
pub vet_entry-Fits :
    (intent : Intent) (mark : Decimal) (s : AccountSnapshot) (limits : RiskLimits)
    (pending : List Intent)
    → pos 0 <ℤ mark
    → let used = held_worth s.positions +ℤ entries_worth pending in
      let floor = limits.min_liq_distance +ℤ limits.maintenance_rate in
      let v = vet_entry intent mark s limits pending in
      Fits v intent.notional mark (whole limits.max_leverage *ᴰ s.equity -ℤ used)
      × Fits v intent.notional mark ((whole 1 /ᴰ floor) *ᴰ s.equity -ℤ used)
unfolding vet_entry leverage_room floor_room
vet_entry-Fits intent mark s limits pending hm =
    let existing = existing_notional s.positions pending in
    rw (← existing_notional-held_worth s.positions pending) (
      guarded-Fits s.equity (leverage_room s.equity existing limits)
        (floor_room s.equity existing limits) intent.notional mark _ _ _ hm)
