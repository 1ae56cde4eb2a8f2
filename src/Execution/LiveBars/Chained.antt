-- ===== src/Execution/LiveBars/Chained.antt =====
-- The bars of an instrument are in order, and a bar is complete exactly if it follows the hour before it.
use perpbot.Base.{
  ℕ, zero, suc, ◌+◌, ◌<◌, Bool, true, false, Option, none, some, List, [], ◌∷◌, ◌≡◌, refl, ◌∙◌,
  ◌==◌, arith, Bool-cases, inl, inr, ◌≤ℤ◌, ltb, ltb→lt, ==_iff,
}
use mathlib.Core.Path.{subst}
use perpbot.Base.Dict.{
  lookup, erase, nat_key, lookup-insert_self, lookup-insert_ne, lookup-erase_ne,
}
use perpbot.Decimal.{Decimal}
use perpbot.Exchange.{Tick}
use perpbot.Execution.LiveBars.{
  hour, floor_hour, Acc, new_acc, add_tick, Builder, bars_of, take_bars, trim, closed_bar,
  close_acc, tick_into, on_tick, feed_all, empty_builder,
}
use perpbot.Execution.Types.{Bar, Time}

-- The hour that starts at `ts` comes after the newest bar, and is complete exactly if it follows it.
abbrev pub Follows : Time → Bool → List Bar → Type 0
Follows ts complete [] = Unit
Follows ts complete (b ∷ bs) = (b.open_ts < ts) × (complete ≡ (ts == b.open_ts + hour))

abbrev pub Chained : List Bar → Type 0
Chained [] = Unit
Chained (b ∷ bs) = Follows b.open_ts b.complete bs × Chained bs

-- An open hour: its low and high bound its first and last price, and it follows the history.
abbrev pub IsOpenHour : Acc → List Bar → Type 0
IsOpenHour a h =
    (a.low ≤ℤ a.first)
    × (a.first ≤ℤ a.high)
    × (a.low ≤ℤ a.last)
    × (a.last ≤ℤ a.high)
    × Follows a.open_ts a.complete h

abbrev pub IsCell : Option Acc → List Bar → Type 0
IsCell none h = h ≡ []
IsCell (some a) h = IsOpenHour a h × Chained h

abbrev pub IsBuilt : Builder → Type 0
IsBuilt b = (i : ℕ) → IsCell (lookup i b.accs) (bars_of i b)

Follows-take :
    (n : ℕ) (ts : Time) (c : Bool) (h : List Bar) → Follows ts c h → Follows ts c (take_bars n h)
Follows-take n ts c [] f = tt
Follows-take zero ts c (b ∷ h) f = tt
Follows-take (suc n) ts c (b ∷ h) f = f

Chained-take : (n : ℕ) (h : List Bar) → Chained h → Chained (take_bars n h)
Chained-take n [] c = tt
Chained-take zero (b ∷ h) c = tt
Chained-take (suc n) (b ∷ h) (f, c) = (Follows-take n b.open_ts b.complete h f, Chained-take n h c)

Follows-trim :
    (n : ℕ) (ts : Time) (c : Bool) (h : List Bar) → Follows ts c h → Follows ts c (trim n h)
Follows-trim n ts c h f = elim (Bool-cases (n == 0)) [
  | inl e ↦ rw e f
  | inr e ↦ rw e (Follows-take n ts c h f)
]

Chained-trim : (n : ℕ) (h : List Bar) → Chained h → Chained (trim n h)
Chained-trim n h c = elim (Bool-cases (n == 0)) [
  | inl e ↦ rw e c
  | inr e ↦ rw e (Chained-take n h c)
]

add_tick-IsOpenHour :
    (a : Acc) (t : Tick) (h : List Bar) → IsOpenHour a h → IsOpenHour (add_tick a t) h
unfolding add_tick
add_tick-IsOpenHour a t h (p, q, r, s, f) =
    (ground arith, ground arith, ground arith, ground arith, f)

-- What a tick makes of the cell of its instrument.
tick_into-IsCell :
    (i : ℕ) (t : Tick) (b : Builder) (c : Option Acc)
    → IsCell c (bars_of i b)
    → IsCell (lookup i (tick_into i t c b).1.accs) (bars_of i (tick_into i t c b).1)
unfolding close_acc
tick_into-IsCell i t b none v =
    rw (lookup-insert_self i (new_acc t true) b.accs, v)
      ((omega arith, omega arith, omega arith, omega arith, tt), tt)
tick_into-IsCell i t b (some a) (v, c) =
    let now = floor_hour t.exchange_ts in
    elim (Bool-cases (ltb a.open_ts now)) [
      | inl e ↦
          let next : Bool = now == a.open_ts + hour in
          let bar = closed_bar i b.spread a in
          rw
            (
              e,
              lookup-insert_self i (new_acc t next) (erase i b.accs),
              lookup-insert_self i (trim b.max_history (bar ∷ bars_of i b)) b.histories,
            )
            (
              (
                omega arith,
                omega arith,
                omega arith,
                omega arith,
                Follows-trim b.max_history now next (bar ∷ bars_of i b)
                    (ltb→lt a.open_ts now e, refl),
              ),
              Chained-trim b.max_history (bar ∷ bars_of i b) (v.4, c),
            )
      | inr e ↦
          rw (e, lookup-insert_self i (add_tick a t) b.accs)
            (add_tick-IsOpenHour a t (bars_of i b) v, c)
    ]

tick_into_ne :
    (i j : ℕ) (t : Tick) (b : Builder) (c : Option Acc)
    → (j == i) ≡ false
    → (lookup i (tick_into j t c b).1.accs ≡ lookup i b.accs)
      × (lookup i (tick_into j t c b).1.histories ≡ lookup i b.histories)
unfolding close_acc
tick_into_ne i j t b none ne = (lookup-insert_ne i j (new_acc t true) b.accs ne, refl)
tick_into_ne i j t b (some a) ne = elim (Bool-cases (ltb a.open_ts (floor_hour t.exchange_ts))) [
  | inl e ↦ rw e (
    lookup-insert_ne i j (new_acc t (floor_hour t.exchange_ts == a.open_ts + hour)) (erase j b.accs)
          ne
        ∙ lookup-erase_ne i j b.accs ne,
    lookup-insert_ne i j (trim b.max_history (closed_bar j b.spread a ∷ bars_of j b)) b.histories
        ne,
  )
  | inr e ↦ rw e (lookup-insert_ne i j (add_tick a t) b.accs ne, refl)
]

on_tick-IsBuilt : (t : Tick) (b : Builder) → IsBuilt b → IsBuilt (on_tick t b).1
unfolding on_tick
on_tick-IsBuilt t b v i = elim (Bool-cases (t.instrument_id == i)) [
  | inl e ↦
      subst (λ j. IsCell (lookup j (on_tick t b).1.accs) (bars_of j (on_tick t b).1))
        ((==_iff t.instrument_id i).0 e)
        (tick_into-IsCell t.instrument_id t b (lookup t.instrument_id b.accs) (v t.instrument_id))
  | inr e ↦
      let (accs, histories) =
        tick_into_ne i t.instrument_id t b (lookup t.instrument_id b.accs) e in
      rw (accs, histories) (v i)
]

feed_all-IsBuilt_from : (ts : List Tick) (b : Builder) → IsBuilt b → IsBuilt (feed_all ts b)
unfolding feed_all
feed_all-IsBuilt_from [] b v = v
feed_all-IsBuilt_from (t ∷ ts) b v =
    feed_all-IsBuilt_from ts (on_tick t b).1 (on_tick-IsBuilt t b v)

-- Whatever ticks arrive, in whatever order of time and instrument, the bars of each instrument are in
-- strictly growing order of time, a bar that stands after another is complete exactly if it is of the next
-- hour, and the open hour's low and high bound its first and last price.
pub feed_all-IsBuilt :
    (spread : Decimal) (max_history : ℕ) (ts : List Tick)
    → IsBuilt (feed_all ts (empty_builder spread max_history))
feed_all-IsBuilt spread max_history ts =
    feed_all-IsBuilt_from ts (empty_builder spread max_history) (λ i. refl)
