-- ===== src/Storage/Rollup/Reads.antt =====
-- What the hourly reader of the index answers for an hour that its window holds whole: the rollup's value, or
-- the newest native tick of the hour.
use perpbot.Base.{
  ℕ, ◌+◌, ◌-◌, ◌≤◌, ◌≡◌, refl, ap, ap₂, ◌∙◌, Bool, true, ◌&&◌, ◌||◌, Option, none, some, is_some,
  List, [], ◌∷◌, if◌then◌else◌, ◌==◌, arith, or_some, or_some-none, or_some_assoc, mem_ℕ,
  mem_ℕ_of_In, ==_iff, Bool-cases, inl, inr,
}
use perpbot.Base.Dict.{Dict, lookup, nat_key, lookup-insert}
use perpbot.Decimal.{Decimal}
use perpbot.Exchange.{Tick}
use perpbot.Execution.LiveBars.{hour, floor_hour}
use perpbot.Execution.Types.{Time}
use perpbot.Storage.Market.{Market, Rollup}
use perpbot.Storage.Rollup.Hours.{IsHour, hours_between, hours_between-In}
use perpbot.Storage.Rollup.{
  earliest, latest, put_value, is_whole, rolled_hours, newest_tick, index_of, index_hours,
  index_column, query_last_index_by_hour,
}

abbrev pub is_row : ℕ → Time → Rollup → Bool
is_row i h r = r.instrument_id == i && r.hour_ts == h

-- What the rollup has for the hour.
abbrev pub rolled : (Rollup → Option Decimal) → ℕ → Time → List Rollup → Option Decimal
rolled column i h [] = none
rolled column i h (r ∷ rs) =
    or_some (rolled column i h rs) (if is_row i h r then column r else none)

abbrev pub IsInside : (start end h : Time) → Type 0
IsInside start end h = (start ≤ h) × (h + hour ≤ end + 1)

lookup-put_value :
    (h j : Time) (o : Option Decimal) (d : Dict Time Decimal)
    → lookup h (put_value j o d) ≡ or_some (if j == h then o else none) (lookup h d)
lookup-put_value h j none d = ground arith
lookup-put_value h j (some v) d = lookup-insert h j v d ∙ ground arith

row_value :
    (column : Rollup → Option Decimal) (i : ℕ) (start end h : Time) (r : Rollup)
    → IsInside start end h
    → (if r.hour_ts == h then (if is_whole i start end r then column r else none) else none)
      ≡ (if is_row i h r then column r else none)
row_value column i start end h r w = ground arith

pub lookup-rolled_hours :
    (column : Rollup → Option Decimal) (i : ℕ) (start end h : Time) (rows : List Rollup)
    (out : Dict Time Decimal)
    → IsInside start end h
    → lookup h (rolled_hours column i start end rows out)
      ≡ or_some (rolled column i h rows) (lookup h out)
unfolding rolled_hours
lookup-rolled_hours column i start end h [] out w = refl
lookup-rolled_hours column i start end h (r ∷ rs) out w =
    let value = if is_whole i start end r then column r else none in
    lookup-rolled_hours column i start end h rs (put_value r.hour_ts value out) w
    ∙ ap (or_some (rolled column i h rs)) (
        lookup-put_value h r.hour_ts value out
        ∙ ap (λ (o : Option Decimal). or_some o (lookup h out))
            (row_value column i start end h r w))
    ∙ or_some_assoc (rolled column i h rs) (if is_row i h r then column r else none) (lookup h out)

-- The newest native tick of a whole hour.
abbrev pub hour_index : ℕ → Time → List Tick → Option Decimal
hour_index i h ticks = index_of (newest_tick i h (h + hour - 1) ticks)

window_inside :
    (start end h : Time) (i : ℕ) (ticks : List Tick)
    → IsInside start end h
    → index_of (newest_tick i (latest h start) (earliest (h + hour - 1) end) ticks)
      ≡ hour_index i h ticks
window_inside start end h i ticks w =
    let lo : latest h start ≡ h = ground arith in
    let hi : earliest (h + hour - 1) end ≡ h + hour - 1 = ground arith in
    ap₂ (λ (a b : ℕ). index_of (newest_tick i a b ticks)) lo hi

index_step :
    (h k : Time) (o : Option Decimal) (out : Dict Time Decimal)
    → lookup h (if is_some (lookup k out) then out else put_value k o out)
      ≡ or_some (lookup h out) (if k == h then o else none)
index_step h k none out = ground arith
index_step h k (some v) out = elim (Bool-cases (k == h)) [
  | inl e ↦
      let same : lookup k out ≡ lookup h out = ap (λ (j : ℕ). lookup j out) ((==_iff k h).0 e) in
      ground (arith, lookup-insert h k v out)
  | inr e ↦ ground (arith, lookup-insert h k v out)
]

found_again :
    (a b : Bool) (o v : Option Decimal)
    → or_some (or_some o (if a then v else none)) (if b then v else none)
      ≡ or_some o (if a || b then v else none)
found_again a b none none = ground arith
found_again a b none (some v) = ground arith
found_again a b (some u) v = refl

seek_value :
    (i : ℕ) (start end : Time) (ticks : List Tick) (h k : Time)
    → IsInside start end h
    → (if k == h
        then index_of (newest_tick i (latest k start) (earliest (k + hour - 1) end) ticks)
        else none)
      ≡ (if h == k then hour_index i h ticks else none)
seek_value i start end ticks h k w = elim (Bool-cases (k == h)) [
  | inl e ↦
      let same : k ≡ h = (==_iff k h).0 e in
      let at_h =
        ap
          (λ (j : ℕ). index_of (newest_tick i (latest j start) (earliest (j + hour - 1) end) ticks))
          same in
      ground (arith, window_inside start end h i ticks w)
  | inr e ↦ ground arith
]

lookup-index_hours :
    (i : ℕ) (start end : Time) (ticks : List Tick) (h : Time) (hs : List Time)
    (out : Dict Time Decimal)
    → IsInside start end h
    → lookup h (index_hours i start end ticks hs out)
      ≡ or_some (lookup h out) (if mem_ℕ h hs then hour_index i h ticks else none)
unfolding index_hours
lookup-index_hours i start end ticks h [] out w = ground arith
lookup-index_hours i start end ticks h (k ∷ ks) out w =
    let seek : Option Decimal =
      index_of (newest_tick i (latest k start) (earliest (k + hour - 1) end) ticks) in
    let out' = if is_some (lookup k out) then out else put_value k seek out in
    let value = hour_index i h ticks in
    lookup-index_hours i start end ticks h ks out' w
    ∙ ap (λ (o : Option Decimal). or_some o (if mem_ℕ h ks then value else none))
        (index_step h k seek out ∙ ap (or_some (lookup h out)) (seek_value i start end ticks h k w))
    ∙ found_again (h == k) (mem_ℕ h ks) (lookup h out) value

-- What the reader answers for a whole hour.
abbrev pub index_at : ℕ → Time → Market → Option Decimal
index_at i h m = or_some (rolled index_column i h m.rollups) (hour_index i h m.ticks)

-- In a window that starts with an hour and holds the hour whole, the reader answers with it.
pub lookup-query_last_index_by_hour :
    (i : ℕ) (start end h : Time) (m : Market)
    → IsHour start
    → IsHour h
    → IsInside start end h
    → lookup h (query_last_index_by_hour i start end m) ≡ index_at i h m
unfolding query_last_index_by_hour
lookup-query_last_index_by_hour i start end h m a b w =
    let first : floor_hour start ≡ start = omega arith in
    let visited : mem_ℕ h (hours_between (floor_hour start) 0 end) ≡ true = mem_ℕ_of_In h _ (
      hours_between-In (floor_hour start) 0 end h (omega arith)
        (record { aligned = b; not_before = omega arith; not_after = omega arith })) in
    let value = hour_index i h m.ticks in
    lookup-index_hours i start end m.ticks h (hours_between (floor_hour start) 0 end)
      (rolled_hours index_column i start end m.rollups []) w
    ∙ ap₂ (λ (o : Option Decimal) (t : Bool). or_some o (if t then value else none))
        (lookup-rolled_hours index_column i start end h m.rollups [] w ∙ or_some-none _) visited
