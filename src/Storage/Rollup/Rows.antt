-- ===== src/Storage/Rollup/Rows.antt =====
-- The rows of rollup_hours: each has the index that the reader gives for its hour, and each closed hour with a
-- native tick that came in time has its row.
use perpbot.Base.{
  ℕ, ◌+◌, ◌-◌, ◌≤◌, ◌≡◌, refl, ap, subst, sym, ◌∙◌, Bool, true, false, not, ◌&&◌, Option, none,
  some, is_some, List, [], ◌∷◌, ◌++◌, leb, ◌==◌, ==_iff, any, inl, inr, In, All, All-append, arith,
  Bool-cases, Option-cases, mem_ℕ, In-append_left, In-append_right, In-map, filter_by-In, any-In,
}
use perpbot.Exchange.{Tick, is_native}
use perpbot.Execution.LiveBars.{hour, floor_hour}
use perpbot.Execution.Types.{Time}
use perpbot.Storage.Market.{Market, Rollup}
use perpbot.Storage.Rollup.{first_stamp, tick_stamps, book_stamps, index_column, earliest}
use perpbot.Storage.Rollup.Hours.{
  IsHour, IsLooped, hours_between, hours_between-IsLooped, hours_between-In,
}
use perpbot.Storage.Rollup.Reads.{is_row, rolled, index_at, lookup-query_last_index_by_hour}
use perpbot.Storage.Rollup.Writer.{
  rollup_row, is_filled, rows_at, last_hour, resumed, hours_from, open_hours, new_rows,
  rollup_grace,
}

abbrev pub is_past : Time → Option Time → Bool
is_past h none = false
is_past h (some last) = leb h last

-- A native tick of an hour that the rollup has passed, without a value for that hour.
abbrev pub is_late : Market → Tick → Bool
is_late m t =
    let h = floor_hour t.exchange_ts in
    is_native t.source_type
    && (is_past h (last_hour t.instrument_id m.rollups)
        && not (is_some (rolled index_column t.instrument_id h m.rollups)))

-- The rollup has whole hours, and no tick came after its hour was rolled up without it.
pub record IsSettled (m : Market) : Type 0 where
  pub whole : All (λ (r : Rollup). IsHour r.hour_ts) m.rollups
  pub in_time : any (is_late m) m.ticks ≡ false

pub last_hour-IsHour :
    (i : ℕ) (rows : List Rollup) (h : Time)
    → All (λ (r : Rollup). IsHour r.hour_ts) rows
    → last_hour i rows ≡ some h
    → IsHour h
unfolding last_hour
last_hour-IsHour i [] h all e = cc
last_hour-IsHour i (r ∷ rs) h all e =
    let here = all.0 in ground (arith, last_hour-IsHour i rs h all.1)

pub resumed-IsHour :
    (first : Time) (last : Option Time)
    → ((h : Time) → last ≡ some h → IsHour h)
    → IsHour first
    → IsHour (resumed first last)
resumed-IsHour first none all f = f
resumed-IsHour first (some h) all f = let a = all h refl in ground arith

hours_from-IsHour :
    (first last : Option Time) (now : Time)
    → ((h : Time) → last ≡ some h → IsHour h)
    → All IsHour (hours_from first last now)
hours_from-IsHour none last now all = tt
hours_from-IsHour (some first) last now all =
    looped (hours_between (resumed (floor_hour first) last) (hour + rollup_grace) now) (
      hours_between-IsLooped _ (hour + rollup_grace) now
        (resumed-IsHour (floor_hour first) last all (omega arith)))
  where
    looped :
        (hs : List Time)
        → All (IsLooped (resumed (floor_hour first) last) (hour + rollup_grace) now) hs
        → All IsHour hs
    looped [] l = tt
    looped (h ∷ hs) l = (l.0.aligned, looped hs l.1)

abbrev pub HasIndex : Market → Rollup → Type 0
HasIndex m r = r.index_close ≡ index_at r.instrument_id r.hour_ts m

pub rollup_row-HasIndex : (m : Market) (i : ℕ) (h : Time) → IsHour h → HasIndex m (rollup_row m i h)
unfolding rollup_row
rollup_row-HasIndex m i h a =
    lookup-query_last_index_by_hour i h (h + hour - 1) h m a a (omega arith, omega arith)

rows_at-HasIndex :
    (m : Market) (i : ℕ) (hs : List Time) → All IsHour hs → All (HasIndex m) (rows_at m i hs)
unfolding rows_at
rows_at-HasIndex m i [] all = tt
rows_at-HasIndex m i (h ∷ hs) all = elim (Bool-cases (is_filled (rollup_row m i h))) [
  | inl e ↦ rw (e, All) (rollup_row-HasIndex m i h all.0, rows_at-HasIndex m i hs all.1)
  | inr e ↦ rw (e, All) (rows_at-HasIndex m i hs all.1)
]

pub new_rows-HasIndex :
    (m : Market) (now : Time) (is : List ℕ) → IsSettled m → All (HasIndex m) (new_rows m now is)
unfolding new_rows open_hours
new_rows-HasIndex m now [] s = tt
new_rows-HasIndex m now (i ∷ is) s =
    All-append (HasIndex m) (rows_at m i _) (new_rows m now is)
      (rows_at-HasIndex m i _
        (hours_from-IsHour _ _ now (λ h e. last_hour-IsHour i m.rollups h s.whole e)))
      (new_rows-HasIndex m now is s)

pub rows_at-In :
    (m : Market) (i : ℕ) (h : Time) (hs : List Time)
    → is_filled (rollup_row m i h) ≡ true
    → In h hs
    → In (rollup_row m i h) (rows_at m i hs)
unfolding rows_at
rows_at-In m i h [] f n = absurd n
rows_at-In m i h (k ∷ ks) f (inl e) =
    rw (sym (ap (λ (j : ℕ). is_filled (rollup_row m i j)) e) ∙ f, In) (inl (ap (rollup_row m i) e))
rows_at-In m i h (k ∷ ks) f (inr n) = elim (Bool-cases (is_filled (rollup_row m i k))) [
  | inl e ↦ rw (e, In) (inr (rows_at-In m i h ks f n))
  | inr e ↦ rw (e, In) (rows_at-In m i h ks f n)
]

pub new_rows-In :
    (m : Market) (now : Time) (i : ℕ) (r : Rollup) (is : List ℕ)
    → mem_ℕ i is ≡ true
    → In r (rows_at m i (open_hours m i now))
    → In r (new_rows m now is)
unfolding new_rows
new_rows-In m now i r [] e n = cc
new_rows-In m now i r (j ∷ js) e n = elim (Bool-cases (i == j)) [
  | inl s ↦
      In-append_left r (rows_at m j (open_hours m j now)) (new_rows m now js)
        (subst (λ (k : ℕ). In r (rows_at m k (open_hours m k now))) ((==_iff i j).0 s) n)
  | inr s ↦
      In-append_right r (rows_at m j (open_hours m j now)) (new_rows m now js)
        (new_rows-In m now i r js (ground arith) n)
]

resumed-le :
    (first h : Time) (last : Option Time)
    → ((k : Time) → last ≡ some k → IsHour k)
    → IsHour h
    → first ≤ h
    → is_past h last ≡ false
    → resumed first last ≤ h
resumed-le first h none whole a le p = le
resumed-le first h (some k) whole a le p = let b = whole k refl in ground arith

left_false : (b : Bool) → (b && true) ≡ false → b ≡ false
left_false true e = e
left_false false e = refl

first_stamp-le :
    (s : Time) (ts : List Time) → In s ts → (f : Time) × (first_stamp ts ≡ some f) × (f ≤ s)
first_stamp-le s [] n = absurd n
first_stamp-le s (t ∷ ts) (inl e) = elim (Option-cases (first_stamp ts)) [
  | inl p ↦ (t, rw p refl, omega arith)
  | inr p ↦ (earliest t p.0, rw (p.1) refl, ground arith)
]
first_stamp-le s (t ∷ ts) (inr n) =
    let ih = first_stamp-le s ts n in
    (earliest t ih.0, rw (ih.1) refl, let le = ih.2 in ground arith)

-- A tick that came in time, of an hour with no value, is of an hour after the newest of the rollup.
pub is_late-is_past :
    (m : Market) (t : Tick)
    → IsSettled m
    → In t m.ticks
    → is_native t.source_type ≡ true
    → rolled index_column t.instrument_id (floor_hour t.exchange_ts) m.rollups ≡ none
    → is_past (floor_hour t.exchange_ts) (last_hour t.instrument_id m.rollups) ≡ false
is_late-is_past m t s n native missing =
    let late = any-In (is_late m) t m.ticks s.in_time n in
    left_false (is_past (floor_hour t.exchange_ts) (last_hour t.instrument_id m.rollups))
      (rw (native, missing) at late)

-- No row is newer than the newest.
pub row-is_past :
    (i : ℕ) (h : Time) (rows : List Rollup)
    → any (is_row i h) rows ≡ true
    → is_past h (last_hour i rows) ≡ true
unfolding last_hour
row-is_past i h [] e = cc
row-is_past i h (r ∷ rs) e = ground (arith, row-is_past i h rs)

-- The hour of a tick that came in time is one of those that rollup_hours goes through, once it is closed.
pub open_hours-In :
    (m : Market) (now : Time) (t : Tick)
    → IsSettled m
    → In t m.ticks
    → is_native t.source_type ≡ true
    → rolled index_column t.instrument_id (floor_hour t.exchange_ts) m.rollups ≡ none
    → floor_hour t.exchange_ts + hour + rollup_grace ≤ now
    → In (floor_hour t.exchange_ts) (open_hours m t.instrument_id now)
unfolding open_hours
open_hours-In m now t s n native missing closed =
    let i = t.instrument_id in
    let stamps = tick_stamps i m.ticks ++ book_stamps i m.books in
    let stamp_In : In t.exchange_ts stamps =
      In-append_left t.exchange_ts (tick_stamps i m.ticks) (book_stamps i m.books) (
        In-map (λ (x : Tick). x.exchange_ts) t _
          (filter_by-In (λ (x : Tick). x.instrument_id == i) t m.ticks n ((==_iff i i).1 refl))) in
    let first = first_stamp-le t.exchange_ts stamps stamp_In in
    rw (first.1) (
      hours_between-In (resumed (floor_hour first.0) (last_hour i m.rollups)) (hour + rollup_grace)
        now (floor_hour t.exchange_ts)
        (resumed-IsHour (floor_hour first.0) (last_hour i m.rollups)
          (λ h e. last_hour-IsHour i m.rollups h s.whole e) (omega arith))
        (record {
          aligned = omega arith;
          not_before =
              resumed-le (floor_hour first.0) (floor_hour t.exchange_ts) (last_hour i m.rollups)
                (λ h e. last_hour-IsHour i m.rollups h s.whole e) (omega arith)
                (omega (arith, first.2)) (is_late-is_past m t s n native missing);
          not_after = omega arith;
        }))
