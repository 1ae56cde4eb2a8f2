-- ===== src/Storage/Rollup/Done.antt =====
-- The rows that rollup_hours inserts are of whole hours that are closed; the rows after it are those and the ones
-- from before.
use perpbot.Base.{
  ℕ, ◌+◌, ◌≤◌, ◌≡◌, refl, ap, subst, sym, ◌∙◌, true, Option, none, some, List, [], ◌∷◌, ◌++◌, ◌==◌,
  ==_iff, leb, any, ◌⊎◌, inl, inr, In, All, All-append, arith, Bool-cases, Option-cases,
}
use perpbot.Execution.LiveBars.{hour, floor_hour}
use perpbot.Execution.Types.{Time}
use perpbot.Storage.Market.{Market, Rollup}
use perpbot.Storage.Rollup.Hours.{IsHour, IsLooped, hours_between, hours_between-IsLooped}
use perpbot.Storage.Rollup.Rows.{IsSettled, is_past, resumed-IsHour, last_hour-IsHour}
use perpbot.Storage.Rollup.Writer.{
  rollup_row, is_filled, rows_at, last_hour, resumed, hours_from, open_hours, new_rows,
  insert_rollup, insert_rollups, same_rollup, rollup_grace,
}

-- A whole hour that is closed.
abbrev pub IsDone : Time → Time → Type 0
IsDone now h = IsHour h × (h + (hour + rollup_grace) ≤ now)

abbrev pub IsDoneRow : Time → Rollup → Type 0
IsDoneRow now r = IsDone now r.hour_ts

hours_from-IsDone :
    (first last : Option Time) (now : Time)
    → ((h : Time) → last ≡ some h → IsHour h)
    → All (IsDone now) (hours_from first last now)
hours_from-IsDone none last now all = tt
hours_from-IsDone (some first) last now all =
    looped (hours_between (resumed (floor_hour first) last) (hour + rollup_grace) now) (
      hours_between-IsLooped _ (hour + rollup_grace) now
        (resumed-IsHour (floor_hour first) last all (omega arith)))
  where
    looped :
        (hs : List Time)
        → All (IsLooped (resumed (floor_hour first) last) (hour + rollup_grace) now) hs
        → All (IsDone now) hs
    looped [] l = tt
    looped (h ∷ hs) l = ((l.0.aligned, l.0.not_after), looped hs l.1)

rows_at-IsDone :
    (m : Market) (i : ℕ) (now : Time) (hs : List Time)
    → All (IsDone now) hs
    → All (IsDoneRow now) (rows_at m i hs)
unfolding rows_at rollup_row
rows_at-IsDone m i now [] all = tt
rows_at-IsDone m i now (h ∷ hs) all = elim (Bool-cases (is_filled (rollup_row m i h))) [
  | inl e ↦ rw (e, All) (all.0, rows_at-IsDone m i now hs all.1)
  | inr e ↦ rw (e, All) (rows_at-IsDone m i now hs all.1)
]

pub new_rows-IsDone :
    (m : Market) (now : Time) (is : List ℕ) → IsSettled m → All (IsDoneRow now) (new_rows m now is)
unfolding new_rows open_hours
new_rows-IsDone m now [] s = tt
new_rows-IsDone m now (i ∷ is) s =
    All-append (IsDoneRow now) (rows_at m i _) (new_rows m now is)
      (rows_at-IsDone m i now _
        (hours_from-IsDone _ _ now (λ h e. last_hour-IsHour i m.rollups h s.whole e)))
      (new_rows-IsDone m now is s)

In-snoc : (r a : Rollup) (rows : List Rollup) → In r (rows ++ (a ∷ [])) → In r rows ⊎ (r ≡ a)
In-snoc r a [] (inl e) = inr e
In-snoc r a [] (inr n) = absurd n
In-snoc r a (x ∷ xs) (inl e) = inl (inl e)
In-snoc r a (x ∷ xs) (inr n) = elim (In-snoc r a xs n) [ inl k ↦ inl (inr k) | inr e ↦ inr e ]

-- A row after the inserts is a new one or one that was there.
pub insert_rollups-In :
    (r : Rollup) (new rows : List Rollup) → In r (insert_rollups new rows) → In r new ⊎ In r rows
unfolding insert_rollups
insert_rollups-In r [] rows n = inr n
insert_rollups-In r (a ∷ new) rows n = elim (insert_rollups-In r new (insert_rollup a rows) n) [
  | inl m ↦ inl (inr m)
  | inr m ↦ elim (Bool-cases (any (same_rollup a) rows)) [
    | inl there ↦ inr (rw there at m)
    | inr fresh ↦ elim (In-snoc r a rows (rw fresh at m)) [ inl k ↦ inr k | inr e ↦ inl (inl e) ]
  ]
]

pub newest-In :
    (i : ℕ) (h : Time) (rows : List Rollup)
    → is_past h (last_hour i rows) ≡ true
    → (r : Rollup) × In r rows × (r.instrument_id ≡ i) × (h ≤ r.hour_ts)
unfolding last_hour
newest-In i h [] e = cc
newest-In i h (r ∷ rs) e = elim (Bool-cases (r.instrument_id == i)) [
  | inr other ↦ let ih = newest-In i h rs (rw other at e) in (ih.0, inr ih.1, ih.2, ih.3)
  | inl same ↦ elim (Option-cases (last_hour i rs)) [
    | inl p ↦ (
      r,
      inl refl,
      (==_iff r.instrument_id i).0 same,
      (let e' = rw (same, p) at e in ground arith),
    )
    | inr (k, p) ↦ elim (Bool-cases (leb h r.hour_ts)) [
      | inl le ↦ (r, inl refl, (==_iff r.instrument_id i).0 same, ground arith)
      | inr gt ↦
          let e' = rw (same, p) at e in
          let ih = newest-In i h rs (rw p (ground arith)) in (ih.0, inr ih.1, ih.2, ih.3)
    ]
  ]
]

pub In-is_past :
    (i : ℕ) (h : Time) (r : Rollup) (rows : List Rollup)
    → In r rows
    → r.instrument_id ≡ i
    → h ≤ r.hour_ts
    → is_past h (last_hour i rows) ≡ true
unfolding last_hour
In-is_past i h r [] n same le = absurd n
In-is_past i h r (x ∷ xs) (inl e) same le =
    let same_id : x.instrument_id ≡ i = ap (λ (y : Rollup). y.instrument_id) (sym e) ∙ same in
    let le' : h ≤ x.hour_ts = subst (λ (y : Rollup). h ≤ y.hour_ts) e le in ground arith
In-is_past i h r (x ∷ xs) (inr n) same le = ground (arith, In-is_past i h r xs n same le)

pub insert_rollups-All :
    (P : Rollup → Type 0) (new rows : List Rollup)
    → All P new
    → All P rows
    → All P (insert_rollups new rows)
unfolding insert_rollups
insert_rollups-All P [] rows n o = o
insert_rollups-All P (a ∷ new) rows n o = elim (Bool-cases (any (same_rollup a) rows)) [
  | inl there ↦ rw there (insert_rollups-All P new rows n.1 o)
  | inr fresh ↦
      rw fresh
        (insert_rollups-All P new (rows ++ (a ∷ [])) n.1 (All-append P rows (a ∷ []) o (n.0, tt)))
]

pub All-of_done :
    (now : Time) (rows : List Rollup)
    → All (IsDoneRow now) rows
    → All (λ (r : Rollup). IsHour r.hour_ts) rows
All-of_done now [] d = tt
All-of_done now (r ∷ rs) d = (d.0.0, All-of_done now rs d.1)
