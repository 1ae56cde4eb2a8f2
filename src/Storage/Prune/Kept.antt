-- ===== src/Storage/Prune/Kept.antt =====
-- The reader of the hourly index answers after scripts/prune.py as it did before.
use perpbot.Base.{
  ℕ, ◌+◌, ◌-◌, ◌≤◌, ◌<◌, ◌≡◌, refl, ap₂, subst, sym, ◌∙◌, true, none, some, List, [], ◌∷◌, leb,
  leb→le, ◌⊎◌, inl, inr, In, All, arith, or_some, Bool-cases, Option-cases,
}
use perpbot.Base.Dict.{nat_key}
use perpbot.Decimal.{Decimal}
use perpbot.Exchange.{Tick, is_native}
use perpbot.Execution.LiveBars.{hour, floor_hour}
use perpbot.Execution.Types.{Time}
use perpbot.Storage.Market.{Market, Rollup}
use perpbot.Storage.Prune.Seeks.{
  hour_tick, hour_index-pruned, hour_index-none, stored_id, filled_row, row-is_row, past_row,
  IsHour-floor_hour,
}
use perpbot.Storage.Prune.Batches.{pruned}
use perpbot.Storage.Rollup.{is_native_tick, index_column}
use perpbot.Storage.Rollup.Hours.{IsHour}
use perpbot.Storage.Rollup.Inserted.{
  HasValue, insert_rollups-some, insert_rollups-none, insert_rollups_new,
}
use perpbot.Storage.Rollup.Reads.{rolled, hour_index, index_at}
use perpbot.Storage.Rollup.Rows.{
  IsSettled, HasIndex, row-is_past, is_late-is_past, new_rows-HasIndex, new_rows-In, rows_at-In,
  open_hours-In,
}
use perpbot.Storage.Rollup.Writer.{
  rollup_row, open_hours, stored_ids, new_rows, insert_rollups, rollup_hours, rollup_grace,
}

module _ (m : Market) (now : Time) (s : IsSettled m) where
  abbrev pub rolled_up : List Rollup
  rolled_up = insert_rollups (new_rows m now (stored_ids m)) m.rollups

  HasIndex-HasValue :
      (i : ℕ) (h : Time) (rows : List Rollup)
      → All (HasIndex m) rows
      → All (HasValue index_column i h (index_at i h m)) rows
  HasIndex-HasValue i h [] all = tt
  HasIndex-HasValue i h (r ∷ rs) all = (
    λ e.
        let same_id : r.instrument_id ≡ i = ground arith in
        let same_hour : r.hour_ts ≡ h = ground arith in
        all.0 ∙ ap₂ (λ (j k : ℕ). index_at j k m) same_id same_hour,
    HasIndex-HasValue i h rs all.1,
  )

  new_values :
      (i : ℕ) (h : Time)
      → All (HasValue index_column i h (index_at i h m)) (new_rows m now (stored_ids m))
  new_values i h = HasIndex-HasValue i h _ (new_rows-HasIndex m now (stored_ids m) s)

  -- The hour of a tick that came in time has its value once it is closed.
  tick_rolled :
      (t : Tick) (v : Decimal)
      → In t m.ticks
      → is_native t.source_type ≡ true
      → rolled index_column t.instrument_id (floor_hour t.exchange_ts) m.rollups ≡ none
      → index_at t.instrument_id (floor_hour t.exchange_ts) m ≡ some v
      → floor_hour t.exchange_ts + hour + rollup_grace ≤ now
      → rolled index_column t.instrument_id (floor_hour t.exchange_ts) rolled_up ≡ some v
  tick_rolled t v n native missing value closed =
      let i = t.instrument_id in
      let h = floor_hour t.exchange_ts in
      let row = rollup_row m i h in
      insert_rollups_new index_column i h v (new_rows m now (stored_ids m)) m.rollups row
        (rw value at (new_values i h))
        (λ e.
          absurd
            (past_row i h (row-is_past i h m.rollups e) (is_late-is_past m t s n native missing)))
        (new_rows-In m now i row (stored_ids m) (stored_id m t n) (
          rows_at-In m i h (open_hours m i now)
            (filled_row m i h v (IsHour-floor_hour t.exchange_ts) value)
            (open_hours-In m now t s n native missing closed)))
        (row-is_row m i h)

  -- What is known of an hour after the rollup: it has the value that the reader gave, or none, and then the
  -- reader gave none or the hour is still open.
  abbrev pub Covered : ℕ → Time → Type 0
  Covered i h =
      ((v : Decimal) × (rolled index_column i h rolled_up ≡ some v) × (index_at i h m ≡ some v))
      ⊎ ((rolled index_column i h rolled_up ≡ none)
          × (rolled index_column i h m.rollups ≡ none)
          × ((hour_index i h m.ticks ≡ none) ⊎ (now < h + hour + rollup_grace)))

  ticked_Covered :
      (t : Tick) (v : Decimal)
      → In t m.ticks
      → is_native t.source_type ≡ true
      → rolled index_column t.instrument_id (floor_hour t.exchange_ts) m.rollups ≡ none
      → hour_index t.instrument_id (floor_hour t.exchange_ts) m.ticks ≡ some v
      → Covered t.instrument_id (floor_hour t.exchange_ts)
  ticked_Covered t v n native missing e =
      let i = t.instrument_id in
      let h = floor_hour t.exchange_ts in
      let value : index_at i h m ≡ some v = rw missing e in
      elim (Bool-cases (leb (h + hour + rollup_grace) now)) [
        | inl closed ↦ inl (v, tick_rolled t v n native missing value (leb→le _ _ closed), value)
        | inr closed ↦
            elim (insert_rollups-none index_column i h (index_at i h m)
              (new_rows m now (stored_ids m)) m.rollups (new_values i h) (inl missing)) [
                | inl none_yet ↦ inr (none_yet, missing, inr (ground arith))
                | inr same ↦ inl (v, same ∙ value, value)
              ]
      ]

  ticked :
      (i : ℕ) (h : Time) (v : Decimal)
      → IsHour h
      → rolled index_column i h m.rollups ≡ none
      → hour_index i h m.ticks ≡ some v
      → (t : Tick) × In t m.ticks × (is_native_tick i h (h + hour - 1) t ≡ true)
      → Covered i h
  ticked i h v a missing e (t, n, x) =
      let same_id : t.instrument_id ≡ i = ground arith in
      let same_hour : floor_hour t.exchange_ts ≡ h = ground arith in
      let native : is_native t.source_type ≡ true = ground arith in
      subst (λ (j : ℕ). Covered j h) same_id
        (subst (λ (k : ℕ). Covered t.instrument_id k) same_hour
          (ticked_Covered t v n native
            (ap₂ (λ (j k : ℕ). rolled index_column j k m.rollups) same_id same_hour ∙ missing)
            (ap₂ (λ (j k : ℕ). hour_index j k m.ticks) same_id same_hour ∙ e)))

  pub covered : (i : ℕ) (h : Time) → IsHour h → Covered i h
  covered i h a = elim (Option-cases (rolled index_column i h m.rollups)) [
    | inr p ↦ inl (
      p.0,
      insert_rollups-some index_column i h (new_rows m now (stored_ids m)) m.rollups p.0 p.1,
      rw (p.1) refl,
    )
    | inl missing ↦ elim (Option-cases (hour_index i h m.ticks)) [
      | inl empty ↦ inr (
        elim (insert_rollups-none index_column i h (index_at i h m) (new_rows m now (stored_ids m))
            m.rollups (new_values i h) (inl missing)) [
              | inl none_yet ↦ none_yet
              | inr same ↦ same ∙ ap₂ or_some missing empty
            ],
        missing,
        inl empty,
      )
      | inr p ↦ ticked i h p.0 a missing p.1 (hour_tick i h m.ticks p.0 p.1)
    ]
  ]

  abbrev pub after_prune : (cutoff : Time) → Market
  after_prune cutoff = pruned cutoff (rollup_hours now m).1

  pub index_at-after :
      (i : ℕ) (h cutoff : Time)
      → IsHour h
      → (now < h + hour + rollup_grace → cutoff ≤ h)
      → index_at i h (after_prune cutoff) ≡ index_at i h m
  unfolding rollup_hours
  index_at-after i h cutoff a old = elim (covered i h a) [
    | inl (v, rolled_value, value) ↦ rw rolled_value (sym value)
    | inr (empty, missing, inl no_tick) ↦
        ap₂ or_some (empty ∙ sym missing) (hour_index-none i h cutoff m no_tick ∙ sym no_tick)
    | inr (empty, missing, inr still_open) ↦
        ap₂ or_some (empty ∙ sym missing) (hour_index-pruned i h cutoff m (old still_open))
  ]
