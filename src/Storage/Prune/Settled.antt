-- ===== src/Storage/Prune/Settled.antt =====
-- After scripts/prune.py the market is settled again, so that its runs can follow one another.
use perpbot.Base.{
  ◌+◌, ◌-◌, ◌<◌, ◌≡◌, refl, subst, Bool, true, false, not, ◌&&◌, Option, none, some, is_some, List,
  In-All, any-false, inl, inr, In, arith, Bool-cases, In-filter_by, filter_by-In,
}
use perpbot.Decimal.{Decimal}
use perpbot.Exchange.{Tick, is_native}
use perpbot.Execution.LiveBars.{hour, floor_hour}
use perpbot.Execution.Types.{Time}
use perpbot.Storage.Market.{Market, Rollup}
use perpbot.Storage.Rollup.Done.{
  IsDoneRow, new_rows-IsDone, insert_rollups-In, newest-In, In-is_past, insert_rollups-All,
  All-of_done,
}
use perpbot.Storage.Prune.{tick_id, tick_stamp}
use perpbot.Storage.Prune.Batches.{is_before}
use perpbot.Storage.Prune.Kept.{rolled_up, covered, after_prune}
use perpbot.Storage.Prune.Seeks.{no_rows, past_row, IsHour-floor_hour}
use perpbot.Storage.Rollup.Reads.{rolled, hour_index}
use perpbot.Storage.Rollup.Hours.{IsHour}
use perpbot.Storage.Rollup.Rows.{IsSettled, is_past, is_late, is_late-is_past}
use perpbot.Storage.Rollup.Writer.{last_hour, stored_ids, new_rows, rollup_hours, rollup_grace}
use perpbot.Storage.Rollup.{index_column, is_native_tick, newest_tick}

late_bit :
    (native past : Bool) (o : Option Decimal)
    → (native ≡ true → o ≡ none → past ≡ false)
    → (native && (past && not (is_some o))) ≡ false
late_bit false past o h = refl
late_bit true past none h = rw (h refl refl) refl
late_bit true true (some v) h = refl
late_bit true false (some v) h = refl

module _ (m : Market) (now : Time) (s : IsSettled m) where
  -- The rollup has not passed the hour of a tick without a value for it.
  not_past :
      (t : Tick)
      → In t m.ticks
      → is_native t.source_type ≡ true
      → let i = t.instrument_id in
        let h = floor_hour t.exchange_ts in
        rolled index_column i h m.rollups ≡ none
        → now < h + hour + rollup_grace
        → is_past h (last_hour i (rolled_up m now s)) ≡ false
  not_past t n native missing still_open =
      let i = t.instrument_id in
      let h = floor_hour t.exchange_ts in
      elim (Bool-cases (is_past h (last_hour i (rolled_up m now s)))) [
        | inr e ↦ e
        | inl e ↦
            let (r, in_rows, same, le) = newest-In i h (rolled_up m now s) e in
            elim (insert_rollups-In r (new_rows m now (stored_ids m)) m.rollups in_rows) [
              | inl new ↦
                  let done =
                    In-All (IsDoneRow now) r _ (new_rows-IsDone m now (stored_ids m) s) new in
                  absurd (omega (arith, done.1, le))
              | inr old ↦ absurd (
                  past_row i h (In-is_past i h r m.rollups old same le)
                    (is_late-is_past m t s n native missing))
            ]
      ]

  -- The reader finds a tick that is there.
  has_index :
      (t : Tick)
      → In t m.ticks
      → is_native t.source_type ≡ true
      → hour_index t.instrument_id (floor_hour t.exchange_ts) m.ticks ≡ none
      → ⊥
  unfolding newest_tick
  has_index t n native e =
      let i = t.instrument_id in
      let h = floor_hour t.exchange_ts in
      let found : is_native_tick i h (h + hour - 1) t ≡ true = ground arith in
      absurd (
        subst (λ (ts : List Tick). In t ts) (no_rows _ e)
          (filter_by-In (is_native_tick i h (h + hour - 1)) t m.ticks n found))

  not_late :
      (t : Tick) → In t m.ticks → (cutoff : Time) → is_late (after_prune m now s cutoff) t ≡ false
  unfolding rollup_hours
  not_late t n cutoff =
      late_bit (is_native t.source_type)
        (is_past (floor_hour t.exchange_ts) (last_hour t.instrument_id (rolled_up m now s)))
        (rolled index_column t.instrument_id (floor_hour t.exchange_ts) (rolled_up m now s))
        (λ native none_yet.
          elim (covered m now s t.instrument_id (floor_hour t.exchange_ts)
            (IsHour-floor_hour t.exchange_ts)) [
              | inl (v, value, at) ↦ absurd (cc (none_yet, value))
              | inr (empty, missing, inl no_tick) ↦ absurd (has_index t n native no_tick)
              | inr (empty, missing, inr still_open) ↦ not_past t n native missing still_open
            ])

  pub after_prune-IsSettled : (cutoff : Time) → IsSettled (after_prune m now s cutoff)
  unfolding rollup_hours
  after_prune-IsSettled cutoff = record {
    whole =
        insert_rollups-All (λ (r : Rollup). IsHour r.hour_ts) (new_rows m now (stored_ids m))
          m.rollups (All-of_done now _ (new_rows-IsDone m now (stored_ids m) s)) s.whole;
    in_time =
        any-false (is_late (after_prune m now s cutoff)) (after_prune m now s cutoff).ticks (λ t n.
          not_late t
            (In-filter_by (λ (a : Tick). not (is_before tick_id tick_stamp cutoff a)) t m.ticks n).0
            cutoff);
  }
