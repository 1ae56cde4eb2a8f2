-- ===== src/Storage/Prune/Seeks.antt =====
-- What the hourly reader seeks before and after scripts/prune.py deletes, and the row that the rollup has for it.
use perpbot.Base.{
  ℕ, ◌+◌, ◌-◌, ◌≤◌, ◌≡◌, refl, ap, ◌∙◌, Bool, true, false, not, ◌||◌, none, some, List, [], ◌∷◌,
  ◌++◌, map, filter_by, inl, In, arith, mem_ℕ, mem_ℕ_of_In, mem_ℕ-append, In-map, In-filter_by,
  filter_by_twice,
}
use perpbot.Base.Dict.{nat_key}
use perpbot.Decimal.{Decimal}
use perpbot.Exchange.{Tick, BookSnapshot}
use perpbot.Execution.LiveBars.{hour, floor_hour}
use perpbot.Execution.Types.{Time}
use perpbot.Storage.Market.{Market, Rollup, newest_row}
use perpbot.Storage.Prune.{tick_id, tick_stamp}
use perpbot.Storage.Prune.Batches.{pruned, is_before, mem_ℕ-distinct}
use perpbot.Storage.Rollup.{is_native_tick, newest_tick, index_of}
use perpbot.Storage.Rollup.Hours.{IsHour}
use perpbot.Storage.Rollup.Reads.{is_row, hour_index, index_at}
use perpbot.Storage.Rollup.Rows.{rollup_row-HasIndex}
use perpbot.Storage.Rollup.Writer.{rollup_row, is_filled, stored_ids}

-- A tick that the hour's seek finds.
pub hour_tick :
    (i : ℕ) (h : Time) (ticks : List Tick) (v : Decimal)
    → hour_index i h ticks ≡ some v
    → (t : Tick) × In t ticks × (is_native_tick i h (h + hour - 1) t ≡ true)
unfolding newest_tick
hour_tick i h ticks v e = found (filter_by (is_native_tick i h (h + hour - 1)) ticks) refl
  where
    found :
        (ts : List Tick)
        → filter_by (is_native_tick i h (h + hour - 1)) ticks ≡ ts
        → (t : Tick) × In t ticks × (is_native_tick i h (h + hour - 1) t ≡ true)
    found [] p = absurd (cc (rw p at e))
    found (t ∷ ts) p =
        let here =
          In-filter_by (is_native_tick i h (h + hour - 1)) t ticks (rw (p, In) (inl refl)) in
        (t, here.0, here.1)

-- An hour that starts at the cutoff or later has all its ticks after the deletion.
pub hour_index-pruned :
    (i : ℕ) (h cutoff : Time) (m : Market)
    → cutoff ≤ h
    → hour_index i h (pruned cutoff m).ticks ≡ hour_index i h m.ticks
unfolding newest_tick
hour_index-pruned i h cutoff m le =
    ap (λ (ts : List Tick). index_of (newest_row tick_stamp ts))
      (filter_by_twice (is_native_tick i h (h + hour - 1))
        (λ t. not (is_before tick_id tick_stamp cutoff t)) m.ticks (λ t e. ground arith))

pub empty_filter :
    (p q : Tick → Bool) (ts : List Tick) → filter_by p ts ≡ [] → filter_by p (filter_by q ts) ≡ []
empty_filter p q [] e = refl
empty_filter p q (t ∷ ts) e = ground (arith, empty_filter p q ts)

pub no_rows : (ts : List Tick) → index_of (newest_row tick_stamp ts) ≡ none → ts ≡ []
no_rows [] e = refl
no_rows (t ∷ ts) e = ground arith

-- An hour with no tick has none after the deletion.
pub hour_index-none :
    (i : ℕ) (h cutoff : Time) (m : Market)
    → hour_index i h m.ticks ≡ none
    → hour_index i h (pruned cutoff m).ticks ≡ none
unfolding newest_tick
hour_index-none i h cutoff m e =
    ap (λ (ts : List Tick). index_of (newest_row tick_stamp ts))
      (empty_filter (is_native_tick i h (h + hour - 1))
        (λ t. not (is_before tick_id tick_stamp cutoff t)) m.ticks
        (no_rows (filter_by (is_native_tick i h (h + hour - 1)) m.ticks) e))

pub stored_id : (m : Market) (t : Tick) → In t m.ticks → mem_ℕ t.instrument_id (stored_ids m) ≡ true
stored_id m t n =
    let ids = map (λ (x : Tick). x.instrument_id) m.ticks in
    let book_ids = map (λ (b : BookSnapshot). b.instrument_id) m.books in
    let found =
      mem_ℕ_of_In t.instrument_id ids (In-map (λ (x : Tick). x.instrument_id) t m.ticks n) in
    mem_ℕ-distinct t.instrument_id (ids ++ book_ids)
    ∙ mem_ℕ-append t.instrument_id ids book_ids
    ∙ ap (λ (b : Bool). b || mem_ℕ t.instrument_id book_ids) found

pub filled_by_index : (r : Rollup) (v : Decimal) → r.index_close ≡ some v → is_filled r ≡ true
filled_by_index r v e = ground arith

pub filled_row :
    (m : Market) (i : ℕ) (h : Time) (v : Decimal)
    → IsHour h
    → index_at i h m ≡ some v
    → is_filled (rollup_row m i h) ≡ true
unfolding rollup_row
filled_row m i h v a e = filled_by_index (rollup_row m i h) v (rollup_row-HasIndex m i h a ∙ e)

pub row-is_row : (m : Market) (i : ℕ) (h : Time) → is_row i h (rollup_row m i h) ≡ true
unfolding rollup_row
row-is_row m i h = ground arith

pub past_row : (i : ℕ) (h : Time) {b : Bool} → b ≡ true → b ≡ false → ⊥
past_row i h p q = cc

pub IsHour-floor_hour : (t : Time) → IsHour (floor_hour t)
IsHour-floor_hour t = omega arith
