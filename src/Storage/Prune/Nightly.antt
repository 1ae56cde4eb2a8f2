-- ===== src/Storage/Prune/Nightly.antt =====
-- One run of scripts/prune.py: the rollup, then the deletion of what is older than so many days.
use perpbot.Base.{ℕ, zero, suc, ◌+◌, ◌-◌, ◌*◌, ◌≤◌, ◌<◌, ◌≡◌, sym, ◌∙◌, some, arith}
use perpbot.Base.Dict.{lookup, nat_key}
use perpbot.Execution.LiveBars.{hour}
use perpbot.Execution.Types.{Time}
use perpbot.Storage.Market.{Market}
use perpbot.Storage.Prune.{run_prune, day, tick_id, tick_stamp, book_id, book_stamp}
use perpbot.Storage.Prune.Batches.{prune_lem, pruned, is_before, count}
use perpbot.Storage.Prune.Kept.{index_at-after}
use perpbot.Storage.Prune.Settled.{after_prune-IsSettled}
use perpbot.Storage.Rollup.{query_last_index_by_hour}
use perpbot.Storage.Rollup.Hours.{IsHour}
use perpbot.Storage.Rollup.Reads.{IsInside, lookup-query_last_index_by_hour}
use perpbot.Storage.Rollup.Rows.{IsSettled}
use perpbot.Storage.Rollup.Writer.{rollup_hours, rollup_grace}

cutoff_early : (now days h : ℕ) → 0 < days → now < h + hour + rollup_grace → now - days * day ≤ h
cutoff_early now zero h d o = absurd (omega arith)
cutoff_early now (suc n) h d o = grind arith

-- run_prune ends on every settled market with at least one day kept and leaves a settled one, and the hourly reader
-- of the index answers on the pruned database as it did before, for every whole hour of a window that starts with
-- an hour.
pub run_prune-query :
    (now : Time) (days : ℕ) (m : Market) (i : ℕ) (start end h : Time)
    → IsSettled m
    → 0 < days
    → IsHour start
    → IsHour h
    → IsInside start end h
    → (n k l : ℕ) × (m' : Market) × (run_prune now days m ≡ some (n, k, l, m'))
      × IsSettled m'
      × (lookup h (query_last_index_by_hour i start end m')
          ≡ lookup h (query_last_index_by_hour i start end m))
unfolding run_prune
run_prune-query now days m i start end h s d a b w =
    let m' = (rollup_hours now m).1 in
    let cutoff = now - days * day in
    (
      (rollup_hours now m).0,
      count (is_before tick_id tick_stamp cutoff) m'.ticks,
      count (is_before book_id book_stamp cutoff) m'.books,
      pruned cutoff m',
      ground (arith, prune_lem cutoff 5_000 m' (omega arith)),
      after_prune-IsSettled m now s cutoff,
      lookup-query_last_index_by_hour i start end h (pruned cutoff m') a b w
          ∙ index_at-after m now s i h cutoff b (λ o. cutoff_early now days h d o)
          ∙ sym (lookup-query_last_index_by_hour i start end h m a b w),
    )
