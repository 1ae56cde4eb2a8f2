-- ===== src/Storage/Prune.antt =====
-- scripts/prune.py: old ticks and books are deleted in batches, instrument by instrument, after the closed hours
-- were rolled up. A `while` that deletes batches takes fuel, the number of the rows and one more; `none` is fuel
-- that ran out. Commits and checkpoints are left out.
pub mod Batches
pub mod Seeks
pub mod Kept
pub mod Settled
pub mod Nightly
use perpbot.Base.{
  ℕ, zero, suc, ◌+◌, ◌-◌, ◌*◌, Bool, true, false, not, ◌&&◌, Option, none, some, List, [], ◌∷◌,
  if◌then◌else◌, ltb, ◌==◌, length, filter_by, map,
}
use perpbot.Exchange.{Tick, BookSnapshot}
use perpbot.Execution.LiveBars.{hour}
use perpbot.Execution.Types.{Time}
use perpbot.Storage.Market.{Market}
use perpbot.Storage.Rollup.Writer.{distinct, rollup_hours}

-- `DELETE ... WHERE rowid IN (SELECT rowid ... LIMIT ?)`: the number of rows deleted, and those that stay
unfoldable pub delete_batch : {A : Type 0} → (A → Bool) → ℕ → List A → ℕ × List A
delete_batch old batch [] = (0, [])
delete_batch old zero (r ∷ rs) = (0, r ∷ rs)
delete_batch old (suc n) (r ∷ rs) = elim (old r) [
  | true ↦ let (k, rest) = delete_batch old n rs in (suc k, rest)
  | false ↦ let (k, rest) = delete_batch old (suc n) rs in (k, r ∷ rest)
]

abbrev pub add_count : {A : Type 0} → ℕ → Option (ℕ × A) → Option (ℕ × A)
add_count n none = none
add_count n (some (k, a)) = some (n + k, a)

unfoldable pub delete_all : {A : Type 0} → ℕ → (A → Bool) → ℕ → List A → Option (ℕ × List A)
delete_all zero old batch rows = none
delete_all (suc fuel) old batch rows =
    let (n, rest) = delete_batch old batch rows in
    let more = add_count n (delete_all fuel old batch rest) in
    if n == 0 then some (0, rest) else more

module _ {A : Type 0} (id_of : A → ℕ) (stamp : A → Time) (cutoff : Time) where
  abbrev pub is_old : ℕ → A → Bool
  is_old i r = id_of r == i && ltb (stamp r) cutoff

module _ {A : Type 0} (id_of : A → ℕ) (stamp : A → Time) (cutoff : Time) (batch : ℕ) where
  unfoldable pub prune_ids : List ℕ → List A → Option (ℕ × List A)
  prune_ids [] rows = some (0, rows)
  prune_ids (i ∷ is) rows =
      elim (delete_all (suc (length rows)) (is_old id_of stamp cutoff i) batch rows) [
        | none ↦ none
        | some (n, rest) ↦ add_count n (prune_ids is rest)
      ]

  unfoldable pub prune_table : List A → Option (ℕ × List A)
  prune_table rows = prune_ids (distinct (map id_of rows)) rows

abbrev pub tick_id : Tick → ℕ
tick_id t = t.instrument_id

abbrev pub tick_stamp : Tick → Time
tick_stamp t = t.exchange_ts

abbrev pub book_id : BookSnapshot → ℕ
book_id b = b.instrument_id

abbrev pub book_stamp : BookSnapshot → Time
book_stamp b = b.exchange_ts

-- `prune`, with the rows deleted from each table
unfoldable pub prune_books : Time → ℕ → ℕ → Market → Option (ℕ × ℕ × Market)
prune_books cutoff batch n m = elim (prune_table book_id book_stamp cutoff batch m.books) [
  | none ↦ none
  | some (k, books) ↦ some (n, k, record m { books = books })
]

unfoldable pub prune : Time → ℕ → Market → Option (ℕ × ℕ × Market)
prune cutoff batch m = elim (prune_table tick_id tick_stamp cutoff batch m.ticks) [
  | none ↦ none
  | some (n, ticks) ↦ prune_books cutoff batch n (record m { ticks = ticks })
]

abbrev pub day : Time
day = 24 * hour

-- `run`: roll up, then prune what is older than so many days, in batches of 5,000
unfoldable pub run_prune : Time → ℕ → Market → Option (ℕ × ℕ × ℕ × Market)
run_prune now days m =
    let (rolled, m') = rollup_hours now m in
    elim (prune (now - days * day) 5_000 m') [
      | none ↦ none
      | some (ticks_deleted, books_deleted, m'') ↦ some (rolled, ticks_deleted, books_deleted, m'')
    ]
