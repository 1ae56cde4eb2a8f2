-- ===== src/Trader.antt =====
-- scripts/run_trader.py: who owns a run id, the executor that a run starts with, and the history that it is seeded
-- with. The stored accounts are values instead of JSON; opening the venue's account (the constructor behind the
-- gate) and its snapshot are arguments. What an exit prints, logging and the clients' closing are left out.
pub mod Turns
pub mod Restarted
pub mod Seeded
use perpbot.Base.{
  ℕ, ◌+◌, ◌-◌, ◌*◌, Bool, true, false, not, ◌&&◌, ◌||◌, Option, none, some, is_some, List, [], ◌∷◌,
  ◌++◌, if◌then◌else◌, ltb, leb, ◌==◌, any, filter_by, length,
}
use perpbot.Base.Dict.{Dict, lookup, insert, nat_key, text_key}
use perpbot.Decimal.{Decimal}
use perpbot.Exchange.{SourceType}
use perpbot.Execution.LiveBars.{Builder, hour, floor_hour, seed}
use perpbot.Execution.Router.Rows.{is_zero, is_long}
use perpbot.Execution.Types.{AccountSnapshot, Bar, Text, Time}
use perpbot.Execution.World.{Result, ok, err, Strategy, Router}
use perpbot.Backtest.Bars.{build_bars}
use perpbot.Gates.{GateDecision}
use perpbot.Storage.Market.{Market}

-- `--executor`, and the executors' names
pub data ExecutorName : Type 0 where
  sim shadow live : ExecutorName

abbrev pub same_name : ExecutorName → ExecutorName → Bool
same_name sim sim = true
same_name shadow shadow = true
same_name live live = true
same_name _ _ = false

-- A row of `account_snapshots`.
pub record Saved : Type 0 where
  pub snapshot : AccountSnapshot
  pub start_equity : Decimal
  pub executor : ExecutorName

-- The stored accounts: `account_snapshots`, and the paper accounts of `sim_account` with their start equity.
pub record Accounts (A : Type 0) : Type 0 where
  pub snapshots : Dict Text Saved
  pub sims : Dict Text (A × Decimal)

-- `save_account_snapshot`
unfoldable pub save_account_snapshot :
    {A : Type 0} → Text → AccountSnapshot → Decimal → ExecutorName → Accounts A → Accounts A
save_account_snapshot run_id snap start_equity name db =
    let row : Saved = record { snapshot = snap; start_equity = start_equity; executor = name } in
    record db { snapshots = insert run_id row db.snapshots }

abbrev pub owner_of : {A : Type 0} → Option Saved → Option (A × Decimal) → Option ExecutorName
owner_of (some row) _ = some row.executor
owner_of none (some _) = some sim
owner_of none none = none

abbrev pub differs : Option ExecutorName → ExecutorName → Bool
differs none name = false
differs (some owner) name = not (same_name owner name)

-- `refuse_foreign_run_id`: true is an exit
unfoldable pub is_foreign : {A : Type 0} → Text → ExecutorName → Accounts A → Bool
is_foreign run_id name db =
    differs (owner_of (lookup run_id db.snapshots) (lookup run_id db.sims)) name

-- How build_executor ends: an exit, a closed gate, a snapshot that raises, or an executor with the equity that
-- its loss limit starts from.
pub data Started (A E : Type 0) : Type 0 where
  foreign_run gate_closed snapshot_failed : Started A E
  paper_account : A → Decimal → Started A E
  venue_account : E → Decimal → Started A E

abbrev pub paper_start : {A E : Type 0} → Option (A × Decimal) → A → Decimal → Started A E
paper_start none fresh equity = paper_account fresh equity
paper_start (some (a, start_equity)) fresh equity = paper_account a start_equity

module _ {A E : Type 0} (take_snapshot : E → Result AccountSnapshot × E) where
  -- The first snapshot of a run gives the baseline, and is saved at once.
  abbrev pub first_snapshot :
      Text → ExecutorName → Result AccountSnapshot × E → Accounts A → Started A E × Accounts A
  first_snapshot run_id name (ok snap, e) db =
      (venue_account e snap.equity, save_account_snapshot run_id snap snap.equity name db)
  first_snapshot run_id name (err x, e) db = (snapshot_failed, db)

  abbrev pub with_baseline :
      Text → ExecutorName → E → Option Saved → Accounts A → Started A E × Accounts A
  with_baseline run_id name e (some row) db = (venue_account e row.start_equity, db)
  with_baseline run_id name e none db = first_snapshot run_id name (take_snapshot e) db

  abbrev pub venue_start : Text → ExecutorName → Option E → Accounts A → Started A E × Accounts A
  venue_start run_id name none db = (gate_closed, db)
  venue_start run_id name (some e) db = with_baseline run_id name e (lookup run_id db.snapshots) db

  -- `build_executor`, with the fresh paper account of an equity, and the venue's executor where the constructor
  -- lets it open
  unfoldable pub build_executor :
      ExecutorName
      → Text
      → (fresh : A) (equity : Decimal) → Option E
      → Accounts A
      → Started A E × Accounts A
  build_executor name run_id fresh equity opened db =
      if is_foreign run_id name db then (foreign_run, db) else elim name [
        | sim ↦ (paper_start (lookup run_id db.sims) fresh equity, db)
        | shadow ↦ venue_start run_id shadow opened db
        | live ↦ venue_start run_id live opened db
      ]

-- The checks of `main` before the wallet key is loaded: true is an exit.
abbrev pub any_closed : List ℕ → (ℕ → GateDecision) → Bool
any_closed [] gate = false
any_closed (i ∷ is) gate = not (gate i).allowed || any_closed is gate

unfoldable pub refuses : ExecutorName → Option Text → List ℕ → (ℕ → GateDecision) → Bool
refuses sim run_id ids gate = false
refuses shadow run_id ids gate = not (is_some run_id)
refuses live run_id ids gate = not (is_some run_id) || any_closed ids gate

-- `[...][-n:]`
abbrev pub drop_bars : ℕ → List Bar → List Bar
drop_bars n [] = []
drop_bars n (b ∷ bs) = if n == 0 then b ∷ bs else drop_bars (n - 1) bs

abbrev pub last_bars : ℕ → List Bar → List Bar
last_bars n bs = drop_bars (length bs - n) bs

abbrev pub with_spread : Decimal → List Bar → List Bar
with_spread spread [] = []
with_spread spread (b ∷ bs) = record b { spread_bps = spread } ∷ with_spread spread bs

-- The bars that an instrument is seeded with: the last complete ones before the current hour.
unfoldable pub seed_bars :
    ℕ → SourceType → ℕ → (now : Time) → (spread : Decimal) → Market → List Bar
seed_bars i source n now spread m =
    let end = floor_hour now in
    last_bars n (
      with_spread spread (
        filter_by (λ (b : Bar). b.complete)
          (build_bars i source (end - n * 2 * hour) end spread m)))

-- `seed_history`, with the number of bars of each instrument
unfoldable pub seed_history :
    SourceType
    → Dict ℕ ℕ
    → (now : Time) → (spread : Decimal) → Market
    → Builder
    → Dict ℕ ℕ × Builder
seed_history source [] now spread m b = ([], b)
seed_history source ((i, n) ∷ wanted) now spread m b =
    let bars = if ltb 0 n then seed_bars i source n now spread m else [] in
    let b' = if ltb 0 n then seed i bars b else b in
    let (seeded, b'') = seed_history source wanted now spread m b' in
    ((i, length bars) ∷ seeded, b'')

-- `_recover_strategies`
unfoldable pub recover_strategies :
    {S : Type 0} ⦃y : Strategy S⦄ → List (Router S) → List (Router S)
recover_strategies [] = []
recover_strategies ⦃y⦄ (r ∷ rs) =
    (if is_zero r.size then r else record r { strategy = y.on_recover (is_long r.size) r.strategy })
    ∷ recover_strategies rs
